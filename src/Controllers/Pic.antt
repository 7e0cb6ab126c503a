-- ===== src/Controllers/Pic.antt =====
-- The 8259A pair behind the ports: a model of the chip by its data sheet, what `init_pic` makes of
-- the pair, and the handler of each of its lines.
use oronyx.Base.{ℕ, ◌*◌, ◌/◌, ◌%◌, ◌^◌, ◌≡◌, refl, Bool, List, [], ◌∷◌, ◌++◌}
use oronyx.Base.{◌==◌, if◌then◌else◌}
use mathlib.Core.List.{append_assoc}
use oronyx.Machine.{Machine}
use oronyx.Controllers.{init_pic}

-- `expects` is the initialization word that the chip waits for, 0 for none: 2, 3 or 4. `wants4`
-- and `single` are the bits of the first word, `wiring` is the third one, `mode` the fourth.
pub record Chip : Type 0 where
  pub expects : ℕ
  pub wants4 : Bool
  pub single : Bool
  pub base : ℕ
  pub wiring : ℕ
  pub mode : ℕ
  pub mask : ℕ

-- A byte for the even port: with bit 4 the first initialization word, which clears the mask.
abbrev write_command : ℕ → Chip → Chip
write_command v c =
    if v / 2 ^ 4 % 2 == 1
    then record c { expects = 2; wants4 = v % 2 == 1; single = v / 2 % 2 == 1; mask = 0; mode = 0 }
    else c

-- A byte for the odd port: the word that is expected, or else the mask.
abbrev write_data : ℕ → Chip → Chip
write_data v c =
    if c.expects == 2
    then record c {
      base = v / 8 * 8;
      expects = if c.single then (if c.wants4 then 4 else 0) else 3;
    }
    else if c.expects == 3
    then record c { wiring = v; expects = if c.wants4 then 4 else 0 }
    else if c.expects == 4
    then record c { mode = v; expects = 0 }
    else record c { mask = v }

pub record Pair : Type 0 where
  pub master : Chip
  pub slave : Chip

abbrev write_port : ℕ × ℕ → Pair → Pair
write_port (port, v) p =
    if port == 0x20
    then record p { master = write_command v p.master }
    else if port == 0x21
    then record p { master = write_data v p.master }
    else if port == 0xa0
    then record p { slave = write_command v p.slave }
    else if port == 0xa1
    then record p { slave = write_data v p.slave }
    else p

-- The pair after the writes of a machine, in order.
abbrev pub receive : List (ℕ × ℕ) → Pair → Pair
receive [] p = p
receive (w ∷ ws) p = receive ws (write_port w p)

-- The line on which the slave hangs, by the master's third word, and the slave's own number.
abbrev pub IsCascade : ℕ → Pair → Type 0
IsCascade line p = (p.master.wiring ≡ 2 ^ line) × (p.slave.wiring ≡ line)

-- A chip that takes interrupts: 8086 mode, no line masked, no initialization word missing.
abbrev pub IsReady : ℕ → Chip → Type 0
IsReady base c = (c.base ≡ base) × (c.expects ≡ 0) × (c.mode % 2 ≡ 1) × (c.mask ≡ 0)

receive-append : (v w : List (ℕ × ℕ)) (p : Pair) → receive (v ++ w) p ≡ receive w (receive v p)
receive-append [] w p = refl
receive-append (x ∷ v) w p = receive-append v w (write_port x p)

abbrev words : List (ℕ × ℕ)
words =
    (0x20, 0x11)
    ∷ (0xa0, 0x11)
    ∷ (0x21, 0x20)
    ∷ (0xa1, 0x28)
    ∷ (0x21, 0x04)
    ∷ (0xa1, 0x02)
    ∷ (0x21, 0x01)
    ∷ (0xa1, 0x01)
    ∷ []

init_pic-words : (m : Machine) → (init_pic m).ports ≡ m.ports ++ words
unfolding init_pic
init_pic-words m = simp append_assoc

words-IsReady :
    (p : Pair)
    → IsReady 32 (receive words p).master
      × IsReady 40 (receive words p).slave
      × IsCascade 2 (receive words p)
words-IsReady p = ((refl, refl, refl, refl), (refl, refl, refl, refl), (refl, refl))

-- Neither chip ends its interrupts by itself: bit 1 of the fourth word is clear.
pub init_pic-mode :
    (m : Machine) (p : Pair)
    → ((receive (init_pic m).ports p).master.mode ≡ 1)
      × ((receive (init_pic m).ports p).slave.mode ≡ 1)
init_pic-mode m p = rw (init_pic-words m, receive-append m.ports words p) (refl, refl)

-- Whatever the two chips were sent before, behind `init_pic` both take interrupts on all lines, the
-- master with the vectors from 32 on and the slave with those from 40 on, the slave on line 2.
pub init_pic-IsReady :
    (m : Machine) (p : Pair)
    → IsReady 32 (receive (init_pic m).ports p).master
      × IsReady 40 (receive (init_pic m).ports p).slave
      × IsCascade 2 (receive (init_pic m).ports p)
init_pic-IsReady m p =
    rw (init_pic-words m, receive-append m.ports words p) (words-IsReady (receive m.ports p))
