-- ===== src/Controllers/Apic.antt =====
-- What the setup of the local APIC leaves in its local vector table.
use oronyx.Base.{ℕ, ◌+◌, ◌/◌, ◌%◌, ◌^◌, ◌≡◌, refl, Bool, true, false, bit_or}
use oronyx.Interrupts.Numbers.{irq_timer, irq_thermal, irq_perfmon, irq_lint0, irq_lint1, irq_error}
use oronyx.Interrupts.Table.{handler_at, has_handler}
use oronyx.Base.{
  ◌<◌, ◌>>=◌, arith, ap, ◌∙◌, u64, update, some, List, [], ◌∷◌, ◌&&◌, ltb, ◌==◌, if◌then◌else◌,
}
use oronyx.Machine.{Machine, CpuFeatures, apic_base, write_apic, wrmsr}
use oronyx.Paging.{State}
use oronyx.Paging.Tables.{translate}
use oronyx.Controllers.{
  start_timer, set_lvt, is_mapped, write_all, timer_writes, lvt_writes, x2apic_timer, x2apic_lvt,
}

-- The entries of the local vector table.
pub data Entry : Type 0 where
  timer thermal perfmon lint0 lint1 error : Entry

-- The register of an entry, by its offset in memory and by its number in x2APIC mode.
abbrev pub offset_of : Entry → ℕ
offset_of Entry.timer = 0x320
offset_of Entry.thermal = 0x330
offset_of Entry.perfmon = 0x340
offset_of Entry.lint0 = 0x350
offset_of Entry.lint1 = 0x360
offset_of Entry.error = 0x370

abbrev pub register_of : Entry → ℕ
register_of e = 0x800 + offset_of e / 16

-- The vector that the comments in front of the writes give to each entry.
abbrev pub vector_of : Entry → ℕ
vector_of Entry.timer = irq_timer
vector_of Entry.thermal = irq_thermal
vector_of Entry.perfmon = irq_perfmon
vector_of Entry.lint0 = irq_lint0
vector_of Entry.lint1 = irq_lint1
vector_of Entry.error = irq_error

abbrev pub is_timer : Entry → Bool
is_timer Entry.timer = true
is_timer _ = false

-- The value of a register of the table: its vector, not masked, in the timer's one-shot mode.
abbrev pub Delivers : ℕ → ℕ → Type 0
Delivers vector value = (value % 2 ^ 8 ≡ vector) × (value / 2 ^ 16 % 8 ≡ 0)

first_branch : {A : Type 0} {b : Bool} (x y : A) → b ≡ true → (if b then x else y) ≡ x
first_branch x y h = rw h refl

third_branch :
    {A : Type 0} {b c : Bool} (x y z : A)
    → b ≡ false
    → c ≡ true
    → (if b then x else if c then y else z) ≡ y
third_branch x y z h k = rw (h, k) refl

served : (e : Entry) → has_handler (handler_at (vector_of e)) ≡ is_timer e
served Entry.timer = refl
served Entry.thermal = refl
served Entry.perfmon = refl
served Entry.lint0 = refl
served Entry.lint1 = refl
served Entry.error = refl

-- The tables lead from the page at the pointer `apic` to the registers.
abbrev pub IsWired : ℕ → State → Type 0
IsWired offset s =
    (r : ℕ) → r < 0x400 → translate (u64 (apic_base + offset + r)) s ≡ some (apic_base + r)

abbrev in_page : List (ℕ × ℕ) → Bool
in_page [] = true
in_page ((reg, value) ∷ writes) = ltb reg 0x400 && in_page writes

abbrev after : List (ℕ × ℕ) → (ℕ → ℕ) → ℕ → ℕ
after [] a = a
after ((reg, value) ∷ writes) a = after writes (update a (reg / 4) value)

write_apic_lem :
    (offset reg value : ℕ) (m : Machine)
    → IsWired offset m.memory
    → reg < 0x400
    → write_apic offset reg value m ≡ some (record m { apic = update m.apic (reg / 4) value })
unfolding write_apic
write_apic_lem offset reg value m w h =
    let same : (apic_base + reg == apic_base + reg) ≡ true = ground arith in rw (w reg h, same) refl

write_all_lem :
    (offset : ℕ) (writes : List (ℕ × ℕ)) (m : Machine)
    → IsWired offset m.memory
    → in_page writes ≡ true
    → write_all offset writes m ≡ some (record m { apic = after writes m.apic })
unfolding write_all
write_all_lem offset [] m w h = refl
write_all_lem offset ((reg, value) ∷ writes) m w h =
    let n : Machine = record m { apic = update m.apic (reg / 4) value } in
    let first = write_apic_lem offset reg value m w (ground arith) in
    rw first (write_all_lem offset writes n w (ground arith))

delivers : (e : Entry) (a : ℕ → ℕ) → Delivers (vector_of e) (after lvt_writes a (offset_of e / 4))
delivers Entry.timer a = (refl, refl)
delivers Entry.thermal a = (refl, refl)
delivers Entry.perfmon a = (refl, refl)
delivers Entry.lint0 a = (refl, refl)
delivers Entry.lint1 a = (refl, refl)
delivers Entry.error a = (refl, refl)

-- Out of x2APIC mode, with the registers at the pointer, which is not null, each entry ends unmasked
-- with its own vector, the timer in one-shot mode although it was started in periodic mode; of these
-- vectors only the timer's has a handler.
pub set_lvt-memory :
    (e : Entry) (offset : ℕ) (m : Machine)
    → m.features.x2apic ≡ false
    → is_mapped offset ≡ true
    → IsWired offset m.memory
    → (a : ℕ → ℕ) × ((start_timer offset m >>= λ n. set_lvt offset n)
        ≡ some (record m { apic = a }))
      × Delivers (vector_of e) (a (offset_of e / 4))
      × (has_handler (handler_at (vector_of e)) ≡ is_timer e)
unfolding set_lvt start_timer
set_lvt-memory e offset m x mapped w =
    let n : Machine = record m { apic = after timer_writes m.apic } in
    let first : start_timer offset m ≡ some n =
      third_branch _ _ _ x mapped ∙ write_all_lem offset timer_writes m w refl in
    let second : set_lvt offset n ≡ some (record n { apic = after lvt_writes n.apic }) =
      third_branch _ _ _ x mapped ∙ write_all_lem offset lvt_writes n w refl in
    (after lvt_writes n.apic, rw first second, delivers e n.apic, served e)

-- What each entry holds at the end in x2APIC mode: the registers are numbered one too high, and the
-- last write of the table goes to the register of the performance counters.
abbrev pub x2apic_value : Entry → ℕ
x2apic_value Entry.timer = bit_or irq_timer 0x20000
x2apic_value Entry.thermal = irq_timer
x2apic_value Entry.perfmon = irq_error
x2apic_value Entry.lint0 = irq_perfmon
x2apic_value Entry.lint1 = irq_lint0
x2apic_value Entry.error = irq_lint1

x2apic_values :
    (e : Entry) (m : Machine) → (x2apic_lvt (x2apic_timer m)).msr (register_of e) ≡ x2apic_value e
unfolding x2apic_lvt x2apic_timer wrmsr
x2apic_values Entry.timer m = refl
x2apic_values Entry.thermal m = refl
x2apic_values Entry.perfmon m = refl
x2apic_values Entry.lint0 m = refl
x2apic_values Entry.lint1 m = refl
x2apic_values Entry.error m = refl

x2apic_features : (m : Machine) → (x2apic_timer m).features ≡ m.features
unfolding x2apic_timer wrmsr
x2apic_features m = refl

-- In x2APIC mode the writes return; the timer stays periodic, and no other entry ends with its own
-- vector: each of them has that of the entry before it, but the performance counters have that of the
-- errors.
pub set_lvt-x2apic :
    (e : Entry) (offset : ℕ) (m : Machine)
    → m.features.x2apic ≡ true
    → (t : Machine) × ((start_timer offset m >>= λ n. set_lvt offset n) ≡ some t)
      × (t.msr (register_of e) ≡ x2apic_value e)
unfolding set_lvt start_timer
set_lvt-x2apic e offset m x =
    let n = x2apic_timer m in
    let same : n.features.x2apic ≡ true =
      ap (λ (g : CpuFeatures). g.x2apic) (x2apic_features m) ∙ x in
    let first : start_timer offset m ≡ some n = first_branch _ _ x in
    let second : set_lvt offset n ≡ some (x2apic_lvt n) = first_branch _ _ same in
    (x2apic_lvt n, rw first second, x2apic_values e m)
