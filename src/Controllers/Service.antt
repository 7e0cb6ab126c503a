-- ===== src/Controllers/Service.antt =====
-- The 8259A pair at work, by its data sheet: which lines it lets through to the processor, and how an
-- interrupt in service ends.
use oronyx.Base.{
  ℕ, zero, suc, ◌+◌, ◌-◌, ◌/◌, ◌%◌, ◌^◌, ◌≡◌, refl, arith, update, Bool, true, false, not, ◌&&◌,
  List, [], ◌∷◌, ltb, ◌==◌, if◌then◌else◌,
}
use oronyx.Controllers.Pic.{Chip, Pair, IsReady}

-- No line from `first` on up to the `n`-th behind it is in service.
abbrev pub none_busy : ℕ → ℕ → (ℕ → Bool) → Bool
none_busy zero first busy = not (busy first)
none_busy (suc n) first busy = not (busy (first + suc n)) && none_busy n first busy

-- A chip lets line `n` through if the line is not masked and no line of its priority or a higher one
-- is in service.
abbrev pub chip_accepts : ℕ → ℕ → (ℕ → Bool) → Chip → Bool
chip_accepts n first busy c = c.expects == 0 && (c.mask / 2 ^ n % 2 == 0 && none_busy n first busy)

-- The lines 8 to 15 of the slave go through line 2 of the master.
unfoldable pub accepts : ℕ → Pair → (ℕ → Bool) → Bool
accepts n p busy =
    if ltb n 8
    then chip_accepts n 0 busy p.master
    else chip_accepts 2 0 busy p.master && chip_accepts (n - 8) 8 busy p.slave

-- Bit 1 of the fourth word: an interrupt is over once the processor has taken it.
abbrev pub ends_itself : Chip → Bool
ends_itself c = c.mode / 2 % 2 == 1

abbrev pub occupy : ℕ → Chip → (ℕ → Bool) → ℕ → Bool
occupy n c busy = if ends_itself c then busy else update busy n true

-- The lines in service once the processor has taken the interrupt of a line.
unfoldable pub serve : ℕ → Pair → (ℕ → Bool) → ℕ → Bool
serve n p busy =
    if ltb n 8 then occupy n p.master busy else occupy n p.slave (occupy 2 p.master busy)

-- The first of the lines that is in service is over.
abbrev pub clear_first : ℕ → ℕ → (ℕ → Bool) → ℕ → Bool
clear_first zero line busy = busy
clear_first (suc n) line busy =
    let rest = clear_first n (line + 1) busy in if busy line then update busy line false else rest

-- A byte for the even port with bit 5 set and the bits 3 and 4 clear ends an interrupt: with bit 6
-- that of the line in its low bits, without that of the first line in service.
abbrev pub end_of_interrupt : ℕ → ℕ → (ℕ → Bool) → ℕ → Bool
end_of_interrupt v first busy =
    if v / 2 ^ 3 % 4 == 0 && v / 2 ^ 5 % 2 == 1
    then (if v / 2 ^ 6 % 2 == 1
        then update busy (first + v % 8) false
        else clear_first 8 first busy)
    else busy

-- The lines in service after the writes of a handler.
abbrev pub acknowledge : List (ℕ × ℕ) → (ℕ → Bool) → ℕ → Bool
acknowledge [] busy = busy
acknowledge ((port, v) ∷ ws) busy = acknowledge ws (
    if port == 0x20
    then end_of_interrupt v 0 busy
    else if port == 0xa0
    then end_of_interrupt v 8 busy
    else busy)

first_blocks : (n : ℕ) (busy : ℕ → Bool) → busy 0 ≡ true → none_busy n 0 busy ≡ false
first_blocks zero busy e = rw e refl
first_blocks (suc n) busy e = ground (arith, first_blocks n busy e)

-- While line 0 is in service no line is let through.
pub accepts-busy : (n : ℕ) (p : Pair) (busy : ℕ → Bool) → busy 0 ≡ true → accepts n p busy ≡ false
unfolding accepts
accepts-busy n p busy e = ground (arith, first_blocks n busy e, first_blocks 2 busy e)

-- A ready pair with no line in service lets line 0 through, and then has it in service.
pub accepts-IsReady :
    (base : ℕ) (p : Pair) → IsReady base p.master → accepts 0 p (λ n. false) ≡ true
unfolding accepts
accepts-IsReady base p (_, expects, _, mask) = ground (arith, expects, mask)

pub serve-first : (p : Pair) (busy : ℕ → Bool) → p.master.mode ≡ 1 → serve 0 p busy 0 ≡ true
unfolding serve
serve-first p busy e = ground (arith, e)
