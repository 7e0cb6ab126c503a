-- ===== src/Faults/Ticks.antt =====
-- The clock that the timer's interrupts drive.
use oronyx.Base.{
  ℕ, zero, suc, ◌+◌, ◌≡◌, ◌⊎◌, inl, inr, refl, ◌∙◌, arith, u64, update, Bool, true, false, ◌||◌,
  Option, none, some, ◌>>=◌, Bool-cases, ◌==◌, if◌then◌else◌, ◌/◌,
}
use oronyx.Machine.{Machine, get_tick, wrmsr, write_apic, apic_base}
use oronyx.Paging.Tables.{translate}
use oronyx.Faults.{timer_handler}

-- `n` interrupts of the timer, one after the other.
unfoldable pub timers : ℕ → Machine → Option Machine
unfolding timer_handler
timers zero m = some m
timers (suc n) m = do k ← timer_handler m; timers n k

-- The end-of-interrupt register of the mode that the machine is in.
abbrev pub eoi : Machine → ℕ
eoi m = if m.features.x2apic then m.msr 0x80b else m.apic 44

abbrev pub leads_to : ℕ → Option ℕ → Bool
leads_to a none = false
leads_to a (some p) = p == a

-- Whether the store to that register is one: by a model-specific register, or by a pointer that the
-- tables lead from to the register in memory.
abbrev pub acknowledges : Machine → Bool
acknowledges m =
    m.features.x2apic
    || leads_to (apic_base + 0xb0) (translate (u64 (apic_base + m.hhdm_offset + 0xb0)) m.memory)

store_if_leads :
    (o : Option ℕ) (a : ℕ) (n : Machine)
    → (do p ← o; if p == a then some n else none) ≡ (if leads_to a o then some n else none)
store_if_leads none a n = refl
store_if_leads (some p) a n = refl

-- The state behind the handler.
unfoldable pub acknowledged : Machine → Machine
unfolding wrmsr
acknowledged m =
    let n = record m { tick = u64 (m.tick + 1) } in
    if m.features.x2apic then wrmsr 0x80b 0 n else record n { apic = update n.apic (0xb0 / 4) 0 }

pub timer_handler_lem :
    (m : Machine) → timer_handler m ≡ (if acknowledges m then some (acknowledged m) else none)
unfolding timer_handler write_apic acknowledged
timer_handler_lem m = elim (Bool-cases m.features.x2apic) [
  | inl x ↦ rw x refl
  | inr x ↦ rw x (
      store_if_leads (translate (u64 (apic_base + m.hhdm_offset + 0xb0)) m.memory)
        (apic_base + 0xb0) _)
]

pub acknowledged-tick : (m : Machine) → (acknowledged m).tick ≡ u64 (m.tick + 1)
unfolding acknowledged
acknowledged-tick m = ground arith

acknowledged-eoi : (m : Machine) → eoi (acknowledged m) ≡ 0
unfolding acknowledged
acknowledged-eoi m = ground arith

acknowledged-same : (m : Machine) → acknowledges (acknowledged m) ≡ acknowledges m
unfolding acknowledged
acknowledged-same m = elim (Bool-cases m.features.x2apic) [ inl x ↦ rw x refl | inr x ↦ rw x refl ]

timers_step :
    (n : ℕ) (m : Machine) → acknowledges m ≡ true → timers (suc n) m ≡ timers n (acknowledged m)
unfolding timers
timers_step n m h = rw (timer_handler_lem m, h) refl

timers_acknowledged :
    (n : ℕ) (m : Machine)
    → acknowledges m ≡ true
    → (t : Machine) × (timers (suc n) m ≡ some t)
      × (get_tick t ≡ u64 (m.tick + suc n))
      × (eoi t ≡ 0)
unfolding timers
timers_acknowledged zero m h =
    (acknowledged m, rw (timer_handler_lem m, h) refl, acknowledged-tick m, acknowledged-eoi m)
timers_acknowledged (suc n) m h =
    let (t, run, count, done) = timers_acknowledged n (acknowledged m) (acknowledged-same m ∙ h) in
    (t, timers_step (suc n) m h ∙ run, omega (arith, count, acknowledged-tick m), done)

-- For one or more interrupts of the timer: if the store to the end-of-interrupt register of the
-- machine's mode is one, then the handlers return, `get_tick` has counted the interrupts, modulo
-- 2 ^ 64, and the last one is acknowledged in that register; otherwise, which is never so in x2APIC
-- mode, the first handler faults.
pub get_tick-timers :
    (n : ℕ) (m : Machine)
    → ((acknowledges m ≡ true)
        × ((t : Machine) × (timers (suc n) m ≡ some t)
            × (get_tick t ≡ u64 (m.tick + suc n))
            × (eoi t ≡ 0)))
      ⊎ ((acknowledges m ≡ false) × (m.features.x2apic ≡ false) × (timers (suc n) m ≡ none))
unfolding timers
get_tick-timers n m = elim (Bool-cases (acknowledges m)) [
  | inl yes_stored ↦ inl (yes_stored, timers_acknowledged n m yes_stored)
  | inr not_stored ↦
      inr (not_stored, ground (arith, not_stored), rw (timer_handler_lem m, not_stored) refl)
]
