-- ===== src/Paging/Clear.antt =====
-- Walks without a page above the last level, after one write of an entry.
use oronyx.Base.{ℕ, suc, ◌<◌, ◌≡◌, ◌∙◌, true, inl, inr}
use native.Mathlib.Decide.{ℕ_discrete}
use oronyx.Paging.{State}
use oronyx.Paging.Tables.{is_present}
use oronyx.Paging.Empty.{index_of-lt}
use oronyx.Paging.Level.{shift, entry_at, index_at, leads, Reached}
use oronyx.Paging.Change.{IsSpace, IsChange, backward, same_leads, new_entry}

-- No page of a higher level is on the way of `virt`.
abbrev pub IsClear : ℕ → State → Type 0
IsClear virt s =
    (j : ℕ)
    → j < 3
    → Reached j virt s
    → is_present (entry_at j virt s) s ≡ true
    → leads j (entry_at j virt s) s ≡ true

-- A change that makes no page above the last level keeps the ways clear.
pub change-IsClear :
    (k virt : ℕ) (s s' : State)
    → IsSpace s
    → IsChange k virt s s'
    → (k < 3 → is_present (entry_at k virt s) s' ≡ true → leads k (entry_at k virt s) s' ≡ true)
    → (w : ℕ) → IsClear w s
    → IsClear w s'
change-IsClear k virt s s' p c stays w clear j h r there = elim (backward k virt s s' p c j w r) [
  | inl (old, e) ↦ elim (ℕ_discrete (entry_at j w s) (entry_at k virt s)) [
    | yes same ↦
        let (jk, _) = p.apart j k w virt old c.reached same in
        rw (e, same, jk) (stays (rw jk at h) (rw (e, same) at there))
    | no ne ↦
        let word = c.kept (entry_at j w s) (p.taken j w old) ne in
        rw e (same_leads k virt s s' p c j w old ne ∙ clear j h old (rw (e, word) at there))
  ]
  | inr (jk, shared, ld) ↦
      let gone = (c.new ld).absent (index_at (suc k) w) (index_of-lt (shift (suc k)) w) in
      absurd (cc (rw (← new_entry k virt s s' p c w shared) at gone, rw jk at there))
]
