-- ===== src/Paging/Change.antt =====
-- What one write of an entry changes in the walks.
use oronyx.Base.{ℕ, zero, suc, ◌<◌, ◌≡◌, ◌≢◌, ◌⊎◌, refl, sym, ◌∙◌, ap, arith, true, false}
use oronyx.Base.{inl, inr}
use native.Mathlib.Decide.{ℕ_discrete}
use oronyx.Paging.{State}
use oronyx.Paging.Tables.{slot, table_of, is_present}
use oronyx.Paging.Fresh.{IsReady}
use oronyx.Paging.Fresh.{IsTaken}
use oronyx.Paging.Empty.{index_of-lt}
use oronyx.Paging.Level.{
  shift, leads-absent, leads-kept, entry_at, index_at, leads, Reached, Shares,
}
use oronyx.Paging.Level.{entry_at-Shares}

-- No table is shared: the entries that are reached lie outside free memory, and each of them is at
-- one place of one table.
pub record IsSpace (s : State) : Type 0 where
  pub ready : IsReady s
  pub taken : (k virt : ℕ) → Reached k virt s → IsTaken (entry_at k virt s) s
  pub apart :
      (k l v w : ℕ)
      → Reached k v s
      → Reached l w s
      → entry_at k v s ≡ entry_at l w s
      → (k ≡ l) × Shares k v w

-- An empty table in memory that was free.
pub record IsNew (table : ℕ) (s s' : State) : Type 0 where
  pub taken : (i : ℕ) → i < 512 → IsTaken (slot table i) s'
  pub absent : (i : ℕ) → i < 512 → is_present (slot table i) s' ≡ false
  pub outside : (x i : ℕ) → i < 512 → IsTaken x s → x ≢ slot table i
  pub one_slot : (i j : ℕ) → i < 512 → j < 512 → slot table i ≡ slot table j → i ≡ j

-- Of the memory outside free regions only the entry of `virt` at a level changes. If it leads to a
-- table then, the table is new.
pub record IsChange (k virt : ℕ) (s s' : State) : Type 0 where
  pub reached : Reached k virt s
  pub kept : (x : ℕ) → IsTaken x s → x ≢ entry_at k virt s → s'.pmm.memory x ≡ s.pmm.memory x
  pub taken : (x : ℕ) → IsTaken x s → IsTaken x s'
  pub ready : IsReady s'
  pub same_offset : s'.hhdm_offset ≡ s.hhdm_offset
  pub same_cr3 : s'.cr3 ≡ s.cr3
  pub new :
      leads k (entry_at k virt s) s' ≡ true
      → IsNew (table_of s' (s'.pmm.memory (entry_at k virt s))) s s'

module _ (k virt : ℕ) (s s' : State) (p : IsSpace s) (c : IsChange k virt s s') where
  pub same_entry :
      (l v : ℕ)
      → Reached l v s
      → entry_at l v s' ≡ entry_at l v s
      → entry_at l v s ≢ entry_at k virt s
      → entry_at (suc l) v s' ≡ entry_at (suc l) v s
  unfolding entry_at
  same_entry l v r e ne = rw (e, c.kept (entry_at l v s) (p.taken l v r) ne, c.same_offset) refl

  pub same_leads :
      (l v : ℕ)
      → Reached l v s
      → entry_at l v s ≢ entry_at k virt s
      → leads l (entry_at l v s) s' ≡ leads l (entry_at l v s) s
  same_leads l v r ne =
      leads-kept l (entry_at l v s) s s' (c.kept (entry_at l v s) (p.taken l v r) ne)

  -- A walk reaches an entry that it reached before, or one of the new table.
  abbrev pub IsOld : ℕ → ℕ → Type 0
  IsOld l v = Reached l v s × (entry_at l v s' ≡ entry_at l v s)

  abbrev pub IsInNew : ℕ → ℕ → Type 0
  IsInNew l v = (l ≡ suc k) × Shares k v virt × (leads k (entry_at k virt s) s' ≡ true)

  -- An entry that no changed one leads to is where it was.
  pub old_below :
      (l v : ℕ)
      → ((j : ℕ) → j < l → Reached j v s → entry_at j v s ≢ entry_at k virt s)
      → Reached l v s
      → entry_at l v s' ≡ entry_at l v s
  unfolding entry_at
  old_below zero v ne r = rw (c.same_offset, c.same_cr3) refl
  old_below (suc l) v ne (r, ld) =
      same_entry l v r (old_below l v (λ j h. ne j (omega arith)) r) (ne l (omega arith) r)

  pub here : (v : ℕ) → Shares k v virt → entry_at k v s' ≡ entry_at k virt s
  here v h =
      entry_at-Shares k v virt s' h
      ∙ old_below k virt
          (λ j l r e. let (same, _) = p.apart j k virt virt r c.reached e in omega arith) c.reached

  pub new_entry :
      (v : ℕ)
      → Shares k v virt
      → entry_at (suc k) v s'
        ≡ slot (table_of s' (s'.pmm.memory (entry_at k virt s))) (index_at (suc k) v)
  unfolding entry_at
  new_entry v h = rw (here v h) refl

  not_through : (v : ℕ) → IsInNew (suc k) v → leads (suc k) (entry_at (suc k) v s') s' ≡ false
  not_through v (_, h, ld) =
      leads-absent (suc k) (entry_at (suc k) v s') s' (
        rw (new_entry v h) ((c.new ld).absent (index_at (suc k) v) (index_of-lt (shift (suc k)) v)))

  pub backward : (l v : ℕ) → Reached l v s' → IsOld l v ⊎ IsInNew l v
  backward zero v r = inl (tt, old_below zero v (λ j h _ _. omega arith) tt)
  backward (suc l) v (r, ld) = elim (backward l v r) [
    | inl (old, e) ↦ elim (ℕ_discrete (entry_at l v s) (entry_at k virt s)) [
      | yes same ↦
          let (lk, h) = p.apart l k v virt old c.reached same in
          inr (ap suc lk, rw lk at h, rw (e, same, lk) at ld)
      | no ne ↦ inl ((old, sym (same_leads l v old ne) ∙ (rw e at ld)), same_entry l v old e ne)
    ]
    | inr (lk, h, up) ↦ absurd (cc (not_through v (refl, h, up), rw lk at ld))
  ]
