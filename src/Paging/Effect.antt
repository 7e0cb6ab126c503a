-- ===== src/Paging/Effect.antt =====
-- The invariant and the walks after one write of an entry.
use oronyx.Base.{ℕ, zero, suc, ◌≤◌, ◌≡◌, ◌≢◌, refl, sym, ◌∙◌, arith, true}
use oronyx.Base.{inl, inr}
use oronyx.Paging.{State}
use oronyx.Paging.Tables.{slot, table_of, translate}
use oronyx.Paging.Fresh.{IsTaken}
use oronyx.Paging.Empty.{index_of-lt}
use oronyx.Paging.Level.{
  shift, entry_at, index_at, leads, Reached, Shares, Shares-sym, Shares-trans,
}
use oronyx.Paging.Level.{Reached-Shares, walk_kept, walk_at, translate-walk, translate-Reached}
use oronyx.Paging.Change.{IsSpace, IsChange, same_leads, backward, here, new_entry, old_below}

module _ (k virt : ℕ) (s s' : State) (p : IsSpace s) (c : IsChange k virt s s') where
  -- An entry of the new table.
  module _ (ld : leads k (entry_at k virt s) s' ≡ true) where
    abbrev new_slot : ℕ → ℕ
    new_slot v = slot (table_of s' (s'.pmm.memory (entry_at k virt s))) (index_at (suc k) v)

    in_new : (v : ℕ) → Shares k v virt → entry_at (suc k) v s' ≡ new_slot v
    in_new v h = new_entry k virt s s' p c v h

    new_taken : (v : ℕ) → IsTaken (new_slot v) s'
    new_taken v = (c.new ld).taken (index_at (suc k) v) (index_of-lt (shift (suc k)) v)

    new_outside : (x v : ℕ) → IsTaken x s → x ≢ new_slot v
    new_outside x v t = (c.new ld).outside x (index_at (suc k) v) (index_of-lt (shift (suc k)) v) t

    new_apart :
        (v w : ℕ) → Shares k v virt → Shares k w virt → new_slot v ≡ new_slot w → Shares (suc k) v w
    new_apart v w g h e = (
      Shares-trans k v virt w g (Shares-sym k w virt h),
      (c.new ld).one_slot (index_at (suc k) v) (index_at (suc k) w) (index_of-lt (shift (suc k)) v)
          (index_of-lt (shift (suc k)) w) e,
    )

  taken_after : (l v : ℕ) → Reached l v s' → IsTaken (entry_at l v s') s'
  taken_after l v r = elim (backward k virt s s' p c l v r) [
    | inl (old, e) ↦ rw e (c.taken (entry_at l v s) (p.taken l v old))
    | inr (lk, h, ld) ↦ rw (lk, in_new ld v h) (new_taken ld v)
  ]

  apart_after :
      (l m v w : ℕ)
      → Reached l v s'
      → Reached m w s'
      → entry_at l v s' ≡ entry_at m w s'
      → (l ≡ m) × Shares l v w
  apart_after l m v w r q e = elim (backward k virt s s' p c l v r) [
    | inl (old, f) ↦ elim (backward k virt s s' p c m w q) [
      | inl (old', g) ↦ p.apart l m v w old old' (sym f ∙ e ∙ g)
      | inr (mk, h, ld) ↦
          absurd (
            new_outside ld (entry_at l v s) w (p.taken l v old) (sym f ∙ e ∙ rw mk (in_new ld w h)))
    ]
    | inr (lk, h, ld) ↦ elim (backward k virt s s' p c m w q) [
      | inl (old', g) ↦ absurd (
          new_outside ld (entry_at m w s) v (p.taken m w old')
            (sym g ∙ sym e ∙ rw lk (in_new ld v h)))
      | inr (mk, h', ld') ↦ (
        lk ∙ sym mk,
        rw lk (new_apart ld v w h h' (sym (in_new ld v h) ∙ (rw (lk, mk) at e) ∙ in_new ld w h')),
      )
    ]
  ]

  pub change-IsSpace : IsSpace s'
  change-IsSpace = record { ready = c.ready; taken = taken_after; apart = apart_after }

  unchanged :
      (l v : ℕ)
      → Reached l v s
      → ¬ Shares k v virt
      → s'.pmm.memory (entry_at l v s) ≡ s.pmm.memory (entry_at l v s)
  unchanged l v r apart =
      c.kept (entry_at l v s) (p.taken l v r)
        (λ e. let (lk, h) = p.apart l k v virt r c.reached e in apart (rw lk at h))

  pub forward : (l v : ℕ) → l ≤ k → Reached l v s → Reached l v s'
  forward zero v h r = tt
  forward (suc l) v h (r, ld) =
      let ne : entry_at l v s ≢ entry_at k virt s =
        λ e. let (lk, _) = p.apart l k v virt r c.reached e in omega arith in
      let at_l =
        old_below k virt s s' p c l v
          (λ j b q e. let (jk, _) = p.apart j k v virt q c.reached e in omega arith) r in
      (forward l v (omega arith) r, rw at_l (same_leads k virt s s' p c l v r ne ∙ ld))

  pub translate-other : (v : ℕ) → ¬ Shares k v virt → translate v s' ≡ translate v s
  translate-other v apart =
      let at_top = old_below k virt s s' p c 0 v (λ j h q _. omega arith) tt in
      translate-walk v s'
      ∙ rw at_top (walk_kept v s s' c.same_offset (λ l r. unchanged l v r apart) 3 0 tt)
      ∙ sym (translate-walk v s)

  pub translate-shared :
      (v : ℕ) → Shares k v virt → translate v s' ≡ walk_at k v (entry_at k virt s) s'
  translate-shared v h =
      let r =
        forward k v (omega arith) (Reached-Shares k virt v s (Shares-sym k v virt h) c.reached) in
      translate-Reached k v s' r ∙ (rw (here k virt s s' p c v h) refl)
