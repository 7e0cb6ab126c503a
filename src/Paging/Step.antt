-- ===== src/Paging/Step.antt =====
-- `next_table` at a level: the tables on the way of an address, one by one.
use oronyx.Base.{ℕ, zero, suc, ◌-◌, ◌<◌, ◌≡◌, refl, sym, ◌∙◌, arith, true, false}
use oronyx.Base.{none, bit_and}
use native.Mathlib.Decide.{ℕ_discrete}
use oronyx.Paging.{State, huge}
use oronyx.Paging.Tables.{slot, table_of, is_present, is_page, translate}
use oronyx.Paging.Fresh.{IsTaken, IsSpent}
use oronyx.Paging.Link.{IsLinked}
use oronyx.Paging.Empty.{
  index_of-lt, inner, taken_apart, taken_kept, word_kept, entry_taken, entry_absent, not_page,
}
use oronyx.Paging.Level.{
  shift, entry_at, index_at, leads, Reached, Shares, Shares-sym, leads-absent, Shares-refl,
}
use oronyx.Paging.Level.{
  Reached-Shares, entry_at-Shares, walk, walk_at, walk-leads, translate-Reached, no_table,
}
use oronyx.Paging.Change.{IsSpace, IsNew, IsChange, here, new_entry}
use oronyx.Paging.Clear.{IsClear, change-IsClear}
use oronyx.Paging.Effect.{translate-other, translate-shared, forward}

pub Shares-dec : (k v w : ℕ) → Dec (Shares k v w)
Shares-dec zero v w = ℕ_discrete (index_at 0 v) (index_at 0 w)
Shares-dec (suc k) v w = elim (Shares-dec k v w) [
  | yes h ↦ elim (ℕ_discrete (index_at (suc k) v) (index_at (suc k) w)) [
    | yes e ↦ yes (h, e)
    | no ne ↦ no (λ t. ne t.1)
  ]
  | no nh ↦ no (λ t. nh t.0)
]

walk-absent :
    (n k virt addr : ℕ) (s : State) → is_present addr s ≡ false → walk n k virt addr s ≡ none
unfolding walk
walk-absent zero k virt addr s e = rw e refl
walk-absent (suc n) k virt addr s e = rw e refl

-- A made entry of a level above the last one is no page.
made_leads :
    (k addr : ℕ) (s : State)
    → k < 3
    → is_present addr s ≡ true
    → is_page addr s ≡ false
    → leads k addr s ≡ true
unfolding leads
made_leads zero addr s h p q = rw p refl
made_leads (suc zero) addr s h p q = rw (p, q) refl
made_leads (suc (suc zero)) addr s h p q = rw (p, q) refl
made_leads (suc (suc (suc k))) addr s h p q = absurd (omega arith)

-- A change that leaves the entry of `virt` out of use.
module _ (k virt : ℕ) (s s' : State) (p : IsSpace s) (c : IsChange k virt s s')
    (before : is_present (entry_at k virt s) s ≡ false) where
  translate_absent : (v : ℕ) → Shares k v virt → translate v s ≡ none
  translate_absent v h =
      let e = entry_at-Shares k v virt s h in
      translate-Reached k v s (Reached-Shares k virt v s (Shares-sym k v virt h) c.reached)
      ∙ walk-absent (3 - k) k v (entry_at k v s) s (rw e before)

  pub translate-unused :
      ((v : ℕ) → Shares k v virt → walk_at k v (entry_at k virt s) s' ≡ none)
      → (v : ℕ) → translate v s' ≡ translate v s
  translate-unused stop v = elim (Shares-dec k v virt) [
    | yes h ↦ translate-shared k virt s s' p c v h ∙ stop v h ∙ sym (translate_absent v h)
    | no nh ↦ translate-other k virt s s' p c v nh
  ]

-- An entry that leads to an empty table.
walk-new :
    (k virt addr : ℕ) (s : State)
    → leads k addr s ≡ true
    → is_present (slot (table_of s (s.pmm.memory addr)) (index_at (suc k) virt)) s ≡ false
    → walk_at k virt addr s ≡ none
walk-new zero virt addr s l a = walk-leads 2 0 virt addr s l ∙ walk-absent 2 1 virt _ s a
walk-new (suc zero) virt addr s l a = walk-leads 1 1 virt addr s l ∙ walk-absent 1 2 virt _ s a
walk-new (suc (suc zero)) virt addr s l a =
    walk-leads 0 2 virt addr s l ∙ walk-absent 0 3 virt _ s a
walk-new (suc (suc (suc k))) virt addr s l a = absurd (no_table k addr s l)

-- A table that `next_table` made.
module _ (k virt table index flags next : ℕ) (s s' : State) (p : IsSpace s) (r : Reached k virt s)
    (place : slot table index ≡ entry_at k virt s) (l : IsLinked table index flags next s s')
    (absent : is_present (slot table index) s ≡ false) where
  slot_taken : IsTaken (slot table index) s
  slot_taken = rw place (p.taken k virt r)

  made-IsNew : IsNew next s s'
  made-IsNew = record {
    taken = λ i h. entry_taken table index flags next s s' p.ready l absent slot_taken i h;
    absent = λ i h. entry_absent table index flags next s s' p.ready l absent slot_taken i h;
    outside =
        λ x i h t. taken_apart table index flags next s s' p.ready l absent slot_taken x i h t;
    one_slot = λ i j h g e. omega (
      arith,
      inner table index flags next s s' p.ready l absent slot_taken i h,
      inner table index flags next s s' p.ready l absent slot_taken j g,
    );
  }

  pub made-IsChange : IsChange k virt s s'
  made-IsChange = record {
    reached = r;
    kept = λ x t ne.
        word_kept table index flags next s s' p.ready l absent slot_taken x t (rw place ne);
    taken = λ x t. taken_kept table index flags next s s' p.ready l absent slot_taken x t;
    ready = l.ready;
    same_offset = l.same_offset;
    same_cr3 = l.same_cr3;
    new = λ ld. rw (← place, l.target) made-IsNew;
  }

  module _ (above : k < 3) (small : bit_and flags huge ≡ 0) where
    made-leads : leads k (entry_at k virt s) s' ≡ true
    made-leads = rw (← place) (
        made_leads k (slot table index) s' above l.linked
          (not_page table index flags next s s' p.ready l absent slot_taken small))

    pub made-Reached : Reached (suc k) virt s'
    made-Reached = (
      forward k virt s s' p made-IsChange k virt (omega arith) r,
      rw (here k virt s s' p made-IsChange virt (Shares-refl k virt)) made-leads,
    )

    pub made-place : slot next (index_at (suc k) virt) ≡ entry_at (suc k) virt s'
    made-place =
        let at_new = new_entry k virt s s' p made-IsChange virt (Shares-refl k virt) in
        rw (at_new, ← place, l.target) refl

    pub made-same_walks : (v : ℕ) → translate v s' ≡ translate v s
    made-same_walks = translate-unused k virt s s' p made-IsChange (rw (← place) absent) (λ v h.
        walk-new k v (entry_at k virt s) s' made-leads (
          rw (← place, l.target)
            (made-IsNew.absent (index_at (suc k) v) (index_of-lt (shift (suc k)) v))))

    pub made-clear : (w : ℕ) → IsClear w s → IsClear w s'
    made-clear = change-IsClear k virt s s' p made-IsChange (λ h q. made-leads)

-- A call that found no page.
module _ (k virt : ℕ) (s s' : State) (p : IsSpace s) (r : Reached k virt s)
    (absent : is_present (entry_at k virt s) s ≡ false) (spent : IsSpent s s') where
  spent-absent : is_present (entry_at k virt s) s' ≡ false
  spent-absent = rw (spent.kept (entry_at k virt s) (p.taken k virt r)) absent

  pub spent-IsChange : IsChange k virt s s'
  spent-IsChange = record {
    reached = r;
    kept = λ x t ne. spent.kept x t;
    taken = spent.taken;
    ready = spent.ready;
    same_offset = spent.same_offset;
    same_cr3 = spent.same_cr3;
    new = λ ld. cc (leads-absent k (entry_at k virt s) s' spent-absent, ld);
  }

  pub spent-same_walks : (v : ℕ) → translate v s' ≡ translate v s
  spent-same_walks =
      translate-unused k virt s s' p spent-IsChange absent
        (λ v h. walk-absent (3 - k) k v (entry_at k virt s) s' spent-absent)

  pub spent-clear : (w : ℕ) → IsClear w s → IsClear w s'
  spent-clear = change-IsClear k virt s s' p spent-IsChange (λ h q. cc spent-absent)
