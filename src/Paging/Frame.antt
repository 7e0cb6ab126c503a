-- ===== src/Paging/Frame.antt =====
-- Memory that is no page table, beside changes of the tables, and tables beside changes of memory.
use oronyx.Base.{ℕ, zero, suc, ◌≡◌, ◌≢◌, refl, sym, ◌∙◌, inl, inr}
use oronyx.Paging.{State}
use oronyx.Paging.Tables.{translate}
use oronyx.Paging.Fresh.{IsReady, IsTaken}
use oronyx.Paging.Empty.{index_of-lt}
use oronyx.Paging.Level.{
  shift, entry_at, index_at, leads, leads-kept, Reached, walk_kept, translate-walk,
}
use oronyx.Paging.Change.{IsSpace, IsChange, backward, new_entry}
use oronyx.Paging.Clear.{IsClear}

-- A virtual address in no free region's mapping and of no entry that a walk reaches.
abbrev pub IsAside : ℕ → State → Type 0
IsAside x s = IsTaken x s × ((k v : ℕ) → Reached k v s → entry_at k v s ≢ x)

-- Such addresses stay so, and their words stay.
abbrev pub Keeps : State → State → Type 0
Keeps s s' = (x : ℕ) → IsAside x s → IsAside x s' × (s'.pmm.memory x ≡ s.pmm.memory x)

pub Keeps-trans : (s t u : State) → Keeps s t → Keeps t u → Keeps s u
Keeps-trans s t u a b x p = ((b x (a x p).0).0, (b x (a x p).0).1 ∙ (a x p).1)

pub change-Keeps : (k virt : ℕ) (s s' : State) → IsSpace s → IsChange k virt s s' → Keeps s s'
change-Keeps k virt s s' p c x (taken, aside) = (
  (
    c.taken x taken,
    λ l v r e. elim (backward k virt s s' p c l v r) [
      | inl (old, same) ↦ aside l v old (sym same ∙ e)
      | inr (lk, shared, ld) ↦
          (c.new ld).outside x (index_at (suc k) v) (index_of-lt (shift (suc k)) v) taken
            (sym e ∙ rw lk (new_entry k virt s s' p c v shared))
    ],
  ),
  c.kept x taken (λ e. aside k virt c.reached (sym e)),
)

-- Memory changes at no entry.
pub record IsQuiet (s s' : State) : Type 0 where
  pub kept :
      (k v : ℕ) → Reached k v s → s'.pmm.memory (entry_at k v s) ≡ s.pmm.memory (entry_at k v s)
  pub taken : (k v : ℕ) → Reached k v s → IsTaken (entry_at k v s) s'
  pub ready : IsReady s'
  pub same_offset : s'.hhdm_offset ≡ s.hhdm_offset
  pub same_cr3 : s'.cr3 ≡ s.cr3

module _ (s s' : State) (p : IsSpace s) (c : IsQuiet s s') where
  quiet_entry : (k v : ℕ) → Reached k v s → entry_at k v s' ≡ entry_at k v s
  unfolding entry_at
  quiet_entry zero v r = rw (c.same_offset, c.same_cr3) refl
  quiet_entry (suc k) v (r, ld) = rw (quiet_entry k v r, c.kept k v r, c.same_offset) refl

  quiet_leads :
      (k v : ℕ) → Reached k v s → leads k (entry_at k v s') s' ≡ leads k (entry_at k v s) s
  quiet_leads k v r = rw (quiet_entry k v r) (leads-kept k (entry_at k v s) s s' (c.kept k v r))

  quiet_back : (k v : ℕ) → Reached k v s' → Reached k v s
  quiet_back zero v r = tt
  quiet_back (suc k) v (r, ld) = let old = quiet_back k v r in (old, sym (quiet_leads k v old) ∙ ld)

  pub quiet-IsSpace : IsSpace s'
  quiet-IsSpace = record {
    ready = c.ready;
    taken = λ k v r. let old = quiet_back k v r in rw (quiet_entry k v old) (c.taken k v old);
    apart = λ k l v w r q e.
        let old = quiet_back k v r in
        let old' = quiet_back l w q in
        p.apart k l v w old old' (sym (quiet_entry k v old) ∙ e ∙ quiet_entry l w old');
  }

  pub quiet-translate : (v : ℕ) → translate v s' ≡ translate v s
  quiet-translate v =
      translate-walk v s'
      ∙ rw (quiet_entry 0 v tt) (walk_kept v s s' c.same_offset (λ l r. c.kept l v r) 3 0 tt)
      ∙ sym (translate-walk v s)

  pub quiet-IsClear : (v : ℕ) → IsClear v s → IsClear v s'
  quiet-IsClear v clear j h r there =
      let old = quiet_back j v r in
      quiet_leads j v old ∙ clear j h old (rw (quiet_entry j v old, c.kept j v old) at there)

  pub quiet-IsAside :
      (x : ℕ) → ((k v : ℕ) → Reached k v s → entry_at k v s ≢ x) → IsTaken x s' → IsAside x s'
  quiet-IsAside x aside taken = (
    taken,
    λ k v r e. let old = quiet_back k v r in aside k v old (sym (quiet_entry k v old) ∙ e),
  )
