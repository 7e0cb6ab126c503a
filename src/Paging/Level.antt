-- ===== src/Paging/Level.antt =====
-- The processor's walk level by level: 0 is the first table, 3 the last one.
use oronyx.Base.{ℕ, zero, suc, ◌≡◌, ◌-◌, ◌≤◌, refl, sym, ◌∙◌, arith, Bool, true, false, not, ◌&&◌}
use oronyx.Base.{Option, none, some, if◌then◌else◌, Bool-cases, inl, inr}
use native.Mathlib.Decide.{ℕ_discrete}
use oronyx.Paging.{State, index_of}
use oronyx.Paging.Tables.{slot, table_of, is_present, is_page, physical, translate, pml4_slot}

-- The entries of a level span 2 ^ shift bytes.
abbrev pub shift : ℕ → ℕ
shift zero = 39
shift (suc zero) = 30
shift (suc (suc zero)) = 21
shift (suc (suc (suc k))) = 12

abbrev pub index_at : ℕ → ℕ → ℕ
index_at k virt = index_of (shift k) virt

-- The address of the entry of `virt` at a level, if the tables above lead there.
unfoldable pub entry_at : ℕ → ℕ → State → ℕ
entry_at zero virt s = pml4_slot virt s
entry_at (suc k) virt s =
    slot (table_of s (s.pmm.memory (entry_at k virt s))) (index_at (suc k) virt)

-- A present entry is a page or leads to a table.
abbrev pub is_leaf : ℕ → ℕ → State → Bool
is_leaf zero addr s = false
is_leaf (suc zero) addr s = is_page addr s
is_leaf (suc (suc zero)) addr s = is_page addr s
is_leaf (suc (suc (suc k))) addr s = true

unfoldable pub leads : ℕ → ℕ → State → Bool
leads k addr s = is_present addr s && not (is_leaf k addr s)

-- The tables above a level lead to the entry of `virt` there.
abbrev pub Reached : ℕ → ℕ → State → Type 0
Reached zero virt s = Unit
Reached (suc k) virt s = Reached k virt s × (leads k (entry_at k virt s) s ≡ true)

-- Two addresses share their entries down to a level.
abbrev pub Shares : ℕ → ℕ → ℕ → Type 0
Shares zero v w = index_at 0 v ≡ index_at 0 w
Shares (suc k) v w = Shares k v w × (index_at (suc k) v ≡ index_at (suc k) w)

pub Shares-sym : (k v w : ℕ) → Shares k v w → Shares k w v
Shares-sym zero v w e = sym e
Shares-sym (suc k) v w (h, e) = (Shares-sym k v w h, sym e)

pub Shares-trans : (k u v w : ℕ) → Shares k u v → Shares k v w → Shares k u w
Shares-trans zero u v w e f = e ∙ f
Shares-trans (suc k) u v w (h, e) (g, f) = (Shares-trans k u v w h g, e ∙ f)

pub entry_at-Shares : (k v w : ℕ) (s : State) → Shares k v w → entry_at k v s ≡ entry_at k w s
unfolding entry_at
entry_at-Shares zero v w s e = rw e refl
entry_at-Shares (suc k) v w s (h, e) = rw (entry_at-Shares k v w s h, e) refl

pub Reached-Shares : (k v w : ℕ) (s : State) → Shares k v w → Reached k v s → Reached k w s
Reached-Shares zero v w s e r = tt
Reached-Shares (suc k) v w s (h, e) (r, l) =
    (Reached-Shares k v w s h r, rw (sym (entry_at-Shares k v w s h)) l)

pub no_table : (k addr : ℕ) (s : State) → ¬ (leads (suc (suc (suc k))) addr s ≡ true)
unfolding leads
no_table k addr s l = ground arith

-- The walk from an entry, through as many tables as the first argument says and one more.
unfoldable pub walk : ℕ → ℕ → ℕ → ℕ → State → Option ℕ
walk zero k virt addr s = if is_present addr s then some (physical (shift k) virt addr s) else none
walk (suc n) k virt addr s =
    let below =
      walk n (suc k) virt (slot (table_of s (s.pmm.memory addr)) (index_at (suc k) virt)) s in
    if is_present addr s
    then (if is_leaf k addr s then some (physical (shift k) virt addr s) else below)
    else none

-- The walk from the entry of a level.
abbrev pub walk_at : ℕ → ℕ → ℕ → State → Option ℕ
walk_at k virt addr s = walk (3 - k) k virt addr s

pub translate-walk :
    (virt : ℕ) (s : State) → translate virt s ≡ walk_at 0 virt (entry_at 0 virt s) s
unfolding translate walk entry_at
translate-walk virt s = refl

pub walk-leads :
    (n k virt addr : ℕ) (s : State)
    → leads k addr s ≡ true
    → walk (suc n) k virt addr s
      ≡ walk n (suc k) virt (slot (table_of s (s.pmm.memory addr)) (index_at (suc k) virt)) s
unfolding walk leads
walk-leads n k virt addr s l = ground arith

-- The walk goes through every level that is reached.
pub translate-Reached :
    (k virt : ℕ) (s : State)
    → Reached k virt s
    → translate virt s ≡ walk_at k virt (entry_at k virt s) s
unfolding entry_at
translate-Reached zero virt s r = translate-walk virt s
translate-Reached (suc zero) virt s (r, l) =
    translate-Reached zero virt s r ∙ walk-leads 2 0 virt (entry_at 0 virt s) s l
translate-Reached (suc (suc zero)) virt s (r, l) =
    translate-Reached (suc zero) virt s r ∙ walk-leads 1 1 virt (entry_at 1 virt s) s l
translate-Reached (suc (suc (suc zero))) virt s (r, l) =
    translate-Reached (suc (suc zero)) virt s r ∙ walk-leads 0 2 virt (entry_at 2 virt s) s l
translate-Reached (suc (suc (suc (suc k)))) virt s (r, l) =
    absurd (no_table k (entry_at (suc (suc (suc k))) virt s) s l)

-- What an entry is depends on its value only.
pub is_leaf-kept :
    (k addr : ℕ) (s s' : State)
    → s'.pmm.memory addr ≡ s.pmm.memory addr
    → is_leaf k addr s' ≡ is_leaf k addr s
is_leaf-kept zero addr s s' e = refl
is_leaf-kept (suc zero) addr s s' e = rw e refl
is_leaf-kept (suc (suc zero)) addr s s' e = rw e refl
is_leaf-kept (suc (suc (suc k))) addr s s' e = refl

pub leads-kept :
    (k addr : ℕ) (s s' : State)
    → s'.pmm.memory addr ≡ s.pmm.memory addr
    → leads k addr s' ≡ leads k addr s
unfolding leads
leads-kept k addr s s' e = rw (is_leaf-kept k addr s s' e, e) refl

pub leads-absent : (k addr : ℕ) (s : State) → is_present addr s ≡ false → leads k addr s ≡ false
unfolding leads
leads-absent k addr s e = rw e refl

pub Reached-below : (j k virt : ℕ) (s : State) → j ≤ k → Reached k virt s → Reached j virt s
Reached-below zero k virt s h r = tt
Reached-below (suc j) zero virt s h r = absurd (omega arith)
Reached-below (suc j) (suc k) virt s h (r, l) = elim (ℕ_discrete j k) [
  | yes e ↦ rw e (r, l)
  | no ne ↦ Reached-below (suc j) k virt s (omega arith) r
]

-- Where no table is behind an entry, the walk depends on its value only.
pub walk-stops :
    (n k virt addr : ℕ) (s s' : State)
    → s'.pmm.memory addr ≡ s.pmm.memory addr
    → leads k addr s ≡ false
    → walk n k virt addr s' ≡ walk n k virt addr s
unfolding walk leads
walk-stops zero k virt addr s s' e l = rw e refl
walk-stops (suc n) k virt addr s s' e l = elim (Bool-cases (is_leaf k addr s)) [
  | inl leaf ↦ rw (is_leaf-kept k addr s s' e, leaf, e) refl
  | inr table ↦
      let absent : is_present addr s ≡ false = ground arith in
      let absent' : is_present addr s' ≡ false = rw e absent in rw (absent, absent') refl
]

pub Shares-refl : (k v : ℕ) → Shares k v v
Shares-refl zero v = refl
Shares-refl (suc k) v = (Shares-refl k v, refl)

-- A walk on whose way no entry changes.
module _ (v : ℕ) (s s' : State) (same : s'.hhdm_offset ≡ s.hhdm_offset)
    (word : (l : ℕ)
      → Reached l v s
      → s'.pmm.memory (entry_at l v s) ≡ s.pmm.memory (entry_at l v s)) where
  pub walk_kept :
      (n l : ℕ) → Reached l v s → walk n l v (entry_at l v s) s' ≡ walk n l v (entry_at l v s) s
  unfolding walk entry_at
  walk_kept zero l r = rw (word l r) refl
  walk_kept (suc n) l r =
      let below : slot (table_of s' (s'.pmm.memory (entry_at l v s))) (index_at (suc l) v)
          ≡ slot (table_of s (s.pmm.memory (entry_at l v s))) (index_at (suc l) v) =
        rw (word l r, same) refl in
      elim (Bool-cases (leads l (entry_at l v s) s)) [
        | inr stop ↦ walk-stops (suc n) l v (entry_at l v s) s s' (word l r) stop
        | inl ld ↦
            rw
              (
                walk-leads n l v (entry_at l v s) s'
                    (leads-kept l (entry_at l v s) s s' (word l r) ∙ ld),
                walk-leads n l v (entry_at l v s) s ld,
                below,
              )
              (walk_kept n (suc l) (r, ld))
      ]
