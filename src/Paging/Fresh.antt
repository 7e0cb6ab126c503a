-- ===== src/Paging/Fresh.antt =====
-- Pages from the physical memory manager as page tables.
use oronyx.Base.{ℕ, suc, ◌+◌, ◌-◌, ◌*◌, ◌%◌, ◌^◌, ◌≤◌, ◌<◌, ◌≡◌, ◌≢◌, ◌⊎◌, inl, inr, refl, arith}
use oronyx.Base.{u64, true, false, ◌∙◌}
use oronyx.Base.{List, [], ◌∷◌, ◌++◌, some, ◌==◌}
use native.Mathlib.Decide.{ℕ_discrete, dec_le, dec_lt}
use oronyx.Base.Sums.{sum, sum-zero}
use oronyx.Regions.Order.{holds, holds_free, free_len}
use oronyx.Pmm.{print, Print, write_line}
use oronyx.Pmm.Alloc.{IsValid, IsMapped, IsGranted, IsFit, page_range}
use oronyx.Pmm.Grows.{Grows, Grows-trans, granted-Grows, printed-Grows}
use oronyx.Pmm.FirstFit.{no_room, no_fit, alloc_pages_outcome}
use oronyx.Paging.{State, alloc_page}

-- The manager is valid, its regions are mapped, and both parts have one offset.
pub record IsReady (s : State) : Type 0 where
  pub valid : IsValid s.pmm
  pub mapped : IsMapped s.pmm
  pub same_offset : s.pmm.hhdm_offset ≡ s.hhdm_offset

-- How many free regions hold a physical address.
abbrev pub free_at : ℕ → State → ℕ
free_at x s = sum (holds_free x) s.pmm.regions s.pmm.region_count

-- A virtual address in the mapping of no free region.
abbrev pub IsTaken : ℕ → State → Type 0
IsTaken x s = (p : ℕ) → x ≡ p + s.hhdm_offset → free_at p s ≡ 0

-- Enough free memory for pages, with room for the regions that are split off, and not at 0.
abbrev pub HasPages : ℕ → State → Type 0
HasPages n s =
    (n * 4096 ≤ sum free_len s.pmm.regions s.pmm.region_count)
    × (s.pmm.region_count + n ≤ 64)
    × (free_at 0 s ≡ 0)

-- The page at `page` of the kernel's memory, whose physical address is not 0, is new and empty.
pub record IsPage (page : ℕ) (s s' : State) : Type 0 where
  pub ready : IsReady s'
  pub frame : ℕ
  pub aligned : frame % 4096 ≡ 0
  pub place : page ≡ frame + s.hhdm_offset
  pub frame_pos : 0 < frame
  pub fits : page + 4096 ≤ 2 ^ 64
  pub empty : (w : ℕ) → w < 512 → s'.pmm.memory (page + 8 * w) ≡ 0
  pub others : (x : ℕ) → (x < page) ⊎ (page + 4096 ≤ x) → s'.pmm.memory x ≡ s.pmm.memory x
  pub taken : (x : ℕ) → free_at x s' + holds x (page_range frame 4096) ≡ free_at x s
  pub same_offset : s'.hhdm_offset ≡ s.hhdm_offset
  pub same_cr3 : s'.cr3 ≡ s.cr3
  pub same_flushed : s'.flushed ≡ s.flushed
  pub rest : (n : ℕ) → HasPages (suc n) s → HasPages n s'
  pub grows : Grows s.pmm s'.pmm

abbrev pub AllocatesPage : State → Type 0
AllocatesPage s = (page : ℕ) × (s' : State) × (alloc_page s ≡ some (page, s')) × IsPage page s s'

-- No page: outside free memory nothing changes.
pub record IsSpent (s s' : State) : Type 0 where
  pub ready : IsReady s'
  pub kept : (x : ℕ) → IsTaken x s → s'.pmm.memory x ≡ s.pmm.memory x
  pub taken : (x : ℕ) → IsTaken x s → IsTaken x s'
  pub same_offset : s'.hhdm_offset ≡ s.hhdm_offset
  pub same_cr3 : s'.cr3 ≡ s.cr3
  pub same_flushed : s'.flushed ≡ s.flushed
  pub none_left : ¬ HasPages 1 s
  pub grows : Grows s.pmm s'.pmm

abbrev pub AllocatesNone : State → Type 0
AllocatesNone s = (s' : State) × (alloc_page s ≡ some (0, s')) × IsSpent s s'

module _ (s : State) (r : IsReady s) (p : ℕ) (q : oronyx.Pmm.State)
    (g : IsGranted 4096 s.pmm p q) where
  abbrev granted : State
  granted = record s { pmm = q }

  granted-IsReady : IsReady granted
  granted-IsReady = record {
    valid = g.table;
    mapped = g.mapped;
    same_offset = g.same_offset ∙ r.same_offset;
  }

  granted-fits : p + s.hhdm_offset + 4096 ≤ 2 ^ 64
  granted-fits = ground (arith, g.mapped g.place g.in_table, g.used, g.same_offset, r.same_offset)

  granted_rest : (n : ℕ) → HasPages (suc n) s → HasPages n granted
  granted_rest n (bytes, room, null) =
      (omega (arith, g.less), omega (arith, g.count_le), omega (arith, g.taken 0))

  granted-IsPage : p ≢ 0 → IsPage (u64 (p + s.hhdm_offset)) s granted
  granted-IsPage ne =
      let e : u64 (p + s.hhdm_offset) ≡ p + s.hhdm_offset = omega (arith, granted-fits) in
      let aligned = (g.table.aligned g.place g.in_table).0 in
      rw e (record {
        ready = granted-IsReady;
        frame = p;
        aligned = ground (arith, aligned, g.used);
        place = refl;
        frame_pos = omega arith;
        fits = granted-fits;
        empty = λ w h. rw (← r.same_offset) (g.zeroed w (omega arith));
        others = λ x o. g.same_words x (rw r.same_offset o);
        taken = g.taken;
        same_offset = refl;
        same_cr3 = refl;
        same_flushed = refl;
        rest = λ n h. granted_rest n h;
        grows = granted-Grows g;
      })

-- The state after the message of `alloc_page`, on the manager's state.
abbrev pub refused : State → oronyx.Pmm.State → State
refused s q = record s { pmm = print (write_line "Failed to allocate physical page") q }

-- An address outside free memory is outside the memory that is granted.
pub granted_outside :
    (sz p : ℕ) (s : State) (q : oronyx.Pmm.State)
    → IsGranted sz s.pmm p q
    → (x : ℕ) → IsTaken x s
    → (x < p + s.hhdm_offset) ⊎ (p + s.hhdm_offset + sz ≤ x)
granted_outside sz p s q g x t = elim (dec_lt x (p + s.hhdm_offset)) [
  | yes low ↦ inl low
  | no high ↦ elim (dec_le (p + s.hhdm_offset + sz) x) [
    | yes above ↦ inr above
    | no inside ↦ let y = x - s.hhdm_offset in absurd (ground (arith, t y (omega arith), g.taken y))
  ]
]

refused-IsReady :
    (s : State) (q : oronyx.Pmm.State) → IsReady (record s { pmm = q }) → IsReady (refused s q)
refused-IsReady s q t = record { valid = t.valid; mapped = t.mapped; same_offset = t.same_offset }

refused-IsSpent :
    (s : State) (log : List Print)
    → IsReady s
    → ¬ HasPages 1 s
    → IsSpent s (refused s (record s.pmm { log = log }))
refused-IsSpent s log r none_left = record {
  ready = record { valid = r.valid; mapped = r.mapped; same_offset = r.same_offset };
  kept = λ x t. refl;
  taken = λ x t. t;
  same_offset = refl;
  same_cr3 = refl;
  same_flushed = refl;
  none_left = none_left;
  grows =
      printed-Grows s.pmm s.pmm.memory
        (log ++ (write_line "Failed to allocate physical page" ∷ []));
}

-- A page at the physical address 0, which the null pointer stands for.
null-IsSpent :
    (s : State) (r : IsReady s) (q : oronyx.Pmm.State)
    → IsGranted 4096 s.pmm 0 q
    → IsSpent s (refused s q)
null-IsSpent s r q g = record {
  ready = refused-IsReady s q (granted-IsReady s r 0 q g);
  kept = λ x t. g.same_words x (rw r.same_offset (granted_outside 4096 0 s q g x t));
  taken = λ x t p e. omega (arith, t p e, g.taken p);
  same_offset = refl;
  same_cr3 = refl;
  same_flushed = refl;
  none_left = λ h. ground (arith, h.2, g.taken 0);
  grows =
      Grows-trans (granted-Grows g)
        (printed-Grows q q.memory (print (write_line "Failed to allocate physical page") q).log);
}

-- A free region has a page.
no_free :
    (s : State)
    → IsReady s
    → ((q : ℕ) → q < s.pmm.region_count → ¬ IsFit 4096 (s.pmm.regions q))
    → sum free_len s.pmm.regions s.pmm.region_count ≡ 0
no_free s r unfit =
    sum-zero free_len s.pmm.regions s.pmm.region_count
      (λ q l. ground (arith, unfit q l, r.valid.aligned q l, r.valid.sized q l))

pub alloc_page_cases : (s : State) → IsReady s → AllocatesPage s ⊎ AllocatesNone s
unfolding alloc_page
alloc_page_cases s r =
    elim (alloc_pages_outcome 1 s.pmm r.valid r.mapped (omega arith) (omega arith)) [
      | inl (m, f, c, (s', run, g)) ↦
          let p = (s.pmm.regions m).base in
          elim (ℕ_discrete p 0) [
            | yes null ↦
                let failed : (p == 0) ≡ true = ground arith in
                inr (refused s s', rw (run, failed) refl, null-IsSpent s r s' (rw null at g))
            | no frame ↦
                let given : (p == 0) ≡ false = ground arith in
                inl (
                  u64 (p + s.hhdm_offset),
                  granted s r p s' g,
                  rw (run, given) refl,
                  granted-IsPage s r p s' g frame,
                )
          ]
      | inr (inl (m, f, l, full, run)) ↦ inr (
        refused s (no_room s.pmm),
        rw run refl,
        refused-IsSpent s (no_room s.pmm).log r (λ h. omega (arith, h.1, full)),
      )
      | inr (inr (n, run)) ↦ inr (
        refused s (no_fit s.pmm),
        rw run refl,
        refused-IsSpent s (no_fit s.pmm).log r (λ h. omega (arith, h.0, no_free s r n)),
      )
    ]
