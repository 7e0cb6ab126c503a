-- ===== src/Paging/Link.antt =====
-- `next_table`: an entry and the table that it points to, found or made.
use oronyx.Base.{ℕ, suc, ◌+◌, ◌*◌, ◌/◌, ◌%◌, ◌^◌, ◌≤◌, ◌<◌, ◌≡◌, ◌≢◌, ◌⊎◌, inl, inr, refl, arith}
use oronyx.Base.{bit_and, bit_or, sub64, true, false, Bool-cases}
use oronyx.Base.{some, none, ◌==◌}
use oronyx.Base.Bits.{bit_and-low, bit_and-pages}
use oronyx.Regions.Order.{holds}
use oronyx.Pmm.Grows.{Grows, Grows-trans, printed-Grows}
use oronyx.Pmm.Alloc.{page_range}
use oronyx.Paging.{State, next_table, set_entry, present, frame_mask}
use oronyx.Paging.Tables.{slot, table_of, is_present}
use oronyx.Paging.Walk.{next_table_present, page_value, page_value_lem, page_present}
use oronyx.Paging.Fresh.{HasPages, IsReady, IsPage, IsSpent, alloc_page_cases, free_at}

-- The page at `next` was free memory, and the entry has its frame and the low bits of `flags`.
abbrev pub Makes : ℕ → ℕ → ℕ → ℕ → State → State → Type 0
Makes table index flags next s s' =
    (frame : ℕ) × (frame % 4096 ≡ 0)
    × (next ≡ frame + s.hhdm_offset)
    × (next + 4096 ≤ 2 ^ 64)
    × (s'.pmm.memory (slot table index) ≡ page_value frame flags)
    × ((x : ℕ) → free_at x s' + holds x (page_range frame 4096) ≡ free_at x s)

-- The entry is present and points to `next`. Outside it and the page at `next` the memory is as it
-- was, and if the entry was not present that page is empty.
pub record IsLinked (table index flags next : ℕ) (s s' : State) : Type 0 where
  pub ready : IsReady s'
  pub linked : is_present (slot table index) s' ≡ true
  pub target : table_of s' (s'.pmm.memory (slot table index)) ≡ next
  pub others :
      (x : ℕ)
      → x ≢ slot table index
      → (x < next) ⊎ (next + 4096 ≤ x)
      → s'.pmm.memory x ≡ s.pmm.memory x
  pub empty :
      is_present (slot table index) s ≡ false
      → (w : ℕ) → w < 512
      → next + 8 * w ≢ slot table index
      → s'.pmm.memory (next + 8 * w) ≡ 0
  pub made : is_present (slot table index) s ≡ false → Makes table index flags next s s'
  pub same_offset : s'.hhdm_offset ≡ s.hhdm_offset
  pub same_cr3 : s'.cr3 ≡ s.cr3
  pub same_flushed : s'.flushed ≡ s.flushed
  pub rest : (n : ℕ) → HasPages (suc n) s → HasPages n s'
  pub grows : Grows s.pmm s'.pmm

abbrev pub Links : ℕ → ℕ → ℕ → State → Type 0
Links table index flags s =
    (next : ℕ) × (s' : State) × (next_table table index flags s ≡ some (some next, s'))
    × IsLinked table index flags next s s'

abbrev pub LinksNone : ℕ → ℕ → ℕ → State → Type 0
LinksNone table index flags s =
    (s' : State) × (next_table table index flags s ≡ some (none, s'))
    × (is_present (slot table index) s ≡ false)
    × IsSpent s s'

found-IsLinked :
    (table index flags : ℕ) (s : State)
    → IsReady s
    → is_present (slot table index) s ≡ true
    → IsLinked table index flags (table_of s (s.pmm.memory (slot table index))) s s
found-IsLinked table index flags s r p = record {
  ready = r;
  linked = p;
  target = refl;
  others = λ x ne o. refl;
  empty = λ np w l ne. cc;
  made = λ np. cc;
  same_offset = refl;
  same_cr3 = refl;
  same_flushed = refl;
  rest = λ n h. (omega (arith, h.0), omega (arith, h.1), h.2);
  grows = printed-Grows s.pmm s.pmm.memory s.pmm.log;
}

-- The value of an entry for a new page.
module _ (page flags : ℕ) (s t : State) (g : IsPage page s t) where
  abbrev fresh_value : ℕ
  fresh_value = bit_or (sub64 page s.hhdm_offset) (bit_and flags 0xfff)

  fresh_value_lem : fresh_value ≡ page_value g.frame flags
  fresh_value_lem =
      let frame : sub64 page s.hhdm_offset ≡ g.frame = omega (arith, g.place, g.fits) in
      let whole : bit_and g.frame frame_mask ≡ g.frame =
        omega (arith, bit_and-pages g.frame, g.place, g.fits, g.aligned) in
      rw (frame, whole) refl

  fresh_value_present : flags % 2 ≡ 1 → bit_and fresh_value 1 ≡ 1
  fresh_value_present odd =
      rw fresh_value_lem (page_present g.frame flags (omega (arith, g.place, g.fits)) odd)

  fresh_value_target : table_of t fresh_value ≡ page
  fresh_value_target =
      let small : g.frame < 2 ^ 64 = omega (arith, g.place, g.fits) in
      let value = page_value_lem g.frame flags small in
      let mask =
        bit_and-pages (g.frame / 4096 * 4096 + flags % 4096)
          (omega (arith, g.place, g.fits, g.aligned)) in
      rw (fresh_value_lem, value, mask, g.same_offset) (omega (arith, g.place, g.fits, g.aligned))

  made-IsLinked :
      (table index : ℕ)
      → flags % 2 ≡ 1
      → IsLinked table index flags page s (set_entry table index fresh_value t)
  made-IsLinked table index odd =
      let own : (slot table index == slot table index) ≡ true = ground arith in
      record {
        ready = record {
          valid = g.ready.valid;
          mapped = g.ready.mapped;
          same_offset = g.ready.same_offset;
        };
        linked = rw (own, fresh_value_present odd) refl;
        target = rw own fresh_value_target;
        others = λ x ne o.
            let off : (x == slot table index) ≡ false = ground arith in rw off (g.others x o);
        empty = λ np w l ne.
            let off : (page + 8 * w == slot table index) ≡ false = ground arith in
            rw off (g.empty w l);
        made = λ np. (g.frame, g.aligned, g.place, g.fits, rw (own, fresh_value_lem) refl, g.taken);
        same_offset = g.same_offset;
        same_cr3 = g.same_cr3;
        same_flushed = g.same_flushed;
        rest = λ n h. g.rest n h;
        grows =
            Grows-trans g.grows
              (printed-Grows t.pmm (set_entry table index fresh_value t).pmm.memory t.pmm.log);
      }

pub next_table_cases :
    (table index flags : ℕ) (s : State)
    → IsReady s
    → flags % 2 ≡ 1
    → Links table index flags s ⊎ LinksNone table index flags s
unfolding next_table
next_table_cases table index flags s r odd = elim (Bool-cases (is_present (slot table index) s)) [
  | inl p ↦ inl (
    table_of s (s.pmm.memory (slot table index)),
    s,
    next_table_present table index flags s p,
    found-IsLinked table index flags s r p,
  )
  | inr np ↦
      let absent : (bit_and (s.pmm.memory (slot table index)) present == 0) ≡ true =
        ground (arith, bit_and-low 1 (s.pmm.memory (slot table index))) in
      elim (alloc_page_cases s r) [
        | inl (page, t, run, g) ↦
            let given : (page == 0) ≡ false = ground (arith, g.place, g.frame_pos) in
            inl (
              page,
              set_entry table index (fresh_value page flags s t g) t,
              rw (absent, run, given) refl,
              made-IsLinked page flags s t g table index odd,
            )
        | inr (t, run, spent) ↦ inr (t, rw (absent, run) refl, np, spent)
      ]
]
