-- ===== src/Paging/Empty.antt =====
-- Page tables made from new pages: entries that stay while further tables are made.
use oronyx.Base.{ℕ, ◌+◌, ◌*◌, ◌/◌, ◌%◌, ◌^◌, ◌<◌, ◌≡◌, ◌≢◌, ◌⊎◌, inl, inr, refl, sym, ◌∙◌, arith}
use oronyx.Base.{bit_and, true, false, some, none}
use oronyx.Base.Bits.{bit_and-low}
use oronyx.Base.BitAt.{bit_at, bit_at-bit_or, bit_at-bit_and, bit_and-pow}
use oronyx.Paging.{State, next_table, index_of, huge, frame_mask}
use oronyx.Paging.Tables.{slot, table_of, is_present, is_page}
use oronyx.Paging.Walk.{page_value}
use oronyx.Paging.Fresh.{IsReady, IsSpent}
use oronyx.Paging.Link.{IsLinked, Makes, next_table_cases}
use oronyx.Paging.Fresh.{IsTaken}
use oronyx.Paging.Space.{Makes-apart, Makes-keeps, Makes-IsTaken}

mask_bit : bit_at 7 frame_mask ≡ 0
unfolding bit_at
mask_bit = refl

-- An entry for a table is no page.
page_value-small :
    (frame flags : ℕ) → bit_and flags huge ≡ 0 → bit_and (page_value frame flags) 0x80 ≡ 0
page_value-small frame flags small = omega (
  arith,
  bit_and-pow 7 (page_value frame flags),
  bit_at-bit_or 7 (bit_and frame frame_mask) (bit_and flags 0xfff),
  bit_at-bit_and 7 frame frame_mask,
  bit_at-bit_and 7 flags 0xfff,
  bit_and-pow 7 flags,
  mask_bit,
)

pub index_of-lt : (shift virt : ℕ) → index_of shift virt < 512
index_of-lt shift virt = omega (arith, bit_and-low 9 (virt / 2 ^ shift))

-- An entry at a taken address that points to a table.
pub record IsEntry (addr next : ℕ) (s : State) : Type 0 where
  pub taken : IsTaken addr s
  pub linked : is_present addr s ≡ true
  pub inner_table : is_page addr s ≡ false
  pub target : table_of s (s.pmm.memory addr) ≡ next

-- From `s` to `s'` the entry at `addr` was made to point to a new table, in which the entry at
-- `inner` is not present. Taken addresses are not `inner`, and other entries stay.
pub record IsStep (addr next inner : ℕ) (s s' : State) : Type 0 where
  pub made : IsEntry addr next s'
  pub absent : is_present inner s' ≡ false
  pub taken : IsTaken inner s'
  pub apart : (x : ℕ) → IsTaken x s → x ≢ inner
  pub kept : (x page : ℕ) → IsEntry x page s → x ≢ addr → IsEntry x page s'
  pub ready : IsReady s'
  pub same_offset : s'.hhdm_offset ≡ s.hhdm_offset
  pub same_cr3 : s'.cr3 ≡ s.cr3
  pub same_flushed : s'.flushed ≡ s.flushed

-- A new table that an entry at a taken address points to: the entry is outside the table.
module _ (table index flags next : ℕ) (s s' : State) (r : IsReady s)
    (l : IsLinked table index flags next s s') (absent : is_present (slot table index) s ≡ false)
    (taken : IsTaken (slot table index) s) where
  abbrev made : Makes table index flags next s s'
  made = l.made absent

  pub inner : (w : ℕ) → w < 512 → slot next w ≡ next + 8 * w
  inner w h = let (_, _, _, fits, _, _) = made in omega arith

  pub taken_apart : (x w : ℕ) → w < 512 → IsTaken x s → x ≢ slot next w
  taken_apart x w h t =
      rw (inner w h)
        (λ e. omega (arith, Makes-apart table index flags next s s' made l.same_offset x t))

  pub taken_kept : (x : ℕ) → IsTaken x s → IsTaken x s'
  taken_kept x t = Makes-keeps table index flags next s s' made l.same_offset x t

  pub word_kept : (x : ℕ) → IsTaken x s → x ≢ slot table index → s'.pmm.memory x ≡ s.pmm.memory x
  word_kept x t ne = l.others x ne (Makes-apart table index flags next s s' made l.same_offset x t)

  pub entry_taken : (w : ℕ) → w < 512 → IsTaken (slot next w) s'
  entry_taken w h = rw (inner w h) (
      Makes-IsTaken table index flags next s s' made l.same_offset r (next + 8 * w) (omega arith)
        (omega arith))

  pub entry_absent : (w : ℕ) → w < 512 → is_present (slot next w) s' ≡ false
  entry_absent w h =
      let zero_word =
        l.empty absent w h (λ e. taken_apart (slot table index) w h taken (sym (inner w h ∙ e))) in
      rw (inner w h, zero_word) refl

  pub not_page : bit_and flags huge ≡ 0 → is_page (slot table index) s' ≡ false
  not_page small =
      let (frame, _, _, _, value, _) = made in rw (value, page_value-small frame flags small) refl

  made-IsEntry : bit_and flags huge ≡ 0 → IsEntry (slot table index) next s'
  made-IsEntry small = record {
    taken = taken_kept (slot table index) taken;
    linked = l.linked;
    inner_table = not_page small;
    target = l.target;
  }

  kept-IsEntry :
      (addr page : ℕ) → IsEntry addr page s → addr ≢ slot table index → IsEntry addr page s'
  kept-IsEntry addr page e ne =
      let word = word_kept addr e.taken ne in
      record {
        taken = taken_kept addr e.taken;
        linked = rw word e.linked;
        inner_table = rw word e.inner_table;
        target = rw (word, l.same_offset) e.target;
      }

  link-IsStep :
      (shift virt : ℕ)
      → bit_and flags huge ≡ 0
      → IsStep (slot table index) next (slot next (index_of shift virt)) s s'
  link-IsStep shift virt small =
      let h = index_of-lt shift virt in
      record {
        made = made-IsEntry small;
        absent = entry_absent (index_of shift virt) h;
        taken = entry_taken (index_of shift virt) h;
        apart = λ x t. taken_apart x (index_of shift virt) h t;
        kept = kept-IsEntry;
        ready = l.ready;
        same_offset = l.same_offset;
        same_cr3 = l.same_cr3;
        same_flushed = l.same_flushed;
      }

-- The two outcomes of `next_table` at a taken entry that is not present.
abbrev pub Steps : ℕ → ℕ → ℕ → ℕ → ℕ → State → Type 0
Steps table index flags shift virt s =
    (next : ℕ) × (s' : State) × (next_table table index flags s ≡ some (some next, s'))
    × IsStep (slot table index) next (slot next (index_of shift virt)) s s'

abbrev pub StepsNone : ℕ → ℕ → ℕ → State → Type 0
StepsNone table index flags s =
    (s' : State) × (next_table table index flags s ≡ some (none, s')) × IsSpent s s'

pub step_cases :
    (table index flags shift virt : ℕ) (s : State)
    → bit_and flags huge ≡ 0
    → flags % 2 ≡ 1
    → IsReady s
    → is_present (slot table index) s ≡ false
    → IsTaken (slot table index) s
    → Steps table index flags shift virt s ⊎ StepsNone table index flags s
step_cases table index flags shift virt s small odd r absent taken =
    elim (next_table_cases table index flags s r odd) [
      | inl (next, s', run, l) ↦
          inl (
            next,
            s',
            run,
            link-IsStep table index flags next s s' r l absent taken shift virt small,
          )
      | inr (s', run, _, spent) ↦ inr (s', run, spent)
    ]
