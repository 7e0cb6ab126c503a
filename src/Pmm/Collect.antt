-- ===== src/Pmm/Collect.antt =====
-- The first loop of `PMM::init`: from the entries of the memory map to regions of whole pages.
use oronyx.Base.{
  ℕ, suc, ◌+◌, ◌≤◌, ◌<◌, ◌≡◌, refl, arith, u64, update, true, false, some, List, [], ◌∷◌,
}
use oronyx.Base.{Bool-cases, inl, inr}
use native.Mathlib.Decide.{dec_lt}
use oronyx.Base.Sums.{sum, sum-update_out}
use oronyx.Regions.Order.{holds}
use oronyx.Pmm.{State, Entry, collect}
use oronyx.Pmm.Entries.{is_kept, kept, region_of, total, entry_holds_page, holds-region_of}
use oronyx.Pmm.Entries.{AllFit, Fits, IsPages, region_of-IsPages}

pub record IsCollected (es : List Entry) (s s' : State) : Type 0 where
  pub count : s'.region_count ≡ s.region_count + total kept es
  pub pages : (m : ℕ) → m < s'.region_count → IsPages (s'.regions m)
  pub held :
      (x : ℕ)
      → sum (holds x) s'.regions s'.region_count
        ≡ sum (holds x) s.regions s.region_count + total (entry_holds_page x) es
  pub same_offset : s'.hhdm_offset ≡ s.hhdm_offset
  pub same_memory : s'.memory ≡ s.memory
  pub same_log : s'.log ≡ s.log

abbrev added : Entry → State → State
added e s = record s {
  regions = update s.regions s.region_count (region_of e);
  region_count = u64 (s.region_count + 1);
}

collect-kept :
    (e : Entry) (es : List Entry) (s : State)
    → s.region_count < 64
    → is_kept e ≡ true
    → collect (e ∷ es) s ≡ collect es (added e s)
unfolding collect
collect-kept e es s h k = ground arith

collect-skipped :
    (e : Entry) (es : List Entry) (s : State)
    → s.region_count < 64
    → is_kept e ≡ false
    → collect (e ∷ es) s ≡ collect es s
unfolding collect
collect-skipped e es s h k = ground arith

collect-full : (es : List Entry) (s : State) → ¬ (s.region_count < 64) → collect es s ≡ some s
unfolding collect
collect-full [] s h = refl
collect-full (e ∷ es) s h = ground arith

total-none :
    (x : ℕ) (es : List Entry) → AllFit es → total kept es ≡ 0 → total (entry_holds_page x) es ≡ 0
total-none x [] fit h = refl
total-none x (e ∷ es) fit h = ground (arith, holds-region_of x e fit.0, total-none x es fit.1)

sum-added :
    (x : ℕ) (e : Entry) (s : State)
    → s.region_count < 64
    → sum (holds x) (added e s).regions (added e s).region_count
      ≡ sum (holds x) s.regions s.region_count + holds x (region_of e)
sum-added x e s h =
    let plain : u64 (s.region_count + 1) ≡ suc s.region_count = omega arith in
    rw plain (
      ground
        (arith, sum-update_out (holds x) s.regions s.region_count (region_of e) s.region_count))

IsCollected-added :
    {e : Entry} {es : List Entry} {s s' : State}
    → Fits e
    → s.region_count < 64
    → is_kept e ≡ true
    → IsCollected es (added e s) s'
    → IsCollected (e ∷ es) s s'
IsCollected-added {e} {es} {s} fit h k c = record {
  count = ground (arith, c.count);
  pages = c.pages;
  held = λ x. ground (arith, c.held x, sum-added x e s h, holds-region_of x e fit);
  same_offset = c.same_offset;
  same_memory = c.same_memory;
  same_log = c.same_log;
}

IsCollected-skipped :
    {e : Entry} {es : List Entry} {s s' : State}
    → Fits e
    → is_kept e ≡ false
    → IsCollected es s s'
    → IsCollected (e ∷ es) s s'
IsCollected-skipped {e} {es} {s} fit k c = record {
  count = ground (arith, c.count);
  pages = c.pages;
  held = λ x. ground (arith, c.held x, holds-region_of x e fit);
  same_offset = c.same_offset;
  same_memory = c.same_memory;
  same_log = c.same_log;
}

IsCollected-none :
    {es : List Entry} {s : State}
    → AllFit es
    → total kept es ≡ 0
    → ((m : ℕ) → m < s.region_count → IsPages (s.regions m))
    → IsCollected es s s
IsCollected-none {es} fit e pages = record {
  count = omega arith;
  pages = pages;
  held = λ x. omega (arith, total-none x es fit e);
  same_offset = refl;
  same_memory = refl;
  same_log = refl;
}

pub collect_lem :
    (es : List Entry) (s : State)
    → AllFit es
    → s.region_count + total kept es ≤ 64
    → ((m : ℕ) → m < s.region_count → IsPages (s.regions m))
    → (s' : State) × (collect es s ≡ some s') × IsCollected es s s'
collect_lem [] s fit room pages = (s, unfold collect in refl, IsCollected-none fit refl pages)
collect_lem (e ∷ es) s fit room pages = elim (dec_lt s.region_count 64) [
  | yes h ↦ elim (Bool-cases (is_kept e)) [
    | inl k ↦
        let (s', run, c) =
          collect_lem es (added e s) fit.1 (ground arith)
            (λ m l. ground (arith, pages m, region_of-IsPages e fit.0 k)) in
        (s', rw (collect-kept e es s h k) run, IsCollected-added fit.0 h k c)
    | inr k ↦
        let (s', run, c) = collect_lem es s fit.1 (ground arith) pages in
        (s', rw (collect-skipped e es s h k) run, IsCollected-skipped fit.0 k c)
  ]
  | no h ↦ (s, collect-full (e ∷ es) s h, IsCollected-none fit (omega arith) pages)
]
