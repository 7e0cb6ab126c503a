-- ===== src/Pmm/Free.antt =====
-- `PMM::free_pages`: the region becomes free again and joins its free neighbours.
use oronyx.Base.{ℕ, zero, suc, ◌+◌, ◌*◌, ◌^◌, ◌≤◌, ◌<◌, ◌≡◌, ◌≢◌, arith, ◌∙◌}
use oronyx.Base.{true, some, u64}
use native.Mathlib.Decide.{ℕ_discrete}
use oronyx.Base.Sums.{sum, sum-update}
use oronyx.Regions.{page_size, load, store}
use oronyx.Regions.Order.{used_by, holds, holds_free, free_len, flagged, flagged-IsTable, apart_lt}
use oronyx.Pmm.{State, release, free_from, free_pages}
use oronyx.Pmm.Alloc.{IsValid, IsMapped, IsPlaced, IsTiled, page_range}
use oronyx.Pmm.Joins.{Touching, IsJoined, joins_lem}

-- The region at `i` is used, and is the `size` bytes at `base`.
pub record IsUsed (base size i : ℕ) (s : State) : Type 0 where
  pub below : i < s.region_count
  pub range : s.regions i ≡ page_range base size

abbrev pub freed_at : ℕ → State → State
freed_at i s = record s { regions = flagged true i s.regions }

module _ (base size i : ℕ) (s : State) (t : IsValid s) (u : IsUsed base size i s) where
  -- No earlier region starts at `base`.
  starts_once : (q : ℕ) → q < i → (s.regions q).base ≢ base
  starts_once q h e =
      ground (arith, u.range, e, apart_lt t q i h u.below, t.sized q (omega (arith, u.below)))

  pub free_from-release :
      (k q : ℕ)
      → q + k ≡ s.region_count
      → q ≤ i
      → free_from base size k q s ≡ release i (s.regions i) s
  unfolding free_from
  free_from-release zero q e h = absurd (omega (arith, u.below))
  free_from-release (suc k) q e h =
      let loaded : load s.regions q ≡ some (s.regions q) = ground (arith, t.count_in) in
      elim (ℕ_discrete q i) [
        | yes same ↦ rw same (ground (arith, u.range, u.below, t.count_in))
        | no other ↦ ground (
          arith,
          loaded,
          starts_once q (omega arith),
          free_from-release k (q + 1) (omega arith) (omega arith),
        )
      ]

  pub freed-IsValid : IsValid (freed_at i s)
  freed-IsValid = flagged-IsTable t i u.below true

  freed_more :
      sum free_len (freed_at i s).regions s.region_count
      ≡ sum free_len s.regions s.region_count + size
  freed_more = ground (
    arith,
    u.range,
    sum-update free_len s.regions i (record (s.regions i) { is_free = true }) s.region_count
        u.below,
  )

  freed_used :
      (g : ℕ → ℕ → ℕ)
      → sum (used_by g) (freed_at i s).regions s.region_count + g base size
        ≡ sum (used_by g) s.regions s.region_count
  freed_used g = ground (
    arith,
    u.range,
    sum-update (used_by g) s.regions i (record (s.regions i) { is_free = true }) s.region_count
        u.below,
  )

  freed_holds :
      (x : ℕ)
      → (sum (holds x) (freed_at i s).regions s.region_count
          ≡ sum (holds x) s.regions s.region_count)
        × (sum (holds_free x) (freed_at i s).regions s.region_count
            ≡ sum (holds_free x) s.regions s.region_count + holds x (page_range base size))
  freed_holds x = (
    ground (
      arith,
      u.range,
      sum-update (holds x) s.regions i (record (s.regions i) { is_free = true }) s.region_count
          u.below,
    ),
    ground (
      arith,
      u.range,
      sum-update (holds_free x) s.regions i (record (s.regions i) { is_free = true }) s.region_count
          u.below,
    ),
  )

-- The used `size` bytes at `base` of `s` are free in `s'`; all else stays. If the free neighbours
-- touch the region, then no other address is held, and no other is free.
pub record IsFreed (base size i : ℕ) (s s' : State) : Type 0 where
  pub valid : IsValid s'
  pub more : sum free_len s'.regions s'.region_count ≡ sum free_len s.regions s.region_count + size
  pub used_less :
      (g : ℕ → ℕ → ℕ)
      → sum (used_by g) s'.regions s'.region_count + g base size
        ≡ sum (used_by g) s.regions s.region_count
  pub mapped : IsMapped s → IsMapped s'
  pub placed : IsPlaced s → IsPlaced s'
  pub tiled : IsTiled s → IsTiled s'
  pub same_holds :
      Touching i s
      → (x : ℕ)
      → (sum (holds x) s'.regions s'.region_count ≡ sum (holds x) s.regions s.region_count)
        × (sum (holds_free x) s'.regions s'.region_count
            ≡ sum (holds_free x) s.regions s.region_count + holds x (page_range base size))
  pub same_memory : s'.memory ≡ s.memory
  pub same_offset : s'.hhdm_offset ≡ s.hhdm_offset
  pub same_log : s'.log ≡ s.log

module _ (base count i : ℕ) (s : State) (t : IsValid s) (small : count * page_size < 2 ^ 64)
    (u : IsUsed base (count * page_size) i s) where
  Touching-freed : Touching i s → Touching i (freed_at i s)
  Touching-freed c = record {
    before = λ p f. ground (arith, c.before, f);
    after = λ p f. ground (arith, c.after, f);
  }

  pub release_lem :
      (s' : State) × (release i (s.regions i) s ≡ some s')
      × IsJoined (freed_at i s) s' (Touching i (freed_at i s))
  unfolding release
  release_lem =
      let stored : store s.regions i (record (s.regions i) { is_free = true })
          ≡ some (flagged true i s.regions) =
        ground (arith, u.below, t.count_in) in
      rw stored (
        joins_lem i (freed_at i s) (freed-IsValid base (count * page_size) i s t u) u.below
          (ground arith))

  -- In a valid state, a call for a used region of exactly `count` pages makes it free again: the
  -- free bytes grow by its size, the state stays valid, and if the free neighbours touch the
  -- region, then exactly its addresses become free and no address is gained or lost.
  pub free_pages-IsFreed :
      (s' : State) × (free_pages base count s ≡ some s') × IsFreed base (count * page_size) i s s'
  unfolding free_pages
  free_pages-IsFreed =
      let size = count * page_size in
      let plain : u64 (count * page_size) ≡ size = omega arith in
      let (s', run, j) = release_lem in
      (
        s',
        rw (plain, free_from-release base size i s t u s.region_count 0 (omega arith) (omega arith))
            run,
        record {
          valid = j.valid;
          more = j.same_free ∙ freed_more base size i s t u;
          used_less = λ g. omega (arith, j.same_used g, freed_used base size i s t u g);
          mapped = λ m. j.mapped (λ q h. ground (arith, m q h));
          placed = λ m. j.placed (λ q h. ground (arith, m q h));
          tiled = λ m. j.tiled (λ q h. ground (arith, m q h));
          same_holds = λ c x. (
            (j.same_holds (Touching-freed c) x).0 ∙ (freed_holds base size i s t u x).0,
            (j.same_holds (Touching-freed c) x).1 ∙ (freed_holds base size i s t u x).1,
          );
          same_memory = j.same_memory;
          same_offset = j.same_offset;
          same_log = j.same_log;
        },
      )
