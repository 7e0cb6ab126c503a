-- ===== src/Pmm/Gap.antt =====
-- `PMM::free_pages` does not compare addresses before it joins: what that does across a gap.
use oronyx.Base.{ℕ, suc, ◌+◌, ◌-◌, ◌*◌, ◌^◌, ◌≤◌, ◌<◌, ◌≡◌, inl, inr, arith, true, some, u64}
use oronyx.Base.{◌>>=◌, subst}
use native.Mathlib.Decide.{dec_le, ℕ_discrete}
use oronyx.Base.Sums.{sum, sum-zero, le-sum}
use oronyx.Regions.{page_size, store}
use oronyx.Regions.Order.{IsTable, holds, holds_free, flagged, apart_lt, len-joined}
use oronyx.Pmm.{State, release, free_pages, join_previous, join_next}
use oronyx.Pmm.Alloc.{IsValid}
use oronyx.Pmm.Join.{joined_at, IsFreeAt, joined_at-IsSame, join_previous_cases, join_next_cases}
use oronyx.Pmm.Free.{IsUsed, freed_at, free_from-release, freed-IsValid}

-- The region at `k` is free and holds the address `x`.
abbrev Covers : ℕ → ℕ → State → Type 0
Covers x k s =
    IsFreeAt k s × ((s.regions k).base ≤ x) × (x < (s.regions k).base + (s.regions k).len)

module _ (k : ℕ) (s : State) (t : IsValid s) (below : suc k < s.region_count) where
  len_at : (((joined_at k s).regions k).len) ≡ (s.regions k).len + (s.regions (k + 1)).len
  len_at =
      let last : s.region_count ≡ suc (s.region_count - 1) = omega arith in
      let t' = subst (λ n. IsTable n s.regions) last t in
      ground (arith, len-joined t' k (omega arith))

  Covers-joined_at : (x : ℕ) → Covers x k s → Covers x k (joined_at k s)
  Covers-joined_at x c = (ground arith, ground arith, ground (arith, len_at))

Covers-join_next :
    (x k : ℕ) (s : State)
    → IsValid s
    → k < s.region_count
    → Covers x k s
    → (s' : State) × (join_next k s ≡ some s') × (1 ≤ sum (holds_free x) s'.regions s'.region_count)
Covers-join_next x k s t below c = elim (join_next_cases k s t below) [
  | inl (run, why) ↦ (s, run, ground (arith, le-sum (holds_free x) s.regions k s.region_count))
  | inr (l, f, run) ↦ (
    joined_at k s,
    run,
    ground (
      arith,
      Covers-joined_at k s t l x c,
      le-sum (holds_free x) (joined_at k s).regions k (joined_at k s).region_count,
    ),
  )
]

module _ (base count k : ℕ) (s : State) (t : IsValid s) (small : count * page_size < 2 ^ 64)
    (u : IsUsed base (count * page_size) (suc k) s) (free : IsFreeAt k s)
    (gap : (s.regions k).base + (s.regions k).len < base) where
  abbrev hole : ℕ
  hole = (s.regions k).base + (s.regions k).len

  hole_unheld : sum (holds hole) s.regions s.region_count ≡ 0
  hole_unheld = sum-zero (holds hole) s.regions s.region_count λ m l. elim (dec_le m k) [
    | yes p ↦ elim (ℕ_discrete m k) [
      | yes e ↦ rw e (ground arith)
      | no ne ↦ ground (arith, apart_lt t m k (omega arith) (omega (arith, u.below)))
    ]
    | no p ↦ elim (ℕ_discrete m (suc k)) [
      | yes e ↦ rw e (ground (arith, u.range))
      | no ne ↦ ground (arith, u.range, apart_lt t (suc k) m (omega arith) l)
    ]
  ]

  abbrev freed : State
  freed = freed_at (suc k) s

  freed_t : IsValid freed
  freed_t = freed-IsValid base (count * page_size) (suc k) s t u

  covered : Covers hole k (joined_at k freed)
  covered = (
    ground (arith, free),
    ground arith,
    ground (arith, len_at k freed freed_t u.below, u.range, t.sized (suc k), u.below),
  )

  joins_across :
      (s' : State) × ((join_previous (suc k) freed >>= λ r. join_next r.0 r.1) ≡ some s')
      × (1 ≤ sum (holds_free hole) s'.regions s'.region_count)
  joins_across = elim (join_previous_cases k freed freed_t u.below) [
    | inl (run, used) ↦ absurd (ground (arith, free, used))
    | inr (f, run) ↦
        let f' : IsFreeAt (k + 1) freed = ground arith in
        let same = joined_at-IsSame k freed freed_t u.below f f' in
        let (s', run', one) =
          Covers-join_next hole k (joined_at k freed) same.valid (omega (arith, u.below)) covered in
        (s', rw run run', one)
  ]

  -- A call for a used region whose free predecessor ends below it joins the two across the gap: the
  -- address where the predecessor ends, which no region held, is free memory after the call.
  pub free_pages_gap :
      (s' : State) × (free_pages base count s ≡ some s')
      × (sum (holds hole) s.regions s.region_count ≡ 0)
      × (1 ≤ sum (holds_free hole) s'.regions s'.region_count)
  unfolding free_pages release
  free_pages_gap =
      let plain : u64 (count * page_size) ≡ count * page_size = omega arith in
      let stored : store s.regions (suc k) (record (s.regions (suc k)) { is_free = true })
          ≡ some (flagged true (suc k) s.regions) =
        ground (arith, u.below, t.count_in) in
      let (s', run, one) = joins_across in
      (
        s',
        rw
            (
              plain,
              free_from-release base (count * page_size) (suc k) s t u s.region_count 0
                  (omega arith) (omega arith),
              stored,
            )
            run,
        hole_unheld,
        one,
      )
