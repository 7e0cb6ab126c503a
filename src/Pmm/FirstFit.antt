-- ===== src/Pmm/FirstFit.antt =====
-- The search of `PMM::alloc_pages` and its three outcomes.
use oronyx.Base.{
  ℕ, zero, suc, ◌+◌, ◌*◌, ◌%◌, ap, ◌∙◌, true, ◌^◌, ◌≤◌, ◌<◌, ◌≡◌, ◌≢◌, ◌⊎◌, inl, inr, refl, arith,
}
use oronyx.Base.{some, ◌&&◌, leb, Bool-cases, u64}
use native.Mathlib.Decide.{dec_lt, ℕ_discrete}
use oronyx.Regions.{Region, page_size, load}
use oronyx.Pmm.{State, print, putln, take_region, alloc_from, alloc_pages}
use oronyx.Pmm.Alloc.{IsValid, IsMapped, IsGranted, IsFit, exact, cut, take_region-exact}
use oronyx.Pmm.Alloc.{take_region-full, take_region-cut, exact-IsGranted, cut-IsGranted}

-- The region at `m` is the first that fits `sz` bytes.
pub record IsFirstFit (sz m : ℕ) (s : State) : Type 0 where
  pub below : m < s.region_count
  pub fit : IsFit sz (s.regions m)
  pub first : (q : ℕ) → q < m → ¬ IsFit sz (s.regions q)

abbrev pub no_fit : State → State
no_fit s = print (putln "PMM: No suitable region found!") s

abbrev pub no_room : State → State
no_room s = print (putln "PMM: No space for new region!") s

alloc_from_cases :
    (sz : ℕ) (s : State) (k i : ℕ)
    → s.region_count ≤ 64
    → i + k ≡ s.region_count
    → ((q : ℕ) → q < i → ¬ IsFit sz (s.regions q))
    → ((m : ℕ) × IsFirstFit sz m s × (alloc_from sz k i s ≡ take_region sz m (s.regions m) s))
      ⊎ (((q : ℕ) → q < s.region_count → ¬ IsFit sz (s.regions q))
          × (alloc_from sz k i s ≡ some (0, no_fit s)))
unfolding alloc_from
alloc_from_cases sz s zero i h e none_before = inr ((λ q l. none_before q (omega arith)), refl)
alloc_from_cases sz s (suc k) i h e none_before =
    let loaded : load s.regions i ≡ some (s.regions i) = ground arith in
    elim (Bool-cases ((s.regions i).is_free && leb sz (s.regions i).len)) [
      | inl yes_fit ↦ inl (
        i,
        record { below = omega arith; fit = yes_fit; first = none_before },
        rw (loaded, yes_fit),
      )
      | inr not_fit ↦
          rw (loaded, not_fit)
            (alloc_from_cases sz s k (i + 1) h (omega arith) (λ q l. elim (ℕ_discrete q i) [
              | yes same ↦ rw same (λ f. cc)
              | no other ↦ none_before q (omega arith)
            ]))
    ]

longer_of_IsFit : (sz : ℕ) (r : Region) → IsFit sz r → r.len ≢ sz → sz < r.len
longer_of_IsFit sz r f ne = ground arith

-- A grant of `count` pages at the first fit `m`; a first fit that the full array cannot split; no
-- fit.
abbrev pub Grants : ℕ → State → Type 0
Grants count s =
    (m : ℕ) × IsFirstFit (count * page_size) m s
    × (((s.regions m).len ≡ count * page_size) ⊎ (s.region_count < 64))
    × ((s' : State) × (alloc_pages count s ≡ some ((s.regions m).base, s'))
        × IsGranted (count * page_size) s (s.regions m).base s')

abbrev pub HasNoRoom : ℕ → State → Type 0
HasNoRoom count s =
    (m : ℕ) × IsFirstFit (count * page_size) m s
    × (count * page_size < (s.regions m).len)
    × (s.region_count ≡ 64)
    × (alloc_pages count s ≡ some (0, no_room s))

abbrev pub HasNoFit : ℕ → State → Type 0
HasNoFit count s =
    ((q : ℕ) → q < s.region_count → ¬ IsFit (count * page_size) (s.regions q))
    × (alloc_pages count s ≡ some (0, no_fit s))

abbrev pub AllocReply : ℕ → State → Type 0
AllocReply count s = Grants count s ⊎ (HasNoRoom count s ⊎ HasNoFit count s)

module _ (count : ℕ) (s : State) (t : IsValid s) (mapped : IsMapped s) (pos : 0 < count)
    (small : count * page_size < 2 ^ 64) where
  abbrev size : ℕ
  size = count * page_size

  -- A first fit of the exact length, or room for one region more.
  grants :
      (m : ℕ)
      → IsFirstFit size m s
      → ((s.regions m).len ≡ size) ⊎ (s.region_count < 64)
      → (s' : State) × (take_region size m (s.regions m) s ≡ some ((s.regions m).base, s'))
        × IsGranted size s (s.regions m).base s'
  grants m f room = elim (ℕ_discrete (s.regions m).len size) [
    | yes e ↦ (
      exact size m s,
      take_region-exact size m s (omega (arith, f.below, t.count_in)) e,
      exact-IsGranted size m s t mapped f.below (omega arith) (omega arith) f.fit e,
    )
    | no ne ↦
        let longer = longer_of_IsFit size (s.regions m) f.fit ne in
        let free : s.region_count < 64 = omega arith in
        (
          cut size m s,
          take_region-cut size m s t f.below free longer,
          cut-IsGranted size m s t mapped f.below (omega arith) (omega arith) f.fit free longer,
        )
  ]

  -- In a valid state with its regions mapped below 2 ^ 64, a call for one page or more, of less than
  -- 2 ^ 64 bytes, ends in one of three ways. The first region that is free and long enough is
  -- granted, if its length is exact or the array has room. If the array
  -- is full and that region is longer, or if no region is free and long enough, the call returns 0
  -- and only prints.
  pub alloc_pages_outcome : AllocReply count s
  unfolding alloc_pages
  alloc_pages_outcome =
      let plain : u64 (count * page_size) ≡ size = omega arith in
      rw plain
        (elim (alloc_from_cases size s s.region_count 0 t.count_in (omega arith)
          (λ q l. absurd (omega arith))) [
            | inl (m, f, run) ↦ elim (dec_lt s.region_count 64) [
              | yes room ↦ inl (m, f, inr room, rw run (grants m f (inr room)))
              | no full ↦ elim (ℕ_discrete (s.regions m).len size) [
                | yes e ↦ inl (m, f, inl e, rw run (grants m f (inl e)))
                | no ne ↦
                    let longer = longer_of_IsFit size (s.regions m) f.fit ne in
                    inr (
                      inl (
                        m,
                        f,
                        longer,
                        omega (arith, t.count_in),
                        rw run (take_region-full size m s longer (omega arith)),
                      ))
              ]
            ]
            | inr (none_fits, run) ↦ inr (inr (none_fits, run))
          ])

-- A number of pages of 2 ^ 64 bytes or more wraps around: the call grants what the number modulo
-- 2 ^ 52 asks for. If that is 0 and the first free region is longer than 0 bytes, as in a valid state,
-- then with room in the array the call returns the address of that region, which stays free, and
-- leaves a region of length 0, so that the state is no longer valid.
pub alloc_pages_wraps :
    (count m : ℕ) (s : State)
    → IsValid s
    → s.region_count < 64
    → IsFirstFit 0 m s
    → (alloc_pages count s ≡ alloc_pages (count % 2 ^ 52) s)
      × ((u : State) × (alloc_pages 0 s ≡ some ((s.regions m).base, u))
          × (u.region_count ≡ s.region_count + 1)
          × ((u.regions m).len ≡ 0)
          × ((u.regions (m + 1)).base ≡ (s.regions m).base)
          × ((u.regions (m + 1)).is_free ≡ true)
          × ¬ IsValid u)
unfolding alloc_pages
alloc_pages_wraps count m s t room f =
    let wrap : u64 (count * page_size) ≡ u64 (count % 2 ^ 52 * page_size) = omega arith in
    let longer : 0 < (s.regions m).len = ground (arith, t.sized m f.below) in
    let run = take_region-cut 0 m s t f.below room longer in
    (
      ap (λ z. alloc_from z s.region_count 0 s) wrap,
      elim (alloc_from_cases 0 s s.region_count 0 t.count_in (omega arith)
          (λ q l. absurd (omega arith))) [
            | inl (k, g, found) ↦
                let same : k ≡ m = elim (dec_lt k m) [
                  | yes less ↦ absurd (f.first k less g.fit)
                  | no not_less ↦ elim (dec_lt m k) [
                    | yes more ↦ absurd (g.first m more f.fit)
                    | no not_more ↦ omega (arith, not_less, not_more)
                  ]
                ] in
                (
                  cut 0 m s,
                  (rw same at found) ∙ run,
                  refl,
                  ground arith,
                  ground arith,
                  ground arith,
                  λ v. ground (arith, v.sized m (omega (arith, f.below))),
                )
            | inr (none_fits, _) ↦ absurd (none_fits m f.below f.fit)
          ],
    )
