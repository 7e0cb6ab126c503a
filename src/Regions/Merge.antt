-- ===== src/Regions/Merge.antt =====
-- The merging loop of `PMM::init`: it ends within its fuel, stays inside the array, and leaves
-- regions that are pairwise apart and hold the same addresses.
use oronyx.Base.{ℕ, zero, suc, ◌+◌, ◌≤◌, ◌<◌, ◌≡◌, refl, arith, ◌∙◌, u64, sub64, true}
use oronyx.Base.{some, ◌==◌, if◌then◌else◌, Bool-cases, ==_iff, inl, inr}
use native.Mathlib.Decide.{dec_lt}
use oronyx.Base.Sums.{sum}
use oronyx.Regions.{Regions, Table, merge_from}
use oronyx.Regions.Shift.{absorbed, absorb_lem}
use oronyx.Regions.Order.{IsTable, holds, absorbed-IsTable, sum-holds-absorbed}

-- Up to the region at `i` there is a gap between each two neighbours.
abbrev HasGaps : ℕ → Regions → Type 0
HasGaps i a = (m : ℕ) → suc m ≤ i → (a m).base + (a m).len < (a (suc m)).base

pub record IsMerged (n : ℕ) (a : Regions) (t : Table) : Type 0 where
  pub table : IsTable t.0 t.1
  pub nonempty : 0 < t.0
  pub gaps : (m : ℕ) → suc m < t.0 → (t.1 m).base + (t.1 m).len < (t.1 (suc m)).base
  pub same : (x : ℕ) → sum (holds x) t.1 t.0 ≡ sum (holds x) a n
  pub free : (m : ℕ) → m < t.0 → (t.1 m).is_free ≡ true

merge_round :
    (fuel i l : ℕ) (a : Regions)
    → IsTable (suc l) a
    → i < l
    → merge_from (suc fuel) i (suc l) a ≡ (
        if (a i).base + (a i).len == (a (suc i)).base
        then merge_from fuel i l (absorbed i l a)
        else merge_from fuel (i + 1) (suc l) a)
unfolding merge_from
merge_round fuel i l a t h =
    let e : i + 1 ≡ suc i = omega arith in
    let back : u64 (sub64 i 1 + 1) ≡ i = omega (arith, t.count_in) in
    let less : sub64 (suc l) 1 ≡ l = omega (arith, t.count_in) in
    let plain : u64 ((a i).base + (a i).len) ≡ (a i).base + (a i).len =
      omega (arith, t.inside i (omega arith)) in
    ground (arith, e, back, less, plain, t.count_in, absorb_lem i l a)

merge_end :
    (fuel i l : ℕ) (a : Regions)
    → IsTable (suc l) a
    → ¬ (i < l)
    → merge_from (suc fuel) i (suc l) a ≡ some (suc l, a)
unfolding merge_from
merge_end fuel i l a t h = ground (arith, t.count_in)

IsMerged-absorbed :
    {l : ℕ} {a : Regions} {r : Table}
    → IsTable (suc l) a
    → (i : ℕ) → i < l
    → ((a i).base + (a i).len == (a (suc i)).base) ≡ true
    → IsMerged l (absorbed i l a) r
    → IsMerged (suc l) a r
IsMerged-absorbed {l} {a} t i h e m = record {
  table = m.table;
  nonempty = m.nonempty;
  gaps = m.gaps;
  same = λ x. m.same x ∙ sum-holds-absorbed t i h x (touch ((==_iff _ _).0 e));
  free = m.free;
}
  where
    touch : (a i).base + (a i).len ≡ (a (suc i)).base → (a i).base + (a i).len ≡ (a (i + 1)).base
    touch p = ground arith

pub merge_from_lem :
    (fuel i n : ℕ) (a : Regions)
    → IsTable n a
    → i < n
    → n < i + fuel
    → HasGaps i a
    → ((m : ℕ) → m < n → (a m).is_free ≡ true)
    → (t : Table) × (merge_from fuel i n a ≡ some t) × IsMerged n a t
merge_from_lem zero i n a t below enough gaps free = absurd (omega arith)
merge_from_lem (suc fuel) i zero a t below enough gaps free = absurd (omega arith)
merge_from_lem (suc fuel) i (suc l) a t below enough gaps free = elim (dec_lt i l) [
  | yes h ↦ elim (Bool-cases ((a i).base + (a i).len == (a (suc i)).base)) [
    | inl e ↦
        let (r, run, m) =
          merge_from_lem fuel i l (absorbed i l a) (absorbed-IsTable t i h) h (omega arith)
            (λ q k. ground (arith, gaps q)) (λ q k. ground (arith, free q, free (q + 1), free i)) in
        (r, rw (merge_round fuel i l a t h, e) run, IsMerged-absorbed {r = r} t i h e m)
    | inr e ↦
        let (r, run, m) =
          merge_from_lem fuel (i + 1) (suc l) a t (omega arith) (omega arith)
            (λ q k. ground (arith, gaps q, t.apart i)) free in
        (r, rw (merge_round fuel i l a t h, e) run, m)
  ]
  | no h ↦ (
    (suc l, a),
    merge_end fuel i l a t h,
    record {
      table = t;
      nonempty = omega arith;
      gaps = λ q k. gaps q (omega arith);
      same = λ x. refl;
      free = free;
    },
  )
]
