-- ===== src/Pmm/Join.antt =====
-- What one join of two free neighbours by `PMM::free_pages` does to the state.
use oronyx.Base.{
  ℕ, suc, ◌+◌, ◌-◌, ◌<◌, ◌≡◌, ◌⊎◌, inl, inr, refl, arith, ◌∙◌, ap, sym, subst, true, false,
}
use oronyx.Base.{some, Bool-cases, sub64}
use native.Mathlib.Decide.{dec_lt}
use oronyx.Base.Sums.{sum}
use oronyx.Regions.{Regions, load}
use oronyx.Regions.Shift.{absorbed, absorb_at, sum-absorbed}
use oronyx.Regions.Order.{
  used_by, IsTable, holds, holds_free, free_len, absorbed-IsTable, len-joined,
}
use oronyx.Regions.Order.{sum-holds-absorbed, sum-free_len-absorbed}
use oronyx.Pmm.{State, join_previous, join_next}
use oronyx.Pmm.Alloc.{IsValid, IsMapped, IsPlaced, IsTiled}

-- The state after the join of the regions at `k` and `k + 1`.
abbrev pub joined_at : ℕ → State → State
joined_at k s = record s {
  regions = absorbed k (s.region_count - 1) s.regions;
  region_count = s.region_count - 1;
}

abbrev pub IsFreeAt : ℕ → State → Type 0
IsFreeAt k s = (s.regions k).is_free ≡ true

abbrev pub Touch : ℕ → State → Type 0
Touch k s = (s.regions k).base + (s.regions k).len ≡ (s.regions (k + 1)).base

-- The valid state `s'` has the free bytes of `s`; it holds the same addresses, and the same as free.
pub record IsSame (s s' : State) : Type 0 where
  pub valid : IsValid s'
  pub same_free : sum free_len s'.regions s'.region_count ≡ sum free_len s.regions s.region_count
  pub same_used :
      (g : ℕ → ℕ → ℕ)
      → sum (used_by g) s'.regions s'.region_count ≡ sum (used_by g) s.regions s.region_count
  pub mapped : IsMapped s → IsMapped s'
  pub placed : IsPlaced s → IsPlaced s'
  pub tiled : IsTiled s → IsTiled s'

abbrev pub HoldsSame : State → State → Type 0
HoldsSame s s' =
    (x : ℕ)
    → (sum (holds x) s'.regions s'.region_count ≡ sum (holds x) s.regions s.region_count)
      × (sum (holds_free x) s'.regions s'.region_count
          ≡ sum (holds_free x) s.regions s.region_count)

module _ {l : ℕ} {a : Regions} (t : IsTable (suc l) a) (i : ℕ) (below : i < l)
    (f : (a i).is_free ≡ true) (g : (a (i + 1)).is_free ≡ true) where
  sum-holds_free-absorbed :
      (x : ℕ)
      → (a i).base + (a i).len ≡ (a (i + 1)).base
      → sum (holds_free x) (absorbed i l a) l ≡ sum (holds_free x) a (suc l)
  sum-holds_free-absorbed x touch =
      ground (arith, sum-absorbed (holds_free x) i l a below, len-joined t i below)

sum-used_by-absorbed :
    (i l : ℕ) (a : Regions)
    → i < l
    → (a i).is_free ≡ true
    → (a (i + 1)).is_free ≡ true
    → (g : ℕ → ℕ → ℕ) → sum (used_by g) (absorbed i l a) l ≡ sum (used_by g) a (suc l)
sum-used_by-absorbed i l a below f f' g = ground (arith, sum-absorbed (used_by g) i l a below)

module _ (k : ℕ) (s : State) (t : IsValid s) (below : suc k < s.region_count) (f : IsFreeAt k s)
    (g : IsFreeAt (k + 1) s) where
  last : s.region_count ≡ suc (s.region_count - 1)
  last = omega arith

  t' : IsTable (suc (s.region_count - 1)) s.regions
  t' = subst (λ n. IsTable n s.regions) last t

  pub joined_at-IsSame : IsSame s (joined_at k s)
  joined_at-IsSame = record {
    valid = absorbed-IsTable t' k (omega arith);
    same_free =
        sum-free_len-absorbed t' k (omega arith) f g
        ∙ ap (λ (n : ℕ). sum free_len s.regions n) (sym last);
    same_used = λ u.
        sum-used_by-absorbed k (s.region_count - 1) s.regions (omega arith) f g u
        ∙ ap (λ (n : ℕ). sum (used_by u) s.regions n) (sym last);
    placed = λ m i h. ground (arith, m i, m (i + 1));
    tiled = λ c i h. ground (arith, c i, c (i + 1), c k below, len-joined t' k (omega arith));
    mapped = λ m i h.
        ground
          (arith, m i, m (i + 1), m k, m (k + 1), len-joined t' k (omega arith), t.apart k below);
  }

  pub joined_at-HoldsSame : Touch k s → HoldsSame s (joined_at k s)
  joined_at-HoldsSame touch x = (
    sum-holds-absorbed t' k (omega arith) x touch
        ∙ ap (λ (n : ℕ). sum (holds x) s.regions n) (sym last),
    sum-holds_free-absorbed t' k (omega arith) f g x touch
        ∙ ap (λ (n : ℕ). sum (holds_free x) s.regions n) (sym last),
  )

pub join_previous-zero : (s : State) → join_previous 0 s ≡ some (0, s)
unfolding join_previous
join_previous-zero s = refl

pub join_previous_cases :
    (k : ℕ) (s : State)
    → IsValid s
    → suc k < s.region_count
    → ((join_previous (suc k) s ≡ some (suc k, s)) × ((s.regions k).is_free ≡ false))
      ⊎ (IsFreeAt k s × (join_previous (suc k) s ≡ some (k, joined_at k s)))
unfolding join_previous
join_previous_cases k s t below =
    let e : suc k - 1 ≡ k = omega arith in
    let loaded : load s.regions k ≡ some (s.regions k) = ground (arith, t.count_in) in
    let less : sub64 s.region_count 1 ≡ s.region_count - 1 = omega (arith, t.count_in) in
    let absorbs = absorb_at k s.region_count s.regions below t.count_in in
    elim (Bool-cases (s.regions k).is_free) [
      | inl f ↦ inr (f, ground (arith, e, loaded, f, absorbs, less))
      | inr f ↦ inl (ground (arith, e, loaded, f), f)
    ]

pub join_next_cases :
    (i : ℕ) (s : State)
    → IsValid s
    → i < s.region_count
    → ((join_next i s ≡ some s)
        × ((suc i ≡ s.region_count) ⊎ ((s.regions (i + 1)).is_free ≡ false)))
      ⊎ ((suc i < s.region_count) × IsFreeAt (i + 1) s × (join_next i s ≡ some (joined_at i s)))
unfolding join_next
join_next_cases i s t below =
    let less : sub64 s.region_count 1 ≡ s.region_count - 1 = omega (arith, t.count_in) in
    elim (dec_lt (suc i) s.region_count) [
      | no z ↦ inl (ground (arith, less), omega arith)
      | yes p ↦
          let loaded : load s.regions (i + 1) ≡ some (s.regions (i + 1)) =
            ground (arith, t.count_in) in
          elim (Bool-cases (s.regions (i + 1)).is_free) [
            | inl f ↦ inr (
              p,
              f,
              ground (arith, loaded, less, f, absorb_at i s.region_count s.regions p t.count_in),
            )
            | inr f ↦ inl (ground (arith, loaded, less, f), inr f)
          ]
    ]
