-- ===== src/Paging/Space.antt =====
-- Addresses that no free region of the manager holds.
use oronyx.Base.{ℕ, ◌+◌, ◌-◌, ◌≤◌, ◌<◌, ◌≡◌, ◌⊎◌, inl, inr, arith}
use oronyx.Base.Sums.{sum, sum_le}
use native.Mathlib.Decide.{dec_le, dec_lt}
use oronyx.Regions.{Regions}
use oronyx.Regions.Order.{sum-holds-le, IsTable, holds, holds_free}
use oronyx.Paging.{State}
use oronyx.Paging.Fresh.{IsReady, IsTaken}
use oronyx.Paging.Link.{Makes}

pub sum-holds_free : (n x : ℕ) (a : Regions) → IsTable n a → sum (holds_free x) a n ≤ 1
sum-holds_free n x a t = omega (
  arith,
  sum_le (holds_free x) (holds x) a n (λ m l. ground arith),
  sum-holds-le n n x a t (omega arith),
)

module _ (table index flags next : ℕ) (s s' : State) (m : Makes table index flags next s s')
    (same : s'.hhdm_offset ≡ s.hhdm_offset) where
  pub Makes-apart : (x : ℕ) → IsTaken x s → (x < next) ⊎ (next + 4096 ≤ x)
  Makes-apart x taken = elim (dec_lt x next) [
    | yes low ↦ inl low
    | no high ↦ elim (dec_le (next + 4096) x) [
      | yes above ↦ inr above
      | no inside ↦
          let (frame, _, place, _, _, free) = m in
          let p = x - s.hhdm_offset in absurd (ground (arith, taken p (omega arith), free p))
    ]
  ]

  pub Makes-keeps : (x : ℕ) → IsTaken x s → IsTaken x s'
  Makes-keeps x taken p e =
      let (frame, _, place, _, _, free) = m in omega (arith, taken p (omega arith), free p)

  pub Makes-IsTaken : IsReady s → (x : ℕ) → next ≤ x → x < next + 4096 → IsTaken x s'
  Makes-IsTaken r x low high p e =
      let (frame, _, place, _, _, free) = m in
      let one = sum-holds_free s.pmm.region_count p s.pmm.regions r.valid in
      ground (arith, free p, one)
