-- ===== src/Graphics/Offset.antt =====
-- The pixels of the frame buffer by column and line.
use oronyx.Base.{ℕ, suc, ◌+◌, ◌*◌, ◌^◌, ◌≤◌, ◌<◌, ◌≡◌, arith, ap, ◌&&◌, ◌==◌}
use native.Mathlib.Nat.{mul-le-mul_right}
use oronyx.Graphics.{offset}

-- For `height` lines of `pitch` pixels that a `size_t` can count.
module _ (pitch height : ℕ) (fits : height * pitch ≤ 2 ^ 64) where
  pub offset_lem : (x y : ℕ) → x < pitch → y < height → offset pitch x y ≡ y * pitch + x
  unfolding offset
  offset_lem x y hx hy =
      let line : suc y * pitch ≤ height * pitch = mul-le-mul_right pitch (omega arith) in
      omega arith

  line_lt : (x y v w : ℕ) → x < pitch → y < w → y * pitch + x < w * pitch + v
  line_lt x y v w hx h =
      let line : suc y * pitch ≤ w * pitch = mul-le-mul_right pitch (omega arith) in omega arith

  pub offset_eq :
      (x y v w : ℕ)
      → x < pitch
      → y < height
      → v < pitch
      → w < height
      → (offset pitch x y == offset pitch v w) ≡ (x == v && y == w)
  offset_eq x y v w hx hy hv hw = ground (
    arith,
    offset_lem x y hx hy,
    offset_lem v w hv hw,
    line_lt x y v w hx,
    line_lt v w x y hv,
    (λ (e : y ≡ w). ap (λ (t : ℕ). t * pitch) e),
  )
