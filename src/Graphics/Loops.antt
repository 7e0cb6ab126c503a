-- ===== src/Graphics/Loops.antt =====
-- What the loops over pixels leave in each pixel of the frame buffer.
use oronyx.Base.{ℕ, zero, suc, ◌+◌, ◌-◌, ◌*◌, ◌^◌, ◌≤◌, ◌<◌, ◌≡◌, ap, arith, ◌∙◌, ◌&&◌, ◌==◌}
use oronyx.Base.{if◌then◌else◌, leb, ltb, Bool}
use oronyx.Graphics.{offset, fill_row, copy_row, fill_rows, copy_rows, font_height}
use oronyx.Graphics.Offset.{offset_eq}

-- Whether `x` is one of the `n` numbers from `first` on.
abbrev pub is_within : ℕ → ℕ → ℕ → Bool
is_within first n x = leb first x && ltb x (first + n)

module _ (pitch height : ℕ) (fits : height * pitch ≤ 2 ^ 64) where
  pub fill_row_lem :
      (n x y color : ℕ) (buffer : ℕ → ℕ) (v w : ℕ)
      → x + n ≤ pitch
      → y < height
      → v < pitch
      → w < height
      → fill_row pitch n x y color buffer (offset pitch v w)
        ≡ (if w == y && is_within x n v then color else buffer (offset pitch v w))
  unfolding fill_row
  fill_row_lem zero x y color buffer v w hn hy hv hw = ground arith
  fill_row_lem (suc n) x y color buffer v w hn hy hv hw =
      rw (fill_row_lem n (x + 1) y color _ v w (omega arith) hy hv hw)
        (ground (arith, offset_eq pitch height fits v w x y hv hw (omega arith) hy))

  pub copy_row_lem :
      (n x to from : ℕ) (buffer : ℕ → ℕ) (v w : ℕ)
      → x + n ≤ pitch
      → to < from
      → from < height
      → v < pitch
      → w < height
      → copy_row pitch n x to from buffer (offset pitch v w) ≡ (
          if w == to && is_within x n v
          then buffer (offset pitch v from)
          else buffer (offset pitch v w))
  unfolding copy_row
  copy_row_lem zero x to from buffer v w hn ht hf hv hw = ground arith
  copy_row_lem (suc n) x to from buffer v w hn ht hf hv hw =
      rw (copy_row_lem n (x + 1) to from _ v w (omega arith) ht hf hv hw) (
        ground (
          arith,
          offset_eq pitch height fits v w x to hv hw (omega arith) (omega arith),
          offset_eq pitch height fits v from x to hv hf (omega arith) (omega arith),
        ))

  pub fill_rows_lem :
      (n y width color : ℕ) (buffer : ℕ → ℕ) (v w : ℕ)
      → width ≤ pitch
      → y + n ≤ height
      → v < pitch
      → w < height
      → fill_rows pitch n y width color buffer (offset pitch v w)
        ≡ (if is_within y n w && ltb v width then color else buffer (offset pitch v w))
  unfolding fill_rows
  fill_rows_lem zero y width color buffer v w hx hn hv hw = ground arith
  fill_rows_lem (suc n) y width color buffer v w hx hn hv hw =
      rw (fill_rows_lem n (y + 1) width color _ v w hx (omega arith) hv hw)
        (ground (arith, fill_row_lem width 0 y color buffer v w (omega arith) (omega arith) hv hw))

  -- The row that a round moves up by `f` lines, and those of the rounds behind it.
  next_row :
      (f n y w width v height below here : ℕ) (line : ℕ → ℕ)
      → 0 < f
      → f ≤ y
      → y + suc n ≤ height
      → (w + f < height
          → below ≡ (if w + f == y - f && is_within 0 width v then line y else line (w + f)))
      → here ≡ (if w == y - f && is_within 0 width v then line y else line w)
      → (if is_within (y + 1) n (w + f) && ltb v width then below else here)
        ≡ (if is_within y (suc n) (w + f) && ltb v width then line (w + f) else line w)
  next_row f n y w width v height below here line pos hy hn hb hh =
      ground (arith, hb, hh, (λ (e : y ≡ w + f). ap line e))

  pub copy_rows_lem :
      (n y width : ℕ) (buffer : ℕ → ℕ) (v w : ℕ)
      → width ≤ pitch
      → font_height ≤ y
      → y + n ≤ height
      → v < pitch
      → w < height
      → copy_rows pitch n y width buffer (offset pitch v w) ≡ (
          if is_within y n (w + font_height) && ltb v width
          then buffer (offset pitch v (w + font_height))
          else buffer (offset pitch v w))
  unfolding copy_rows
  copy_rows_lem zero y width buffer v w hx hy hn hv hw = ground arith
  copy_rows_lem (suc n) y width buffer v w hx hy hn hv hw =
      let row = copy_row_lem width 0 (y - font_height) y buffer v in
      let rest =
        copy_rows_lem n (y + 1) width (copy_row pitch width 0 (y - font_height) y buffer) in
      rest v w hx (omega arith) (omega arith) hv hw
      ∙ next_row font_height n y w width v height _ _ (λ t. buffer (offset pitch v t)) (omega arith)
          hy hn (λ h. row (w + font_height) (omega arith) (omega arith) (omega arith) hv h)
          (row w (omega arith) (omega arith) (omega arith) hv hw)
