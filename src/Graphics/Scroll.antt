-- ===== src/Graphics/Scroll.antt =====
-- What `scroll` and `clear` leave in each pixel of the screen.
use oronyx.Base.{
  ℕ, ◌+◌, ◌-◌, ◌*◌, ◌^◌, ◌≤◌, ◌<◌, ◌≡◌, refl, arith, ◌∙◌, sub64, ◌&&◌, if◌then◌else◌, leb, ltb,
}
use oronyx.Graphics.{Screen, offset, scroll, clear, font_height}
use oronyx.Graphics.Loops.{is_within, fill_rows_lem, copy_rows_lem}

-- The pixel at column `x` of line `y`.
abbrev pub pixel : Screen → ℕ → ℕ → ℕ
pixel s x y = s.buffer (offset s.pitch x y)

-- The lines hold the columns, and a `size_t` counts the pixels.
abbrev pub IsGeometry : Screen → Type 0
IsGeometry s = (s.width ≤ s.pitch) × (s.height * s.pitch ≤ 2 ^ 64) × (s.height < 2 ^ 63)

-- The two loops of `scroll` together, for rows of `f` lines.
two_loops :
    (f width height x y color moved : ℕ) (line : ℕ → ℕ)
    → f ≤ height
    → y < height
    → moved ≡ (if is_within f (height - f) (y + f) && ltb x width then line (y + f) else line y)
    → (if is_within (height - f) (height - (height - f)) y && ltb x width then color else moved)
      ≡ (if leb width x then line y else if ltb (y + f) height then line (y + f) else color)
two_loops f width height x y color moved line hf hy h = ground arith

-- On a screen of a row of characters or more `scroll` moves each pixel up by the height of a row,
-- gives the last row the background colour, and leaves the memory right of the screen as it is.
pub pixel-scroll :
    (s : Screen) (x y : ℕ)
    → IsGeometry s
    → font_height ≤ s.height
    → x < s.pitch
    → y < s.height
    → pixel (scroll s) x y ≡ (
        if leb s.width x
        then pixel s x y
        else if ltb (y + font_height) s.height
        then pixel s x (y + font_height)
        else s.bg_color)
unfolding scroll
pixel-scroll s x y (hw, fits, small) rows hx hy =
    let moved =
      copy_rows_lem s.pitch s.height fits (s.height - font_height) font_height s.width s.buffer x y
        hw (omega arith) (omega arith) hx hy in
    let start : sub64 s.height font_height ≡ s.height - font_height = omega arith in
    rw start (
      fill_rows_lem s.pitch s.height fits (s.height - (s.height - font_height))
        (s.height - font_height) s.width s.bg_color _ x y hw (omega arith) hx hy
      ∙ two_loops font_height s.width s.height x y s.bg_color _ (λ t. s.buffer (offset s.pitch x t))
          rows hy moved)

-- `clear` gives each pixel of the screen the background colour, leaves the memory right of the
-- screen as it is, and sets the cursor to the first column of the first line.
pixel-clear :
    (s : Screen) (x y : ℕ)
    → IsGeometry s
    → x < s.pitch
    → y < s.height
    → (pixel (clear s) x y ≡ (if ltb x s.width then s.bg_color else pixel s x y))
      × ((clear s).x_pos ≡ 0)
      × ((clear s).y_pos ≡ 0)
unfolding clear
pixel-clear s x y (hw, fits, _) hx hy = (
  ground (
    arith,
    fill_rows_lem s.pitch s.height fits s.height 0 s.width s.bg_color s.buffer x y hw (omega arith)
        hx hy,
  ),
  refl,
  refl,
)
