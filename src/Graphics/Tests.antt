-- ===== src/Graphics/Tests.antt =====
-- The theorems on the console at a concrete screen.
use oronyx.Base.{◌+◌, ◌≡◌, arith, none, [], ◌∷◌, ◌++◌, if◌then◌else◌, ltb, leb}
use oronyx.Graphics.{Screen, scroll, write, font_height}
use oronyx.Graphics.Scroll.{pixel, pixel-scroll}
use oronyx.Graphics.Glyph.{line_feeds, write_fault}

-- Two rows of characters, each pixel of its own colour.
abbrev screen : Screen
screen = record {
  buffer = λ i. i;
  width = 640;
  height = 402;
  pitch = 1024;
  x_pos = 3;
  y_pos = 1;
  fg_color = 0xffffff;
  bg_color = 7;
}

pixel-scroll_example : pixel (scroll screen) 5 6 ≡ (
    if leb screen.width 5
    then pixel screen 5 6
    else if ltb (6 + font_height) screen.height
    then pixel screen 5 (6 + font_height)
    else screen.bg_color)
pixel-scroll_example =
    pixel-scroll screen 5 6 (omega arith, omega arith, omega arith) (omega arith) (omega arith)
      (omega arith)

write_fault_example : write (line_feeds 2 ++ (b'O' ∷ b'K' ∷ [])) screen ≡ none
write_fault_example =
    write_fault 2 b'O' (b'K' ∷ []) screen (omega arith, omega arith) (omega arith, omega arith)
      (omega arith) (omega arith) (λ e. omega arith)
