-- ===== src/Graphics.antt =====
-- drivers/graphics.cpp: the console on the frame buffer, and its constants of
-- include/oronyx/drivers/graphics.hpp.
pub mod Offset
pub mod Loops
pub mod Scroll
pub mod Cursor
pub mod Glyph
mod Tests
use oronyx.Base.{ℕ, zero, suc, ◌+◌, ◌-◌, ◌*◌, ◌/◌, ◌^◌, bit_and, u32, u64, sub64, update, get_elem?}
use oronyx.Base.{Bool, true, false, ◌&&◌, ◌||◌, Option, none, some, List, [], ◌∷◌, length}
use oronyx.Base.{ltb, leb, ◌==◌, if◌then◌else◌, ◌>>=◌, ◌<<<◌}
use oronyx.Fonts.{fonts}
use oronyx.Utf8.{decode_utf8, advance}

abbrev pub basic_width : ℕ
basic_width = 8

abbrev pub wide_width : ℕ
wide_width = 16

-- In namespace `onx` this constant stands in front of the 20 of include/oronyx/data/fonts.hpp.
abbrev pub font_height : ℕ
font_height = 201

-- `buffer` is indexed by 32-bit pixels.
pub record Screen : Type 0 where
  pub buffer : ℕ → ℕ
  pub width : ℕ
  pub height : ℕ
  pub pitch : ℕ
  pub x_pos : ℕ
  pub y_pos : ℕ
  pub fg_color : ℕ
  pub bg_color : ℕ

-- `y * pitch + x` on `size_t`.
unfoldable pub offset : ℕ → ℕ → ℕ → ℕ
offset pitch x y = u64 (y * pitch + x)

unfoldable pub is_wide_char : ℕ → Bool
is_wide_char cp =
    leb 0x4e00 cp && leb cp 0x9fff
    || leb 0x3040 cp && leb cp 0x309f
    || leb 0x30a0 cp && leb cp 0x30ff
    || leb 0xff00 cp && leb cp 0xffef

unfoldable pub get_glyph_width : ℕ → ℕ
unfolding is_wide_char
get_glyph_width cp = if is_wide_char cp then wide_width else basic_width

-- The index in `FONTS` of the glyph's first byte.
unfoldable pub get_glyph : ℕ → ℕ
get_glyph cp =
    let start = cp * font_height in if leb (length fonts) start then 63 * font_height else start

-- The loops over the pixels of a row: `n` pixels from column `x`.
module _ (pitch : ℕ) where
  unfoldable pub fill_row : ℕ → ℕ → ℕ → ℕ → (ℕ → ℕ) → ℕ → ℕ
  unfolding offset
  fill_row zero x y color buffer = buffer
  fill_row (suc n) x y color buffer =
      fill_row n (x + 1) y color (update buffer (offset pitch x y) color)

  unfoldable pub copy_row : ℕ → ℕ → ℕ → ℕ → (ℕ → ℕ) → ℕ → ℕ
  unfolding offset
  copy_row zero x to from buffer = buffer
  copy_row (suc n) x to from buffer =
      copy_row n (x + 1) to from (update buffer (offset pitch x to) (buffer (offset pitch x from)))

  -- The loops over `n` rows from row `y`.
  unfoldable pub fill_rows : ℕ → ℕ → ℕ → ℕ → (ℕ → ℕ) → ℕ → ℕ
  unfolding fill_row
  fill_rows zero y width color buffer = buffer
  fill_rows (suc n) y width color buffer =
      fill_rows n (y + 1) width color (fill_row width 0 y color buffer)

  unfoldable pub copy_rows : ℕ → ℕ → ℕ → (ℕ → ℕ) → ℕ → ℕ
  unfolding copy_row
  copy_rows zero y width buffer = buffer
  copy_rows (suc n) y width buffer =
      copy_rows n (y + 1) width (copy_row width 0 (y - font_height) y buffer)

-- The second loop starts at `height - FONT_HEIGHT` on `size_t`.
unfoldable pub scroll : Screen → Screen
unfolding fill_rows copy_rows
scroll s =
    let moved = copy_rows s.pitch (s.height - font_height) font_height s.width s.buffer in
    let start = sub64 s.height font_height in
    record s {
      buffer = fill_rows s.pitch (s.height - start) start s.width s.bg_color moved;
      y_pos = if ltb 0 s.y_pos then s.y_pos - 1 else s.y_pos;
    }

unfoldable pub newline : Screen → Screen
unfolding scroll
newline s =
    let next = record s { x_pos = 0; y_pos = u64 (s.y_pos + 1) } in
    if leb s.height (u64 (next.y_pos * font_height)) then scroll next else next

unfoldable pub clear : Screen → Screen
unfolding fill_rows
clear s = record s {
  buffer = fill_rows s.pitch s.height 0 s.width s.bg_color s.buffer;
  x_pos = 0;
  y_pos = 0;
}

-- `init` with a frame buffer at an address: its width, its height and its pitch in bytes.
unfoldable pub init : (ℕ → ℕ) → ℕ → ℕ → ℕ → Screen
unfolding clear
init buffer width height pitch =
    let s : Screen = record {
      buffer = buffer;
      width = width;
      height = height;
      pitch = pitch / 4;
      x_pos = 0;
      y_pos = 0;
      fg_color = 0xffffffff;
      bg_color = 0x00000000;
    } in
    if ltb 0 width && ltb 0 height && ltb 0 (pitch / 4) then clear s else s

-- The `n` pixels of a glyph's row from column `x` of the glyph on, in line `py` of the screen.
unfoldable pub put_pixels : ℕ → ℕ → ℕ → ℕ → ℕ → Screen → Screen
unfolding offset
put_pixels zero x py row char_width s = s
put_pixels (suc n) x py row char_width s =
    let px = u64 (s.x_pos * char_width + x) in
    let bit = 7 - x / (char_width / basic_width) in
    let color = if bit_and row (1 <<< bit) == 0 then s.bg_color else s.fg_color in
    let drawn = record s { buffer = update s.buffer (offset s.pitch px py) color } in
    let here = if leb s.width px || leb s.height py then s else drawn in
    put_pixels n (x + 1) py row char_width here

-- The `n` rows of a glyph from row `y` on; `none` is a read past the end of `FONTS`.
unfoldable pub put_rows : ℕ → ℕ → ℕ → ℕ → Screen → Option Screen
unfolding put_pixels fonts
put_rows zero y glyph char_width s = some s
put_rows (suc n) y glyph char_width s = do
  row ← get_elem? fonts (glyph + y)
  let py = u64 (s.y_pos * font_height + y)
  put_rows n (y + 1) glyph char_width (put_pixels char_width 0 py row char_width s)

-- `_putchar`.
unfoldable pub put_glyph : ℕ → Screen → Option Screen
unfolding put_rows get_glyph_width
put_glyph cp s =
    let char_width = get_glyph_width cp in
    let draw : Option Screen = (do
      t ← put_rows font_height 0 (cp * font_height) char_width s
      some (record t { x_pos = u64 (t.x_pos + 1) })) in
    if leb s.width (u64 (s.x_pos * char_width)) || leb s.height (u64 (s.y_pos * font_height))
    then some s
    else draw

-- What `putchar` and `write` do behind a glyph.
abbrev pub wrap_line : Screen → Screen
wrap_line s = if leb s.width (u64 (s.x_pos * basic_width)) then newline s else s

-- A `char` is signed: the code point of a negative one fills the upper bits.
abbrev pub code_of_char : ℕ → ℕ
code_of_char c = if ltb c 128 then c else c + (2 ^ 32 - 256)

abbrev pub scroll_below : Screen → Screen
scroll_below s = if leb s.height (u64 (s.y_pos * font_height)) then scroll s else s

unfoldable pub putchar : ℕ → Screen → Option Screen
unfolding put_glyph newline scroll
putchar c s =
    let glyph : Option Screen = (do
      t ← put_glyph (code_of_char c) s
      some (scroll_below (wrap_line t))) in
    if c == 10
    then some (scroll_below (newline s))
    else if c == 13
    then some (scroll_below (record s { x_pos = 0 }))
    else glyph

-- The loop of `write`, over the bytes in front of the string's terminator.
unfoldable pub write_from : ℕ → List ℕ → Screen → Option Screen
unfolding put_glyph newline decode_utf8
write_from fuel [] s = some s
write_from zero (c ∷ cs) s = none
write_from (suc fuel) (c ∷ cs) s =
    let (len, cp) = decode_utf8 (c ∷ cs) in
    let line = write_from fuel cs (newline s) in
    let glyph : Option Screen = (do
      t ← put_glyph cp s
      write_from fuel (advance len (c ∷ cs)) (wrap_line t)) in
    if c == 10 then line else glyph

-- A round takes a byte or more, so the string's length is enough rounds.
unfoldable pub write : List ℕ → Screen → Option Screen
unfolding write_from
write str s = write_from (length str) str s

unfoldable pub write_line : List ℕ → Screen → Option Screen
unfolding write newline
write_line str s = do t ← write str s; some (newline t)

unfoldable pub setcolor : ℕ → ℕ → Screen → Screen
setcolor fg bg s = record s { fg_color = fg; bg_color = bg }

unfoldable pub setcursor : ℕ → ℕ → Screen → Screen
setcursor x y s = record s { x_pos = x; y_pos = y }

abbrev pub get_x : Screen → ℕ
get_x s = s.x_pos

abbrev pub get_y : Screen → ℕ
get_y s = s.y_pos

abbrev pub get_width : Screen → ℕ
get_width s = s.width

abbrev pub get_height : Screen → ℕ
get_height s = s.height
