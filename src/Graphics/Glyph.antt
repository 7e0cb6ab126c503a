-- ===== src/Graphics/Glyph.antt =====
-- `FONTS` is shorter than the offsets that `_putchar` reads.
use oronyx.Base.{
  ℕ, zero, suc, ◌+◌, ◌*◌, ◌^◌, ◌<◌, ◌≤◌, ◌≡◌, ◌≢◌, refl, arith, Option, none, some, ◌>>=◌,
}
use oronyx.Base.{List, [], ◌∷◌, ◌++◌, length, get_elem?, leb, ◌==◌, u64, false}
use oronyx.Fonts.{fonts, fonts_low, fonts_high}
use oronyx.Graphics.{Screen, put_rows, put_glyph, putchar, newline, write, write_from}
use oronyx.Graphics.{font_height, basic_width, is_wide_char, get_glyph_width, code_of_char, scroll}
use oronyx.Graphics.Cursor.{IsInside, IsSize, newline-IsInside}
use oronyx.Utf8.Codec.{one_byte}

length-fonts : length fonts ≡ 736
unfolding fonts fonts_low fonts_high
length-fonts = refl

get_elem?-length : (xs : List ℕ) (i : ℕ) → length xs ≤ i → get_elem? xs i ≡ none
get_elem?-length [] i h = refl
get_elem?-length (x ∷ xs) zero h = absurd (omega arith)
get_elem?-length (x ∷ xs) (suc i) h = get_elem?-length xs i (omega arith)

bind-none : (o : Option ℕ) (f : ℕ → Option Screen) → ((a : ℕ) → f a ≡ none) → (o >>= f) ≡ none
bind-none none f h = refl
bind-none (some a) f h = h a

visible : (m size : ℕ) → m < size → size < 2 ^ 32 → leb size (u64 m) ≡ false
visible m size h fits = ground arith

put_rows_fault :
    (n y glyph char_width : ℕ) (s : Screen)
    → 0 < n
    → length fonts < glyph + y + n
    → put_rows n y glyph char_width s ≡ none
unfolding put_rows
put_rows_fault zero y glyph char_width s pos h = absurd (omega arith)
put_rows_fault (suc zero) y glyph char_width s pos h =
    rw (get_elem?-length fonts (glyph + y) (omega arith)) refl
put_rows_fault (suc (suc n)) y glyph char_width s pos h =
    bind-none (get_elem? fonts (glyph + y)) _
      (λ row. put_rows_fault (suc n) (y + 1) glyph char_width _ (omega arith) (omega arith))

narrow_width : (cp : ℕ) → is_wide_char cp ≡ false → get_glyph_width cp ≡ basic_width
unfolding get_glyph_width
narrow_width cp h = rw h refl

-- A glyph other than the first three, drawn at a cursor on the screen.
put_glyph_fault :
    (cp : ℕ) (s : Screen)
    → IsSize s
    → IsInside s
    → 3 ≤ cp
    → is_wide_char cp ≡ false
    → put_glyph cp s ≡ none
unfolding put_glyph
put_glyph_fault cp s (hw, hh) (hx, hy) h narrow =
    let rows =
      put_rows_fault font_height 0 (cp * font_height) basic_width s (omega arith)
        (omega (arith, length-fonts)) in
    let left = visible (s.x_pos * basic_width) s.width hx hw in
    let above = visible (s.y_pos * font_height) s.height hy hh in
    rw (narrow_width cp narrow, rows, left, above) refl

code_from : (c : ℕ) → 3 ≤ c → 3 ≤ code_of_char c
code_from c h = ground arith

code_narrow : (c : ℕ) → c < 256 → is_wide_char (code_of_char c) ≡ false
unfolding is_wide_char
code_narrow c h = ground arith

abbrev pub line_feeds : ℕ → List ℕ
line_feeds zero = []
line_feeds (suc n) = 10 ∷ line_feeds n

newline-IsSize : (s : Screen) → IsSize s → IsSize (newline s)
unfolding newline scroll
newline-IsSize s (hw, hh) = (ground arith, ground arith)

ascii_narrow : (c : ℕ) → c < 128 → is_wide_char c ≡ false
unfolding is_wide_char
ascii_narrow c h = ground arith

length-line_feeds : (n c : ℕ) (cs : List ℕ) → n < length (line_feeds n ++ (c ∷ cs))
length-line_feeds zero c cs = omega arith
length-line_feeds (suc n) c cs = omega (arith, length-line_feeds n c cs)

write_from_fault :
    (n fuel c : ℕ) (cs : List ℕ) (s : Screen)
    → n < fuel
    → IsSize s
    → IsInside s
    → 3 ≤ c
    → c < 128
    → c ≢ 10
    → write_from fuel (line_feeds n ++ (c ∷ cs)) s ≡ none
unfolding write_from
write_from_fault zero zero c cs s room size inside h ascii lf = absurd (omega arith)
write_from_fault (suc n) zero c cs s room size inside h ascii lf = absurd (omega arith)
write_from_fault zero (suc fuel) c cs s room size inside h ascii lf =
    let no_lf : (c == 10) ≡ false = ground arith in
    rw (no_lf, one_byte c cs ascii, put_glyph_fault c s size inside h (ascii_narrow c ascii)) refl
write_from_fault (suc n) (suc fuel) c cs s room size inside h ascii lf =
    write_from_fault n fuel c cs (newline s) (omega arith) (newline-IsSize s size)
      (newline-IsInside s size inside).0 h ascii lf

-- With the cursor on the screen `putchar` of any character from 3 on but a line feed and a carriage
-- return reads past the end of `FONTS`.
putchar_fault :
    (c : ℕ) (s : Screen)
    → IsSize s
    → IsInside s
    → 3 ≤ c
    → c < 256
    → c ≢ 10
    → c ≢ 13
    → putchar c s ≡ none
unfolding putchar
putchar_fault c s size inside h byte lf cr =
    let glyph =
      put_glyph_fault (code_of_char c) s size inside (code_from c h) (code_narrow c byte) in
    let no_lf : (c == 10) ≡ false = ground arith in
    let no_cr : (c == 13) ≡ false = ground arith in rw (no_lf, no_cr, glyph) refl

-- On a screen whose sizes fit 32 bits, from a cursor on it, a string with a character from 3 to 0x7f
-- that is no line feed, behind line feeds only, is not written: `write` reads past the end of `FONTS`.
pub write_fault :
    (n c : ℕ) (cs : List ℕ) (s : Screen)
    → IsSize s
    → IsInside s
    → 3 ≤ c
    → c < 128
    → c ≢ 10
    → write (line_feeds n ++ (c ∷ cs)) s ≡ none
unfolding write
write_fault n c cs s size inside h ascii lf =
    write_from_fault n (length (line_feeds n ++ (c ∷ cs))) c cs s (length-line_feeds n c cs) size
      inside h ascii lf
