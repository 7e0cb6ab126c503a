-- ===== src/Graphics/Cursor.antt =====
-- The cursor stays on the screen when a line ends.
use oronyx.Base.{◌+◌, ◌*◌, ◌^◌, ◌<◌, ◌≡◌, arith, if◌then◌else◌, ltb}
use oronyx.Graphics.{Screen, newline, scroll, font_height, basic_width}

-- The cursor is at a column and a line of the screen.
abbrev pub IsInside : Screen → Type 0
IsInside s = (s.x_pos * basic_width < s.width) × (s.y_pos * font_height < s.height)

abbrev pub IsSize : Screen → Type 0
IsSize s = (s.width < 2 ^ 32) × (s.height < 2 ^ 32)

-- From a cursor on the screen `newline` goes to the first column, of the next line if the screen
-- has it and of the same line otherwise, which is on the screen.
pub newline-IsInside :
    (s : Screen)
    → IsSize s
    → IsInside s
    → IsInside (newline s)
      × ((newline s).x_pos ≡ 0)
      × ((newline s).y_pos
          ≡ (if ltb ((s.y_pos + 1) * font_height) s.height then s.y_pos + 1 else s.y_pos))
unfolding newline scroll
newline-IsInside s (hw, hh) (hx, hy) = ((ground arith, ground arith), ground arith, ground arith)
