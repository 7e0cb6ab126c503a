-- ===== src/Keyboard/Keys.antt =====
-- What the handler records of a key, and which character a key stands for.
use oronyx.Base.{ℕ, ◌+◌, ◌<◌, ◌≡◌, refl, arith, true, false, not, ◌&&◌, ◌||◌, bit_and}
use oronyx.Base.{◌==◌, if◌then◌else◌, leb, Bool, every, every_sound}
use oronyx.Keyboard.{State, keyboard_handler, key_event, enqueue_event, is_pressed}
use oronyx.Keyboard.{translate_scancode, scancode2ascii, scancode2ascii_shift, at}
use oronyx.Keyboard.Typing.{is_release, code_of}

-- The codes that the handler treats on their own: the shifts, caps lock and backspace.
abbrev pub is_special : ℕ → Bool
is_special c = c == 0x2a || (c == 0x36 || (c == 0x3a || c == 0x0e))

-- After an interrupt a key is recorded as pressed exactly if the byte was a press of it, or the byte
-- was of another key, or of a special one, and the key was recorded before.
is_pressed-keyboard_handler :
    (b c : ℕ) (s : State)
    → is_pressed c (keyboard_handler b s).1 ≡ (
        if not (is_special (code_of b)) && bit_and c 0x7f == code_of b
        then not (is_release b)
        else is_pressed c s)
unfolding is_pressed keyboard_handler key_event enqueue_event
is_pressed-keyboard_handler b c s = ground arith

abbrev pub is_letter : ℕ → Bool
is_letter c = leb b'a' c && leb c b'z'

abbrev pub is_digit : ℕ → Bool
is_digit c = leb b'0' c && leb c b'9'

-- One row of the check of the two tables.
abbrev is_cased : ℕ → Bool
is_cased c =
    (if is_letter (at scancode2ascii c)
      then at scancode2ascii_shift c + 32 == at scancode2ascii c
      else true)
    && (if is_digit (at scancode2ascii c) then not (is_digit (at scancode2ascii_shift c)) else true)

tables : every is_cased 58 ≡ true
unfolding scancode2ascii scancode2ascii_shift every
tables = refl

translate-caps :
    (c : ℕ) (s : State)
    → c < 58
    → s.shift_left ≡ false
    → s.shift_right ≡ false
    → s.caps_lock ≡ true
    → translate_scancode c s ≡ at scancode2ascii_shift c
unfolding translate_scancode
translate-caps c s h l r k = rw (l, r, k) (ground arith)

translate-plain :
    (c : ℕ) (s : State)
    → c < 58
    → s.shift_left ≡ false
    → s.shift_right ≡ false
    → s.caps_lock ≡ false
    → translate_scancode c s ≡ at scancode2ascii c
unfolding translate_scancode
translate-plain c s h l r k = rw (l, r, k) (ground arith)

-- With caps lock on and no shift key down, a key that types a small letter types its capital; but a
-- key that types a digit types no digit.
pub translate_scancode_caps :
    (c : ℕ) (s : State)
    → c < 58
    → s.shift_left ≡ false
    → s.shift_right ≡ false
    → s.caps_lock ≡ true
    → (is_letter (translate_scancode c (record s { caps_lock = false })) ≡ true
        → translate_scancode c s + 32 ≡ translate_scancode c (record s { caps_lock = false }))
      × (is_digit (translate_scancode c (record s { caps_lock = false })) ≡ true
          → is_digit (translate_scancode c s) ≡ false)
translate_scancode_caps c s h l r k =
    let row = every_sound is_cased 58 c h tables in
    rw (translate-caps c s h l r k, translate-plain c (record s { caps_lock = false }) h l r refl)
      (ground (arith, row), ground (arith, row))
