-- ===== src/Keyboard.antt =====
-- drivers/keyboard.cpp: the state of the keyboard, its circular queue of events and the interrupt
-- handler. A key press is put in the queue by the handler and taken out by `process_keyboard_input`.
pub mod Queue
pub mod Process
pub mod Typing
pub mod Keys
mod Tests
use oronyx.Base.{ℕ, zero, suc, ◌+◌, ◌-◌, ◌%◌, ◌^◌, bit_and, update, Bool, true, false, not, ◌&&◌}
use oronyx.Base.{◌||◌, Option, none, some, List, [], ◌∷◌, ◌++◌, ltb, leb, ◌==◌, if◌then◌else◌}
use oronyx.Base.{get_elem?, length, u64, sub64}

abbrev pub max_keyboard_events : ℕ
max_keyboard_events = 64

pub record KeyboardEvent : Type 0 where
  pub ascii : ℕ
  pub scancode : ℕ
  pub pressed : Bool

-- `keyboard_state`.
pub record State : Type 0 where
  pub last_key : ℕ
  pub keys : ℕ → Bool
  pub shift_left : Bool
  pub shift_right : Bool
  pub caps_lock : Bool
  pub event_queue : ℕ → KeyboardEvent
  pub queue_head : ℕ
  pub queue_tail : ℕ
  pub queue_size : ℕ

unfoldable pub scancode2ascii : List ℕ
scancode2ascii =
    0 ∷ 0 ∷ 49 ∷ 50 ∷ 51 ∷ 52 ∷ 53 ∷ 54 ∷ 55 ∷ 56 ∷ 57 ∷ 48 ∷ 45 ∷ 61 ∷ 0 ∷ 0 ∷ 113 ∷ 119 ∷ 101
    ∷ 114 ∷ 116 ∷ 121 ∷ 117 ∷ 105 ∷ 111 ∷ 112 ∷ 91 ∷ 93 ∷ 0 ∷ 0 ∷ 97 ∷ 115 ∷ 100 ∷ 102 ∷ 103 ∷ 104
    ∷ 106 ∷ 107 ∷ 108 ∷ 59 ∷ 39 ∷ 96 ∷ 0 ∷ 92 ∷ 122 ∷ 120 ∷ 99 ∷ 118 ∷ 98 ∷ 110 ∷ 109 ∷ 44 ∷ 46 ∷ 47
    ∷ 0 ∷ 42 ∷ 0 ∷ 32 ∷ []

unfoldable pub scancode2ascii_shift : List ℕ
scancode2ascii_shift =
    0 ∷ 0 ∷ 33 ∷ 64 ∷ 35 ∷ 36 ∷ 37 ∷ 94 ∷ 38 ∷ 42 ∷ 40 ∷ 41 ∷ 95 ∷ 43 ∷ 0 ∷ 0 ∷ 81 ∷ 87 ∷ 69 ∷ 82
    ∷ 84 ∷ 89 ∷ 85 ∷ 73 ∷ 79 ∷ 80 ∷ 123 ∷ 125 ∷ 0 ∷ 0 ∷ 65 ∷ 83 ∷ 68 ∷ 70 ∷ 71 ∷ 72 ∷ 74 ∷ 75 ∷ 76
    ∷ 58 ∷ 34 ∷ 126 ∷ 0 ∷ 124 ∷ 90 ∷ 88 ∷ 67 ∷ 86 ∷ 66 ∷ 78 ∷ 77 ∷ 60 ∷ 62 ∷ 63 ∷ 0 ∷ 42 ∷ 0 ∷ 32
    ∷ []

unfoldable pub enqueue_event : ℕ → ℕ → State → State
enqueue_event ascii scancode s =
    if ltb s.queue_size max_keyboard_events
    then record s {
      event_queue =
          update s.event_queue s.queue_tail
            (record { ascii = ascii; scancode = scancode; pressed = true });
      queue_tail = u64 (s.queue_tail + 1) % max_keyboard_events;
      queue_size = u64 (s.queue_size + 1);
    }
    else s

abbrev pub xor : Bool → Bool → Bool
xor a b = if a then not b else b

-- A read past the table would be undefined; the test before it rules that out.
abbrev pub at : List ℕ → ℕ → ℕ
at table i = elim (get_elem? table i) [ some c ↦ c | none ↦ 0 ]

unfoldable pub translate_scancode : ℕ → State → ℕ
unfolding scancode2ascii scancode2ascii_shift
translate_scancode scancode s =
    if leb (length scancode2ascii) scancode
    then 0
    else if xor (s.shift_left || s.shift_right) s.caps_lock
    then at scancode2ascii_shift scancode
    else at scancode2ascii scancode

pub get_last_key : State → ℕ
get_last_key s = s.last_key

unfoldable pub is_pressed : ℕ → State → Bool
is_pressed scancode s = s.keys (bit_and scancode 0x7f)

-- The event is what goes through the reference parameter; `none` is the result `false`.
unfoldable pub dequeue_keyboard_event : State → Option KeyboardEvent × State
dequeue_keyboard_event s = if s.queue_size == 0 then (none, s) else (
  some (s.event_queue s.queue_head),
  record s {
    queue_head = u64 (s.queue_head + 1) % max_keyboard_events;
    queue_size = sub64 s.queue_size 1;
  },
)

-- The loop of `process_keyboard_input`; the characters given to `putchar` are returned in order.
-- `none` is an end of the fuel.
unfoldable pub process_from : ℕ → State → Option (List ℕ × State)
process_from zero s = none
process_from (suc fuel) s =
    let (event, s') = dequeue_keyboard_event s in
    elim event [
      | none ↦ some ([], s')
      | some e ↦ elim (process_from fuel s') [
        | none ↦ none
        | some (out, s'') ↦
            some ((if e.pressed && not (e.ascii == 0) then e.ascii ∷ out else out), s'')
      ]
    ]

unfoldable pub process_keyboard_input : State → Option (List ℕ × State)
unfolding process_from
process_keyboard_input s = process_from (s.queue_size + 1) s

-- The default case of `keyboard_handler`.
unfoldable pub key_event : Bool → ℕ → State → State
key_event released scancode s =
    let s' = record s { keys = update s.keys scancode (not released) } in
    let ascii = translate_scancode scancode s' in
    if released then s' else enqueue_event ascii scancode (record s' { last_key = ascii })

-- `keyboard_handler` on the byte that `inb(0x60)` gives; the list holds the characters given to
-- `putchar`.
unfoldable pub keyboard_handler : ℕ → State → List ℕ × State
keyboard_handler byte s =
    let released = not (bit_and byte 0x80 == 0) in
    let scancode = bit_and byte 0x7f in
    if scancode == 0x2a
    then ([], record s { shift_left = not released })
    else if scancode == 0x36
    then ([], record s { shift_right = not released })
    else if scancode == 0x3a
    then ([], if released then s else record s { caps_lock = not s.caps_lock })
    else if scancode == 0x0e
    then ((if released then [] else 8 ∷ []), s)
    else ([], key_event released scancode s)
