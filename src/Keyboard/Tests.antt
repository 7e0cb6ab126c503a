-- ===== src/Keyboard/Tests.antt =====
-- Runs of the keyboard driver, and its theorems at concrete states.
use oronyx.Base.{◌+◌, ◌≡◌, refl, arith, true, false, some, List, [], ◌∷◌, ◌==◌, if◌then◌else◌}
use oronyx.Keyboard.{State, KeyboardEvent, translate_scancode}
use oronyx.Keyboard.{scancode2ascii, scancode2ascii_shift, dequeue_keyboard_event, enqueue_event}
use oronyx.Keyboard.Queue.{IsValid, contents, pop, event, contents-enqueue_event}
use oronyx.Keyboard.Queue.{contents-dequeue_keyboard_event}
use oronyx.Keyboard.Typing.{Input, byte, process, run, run_typing, run_refines, view}
use oronyx.Keyboard.Keys.{translate_scancode_caps, is_letter, is_digit}

abbrev nobody : KeyboardEvent
nobody = record { ascii = 0; scancode = 0; pressed = false }

abbrev idle : State
idle = record {
  last_key = 0;
  keys = λ c. false;
  shift_left = false;
  shift_right = false;
  caps_lock = false;
  event_queue = λ i. nobody;
  queue_head = 63;
  queue_tail = 63;
  queue_size = 0;
}

idle-IsValid : IsValid idle
idle-IsValid = omega arith

-- Shift down, `a`, shift up, `b`, then the queue is emptied.
abbrev typing : List Input
typing = byte 0x2a ∷ byte 0x1e ∷ byte 0xaa ∷ byte 0x30 ∷ process ∷ []

run_typing_runs : (run_typing typing (view idle)).0 ≡ b'A' ∷ b'b' ∷ []
unfolding run_typing scancode2ascii scancode2ascii_shift
run_typing_runs = refl

run_refines_example :
    (s' : State) × (run typing idle ≡ some ((run_typing typing (view idle)).0, s'))
    × IsValid s'
    × (view s' ≡ (run_typing typing (view idle)).1)
run_refines_example = run_refines typing idle idle-IsValid

-- Two presses wait, round the end of the buffer.
abbrev two_waiting : State
two_waiting = record idle {
  event_queue = λ i. if i == 63 then event b'x' 45 else event 0 28;
  queue_tail = 1;
  queue_size = 2;
}

two_waiting-IsValid : IsValid two_waiting
two_waiting-IsValid = omega arith

contents-enqueue_event_example :
    contents (enqueue_event b'y' 21 two_waiting) ≡ event b'x' 45 ∷ event 0 28 ∷ event b'y' 21 ∷ []
contents-enqueue_event_example = contents-enqueue_event b'y' 21 two_waiting two_waiting-IsValid

contents-dequeue_keyboard_event_example :
    ((dequeue_keyboard_event two_waiting).0, contents (dequeue_keyboard_event two_waiting).1)
    ≡ pop (event b'x' 45 ∷ event 0 28 ∷ [])
contents-dequeue_keyboard_event_example =
    contents-dequeue_keyboard_event two_waiting two_waiting-IsValid

abbrev capitals : State
capitals = record idle { caps_lock = true }

translate_scancode_caps_example :
    (is_letter (translate_scancode 16 idle) ≡ true
      → translate_scancode 16 capitals + 32 ≡ translate_scancode 16 idle)
    × (is_digit (translate_scancode 16 idle) ≡ true
        → is_digit (translate_scancode 16 capitals) ≡ false)
translate_scancode_caps_example = translate_scancode_caps 16 capitals (omega arith) refl refl refl
