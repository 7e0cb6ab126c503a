-- ===== src/Keyboard/Typing.antt =====
-- Interrupts and calls of `process_keyboard_input`, in any order, against a queue of key presses.
use oronyx.Base.{
  ℕ, zero, suc, ◌≤◌, ◌≡◌, refl, arith, ap, ◌∙◌, update, true, false, not, ◌||◌, bit_and,
}
use oronyx.Base.{List, [], ◌∷◌, ◌++◌, Option, some, none, ◌==◌, if◌then◌else◌, length, Bool}
use oronyx.Keyboard.{State, KeyboardEvent, keyboard_handler, process_keyboard_input}
use oronyx.Keyboard.{
  key_event, translate_scancode, enqueue_event, scancode2ascii, scancode2ascii_shift, at, xor,
}
use oronyx.Keyboard.Queue.{IsValid, contents, push, event, enqueue_event-IsValid}
use oronyx.Keyboard.Queue.{contents-enqueue_event}
use oronyx.Keyboard.Process.{IsSameMode, typed, process_keyboard_input_lem}

-- An interrupt with its byte, or a call of `process_keyboard_input`.
pub data Input : Type 0 where
  byte : ℕ → Input
  process : Input

-- The driver on a sequence of inputs; the characters that it puts on the console, in order.
pub run : List Input → State → Option (List ℕ × State)
run [] s = some ([], s)
run (byte b ∷ is) s =
    let (out, s') = keyboard_handler b s in
    elim (run is s') [ none ↦ none | some (rest, s'') ↦ some (out ++ rest, s'') ]
run (process ∷ is) s = elim (process_keyboard_input s) [
  | none ↦ none
  | some (out, s') ↦ elim (run is s') [ none ↦ none | some (rest, s'') ↦ some (out ++ rest, s'') ]
]

-- What a typist sees: the shift keys, caps lock, and the presses that wait.
pub record Typing : Type 0 where
  pub left : Bool
  pub right : Bool
  pub caps : Bool
  pub waiting : List KeyboardEvent

abbrev pub is_release : ℕ → Bool
is_release b = not (bit_and b 0x80 == 0)

abbrev pub code_of : ℕ → ℕ
code_of b = bit_and b 0x7f

-- The character of a key: the shifted one if exactly one of shift and caps lock is on.
abbrev pub character : Typing → ℕ → ℕ
character t c =
    at (if xor (t.left || t.right) t.caps then scancode2ascii_shift else scancode2ascii) c

-- One interrupt: shift and caps lock change the mode, a press of backspace is echoed at once, any
-- other press waits for the next call.
abbrev pub on_byte : ℕ → Typing → List ℕ × Typing
on_byte b t =
    let c = code_of b in
    if c == 0x2a
    then ([], record t { left = not (is_release b) })
    else if c == 0x36
    then ([], record t { right = not (is_release b) })
    else if c == 0x3a
    then ([], record t { caps = if is_release b then t.caps else not t.caps })
    else if c == 0x0e
    then ((if is_release b then [] else 8 ∷ []), t)
    else if is_release b
    then ([], t)
    else ([], record t { waiting = push (event (character t c) c) t.waiting })

unfoldable pub run_typing : List Input → Typing → List ℕ × Typing
run_typing [] t = ([], t)
run_typing (byte b ∷ is) t =
    let (out, t') = on_byte b t in let (rest, t'') = run_typing is t' in (out ++ rest, t'')
run_typing (process ∷ is) t =
    let (rest, t') = run_typing is (record t { waiting = [] }) in (typed t.waiting ++ rest, t')

abbrev pub view : State → Typing
view s = record {
  left = s.shift_left;
  right = s.shift_right;
  caps = s.caps_lock;
  waiting = contents s;
}

at-beyond : (l : List ℕ) (i : ℕ) → length l ≤ i → at l i ≡ 0
at-beyond [] i h = refl
at-beyond (x ∷ l) zero h = absurd (omega arith)
at-beyond (x ∷ l) (suc i) h = at-beyond l i (omega arith)

lengths : (length scancode2ascii ≡ 58) × (length scancode2ascii_shift ≡ 58)
unfolding scancode2ascii scancode2ascii_shift
lengths = (refl, refl)

translate_scancode_lem : (c : ℕ) (s : State) → translate_scancode c s ≡ character (view s) c
unfolding translate_scancode
translate_scancode_lem c s =
    ground (arith, lengths, at-beyond scancode2ascii c, at-beyond scancode2ascii_shift c)

view-enqueue_event :
    (a c : ℕ) (s : State)
    → IsValid s
    → view (enqueue_event a c s) ≡ record (view s) { waiting = push (event a c) (contents s) }
unfolding enqueue_event
view-enqueue_event a c s v = ground (arith, contents-enqueue_event a c s v)

key_event_lem :
    (released : Bool) (c : ℕ) (s : State)
    → IsValid s
    → IsValid (key_event released c s)
      × (view (key_event released c s) ≡ (
          if released
          then view s
          else record (view s) { waiting = push (event (character (view s) c) c) (contents s) }))
unfolding key_event
key_event_lem true c s v = (ground arith, refl)
key_event_lem false c s v =
    let ascii = translate_scancode c (record s { keys = update s.keys c true }) in
    let s' : State = record s { keys = update s.keys c true; last_key = ascii } in
    let v' : IsValid s' = ground arith in
    (
      enqueue_event-IsValid ascii c s' v',
      view-enqueue_event ascii c s' v'
          ∙ ap (λ k. record (view s) { waiting = push (event k c) (contents s) })
              (translate_scancode_lem c (record s { keys = update s.keys c true })),
    )

-- The driver's step on one byte is the typist's.
keyboard_handler_lem :
    (b : ℕ) (s : State)
    → IsValid s
    → ((keyboard_handler b s).0, view (keyboard_handler b s).1) ≡ on_byte b (view s)
unfolding keyboard_handler
keyboard_handler_lem b s v = ground (arith, key_event_lem (is_release b) (code_of b) s v)

keyboard_handler-IsValid : (b : ℕ) (s : State) → IsValid s → IsValid (keyboard_handler b s).1
unfolding keyboard_handler
keyboard_handler-IsValid b s v = ground (arith, key_event_lem (is_release b) (code_of b) s v)

view-IsSameMode :
    (s s' : State) → IsSameMode s s' → contents s' ≡ [] → view s' ≡ record (view s) { waiting = [] }
view-IsSameMode s s' m e = ground (arith, m, e)

run-byte :
    (b : ℕ) (is : List Input) (s : State) {rest : List ℕ} {s' : State}
    → run is (keyboard_handler b s).1 ≡ some (rest, s')
    → run (byte b ∷ is) s ≡ some ((keyboard_handler b s).0 ++ rest, s')
unfolding run
run-byte b is s h = ground (arith, h)

run-process :
    (is : List Input) (s : State) {out rest : List ℕ} {s1 s' : State}
    → process_keyboard_input s ≡ some (out, s1)
    → run is s1 ≡ some (rest, s')
    → run (process ∷ is) s ≡ some (out ++ rest, s')
unfolding run
run-process is s h k = ground (arith, h, k)

-- For any interrupts and calls of `process_keyboard_input` the driver puts on the console what the
-- typist's queue of at most 64 presses gives, in that order, and ends in a state that stands for
-- the typist's.
pub run_refines :
    (is : List Input) (s : State)
    → IsValid s
    → (s' : State) × (run is s ≡ some ((run_typing is (view s)).0, s'))
      × IsValid s'
      × (view s' ≡ (run_typing is (view s)).1)
unfolding run run_typing
run_refines [] s v = (s, refl, v, refl)
run_refines (byte b ∷ is) s v =
    let e = keyboard_handler_lem b s v in
    let (s', go, v', same) =
      run_refines is (keyboard_handler b s).1 (keyboard_handler-IsValid b s v) in
    (
      s',
      run-byte b is s go ∙ ap (λ t. some (t.0 ++ (run_typing is t.1).0, s')) e,
      v',
      same ∙ ap (λ t. (run_typing is t.1).1) e,
    )
run_refines (process ∷ is) s v =
    let (s1, go1, v1, empty, m) = process_keyboard_input_lem s v in
    let e = view-IsSameMode s s1 m empty in
    let (s', go, v', same) = run_refines is s1 v1 in
    (
      s',
      run-process is s go1 go ∙ ap (λ w. some (typed (contents s) ++ (run_typing is w).0, s')) e,
      v',
      same ∙ ap (λ w. (run_typing is w).1) e,
    )
