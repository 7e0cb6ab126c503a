-- ===== src/Keyboard/Process.antt =====
-- `process_keyboard_input` empties the queue.
use oronyx.Base.{ℕ, zero, suc, ◌+◌, ◌<◌, ◌≡◌, refl, arith, ap, ◌∙◌, not, ◌&&◌}
use oronyx.Base.{List, [], ◌∷◌, some, ◌==◌, if◌then◌else◌, length}
use oronyx.Keyboard.{State, KeyboardEvent, dequeue_keyboard_event, process_from}
use oronyx.Keyboard.{process_keyboard_input}
use oronyx.Keyboard.Queue.{IsValid, contents, pop, length-contents}
use oronyx.Keyboard.Queue.{dequeue_keyboard_event-IsValid, contents-dequeue_keyboard_event}

-- The characters that the presses in the queue put on the console.
abbrev pub typed : List KeyboardEvent → List ℕ
typed [] = []
typed (e ∷ l) = if e.pressed && not (e.ascii == 0) then e.ascii ∷ typed l else typed l

-- All but the queue is the same.
pub record IsSameMode (s s' : State) : Type 0 where
  pub left : s'.shift_left ≡ s.shift_left
  pub right : s'.shift_right ≡ s.shift_right
  pub caps : s'.caps_lock ≡ s.caps_lock
  pub keys : s'.keys ≡ s.keys
  pub last : s'.last_key ≡ s.last_key

dequeue_keyboard_event-IsSameMode :
    (s s' : State) → IsSameMode (dequeue_keyboard_event s).1 s' → IsSameMode s s'
unfolding dequeue_keyboard_event
dequeue_keyboard_event-IsSameMode s s' m = ground (arith, m)

dequeue-IsSameMode : (s : State) → IsSameMode s (dequeue_keyboard_event s).1
unfolding dequeue_keyboard_event
dequeue-IsSameMode s = ground arith

process_from-some :
    (fuel : ℕ) (s : State) {e : KeyboardEvent} {out : List ℕ} {s' : State}
    → (dequeue_keyboard_event s).0 ≡ some e
    → process_from fuel (dequeue_keyboard_event s).1 ≡ some (out, s')
    → process_from (suc fuel) s
      ≡ some ((if e.pressed && not (e.ascii == 0) then e.ascii ∷ out else out), s')
unfolding process_from
process_from-some fuel s d run = rw (d, process_from) (ground (arith, run))

process_from_lem :
    (fuel : ℕ) (s : State) (l : List KeyboardEvent)
    → IsValid s
    → contents s ≡ l
    → length l < fuel
    → (s' : State) × (process_from fuel s ≡ some (typed l, s'))
      × IsValid s'
      × (contents s' ≡ [])
      × IsSameMode s s'
unfolding process_from
process_from_lem zero s l v e h = absurd (omega arith)
process_from_lem (suc fuel) s [] v e h =
    let d = contents-dequeue_keyboard_event s v ∙ ap pop e in
    (
      (dequeue_keyboard_event s).1,
      rw (ap (λ r. r.0) d, process_from) refl,
      dequeue_keyboard_event-IsValid s v,
      ap (λ r. r.1) d,
      dequeue-IsSameMode s,
    )
process_from_lem (suc fuel) s (x ∷ l) v e h =
    let d = contents-dequeue_keyboard_event s v ∙ ap pop e in
    let (s', run, v', empty, m) =
      process_from_lem fuel (dequeue_keyboard_event s).1 l (dequeue_keyboard_event-IsValid s v)
        (ap (λ r. r.1) d) (omega arith) in
    (
      s',
      process_from-some fuel s (ap (λ r. r.0) d) run,
      v',
      empty,
      dequeue_keyboard_event-IsSameMode s s' m,
    )

-- The loop ends, puts the characters of the queued presses on the console in their order, and
-- leaves an empty queue.
pub process_keyboard_input_lem :
    (s : State)
    → IsValid s
    → (s' : State) × (process_keyboard_input s ≡ some (typed (contents s), s'))
      × IsValid s'
      × (contents s' ≡ [])
      × IsSameMode s s'
unfolding process_keyboard_input
process_keyboard_input_lem s v =
    process_from_lem (s.queue_size + 1) s (contents s) v refl (omega (arith, length-contents s))
