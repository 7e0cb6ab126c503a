-- ===== src/Keyboard/Queue.antt =====
-- The circular buffer of keyboard events against a queue that drops what does not fit.
use oronyx.Base.{ℕ, zero, suc, ◌+◌, ◌-◌, ◌%◌, ◌≤◌, ◌<◌, ◌≡◌, ◌≢◌, refl, arith, ap, ap₂, ◌∙◌, update}
use oronyx.Base.{true, List, [], ◌∷◌, ◌++◌, Option, some, none, ltb, if◌then◌else◌, length}
use oronyx.Keyboard.{State, KeyboardEvent, enqueue_event, dequeue_keyboard_event}

pub record IsValid (s : State) : Type 0 where
  pub head_in : s.queue_head < 64
  pub size_in : s.queue_size ≤ 64
  pub tail_at : s.queue_tail ≡ (s.queue_head + s.queue_size) % 64

-- The `n` events from the index `h` on, round the end of the buffer.
abbrev pub window : (ℕ → KeyboardEvent) → ℕ → ℕ → List KeyboardEvent
window q h zero = []
window q h (suc n) = q h ∷ window q ((h + 1) % 64) n

-- The queue that the state stands for, oldest event first.
abbrev pub contents : State → List KeyboardEvent
contents s = window s.event_queue s.queue_head s.queue_size

window-suc :
    (q : ℕ → KeyboardEvent) (n h : ℕ)
    → h < 64
    → window q h (suc n) ≡ window q h n ++ (q ((h + n) % 64) ∷ [])
window-suc q zero h l = let e : (h + 0) % 64 ≡ h = omega arith in rw e refl
window-suc q (suc n) h l =
    let e : ((h + 1) % 64 + n) % 64 ≡ (h + suc n) % 64 = omega arith in
    ap (λ t. q h ∷ t) (rw (← e) (window-suc q n ((h + 1) % 64) (omega arith)))

window-update :
    (q : ℕ → KeyboardEvent) (x : KeyboardEvent) (i n h : ℕ)
    → h < 64
    → ((k : ℕ) → k < n → (h + k) % 64 ≢ i)
    → window (update q i x) h n ≡ window q h n
window-update q x i zero h l away = refl
window-update q x i (suc n) h l away =
    ap₂ ◌∷◌ (ground (arith, away 0))
      (window-update q x i n ((h + 1) % 64) (omega arith) (λ k b. ground (arith, away (suc k))))

window-appended :
    (q : ℕ → KeyboardEvent) (x : KeyboardEvent) (i n h : ℕ)
    → h < 64
    → n < 64
    → i ≡ (h + n) % 64
    → window (update q i x) h (suc n) ≡ window q h n ++ (x ∷ [])
window-appended q x i n h l room e =
    let kept = window-update q x i n h l (λ k b. omega arith) in
    let placed : update q i x ((h + n) % 64) ≡ x = ground arith in
    window-suc (update q i x) n h l ∙ ap₂ (λ a b. a ++ (b ∷ [])) kept placed

abbrev pub event : ℕ → ℕ → KeyboardEvent
event ascii scancode = record { ascii = ascii; scancode = scancode; pressed = true }

-- A queue of at most 64 events.
abbrev pub push : KeyboardEvent → List KeyboardEvent → List KeyboardEvent
push e l = if ltb (length l) 64 then l ++ (e ∷ []) else l

length-window : (q : ℕ → KeyboardEvent) (h n : ℕ) → length (window q h n) ≡ n
length-window q h zero = refl
length-window q h (suc n) = ap suc (length-window q ((h + 1) % 64) n)

pub length-contents : (s : State) → length (contents s) ≡ s.queue_size
length-contents s = length-window s.event_queue s.queue_head s.queue_size

pub enqueue_event-IsValid :
    (ascii scancode : ℕ) (s : State) → IsValid s → IsValid (enqueue_event ascii scancode s)
unfolding enqueue_event
enqueue_event-IsValid a c s v = ground arith

-- An event is appended while there are fewer than 64, and dropped otherwise.
pub contents-enqueue_event :
    (ascii scancode : ℕ) (s : State)
    → IsValid s
    → contents (enqueue_event ascii scancode s) ≡ push (event ascii scancode) (contents s)
unfolding enqueue_event
contents-enqueue_event a c s v = ground (
  arith,
  length-contents s,
  window-appended s.event_queue (event a c) s.queue_tail s.queue_size s.queue_head,
)

pub dequeue_keyboard_event-IsValid : (s : State) → IsValid s → IsValid (dequeue_keyboard_event s).1
unfolding dequeue_keyboard_event
dequeue_keyboard_event-IsValid s v = ground arith

-- What taking an event out does to the queue.
abbrev pub pop : List KeyboardEvent → Option KeyboardEvent × List KeyboardEvent
pop [] = (none, [])
pop (e ∷ l) = (some e, l)

window-pred :
    (q : ℕ → KeyboardEvent) (h n : ℕ) → n ≢ 0 → window q h n ≡ q h ∷ window q ((h + 1) % 64) (n - 1)
window-pred q h zero ne = absurd (ne refl)
window-pred q h (suc n) ne = let e : suc n - 1 ≡ n = omega arith in rw e refl

-- The oldest event is taken out, if there is one.
pub contents-dequeue_keyboard_event :
    (s : State)
    → IsValid s
    → ((dequeue_keyboard_event s).0, contents (dequeue_keyboard_event s).1) ≡ pop (contents s)
unfolding dequeue_keyboard_event
contents-dequeue_keyboard_event s v =
    ground (arith, window-pred s.event_queue s.queue_head s.queue_size)
