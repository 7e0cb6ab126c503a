-- ===== src/Interrupts/Table.antt =====
-- Which vectors have a gate once the interrupt table is set up, and to which handler.
use oronyx.Base.{
  ℕ, ◌^◌, ◌<◌, ◌≡◌, refl, arith, Bool, true, false, ◌&&◌, ◌||◌, not, Option, none, some,
}
use oronyx.Base.{List, [], ◌∷◌, ◌==◌, leb, if◌then◌else◌, every, every_sound}
use oronyx.Descriptors.{Vectors, set_gate, gate_entry}
use oronyx.Descriptors.Fields.{IsGate, gate_entry-IsGate}
use oronyx.Interrupts.{
  Handler, takes_error, exceptions, irqs, install, setup_exc, setup_irqs, setup,
}

-- The handler that a list of calls leaves at a vector: the last call counts.
abbrev pub last_of : List (ℕ × Handler) → ℕ → Option Handler
last_of [] v = none
last_of ((w, h) ∷ gates) v = elim (last_of gates v) [
  | some g ↦ some g
  | none ↦ if v == w then some h else none
]

abbrev pub handler_at : ℕ → Option Handler
handler_at v = elim (last_of irqs v) [ some h ↦ some h | none ↦ last_of exceptions v ]

-- The exceptions up to 21 with which the processor pushes an error code.
abbrev pub pushes_error : ℕ → Bool
pushes_error v = v == 8 || (leb 10 v && leb v 14 || (v == 17 || v == 21))

-- The exceptions 0 to 20 but the reserved 15, and the interrupts 32 to 47.
abbrev pub is_served : ℕ → Bool
is_served v = leb v 20 && not (v == 15) || leb 32 v && leb v 47

-- What a vector holds behind `setup`, from the state `s` before it: nothing new without a handler,
-- and otherwise a gate to a function that takes an error code exactly if the processor pushes one.
abbrev pub Serves : (Handler → ℕ) → ℕ → Option Handler → Vectors → Vectors → Type 0
Serves address v none s t = (t.idt v ≡ s.idt v) × (t.handlers v ≡ 0)
Serves address v (some h) s t =
    IsGate (address h) 0 0 (t.idt v) × (t.handlers v ≡ address h) × (takes_error h ≡ pushes_error v)

abbrev pub has_handler : Option Handler → Bool
has_handler none = false
has_handler (some h) = true

-- One row of the check of the two lists.
abbrev is_row : ℕ → Option Handler → Bool
is_row v none = not (is_served v)
is_row v (some h) = is_served v && (if takes_error h then pushes_error v else not (pushes_error v))

rows : every (λ v. is_row v (handler_at v)) 256 ≡ true
unfolding every
rows = refl

module _ (address : Handler → ℕ) where
  install_handlers :
      (gates : List (ℕ × Handler)) (v : ℕ) (s : Vectors)
      → (install address gates s).handlers v
        ≡ elim (last_of gates v) [ some h ↦ address h | none ↦ s.handlers v ]
  unfolding install set_gate
  install_handlers [] v s = refl
  install_handlers ((w, h) ∷ gates) v s =
      ground (arith, install_handlers gates v (set_gate w (address h) 0 0 s))

  install_idt :
      (gates : List (ℕ × Handler)) (v : ℕ) (s : Vectors)
      → (install address gates s).idt v
        ≡ elim (last_of gates v) [ some h ↦ gate_entry (address h) 0 0 | none ↦ s.idt v ]
  unfolding install
  install_idt [] v s = refl
  install_idt ((w, h) ∷ gates) v s =
      ground (arith, install_idt gates v (set_gate w (address h) 0 0 s))

  pub setup_handlers :
      (v : ℕ) (s : Vectors)
      → (setup address s).handlers v ≡ elim (handler_at v) [ some h ↦ address h | none ↦ 0 ]
  unfolding setup setup_exc setup_irqs
  setup_handlers v s = ground (
    arith,
    install_handlers irqs v (setup_exc address (record s { handlers = λ v. 0 })),
    install_handlers exceptions v (record s { handlers = λ v. 0 }),
  )

  setup_idt :
      (v : ℕ) (s : Vectors)
      → (setup address s).idt v
        ≡ elim (handler_at v) [ some h ↦ gate_entry (address h) 0 0 | none ↦ s.idt v ]
  unfolding setup setup_exc setup_irqs
  setup_idt v s = ground (
    arith,
    install_idt irqs v (setup_exc address (record s { handlers = λ v. 0 })),
    install_idt exceptions v (record s { handlers = λ v. 0 }),
  )

  Serves-row :
      (v : ℕ) (o : Option Handler) (s t : Vectors)
      → ((h : Handler) → address h < 2 ^ 64)
      → t.idt v ≡ elim o [ some h ↦ gate_entry (address h) 0 0 | none ↦ s.idt v ]
      → t.handlers v ≡ elim o [ some h ↦ address h | none ↦ 0 ]
      → is_row v o ≡ true
      → Serves address v o s t × (has_handler o ≡ is_served v)
  Serves-row v none s t fits e f row = ((e, f), ground arith)
  Serves-row v (some h) s t fits e f row =
      ((rw e (gate_entry-IsGate (address h) 0 0 (fits h)), f, ground arith), ground arith)

  -- For functions at 64-bit addresses: behind `setup` exactly the exceptions 0 to 20 but 15 and the
  -- interrupts 32 to 47 have a handler; the entry of each is a present gate to it in the segment 8,
  -- at level 0 and on no stack of its own, and it takes an error code exactly if the processor pushes one. The
  -- entries of the other vectors are as before, and their handlers are null.
  pub setup-Serves :
      (v : ℕ) (s : Vectors)
      → ((h : Handler) → address h < 2 ^ 64)
      → v < 256
      → Serves address v (handler_at v) s (setup address s)
        × (has_handler (handler_at v) ≡ is_served v)
  setup-Serves v s fits h =
      Serves-row v (handler_at v) s (setup address s) fits (setup_idt v s) (setup_handlers v s)
        (every_sound (λ v. is_row v (handler_at v)) 256 v h rows)
