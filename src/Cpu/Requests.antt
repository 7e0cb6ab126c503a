-- ===== src/Cpu/Requests.antt =====
-- Requests of the interrupt lines, in any order, to the handlers that `init` installs.
use oronyx.Base.{
  ◌>>=◌, ℕ, ◌≡◌, refl, ap, ◌∙◌, drop-length, Bool, true, ◌&&◌, Option, none, some, List, [], ◌∷◌,
  ◌++◌, length, drop, if◌then◌else◌,
}
use oronyx.Interrupts.{Handler}
use oronyx.Descriptors.Fields.{gate_offset}
use oronyx.Controllers.Pic.{Pair, receive}
use oronyx.Controllers.Service.{accepts, serve, acknowledge, accepts-busy}
use oronyx.Machine.{Machine}
use oronyx.Faults.{timer_handler}
use oronyx.Keyboard.{keyboard_handler}
use oronyx.Cpu.Start.{vector_of}

-- The processor, the keyboard driver with the characters that it has put on the console, the pair of
-- controllers, and its lines in service.
pub record System : Type 0 where
  pub machine : Machine
  pub keys : oronyx.Keyboard.State
  pub console : List ℕ
  pub chips : Pair
  pub busy : ℕ → Bool

-- What a handler wrote to ports reaches the controllers.
abbrev pub settle : Machine → System → System
settle m y = record y {
  machine = m;
  chips = receive (drop (length y.machine.ports) m.ports) y.chips;
  busy = acknowledge (drop (length y.machine.ports) m.ports) y.busy;
}

-- The two handlers that return; `byte` is what the keyboard has at its port.
abbrev pub respond : Option Handler → ℕ → System → Option System
respond (some Handler.timer) byte y = do m ← timer_handler y.machine; some (settle m y)
respond (some Handler.keyboard) byte y =
    let (out, keys) = keyboard_handler byte y.keys in
    some (record y { keys = keys; console = y.console ++ out })
respond _ byte y = none

-- A handler that wrote nothing tells the controllers nothing.
pub settle_silent :
    (m : Machine) (y : System) → m.ports ≡ y.machine.ports → settle m y ≡ record y { machine = m }
settle_silent m y e =
    let silent : drop (length y.machine.ports) m.ports ≡ [] =
      ap (λ l. drop (length y.machine.ports) l) e ∙ drop-length y.machine.ports in
    rw silent refl

-- `code` gives the function at an address.
module _ (code : ℕ → Option Handler) where
  -- A request of line `n`: the processor takes it if the controllers let it through and interrupts are
  -- enabled, and goes to the function of the gate. `none` is a handler that faults or does not return.
  unfoldable pub request : ℕ → ℕ → System → Option System
  request n byte y =
      let taken =
        respond (code (gate_offset (y.machine.vectors.idt (vector_of n y.chips)))) byte
          (record y { busy = serve n y.chips y.busy }) in
      if accepts n y.chips y.busy && y.machine.interrupts then taken else some y

  unfoldable pub requests : List (ℕ × ℕ) → System → Option System
  requests [] y = some y
  requests ((n, byte) ∷ rs) y = do z ← request n byte y; requests rs z

  pub requests-step :
      (n byte : ℕ) (rs : List (ℕ × ℕ)) (y z : System)
      → request n byte y ≡ some z
      → requests ((n, byte) ∷ rs) y ≡ requests rs z
  unfolding requests
  requests-step n byte rs y z e = rw e refl

  request-busy : (n byte : ℕ) (y : System) → y.busy 0 ≡ true → request n byte y ≡ some y
  unfolding request
  request-busy n byte y e = rw (accepts-busy n y.chips y.busy e) refl

  -- While line 0 is in service nothing happens.
  pub requests-busy : (rs : List (ℕ × ℕ)) (y : System) → y.busy 0 ≡ true → requests rs y ≡ some y
  unfolding requests
  requests-busy [] y e = refl
  requests-busy ((n, byte) ∷ rs) y e =
      requests-step n byte rs y y (request-busy n byte y e) ∙ requests-busy rs y e
