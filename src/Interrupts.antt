-- ===== src/Interrupts.antt =====
-- arch/x86_64/src/cpu_impl.cpp: the interrupt vectors, the gates that `setup_exc` and `setup_irqs`
-- make for them, and the dispatch of the handlers without a purpose of their own.
pub mod Numbers
pub mod Table
mod Tests
use oronyx.Base.{ℕ, zero, suc, ◌+◌, Bool, true, false, Option, none, some, List, [], ◌∷◌}
use oronyx.Base.{◌==◌, leb, if◌then◌else◌}
use oronyx.Descriptors.{Vectors, set_gate}
use oronyx.Interrupts.Numbers.{
  exception_ac, exception_bp, exception_br, exception_cso, exception_db, exception_de, exception_df,
  exception_gp, exception_mc, exception_mf, exception_nm, exception_nmi, exception_np, exception_of,
  exception_pf, exception_ss, exception_ts, exception_ud, exception_ve, exception_xm, irq_10,
  irq_11, irq_9, irq_ata1, irq_ata2, irq_cascade, irq_com1, irq_com2, irq_floppy, irq_fpu,
  irq_keyboard, irq_lpt1, irq_lpt2, irq_mouse, irq_rtc, irq_timer,
}

-- The functions that stand in the interrupt table.
pub data Handler : Type 0 where
  no_error with_error double_fault general_protection page_fault timer keyboard : Handler

-- How a dispatch ends: without a call, with a call of another function and its arguments behind the
-- frame, with an access outside `handlers`, or not on the fuel given.
pub data Dispatch : Type 0 where
  silent : Dispatch
  calls : ℕ → List ℕ → Dispatch
  outside : Dispatch
  unfinished : Dispatch

-- Whether the function has the parameter `uint64_t error`.
abbrev pub takes_error : Handler → Bool
takes_error Handler.no_error = false
takes_error Handler.with_error = true
takes_error Handler.double_fault = true
takes_error Handler.general_protection = true
takes_error Handler.page_fault = true
takes_error Handler.timer = false
takes_error Handler.keyboard = false

-- The calls of `set_gate`, in order.
abbrev pub exceptions : List (ℕ × Handler)
exceptions =
    (exception_de, Handler.no_error)
    ∷ (exception_db, Handler.no_error)
    ∷ (exception_nmi, Handler.no_error)
    ∷ (exception_bp, Handler.no_error)
    ∷ (exception_of, Handler.no_error)
    ∷ (exception_br, Handler.no_error)
    ∷ (exception_ud, Handler.no_error)
    ∷ (exception_nm, Handler.no_error)
    ∷ (exception_df, Handler.double_fault)
    ∷ (exception_cso, Handler.no_error)
    ∷ (exception_ts, Handler.with_error)
    ∷ (exception_np, Handler.with_error)
    ∷ (exception_ss, Handler.with_error)
    ∷ (exception_gp, Handler.general_protection)
    ∷ (exception_pf, Handler.page_fault)
    ∷ (exception_mf, Handler.no_error)
    ∷ (exception_ac, Handler.with_error)
    ∷ (exception_mc, Handler.no_error)
    ∷ (exception_xm, Handler.no_error)
    ∷ (exception_ve, Handler.no_error)
    ∷ []

abbrev pub irqs : List (ℕ × Handler)
irqs =
    (irq_timer, Handler.timer)
    ∷ (irq_keyboard, Handler.keyboard)
    ∷ (irq_cascade, Handler.no_error)
    ∷ (irq_com2, Handler.no_error)
    ∷ (irq_com1, Handler.no_error)
    ∷ (irq_lpt2, Handler.no_error)
    ∷ (irq_floppy, Handler.no_error)
    ∷ (irq_lpt1, Handler.no_error)
    ∷ (irq_rtc, Handler.no_error)
    ∷ (irq_9, Handler.no_error)
    ∷ (irq_10, Handler.no_error)
    ∷ (irq_11, Handler.no_error)
    ∷ (irq_mouse, Handler.no_error)
    ∷ (irq_fpu, Handler.no_error)
    ∷ (irq_ata1, Handler.no_error)
    ∷ (irq_ata2, Handler.no_error)
    ∷ []

-- `address` is where the linker puts each function. The calls leave `ist` and `dpl` at 0.
module _ (address : Handler → ℕ) where
  unfoldable pub install : List (ℕ × Handler) → Vectors → Vectors
  unfolding set_gate
  install [] s = s
  install ((vector, handler) ∷ gates) s = install gates (set_gate vector (address handler) 0 0 s)

  unfoldable pub setup_exc : Vectors → Vectors
  unfolding install
  setup_exc s = install exceptions s

  unfoldable pub setup_irqs : Vectors → Vectors
  unfolding install
  setup_irqs s = install irqs s

  -- The interrupt table as `init` makes it: it first clears `handlers`.
  unfoldable pub setup : Vectors → Vectors
  unfolding setup_exc setup_irqs
  setup s = setup_irqs (setup_exc (record s { handlers = λ v. 0 }))

  -- `int_no_error`, which calls the handler of the number that it reads from the stack: `numbers` are
  -- what the nested calls read there, which no stub in front of them puts there.
  unfoldable pub int_no_error : ℕ → (ℕ → ℕ) → Vectors → Dispatch
  int_no_error zero numbers s = Dispatch.unfinished
  int_no_error (suc fuel) numbers s =
      let handler = s.handlers (numbers 0) in
      let again = int_no_error fuel (λ d. numbers (d + 1)) s in
      if leb 256 (numbers 0)
      then Dispatch.outside
      else if handler == 0
      then Dispatch.silent
      else if handler == address Handler.no_error
      then again
      else Dispatch.calls handler []

  -- The same of `int_with_error`, which passes the error code of the exception on.
  unfoldable pub int_with_error : ℕ → (ℕ → ℕ) → ℕ → Vectors → Dispatch
  int_with_error zero numbers error s = Dispatch.unfinished
  int_with_error (suc fuel) numbers error s =
      let handler = s.handlers (numbers 0) in
      let again = int_with_error fuel (λ d. numbers (d + 1)) error s in
      if leb 256 (numbers 0)
      then Dispatch.outside
      else if handler == 0
      then Dispatch.silent
      else if handler == address Handler.with_error
      then again
      else Dispatch.calls handler (error ∷ [])
