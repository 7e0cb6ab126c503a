-- ===== src/Aarch64.antt =====
-- arch/aarch64/src/cpu_impl.cpp: the mask of interrupts and the halt of the second architecture.
use oronyx.Base.{Bool, true, false}

-- `masked` is the bit I of DAIF; behind `halt`, which waits for events for ever, `halted` is set.
pub record Processor : Type 0 where
  pub masked : Bool
  pub halted : Bool

abbrev pub enable_interrupts : Processor → Processor
enable_interrupts p = record p { masked = false }

abbrev pub disable_interrupts : Processor → Processor
disable_interrupts p = record p { masked = true }

-- The body is empty.
abbrev pub init : Processor → Processor
init p = p

abbrev pub halt : Processor → Processor
halt p = record p { halted = true }
