-- ===== src/Faults/Tests.antt =====
-- The theorem on the timer at a concrete machine, and runs of the fault handlers.
use oronyx.Base.{◌+◌, ◌≡◌, ◌⊎◌, some, none, false, refl, true, u64, suc, [], ◌∷◌}
use oronyx.Machine.{Machine, get_tick}
use oronyx.Machine.Sample.{machine}
use oronyx.Pmm.{puts, write_line, print_hex}
use oronyx.Features.{has}
use oronyx.Faults.{page_fault_handler, double_fault_handler}
use oronyx.Faults.Ticks.{timers, eoi, acknowledges, get_tick-timers}

get_tick-timers_example :
    ((acknowledges machine ≡ true)
      × ((t : Machine) × (timers (suc 2) machine ≡ some t)
          × (get_tick t ≡ u64 (machine.tick + suc 2))
          × (eoi t ≡ 0)))
    ⊎ ((acknowledges machine ≡ false)
        × (machine.features.x2apic ≡ false)
        × (timers (suc 2) machine ≡ none))
get_tick-timers_example = get_tick-timers 2 machine

-- A write of a user to a page that is not present.
page_fault_runs :
    (page_fault_handler 0xdead000 6 machine).memory.pmm.log
    ≡ puts "Page Fault at 0x"
      ∷ print_hex 0xdead000
      ∷ puts " ("
      ∷ puts "non-present page, "
      ∷ puts "write, "
      ∷ puts "user, "
      ∷ write_line ")"
      ∷ []
unfolding page_fault_handler has
page_fault_runs = refl

double_fault_halts : (double_fault_handler 0x1000 machine).halted ≡ true
unfolding double_fault_handler
double_fault_halts = refl
