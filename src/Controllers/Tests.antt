-- ===== src/Controllers/Tests.antt =====
-- The theorems on the interrupt controllers at a concrete machine.
use oronyx.Base.{◌>>=◌, some}
use oronyx.Base.{◌≡◌, refl, true, false}
use oronyx.Machine.{Machine}
use oronyx.Machine.Sample.{machine}
use oronyx.Controllers.{start_timer, set_lvt, init_pic}
use oronyx.Controllers.Pic.{Chip, Pair, receive, IsReady, IsCascade, init_pic-IsReady}
use oronyx.Controllers.Apic.{Entry, register_of}
use oronyx.Controllers.Apic.{x2apic_value, set_lvt-x2apic}

-- A chip as the firmware of a PC leaves it.
abbrev chip : Chip
chip = record {
  expects = 0;
  wants4 = true;
  single = false;
  base = 8;
  wiring = 4;
  mode = 1;
  mask = 0xb8;
}

abbrev pair : Pair
pair = record { master = chip; slave = record chip { base = 0x70; wiring = 2 } }

init_pic-IsReady_example :
    IsReady 32 (receive (init_pic machine).ports pair).master
    × IsReady 40 (receive (init_pic machine).ports pair).slave
    × IsCascade 2 (receive (init_pic machine).ports pair)
init_pic-IsReady_example = init_pic-IsReady machine pair

abbrev x2apic_machine : Machine
x2apic_machine = record machine { features = record machine.features { x2apic = true } }

set_lvt-x2apic_example :
    (t : Machine) × ((start_timer 0 x2apic_machine >>= λ n. set_lvt 0 n) ≡ some t)
    × (t.msr (register_of Entry.lint0) ≡ x2apic_value Entry.lint0)
set_lvt-x2apic_example = set_lvt-x2apic Entry.lint0 0 x2apic_machine refl
