-- ===== src/Cpu/Tests.antt =====
-- The theorem on the start of the processor at a concrete machine.
use oronyx.Base.{ℕ, ◌≡◌, refl, arith, true, none, some}
use oronyx.Base.BitAt.{bit_at}
use oronyx.Interrupts.{Handler}
use oronyx.Interrupts.Table.{Serves, handler_at, has_handler}
use oronyx.Features.{Cpuid}
use oronyx.Machine.{Machine}
use oronyx.Machine.Sample.{machine}
use oronyx.Controllers.Pic.{Chip, Pair, receive}
use oronyx.Cpu.{init, static_gdt}
use oronyx.Features.{detect}
use oronyx.Paging.Tables.{translate}
use oronyx.Paging.Sample.{empty_tables}
use oronyx.Cpu.Segments.{segments_of, IsRunning, IsReached, HasCalls, init_segments}
use oronyx.Cpu.Requests.{System, requests}
use oronyx.Cpu.Clock.{booted, clock_stops}
use oronyx.Machine.{get_tick, apic_base}
use oronyx.Base.{inl}
use oronyx.Base.{u64, ◌+◌, Option, [], ◌∷◌, ◌==◌, if◌then◌else◌, false, ◌<◌, ◌^◌}
use oronyx.Cpu.Start.{line_of, IsEnabled, init-Serves, init_invalid}

abbrev old_cpu : ℕ → Cpuid
old_cpu leaf = record { eax = 0; ebx = 0; ecx = 0; edx = 0 }

abbrev address : Handler → ℕ
address h = 0xffff_ffff_8000_0000

abbrev chip : Chip
chip = record {
  expects = 3;
  wants4 = true;
  single = true;
  base = 8;
  wiring = 0;
  mode = 0;
  mask = 0xff;
}

abbrev pair : Pair
pair = record { master = chip; slave = chip }

zero_bit : bit_at 9 (old_cpu 1).edx ≡ 0
unfolding bit_at
zero_bit = refl

no_avx : (detect old_cpu none machine.features).avx ≡ false
unfolding detect
no_avx = refl

old_cpu-IsEnabled : IsEnabled old_cpu none machine
old_cpu-IsEnabled = inl no_avx

init-Serves_example :
    (t : Machine) × (init address 0x5000 0x6000 old_cpu (some 0) none machine ≡ some t)
    × (t.interrupts ≡ true)
    × (((receive t.ports pair).master.mask ≡ 0) × ((receive t.ports pair).slave.mask ≡ 0))
    × Serves address (line_of 1 t pair) (handler_at (line_of 1 t pair)) machine.vectors t.vectors
    × (has_handler (handler_at (line_of 1 t pair)) ≡ true)
init-Serves_example =
    init-Serves address 0x5000 0x6000 old_cpu 0 1 none machine pair (λ h. omega arith) zero_bit
      old_cpu-IsEnabled (omega arith)

-- The static tables of the program.
abbrev at_start : Machine
at_start = record machine { gdt = static_gdt }

init_segments_example :
    (t : Machine) × (init address 0x5000 0x6000 old_cpu (some 0) none at_start ≡ some t)
    × IsRunning 0x7000 0x5000 (segments_of t)
    × IsReached 0x8000 14 t.vectors (segments_of t)
    × HasCalls (segments_of t)
init_segments_example =
    init_segments address 0x5000 0x6000 old_cpu 0x7000 0x8000 0 14 none at_start
      (λ i h. refl, refl, refl) (λ h. omega arith) (omega arith) zero_bit old_cpu-IsEnabled refl

-- A processor with a local APIC, and tables without entries.
abbrev apic_cpu : ℕ → Cpuid
apic_cpu leaf = record { eax = 0; ebx = 0; ecx = 0; edx = 2 ^ 9 }

abbrev apic_machine : Machine
apic_machine = record machine { memory = empty_tables }

-- A processor with AVX, whose boot loader left OSXSAVE off.
abbrev avx_cpu : ℕ → Cpuid
avx_cpu leaf = record { eax = 0; ebx = 0; ecx = 0x14000000; edx = 0 }

has_avx : (detect avx_cpu none machine.features).avx ≡ true
unfolding detect
has_avx = refl

osxsave_off : bit_at 18 machine.cr4 ≡ 0
unfolding bit_at
osxsave_off = refl

init_invalid_example : init address 0x5000 0x6000 avx_cpu (some 0) none machine ≡ none
init_invalid_example = init_invalid address 0x5000 avx_cpu 0 none machine 0x6000 has_avx osxsave_off

-- Functions at addresses of their own.
abbrev functions : Handler → ℕ
functions Handler.no_error = 0x1000
functions Handler.with_error = 0x2000
functions Handler.double_fault = 0x3000
functions Handler.general_protection = 0x4000
functions Handler.page_fault = 0x5000
functions Handler.timer = 0x6000
functions Handler.keyboard = 0x7000

abbrev function_at : ℕ → Option Handler
function_at a =
    if a == 0x1000
    then some Handler.no_error
    else if a == 0x2000
    then some Handler.with_error
    else if a == 0x3000
    then some Handler.double_fault
    else if a == 0x4000
    then some Handler.general_protection
    else if a == 0x5000
    then some Handler.page_fault
    else if a == 0x6000
    then some Handler.timer
    else if a == 0x7000
    then some Handler.keyboard
    else none

functions_fit : (h : Handler) → functions h < 2 ^ 64
functions_fit Handler.no_error = omega arith
functions_fit Handler.with_error = omega arith
functions_fit Handler.double_fault = omega arith
functions_fit Handler.general_protection = omega arith
functions_fit Handler.page_fault = omega arith
functions_fit Handler.timer = omega arith
functions_fit Handler.keyboard = omega arith

function_at-functions : (h : Handler) → function_at (functions h) ≡ some h
function_at-functions Handler.no_error = refl
function_at-functions Handler.with_error = refl
function_at-functions Handler.double_fault = refl
function_at-functions Handler.general_protection = refl
function_at-functions Handler.page_fault = refl
function_at-functions Handler.timer = refl
function_at-functions Handler.keyboard = refl

abbrev keys : oronyx.Keyboard.State
keys = record {
  last_key = 0;
  keys = λ c. false;
  shift_left = false;
  shift_right = false;
  caps_lock = false;
  event_queue = λ i. record { ascii = 0; scancode = 0; pressed = false };
  queue_head = 63;
  queue_tail = 63;
  queue_size = 0;
}

-- One page table per level, which lead from 0xfee00000 to the page there.
abbrev wired_machine : Machine
wired_machine = record machine {
  memory = record machine.memory {
    cr3 = 0x1000;
    pmm = record machine.memory.pmm {
      memory = λ a.
          if a == 0x1000
          then 0x2003
          else if a == 0x2018
          then 0x3003
          else if a == 0x3fb8
          then 0x4003
          else if a == 0x4000
          then 0xfee00013
          else 0;
    };
  };
}

wired : translate (u64 (apic_base + 0 + 0xb0)) wired_machine.memory ≡ some (apic_base + 0xb0)
unfolding translate
wired = refl

-- A tick, a key, and a tick.
clock_stops_example :
    (t : Machine) × (y : System) × (init functions 0x5000 0x6000 old_cpu (some 0) none wired_machine
      ≡ some t)
    × (requests function_at ((0, 0) ∷ (1, 0x1e) ∷ (0, 0) ∷ []) (booted t keys pair) ≡ some y)
    × (get_tick y.machine ≡ u64 (get_tick t + 1))
    × (y.keys ≡ keys)
    × (y.console ≡ [])
clock_stops_example =
    clock_stops functions 0x5000 0x6000 old_cpu function_at 0 0 none wired_machine keys pair
      ((1, 0x1e) ∷ (0, 0) ∷ []) functions_fit function_at-functions zero_bit (inl no_avx) wired
