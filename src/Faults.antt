-- ===== src/Faults.antt =====
-- arch/x86_64/src/cpu_impl.cpp: the handlers of the timer and of the faults. The argument `cr2` is
-- the register with the faulting address, `ip` is that of the interrupt frame.
pub mod Ticks
mod Tests
use oronyx.Base.{ℕ, ◌+◌, ◌/◌, ◌^◌, u64, update, Bool, true, false, Option, some, if◌then◌else◌}
use Prim.Native.String.{String}
use oronyx.Features.{has}
use oronyx.Machine.{Machine, wrmsr, write_apic, halt, say}
use oronyx.Pmm.{Print, puts, write_line, print_hex}

-- The end-of-interrupt register is 0x80B in x2APIC mode and 0xB0 in memory, where the store may fault.
unfoldable pub timer_handler : Machine → Option Machine
unfolding wrmsr write_apic
timer_handler m =
    let n = record m { tick = u64 (m.tick + 1) } in
    if n.features.x2apic then some (wrmsr 0x80b 0 n) else write_apic n.hhdm_offset 0xb0 0 n

-- The three words of a page fault's report, from the bits of the error code.
abbrev pub cause : ℕ → String
cause error = if has 0 error then "protection violation, " else "non-present page, "

abbrev pub operation : ℕ → String
operation error = if has 1 error then "write, " else "read, "

abbrev pub origin : ℕ → String
origin error = if has 2 error then "user, " else "kernel, "

unfoldable pub page_fault_handler : ℕ → ℕ → Machine → Machine
unfolding has
page_fault_handler cr2 error m = halt (
    say (write_line ")") (
      say (puts (origin error)) (
        say (puts (operation error)) (
          say (puts (cause error))
            (say (puts " (") (say (print_hex cr2) (say (puts "Page Fault at 0x") m)))))))

unfoldable pub gpf_handler : ℕ → ℕ → Machine → Machine
gpf_handler ip error m = halt (
    say (write_line "") (
      say (print_hex ip) (
        say (puts " at RIP: ")
          (say (print_hex error) (say (puts "General Protection Fault! Error code: ") m)))))

unfoldable pub double_fault_handler : ℕ → Machine → Machine
double_fault_handler ip m = halt (
    say (write_line "")
      (say (print_hex ip) (say (puts "At RIP: ") (say (write_line "DOUBLE FAULT!") m))))
