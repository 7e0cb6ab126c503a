-- ===== src/Lib.antt =====
-- Models of the oronyx kernel, translated from its C++ sources, with theorems about them.
--
-- The kernel prints on a console that it draws into the frame buffer of the boot loader, takes
-- page frames from a physical memory manager and fills page tables with them, and queues the keys
-- of a keyboard interrupt.
--
-- Base: arrays, machine words, Boolean tests, sums over an array, laws of the bit operations.
-- Regions (mm/pmm.cpp, include/oronyx/mm/pmm.hpp): the array `regions` with the loops that sort,
-- merge and shift it. An access outside the array is a fault, the `none` of a result. Children:
-- Shift, Sort and Merge compute the loops, Order holds the order of the array.
-- Pmm (mm/pmm.cpp): the class `PMM`. `State` is its static state with the memory words that it
-- clears and what it prints; `init`, `alloc_pages`, `free_pages`, `print_regions` and
-- `get_free_memory` are the member functions, each loop a function of its own. The merging loop
-- has fuel for `region_count + 1` rounds, which `init-IsInitialized` shows to be enough; the other
-- loops recur on the rounds left. Child History has the states that calls of `alloc_pages` and
-- `free_pages` in any order lead to, with the blocks that the callers hold, as a relation; its
-- child Memory puts `init` in front of them.
-- Keyboard (drivers/keyboard.cpp): the circular queue of events, the translation of scancodes, the
-- handler of the keyboard interrupt and the loop that prints the queued keys. `State` is
-- `keyboard_state`; the byte of the controller's port is an argument of the handler.
-- `process_keyboard_input` recurs on the events in the queue.
-- Console (libk/src/iostream.cpp): the printing of numbers. A function returns the characters that
-- it gives to `putc`; its digit loop has fuel for as many rounds as its buffer has characters,
-- which the theorems show to be enough.
-- Ctypes (libk/src/ctypes.cpp): the classes of characters and the change of case, on an `int` that
-- may be negative.
-- Utf8 (drivers/graphics.cpp): `decode_utf8` on a list of bytes.
-- Fonts (include/oronyx/data/fonts.hpp): the bytes of `FONTS` as the compiler sees them, without
-- the rows that stand behind a `//`.
-- Graphics (drivers/graphics.cpp, include/oronyx/drivers/graphics.hpp): the console. `Screen` is
-- its static state with the pixels of the frame buffer; a read past the end of `FONTS` is a fault,
-- the `none` of a result. `put_glyph` is `_putchar`. The loops recur on the pixels and lines left,
-- and `write` on the bytes left, of which each round takes one or more.
-- Paging (arch/x86_64/src/mem_impl.cpp, arch/x86_64/include/mem_impl.hpp): `alloc_page`,
-- `flush_tlb` and `map_page` on the memory words of the physical memory manager, with the register
-- cr3 and the flushed addresses. `next_table` is the block that `map_page` repeats for each level.
-- Child Tables: the processor's walk of the tables as an independent definition, with pages of 4
-- KB, 2 MB and 1 GB. Fresh, Link, Space and Empty follow a page from the manager into the tables.
-- Level has the same walk by recursion on the level; Change, Effect and Clear say what one write
-- of an entry does to the walks of tables of which no two entries share one; Step, Prepare and
-- Leaf apply this to the parts of `map_page`. Frame says which memory such writes leave alone, and
-- which writes leave the walks alone. Refine and RefineLarge take the tables as the function from
-- virtual to physical addresses that the walk computes, and Runs has sequences of calls as a
-- relation. Shared has the calls of `map_page` among those of other callers of the memory manager,
-- with their writes into their blocks, as a relation.
-- Machine (arch/x86_64/src/cpu_impl.cpp, arch/x86_64/include/cpu_impl.hpp,
-- arch/x86_64/src/io_impl.cpp): the static state of the processor's code and the registers behind
-- its inline assembly.
-- Descriptors (arch/x86_64/src/cpu_impl.cpp): the entries of the interrupt table and of the
-- segments' table, `set_gate`, and the task state segment with the descriptor that `init` packs
-- for it.
-- Interrupts (arch/x86_64/src/cpu_impl.cpp): the vectors, `setup_exc`, `setup_irqs`, and
-- `int_no_error` and `int_with_error`, whose nested calls have fuel: they may call themselves for
-- ever. What they read from the stack as the interrupt number is an argument. The addresses of the
-- functions are a parameter.
-- Features (arch/x86_64/src/cpu_impl.cpp): the parts of `cpu_traits<x86_64>::init` that read
-- `cpuid`, whose results are a parameter, and turn on SSE and AVX; `enable_avx` has no result
-- where its instructions are invalid.
-- Controllers (arch/x86_64/src/cpu_impl.cpp): the parts of `init` for the local APIC and for the
-- two 8259A PICs. A store to a register of the APIC in memory has a result only if the walk of its
-- address leads to that register. Child Pic has a model of the chips' setup by their data sheet,
-- as the specification, and Service one of their work.
-- Faults (arch/x86_64/src/cpu_impl.cpp): the handlers of the timer and of the faults.
-- Cpu (arch/x86_64/src/cpu_impl.cpp): `cpu_traits<x86_64>::init` as a whole. Child Segments reads
-- the descriptors that `init` loads as the processor does; LocalApic has `init` with a local APIC,
-- with the walk of the page of its registers; Requests has the requests of the interrupt lines
-- behind it, with the handlers of the timer and of the keyboard; the function at an address is a
-- parameter, and of the other handlers a request has no result.
-- Memory (arch/x86_64/src/mem_impl.cpp): `mm_trait<x86_64>::init`, which starts the physical
-- memory manager and sets the control registers. The register that its inline assembly leaves in
-- EFER is an argument.
-- Kernel (kernel/main.cpp, libk/src/iostream.cpp): `kernel_main`. `Boot` is what the boot loader,
-- the linker, the compiler and the processor give; the text that the parts print goes to the
-- console in the order in which they print it. Child Log has the first line of that text.
-- Runtime (kernel/src/init.cpp, libk/src/__cxxrt.cpp): `init_globals` on any array of functions,
-- and the functions that the compiler calls. The loop has fuel, of which any number above that of
-- the functions is enough.
-- Aarch64 (arch/aarch64/src/cpu_impl.cpp): the stubs of the second architecture.
-- Atomic (libk/include/atomic.hpp): `atomic<T>` for an unsigned `T`. Child Schedule lets threads
-- work on one value, in the order of a schedule.
-- Traits (libk/include/type_traits.hpp): the templates as functions on a data type of the types of
-- C++, each partial specialization a clause.
--
-- Not modelled: the boot protocol's header include/oronyx/boot/limine.h (third party), the naked
-- entry of system calls and the build files.
pub mod Aarch64
pub mod Atomic
pub mod Base
pub mod Console
pub mod Controllers
pub mod Cpu
pub mod Ctypes
pub mod Descriptors
pub mod Faults
pub mod Features
pub mod Fonts
pub mod Graphics
pub mod Interrupts
pub mod Kernel
pub mod Keyboard
pub mod Machine
pub mod Memory
pub mod Paging
pub mod Pmm
pub mod Regions
pub mod Runtime
pub mod Traits
pub mod Utf8
