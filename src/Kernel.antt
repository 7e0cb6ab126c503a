-- ===== src/Kernel.antt =====
-- kernel/main.cpp: `kernel_main`, the start of the kernel from the responses of the boot loader.
pub mod Output
pub mod Log
mod Tests
use oronyx.Base.{ℕ, ◌<◌, Bool, true, false, not, Option, none, some, List, [], ◌∷◌, ◌>>=◌}
use oronyx.Base.{if◌then◌else◌, ◌==◌}
use oronyx.Console
use oronyx.Features.{Cpuid, Smp}
use oronyx.Graphics
use oronyx.Graphics.{Screen, putchar, write, write_line}
use oronyx.Interrupts.{Handler}
use oronyx.Machine.{Machine, halt}
use oronyx.Memory
use oronyx.Cpu
use oronyx.Pmm.{Print, Entry}
use Prim.Native.String.{String}
use Prim.Native.Char.{code}

-- The bytes of an ASCII text.
abbrev pub codes : String → List ℕ
codes String.[] = []
codes (String.◌∷◌ c s) = code c ∷ codes s

-- `putc` for each character.
unfoldable pub put_all : List ℕ → Screen → Option Screen
unfolding putchar
put_all [] s = some s
put_all (c ∷ cs) s = do t ← putchar c s; put_all cs t

-- The functions of libk/src/iostream.cpp on the console.
unfoldable pub show : Print → Screen → Option Screen
unfolding write write_line put_all
show (Print.puts t) s = write (codes t) s
show (Print.putln t) s = write_line (codes t) s
show (Print.write_line t) s = write_line (codes t) s
show (Print.print_int v) s = do cs ← Console.print_int v; put_all cs s
show (Print.print_hex v) s = do cs ← Console.print_hex v; put_all cs s
show Print.endl s = write_line [] s

unfoldable pub render : List Print → Screen → Option Screen
unfolding show
render [] s = some s
render (p ∷ ps) s = do t ← show p s; render ps t

-- A frame buffer at an address, with its pixels and its pitch in bytes.
pub record Framebuffer : Type 0 where
  pub pixels : ℕ → ℕ
  pub width : ℕ
  pub height : ℕ
  pub pitch : ℕ

-- What the boot loader answers, and what the linker, the compiler and the processor give.
pub record Boot : Type 0 where
  pub is_supported : Bool
  pub framebuffers : Option (List Framebuffer)
  pub hhdm : Option ℕ
  pub memmap : Option (List Entry)
  pub smp : Option Smp
  pub address : Handler → ℕ
  pub tss_base : ℕ
  pub syscall_entry : ℕ
  pub efer : ℕ
  pub cpuid : ℕ → Cpuid

-- The static state of the console.
abbrev pub no_screen : Screen
no_screen = record {
  buffer = λ i. 0;
  width = 0;
  height = 0;
  pitch = 0;
  x_pos = 0;
  y_pos = 0;
  fg_color = 0xffffffff;
  bg_color = 0;
}

abbrev pub log_of : Machine → List Print
log_of m = m.memory.pmm.log

-- The log is on the screen.
abbrev pub drop_log : Machine → Machine
drop_log m = record m { memory = record m.memory { pmm = record m.memory.pmm { log = [] } } }

-- `kernel_main` behind the start of the memory management.
unfoldable pub welcome : Boot → Machine → Screen → Option (Machine × Screen)
unfolding write write_line render Cpu.init
welcome boot m s = do
  s1 ← write (codes "\n") s
  s2 ← write (codes "\t\n") s1
  s3 ← write_line (codes "WELCOME TO ORNYX") s2
  s4 ← write_line (codes "RUNNING ON x86_64") s3
  n ←
      Cpu.init boot.address boot.tss_base boot.syscall_entry boot.cpuid boot.hhdm boot.smp
        (drop_log m)
  s5 ← render (log_of n) s4
  some (halt n, s5)

-- `kernel_main` on the first frame buffer. Nothing runs behind a `halt`.
unfoldable pub start : Boot → Framebuffer → Machine → Option (Machine × Screen)
unfolding Memory.init Graphics.init render welcome
start boot fb m = do
  n ← Memory.init boot.hhdm boot.memmap boot.efer m
  s ← render (log_of n) (Graphics.init fb.pixels fb.width fb.height fb.pitch)
  if n.halted then some (n, s) else welcome boot n s

unfoldable pub kernel_main : Boot → Machine → Option (Machine × Screen)
unfolding start
kernel_main boot m =
    if not boot.is_supported then some (halt m, no_screen) else elim boot.framebuffers [
      | none ↦ some (halt m, no_screen)
      | some [] ↦ some (halt m, no_screen)
      | some (fb ∷ fbs) ↦ start boot fb m
    ]
