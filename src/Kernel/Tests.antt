-- ===== src/Kernel/Tests.antt =====
-- The theorem on `kernel_main` at a concrete boot.
use oronyx.Base.{◌≡◌, refl, arith, not, ◌||◌, none, some, [], ◌∷◌, true, if◌then◌else◌}
use oronyx.Machine.Sample.{machine}
use oronyx.Kernel.{Boot, Framebuffer, kernel_main}
use oronyx.Kernel.Output.{halted, has_no_framebuffer, kernel_main_outcome}

abbrev framebuffer : Framebuffer
framebuffer = record { pixels = λ i. 0; width = 1024; height = 768; pitch = 4096 }

abbrev boot : Boot
boot = record {
  is_supported = true;
  framebuffers = some (framebuffer ∷ []);
  hhdm = some 0xffff800000000000;
  memmap = some (record { base = 0x100000; length = 0x200000; type = 0 } ∷ []);
  smp = none;
  address = λ h. 0xffff_ffff_8000_0000;
  tss_base = 0xffff_ffff_8010_0000;
  syscall_entry = 0xffff_ffff_8000_1000;
  efer = 0xd00;
  cpuid = λ leaf. record { eax = 0; ebx = 0; ecx = 0; edx = 0 };
}

kernel_main_outcome_example : kernel_main boot machine ≡ (
    if not boot.is_supported || has_no_framebuffer boot.framebuffers then halted machine else none)
kernel_main_outcome_example = kernel_main_outcome boot machine refl (record {
  width_pos = omega arith;
  height_pos = omega arith;
  width_fits = omega arith;
  height_fits = omega arith;
})
