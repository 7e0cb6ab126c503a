-- ===== src/Machine/Sample.antt =====
-- A machine as a boot loader may leave it, for the tests.
use oronyx.Base.{false, [], ◌==◌, if◌then◌else◌}
use oronyx.Descriptors.{no_vectors, no_tss}
use oronyx.Machine.{Machine}

abbrev pub machine : Machine
machine = record {
  features = record {
    apic = false;
    x2apic = false;
    sse = false;
    avx = false;
    avx2 = false;
    avx512f = false;
    avx512bw = false;
    avx512cd = false;
    avx512dq = false;
    bsp_lapic_id = 0;
  };
  tick = 0;
  hhdm_offset = 0;
  vectors = no_vectors;
  gdt = λ i. record {
    limit_low = 0;
    base_low = 0;
    base_middle = 0;
    access = 0;
    limit_high = 0;
    flags = 0;
    base_high = 0;
  };
  gdtr = record { size = 39; offset = 0x7000 };
  idtr = record { limit = 4095; base = 0x8000 };
  tss = no_tss;
  gdt_register = record { size = 0; offset = 0 };
  idt_register = record { limit = 0; base = 0 };
  cs = 0;
  ds = 0;
  tr = 0;
  interrupts = false;
  halted = false;
  msr = λ r. if r == 0x1b then 0xfee00000 else 0;
  cr0 = 0x80000011;
  cr4 = 0x20;
  xcr0 = 1;
  apic = λ i. 0;
  ports = [];
  memory = record {
    pmm = record {
      regions = λ i. record { base = 0; len = 0; is_free = false };
      region_count = 0;
      hhdm_offset = 0;
      memory = λ a. 0;
      log = [];
    };
    hhdm_offset = 0;
    cr3 = 0x1000;
    flushed = [];
  };
}
