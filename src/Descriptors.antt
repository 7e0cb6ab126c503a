-- ===== src/Descriptors.antt =====
-- arch/x86_64/src/cpu_impl.cpp: the entries of the interrupt table and of the segments' table, the
-- task state segment and its descriptor.
pub mod Fields
use oronyx.Base.{ℕ, ◌^◌, ◌-◌, bit_and, bit_or, u8, update, ◌<<<◌, ◌>>>◌}

pub record IdtEntry : Type 0 where
  pub offset_low : ℕ
  pub selector : ℕ
  pub ist : ℕ
  pub flags : ℕ
  pub offset_mid : ℕ
  pub offset_high : ℕ
  pub reserved : ℕ

pub record GdtEntry : Type 0 where
  pub limit_low : ℕ
  pub base_low : ℕ
  pub base_middle : ℕ
  pub access : ℕ
  pub limit_high : ℕ
  pub flags : ℕ
  pub base_high : ℕ

pub record GdtDescriptor : Type 0 where
  pub size : ℕ
  pub offset : ℕ

pub record IdtDescriptor : Type 0 where
  pub limit : ℕ
  pub base : ℕ

pub record Tss : Type 0 where
  pub reserved0 : ℕ
  pub rsp : ℕ → ℕ
  pub reserved1 : ℕ
  pub ist : ℕ → ℕ
  pub reserved2 : ℕ
  pub reserved3 : ℕ
  pub iopb : ℕ

-- The static `tss` before the first call: all zero.
abbrev pub no_tss : Tss
no_tss = record {
  reserved0 = 0;
  rsp = λ i. 0;
  reserved1 = 0;
  ist = λ i. 0;
  reserved2 = 0;
  reserved3 = 0;
  iopb = 0;
}

-- The arrays `idt` and `handlers`, by vector; a handler is its address.
pub record Vectors : Type 0 where
  pub idt : ℕ → IdtEntry
  pub handlers : ℕ → ℕ

-- The static arrays before the first call: all zero.
abbrev pub no_vectors : Vectors
no_vectors = record {
  idt = λ v. record {
    offset_low = 0;
    selector = 0;
    ist = 0;
    flags = 0;
    offset_mid = 0;
    offset_high = 0;
    reserved = 0;
  };
  handlers = λ v. 0;
}

-- The entry that `set_gate` writes.
unfoldable pub gate_entry : ℕ → ℕ → ℕ → IdtEntry
gate_entry handler ist dpl = record {
  offset_low = bit_and handler 0xffff;
  selector = 0x08;
  ist = bit_and ist 0x7;
  flags = u8 (bit_or 0x8e (bit_and dpl 0x3 <<< 5));
  offset_mid = bit_and (handler >>> 16) 0xffff;
  offset_high = bit_and (handler >>> 32) 0xffffffff;
  reserved = 0;
}

unfoldable pub set_gate : ℕ → ℕ → ℕ → ℕ → Vectors → Vectors
unfolding gate_entry
set_gate vector handler ist dpl s = record s {
  idt = update s.idt vector (gate_entry handler ist dpl);
  handlers = update s.handlers vector handler;
}

-- The two entries, `gdt[3]` and `gdt[4]`, that `init` makes of the address and the limit of `tss`.
unfoldable pub tss_low : ℕ → ℕ → GdtEntry
tss_low limit tss_base = record {
  limit_low = bit_and limit 0xffff;
  base_low = bit_and tss_base 0xffff;
  base_middle = bit_and (tss_base >>> 16) 0xff;
  access = 0x89;
  limit_high = bit_and (limit >>> 16) 0xf;
  flags = 0;
  base_high = bit_and (tss_base >>> 24) 0xff;
}

unfoldable pub tss_high : ℕ → GdtEntry
tss_high tss_base = record {
  limit_low = bit_and (tss_base >>> 32) 0xffff;
  base_low = bit_and (tss_base >>> 48) 0xffff;
  base_middle = 0;
  access = 0;
  limit_high = 0;
  flags = 0;
  base_high = 0;
}
