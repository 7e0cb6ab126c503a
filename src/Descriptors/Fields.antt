-- ===== src/Descriptors/Fields.antt =====
-- What the processor reads from the entries that the code packs.
use oronyx.Base.{ℕ, ◌+◌, ◌*◌, ◌/◌, ◌%◌, ◌^◌, ◌<◌, ◌≡◌, ◌≢◌, refl, arith, bit_or, u8}
use oronyx.Base.{◌==◌, Bool, true, every, every_sound}
use oronyx.Base.Bits.{bit_and-low}
use oronyx.Descriptors.{IdtEntry, GdtEntry, Vectors, set_gate, gate_entry, tss_low, tss_high}

-- The address of a gate's handler, its privilege level and its type, as the processor takes them.
abbrev pub gate_offset : IdtEntry → ℕ
gate_offset e = e.offset_low + e.offset_mid * 2 ^ 16 + e.offset_high * 2 ^ 32

abbrev pub gate_dpl : IdtEntry → ℕ
gate_dpl e = e.flags / 2 ^ 5 % 4

abbrev pub gate_type : IdtEntry → ℕ
gate_type e = e.flags % 2 ^ 5

abbrev pub gate_present : IdtEntry → ℕ
gate_present e = e.flags / 2 ^ 7

-- The base and the limit of a descriptor of two entries.
abbrev pub system_base : GdtEntry → GdtEntry → ℕ
system_base low high =
    low.base_low
    + low.base_middle * 2 ^ 16
    + low.base_high * 2 ^ 24
    + (high.limit_low + high.base_low * 2 ^ 16) * 2 ^ 32

abbrev pub system_limit : GdtEntry → ℕ
system_limit low = low.limit_low + low.limit_high * 2 ^ 16

-- A present interrupt gate to `handler` in the kernel's code segment, with the stack `ist` and the
-- privilege level `dpl`.
abbrev pub IsGate : ℕ → ℕ → ℕ → IdtEntry → Type 0
IsGate handler ist dpl e =
    (gate_offset e ≡ handler)
    × (gate_present e ≡ 1)
    × (gate_dpl e ≡ dpl % 4)
    × (gate_type e ≡ 0xe)
    × (e.ist ≡ ist % 8)
    × (e.selector ≡ 0x08)

abbrev is_flags : ℕ → Bool
is_flags d = u8 (bit_or 0x8e (d * 2 ^ 5)) == 0x8e + d * 2 ^ 5

levels : every is_flags 4 ≡ true
unfolding every
levels = refl

gate_flags : (d : ℕ) → d < 4 → u8 (bit_or 0x8e (d * 2 ^ 5)) ≡ 0x8e + d * 2 ^ 5
gate_flags d h = let row = every_sound is_flags 4 d h levels in ground arith

pub gate_entry-IsGate :
    (handler ist dpl : ℕ) → handler < 2 ^ 64 → IsGate handler ist dpl (gate_entry handler ist dpl)
unfolding gate_entry
gate_entry-IsGate handler ist dpl h =
    let flags = gate_flags (dpl % 4) (omega arith) in
    let level = bit_and-low 2 dpl in
    (
      omega (
        arith,
        bit_and-low 16 handler,
        bit_and-low 16 (handler / 2 ^ 16),
        bit_and-low 32 (handler / 2 ^ 32),
      ),
      rw level (ground (arith, flags)),
      rw level (ground (arith, flags)),
      rw level (ground (arith, flags)),
      bit_and-low 3 ist,
      refl,
    )

-- `set_gate` makes the entry of its vector a present interrupt gate to the handler with the given
-- privilege level and stack, and leaves the entries and handlers of all other vectors.
set_gate_lem :
    (vector handler ist dpl other : ℕ) (s : Vectors)
    → handler < 2 ^ 64
    → other ≢ vector
    → IsGate handler ist dpl ((set_gate vector handler ist dpl s).idt vector)
      × ((set_gate vector handler ist dpl s).handlers vector ≡ handler)
      × ((set_gate vector handler ist dpl s).idt other ≡ s.idt other)
      × ((set_gate vector handler ist dpl s).handlers other ≡ s.handlers other)
unfolding set_gate
set_gate_lem vector handler ist dpl other s h ne =
    let own : (vector == vector) ≡ true = ground arith in
    (rw own (gate_entry-IsGate handler ist dpl h), rw own refl, ground arith, ground arith)

-- The two entries for the task state segment hold its address and its limit.
pub tss_lem :
    (limit tss_base : ℕ)
    → limit < 2 ^ 20
    → tss_base < 2 ^ 64
    → (system_base (tss_low limit tss_base) (tss_high tss_base) ≡ tss_base)
      × (system_limit (tss_low limit tss_base) ≡ limit)
unfolding tss_low tss_high
tss_lem limit b hl hb = (
  omega (
    arith,
    bit_and-low 16 b,
    bit_and-low 8 (b / 2 ^ 16),
    bit_and-low 8 (b / 2 ^ 24),
    bit_and-low 16 (b / 2 ^ 32),
    bit_and-low 16 (b / 2 ^ 48),
  ),
  omega (arith, bit_and-low 16 limit, bit_and-low 4 (limit / 2 ^ 16)),
)
