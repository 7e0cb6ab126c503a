-- ===== src/Cpu/Start.antt =====
-- What a machine without a local APIC is like once `init` has returned.
use oronyx.Base.{
  ℕ, ◌+◌, ◌-◌, ◌^◌, ◌<◌, ◌≡◌, refl, arith, ap, ◌∙◌, true, false, Option, none, some, ltb,
}
use oronyx.Base.{◌==◌, if◌then◌else◌}
use oronyx.Base.BitAt.{bit_at}
use oronyx.Interrupts.{Handler, setup}
use oronyx.Interrupts.Table.{Serves, handler_at, has_handler, is_served, setup-Serves}
use oronyx.Features.{
  Cpuid, Smp, detect, detect_basic, detect_extended, detect_smp, enable_sse, set_xcr0,
}
use oronyx.Features.Detect.{has-bit_at}
use oronyx.Paging.Tables.{translate}
use oronyx.Features.Enable.{with_avx, enable_avx_valid, enable_avx_invalid, enable_sse-osxsave}
use oronyx.Base.{◌⊎◌, inl, inr}
use oronyx.Controllers.{init_controllers, init_pic}
use oronyx.Controllers.Pic.{Pair, receive, IsReady, init_pic-IsReady}
use oronyx.Machine.{Machine, CpuFeatures, wrmsr}
use oronyx.Cpu.{init, prepare, load_tables, detect_features, finish, load_segments, enable_syscall}

detect-apic :
    (cpuid : ℕ → Cpuid) (smp : Option Smp) (f : CpuFeatures)
    → (detect cpuid smp f).apic ≡ (bit_at 9 (cpuid 1).edx == 1)
unfolding detect detect_basic detect_extended detect_smp
detect-apic cpuid none f = ground (arith, has-bit_at 9 (cpuid 1).edx)
detect-apic cpuid (some smp) f = ground (arith, has-bit_at 9 (cpuid 1).edx)

-- Without AVX, or with OSXSAVE (bit 18) of cr4 set, the instructions that `init` enables AVX with are
-- valid.
abbrev pub IsEnabled : (ℕ → Cpuid) → Option Smp → Machine → Type 0
IsEnabled cpuid smp m = ((detect cpuid smp m.features).avx ≡ false) ⊎ (bit_at 18 m.cr4 ≡ 1)

-- The fields that the enabling of the vector units leaves alone.
pub enable-frame :
    (m : Machine)
    → ((with_avx (enable_sse m)).vectors ≡ m.vectors)
      × ((with_avx (enable_sse m)).features ≡ m.features)
unfolding set_xcr0 enable_sse
enable-frame m = (ground arith, ground arith)

enable-kept :
    (m : Machine)
    → ((with_avx (enable_sse m)).memory ≡ m.memory)
      × ((with_avx (enable_sse m)).hhdm_offset ≡ m.hhdm_offset)
unfolding set_xcr0 enable_sse
enable-kept m = (ground arith, ground arith)

-- What `finish` and `init_pic` leave of the tables, the offset and the registers of the local APIC.
pub finish-kept :
    (entry v : ℕ) (m : Machine)
    → (translate v (finish entry m).memory ≡ translate v m.memory)
      × ((finish entry m).apic ≡ m.apic)
      × ((finish entry m).hhdm_offset ≡ m.hhdm_offset)
unfolding finish enable_syscall wrmsr translate
finish-kept entry v m = (refl, refl, refl)

pub init_pic-kept :
    (m : Machine) → ((init_pic m).memory ≡ m.memory) × ((init_pic m).hhdm_offset ≡ m.hhdm_offset)
unfolding init_pic
init_pic-kept m = (refl, refl)

enable_sse-features : (m : Machine) → (enable_sse m).features ≡ m.features
unfolding enable_sse
enable_sse-features m = ground arith

-- What the steps behind the controllers leave alone, and the interrupt flag that they set.
pub finish-frame :
    (entry : ℕ) (m : Machine)
    → ((finish entry m).vectors ≡ m.vectors)
      × ((finish entry m).ports ≡ m.ports)
      × ((finish entry m).interrupts ≡ true)
unfolding finish enable_syscall wrmsr
finish-frame entry m = (refl, refl, refl)

pub init_pic-vectors : (m : Machine) → (init_pic m).vectors ≡ m.vectors
unfolding init_pic
init_pic-vectors m = refl

irq_served : (n : ℕ) → n < 16 → is_served (32 + n) ≡ true
irq_served n h = ground arith

-- The vector with which a line of the two controllers interrupts.
abbrev pub vector_of : ℕ → Pair → ℕ
vector_of n p = if ltb n 8 then p.master.base + n else p.slave.base + (n - 8)

pub vector_of-IsReady :
    (n : ℕ) (p : Pair) → n < 16 → IsReady 32 p.master → IsReady 40 p.slave → vector_of n p ≡ 32 + n
vector_of-IsReady n p h (b, _, _, _) (c, _, _, _) = ground arith

abbrev pub line_of : ℕ → Machine → Pair → ℕ
line_of n t p = vector_of n (receive t.ports p)

module _ (address : Handler → ℕ) (tss_base : ℕ) (cpuid : ℕ → Cpuid) (offset : ℕ) (smp : Option Smp)
    (m : Machine) where
  abbrev pub detected : Machine
  detected = detect_features cpuid smp (load_tables address tss_base offset m)

  -- The state that `prepare` leaves.
  abbrev pub prepared : Machine
  prepared = with_avx (enable_sse detected)

  detected-features : detected.features ≡ detect cpuid smp m.features
  unfolding detect_features load_tables load_segments
  detected-features = refl

  detected-cr4 : detected.cr4 ≡ m.cr4
  unfolding detect_features load_tables load_segments
  detected-cr4 = refl

  pub prepared-memory : prepared.memory ≡ m.memory
  unfolding detect_features load_tables load_segments
  prepared-memory = (enable-kept detected).0

  pub prepared-offset : prepared.hhdm_offset ≡ offset
  unfolding detect_features load_tables load_segments
  prepared-offset = (enable-kept detected).1

  enabled_features : (enable_sse detected).features ≡ detect cpuid smp m.features
  enabled_features = enable_sse-features detected ∙ detected-features

  enabled_osxsave : bit_at 18 (enable_sse detected).cr4 ≡ bit_at 18 m.cr4
  enabled_osxsave = enable_sse-osxsave detected ∙ ap (bit_at 18) detected-cr4

  pub prepare-IsEnabled :
      IsEnabled cpuid smp m → prepare address tss_base cpuid offset smp m ≡ some prepared
  unfolding prepare
  prepare-IsEnabled (inl no_avx) =
      enable_avx_valid (enable_sse detected)
        (inl (ap (λ (g : CpuFeatures). g.avx) enabled_features ∙ no_avx))
  prepare-IsEnabled (inr on) = enable_avx_valid (enable_sse detected) (inr (enabled_osxsave ∙ on))

  -- With AVX and with OSXSAVE (bit 18) of cr4 clear, `init` faults with any offset, at the instruction
  -- that reads XCR0, since nothing in front of it sets the bit.
  pub init_invalid :
      (entry : ℕ)
      → (detect cpuid smp m.features).avx ≡ true
      → bit_at 18 m.cr4 ≡ 0
      → init address tss_base entry cpuid (some offset) smp m ≡ none
  unfolding init prepare
  init_invalid entry avx off =
      let stops =
        enable_avx_invalid (enable_sse detected)
          (ap (λ (g : CpuFeatures). g.avx) enabled_features ∙ avx) (enabled_osxsave ∙ off) in
      rw stops refl

module _ (address : Handler → ℕ) (tss_base entry : ℕ) (cpuid : ℕ → Cpuid) where
  pub prepare-frame :
      (offset : ℕ) (smp : Option Smp) (m : Machine)
      → ((prepared address tss_base cpuid offset smp m).vectors ≡ setup address m.vectors)
        × ((prepared address tss_base cpuid offset smp m).features.apic
            ≡ (bit_at 9 (cpuid 1).edx == 1))
  unfolding detect_features load_tables load_segments
  prepare-frame offset smp m =
      let n = load_tables address tss_base offset m in
      let f = enable-frame (detect_features cpuid smp n) in
      (f.0, ap (λ (g : CpuFeatures). g.apic) f.1 ∙ detect-apic cpuid smp n.features)

  pub init-pic :
      (offset : ℕ) (smp : Option Smp) (m : Machine)
      → IsEnabled cpuid smp m
      → (prepared address tss_base cpuid offset smp m).features.apic ≡ false
      → init address tss_base entry cpuid (some offset) smp m
        ≡ some (finish entry (init_pic (prepared address tss_base cpuid offset smp m)))
  unfolding init init_controllers
  init-pic offset smp m on h = rw (prepare-IsEnabled address tss_base cpuid offset smp m on, h) refl

  -- Without a local APIC, and without AVX or with OSXSAVE (bit 18) of cr4 set, `init` returns, with
  -- interrupts enabled: whatever the two PICs were sent
  -- before, each of their lines is unmasked and interrupts with a vector whose entry is a present
  -- gate to a handler without an error code.
  pub init-Serves :
      (offset n : ℕ) (smp : Option Smp) (m : Machine) (p : Pair)
      → ((h : Handler) → address h < 2 ^ 64)
      → bit_at 9 (cpuid 1).edx ≡ 0
      → IsEnabled cpuid smp m
      → n < 16
      → (t : Machine) × (init address tss_base entry cpuid (some offset) smp m ≡ some t)
        × (t.interrupts ≡ true)
        × (((receive t.ports p).master.mask ≡ 0) × ((receive t.ports p).slave.mask ≡ 0))
        × Serves address (line_of n t p) (handler_at (line_of n t p)) m.vectors t.vectors
        × (has_handler (handler_at (line_of n t p)) ≡ true)
  init-Serves offset n smp m p fits no_apic on h =
      let k = prepared address tss_base cpuid offset smp m in
      let (vectors, apic) = prepare-frame offset smp m in
      let (vectors', ports, flag) = finish-frame entry (init_pic k) in
      let (master, slave, _) = init_pic-IsReady k p in
      let line = vector_of-IsReady n (receive (init_pic k).ports p) h master slave in
      let served = setup-Serves address (32 + n) m.vectors fits (omega arith) in
      let tables = vectors' ∙ init_pic-vectors k ∙ vectors in
      (
        finish entry (init_pic k),
        init-pic offset smp m on (ground (arith, apic)),
        flag,
        rw ports (master.3, slave.3),
        rw (ports, line, tables) served.0,
        rw (ports, line) (served.1 ∙ irq_served n h),
      )
