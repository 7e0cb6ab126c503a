-- ===== src/Cpu/Segments.antt =====
-- The segments that the processor runs on once `init` has returned, as it reads their descriptors.
use oronyx.Base.{
  ℕ, ◌+◌, ◌*◌, ◌/◌, ◌%◌, ◌^◌, ◌<◌, ◌≤◌, ◌≡◌, refl, sym, subst, ap, ◌∙◌, arith, true, none, some,
  Option,
}
use oronyx.Base.{Bool-cases, inl, inr}
use oronyx.Base.BitAt.{bit_at}
use oronyx.Descriptors.{GdtEntry, GdtDescriptor, IdtDescriptor, Tss, Vectors, tss_low, tss_high}
use oronyx.Descriptors.Fields.{system_base, system_limit, tss_lem}
use oronyx.Interrupts.{Handler, setup}
use oronyx.Interrupts.Table.{Serves, handler_at, has_handler, is_served, setup-Serves}
use oronyx.Features.{Cpuid, Smp, enable_sse, set_xcr0}
use oronyx.Features.Enable.{with_avx}
use oronyx.Controllers.{init_pic}
use oronyx.Machine.{Machine, wrmsr}
use oronyx.Cpu.{
  init, finish, load_tables, load_segments, detect_features, enable_syscall, static_gdt,
  static_gdtr, static_idtr, tss_limit, msr_star,
}
use oronyx.Cpu.Start.{IsEnabled, prepared, prepare-frame, finish-frame, init_pic-vectors, init-pic}

-- A present code segment of ring 0, for 64-bit code.
abbrev pub IsCode : GdtEntry → Type 0
IsCode e =
    (e.access / 2 ^ 7 ≡ 1)
    × (e.access / 2 ^ 5 % 4 ≡ 0)
    × (e.access / 2 ^ 3 % 4 ≡ 3)
    × (e.flags / 2 % 4 ≡ 1)

-- A present data segment of ring 0 that can be written.
abbrev pub IsData : GdtEntry → Type 0
IsData e =
    (e.access / 2 ^ 7 ≡ 1)
    × (e.access / 2 ^ 5 % 4 ≡ 0)
    × (e.access / 2 ^ 3 % 4 ≡ 2)
    × (e.access / 2 % 2 ≡ 1)

-- A present task state segment of `limit + 1` bytes at `base`, which is in use.
abbrev pub IsTask : ℕ → ℕ → GdtEntry → GdtEntry → Type 0
IsTask base limit low high =
    (low.access ≡ 0x8b) × (system_base low high ≡ base) × (system_limit low ≡ limit)

pub record Segments : Type 0 where
  pub gdt : ℕ → GdtEntry
  pub gdt_register : GdtDescriptor
  pub idt_register : IdtDescriptor
  pub tss : Tss
  pub cs : ℕ
  pub ds : ℕ
  pub tr : ℕ
  pub star : ℕ

abbrev pub segments_of : Machine → Segments
segments_of m = record {
  gdt = m.gdt;
  gdt_register = m.gdt_register;
  idt_register = m.idt_register;
  tss = m.tss;
  cs = m.cs;
  ds = m.ds;
  tr = m.tr;
  star = m.msr msr_star;
}

-- The descriptor of a selector, of `count` entries, ends inside the loaded table.
abbrev pub IsListed : ℕ → ℕ → Segments → Type 0
IsListed selector count s = selector / 8 * 8 + 8 * count ≤ s.gdt_register.size + 1

abbrev pub entry_of : ℕ → Segments → GdtEntry
entry_of selector s = s.gdt (selector / 8)

-- The code and data segments and the task state segment at `tss_base` with the I/O map at its limit.
abbrev pub IsRunning : ℕ → ℕ → Segments → Type 0
IsRunning gdt_base tss_base s =
    (s.gdt_register.offset ≡ gdt_base)
    × (IsListed s.cs 1 s × IsCode (entry_of s.cs s))
    × (IsListed s.ds 1 s × IsData (entry_of s.ds s))
    × (IsListed s.tr 2 s × IsTask tss_base tss_limit (entry_of s.tr s) (entry_of (s.tr + 8) s))
    × (s.tss.iopb ≡ tss_limit)

-- The gate of a vector is in the loaded table and leads into the code segment.
abbrev pub IsReached : ℕ → ℕ → Vectors → Segments → Type 0
IsReached idt_base v w s =
    (s.idt_register.base ≡ idt_base)
    × (v * 16 + 16 ≤ s.idt_register.limit + 1)
    × ((w.idt v).selector ≡ s.cs)

-- `syscall` loads the first selector of STAR and the next one; `sysret` loads the second and the third
-- behind the other one.
abbrev pub syscall_code : Segments → ℕ
syscall_code s = s.star / 2 ^ 32 % 2 ^ 16

abbrev pub sysret_base : Segments → ℕ
sysret_base s = s.star / 2 ^ 48

abbrev pub HasCalls : Segments → Type 0
HasCalls s =
    (syscall_code s ≡ s.cs)
    × (syscall_code s + 8 ≡ s.ds)
    × ((sysret_base s + 8) / 8 ≡ s.tr / 8)
    × ((sysret_base s + 16) / 8 ≡ s.tr / 8 + 1)

-- The static tables of the program.
abbrev pub IsStatic : ℕ → ℕ → Machine → Type 0
IsStatic gdt_base idt_base m =
    ((i : ℕ) → i < 5 → m.gdt i ≡ static_gdt i)
    × (m.gdtr ≡ static_gdtr gdt_base)
    × (m.idtr ≡ static_idtr idt_base)

sse_segments : (m : Machine) → segments_of (enable_sse m) ≡ segments_of m
unfolding enable_sse
sse_segments m = elim (Bool-cases m.features.sse) [ inl h ↦ rw h refl | inr h ↦ rw h refl ]

avx_segments : (m : Machine) → segments_of (with_avx m) ≡ segments_of m
unfolding set_xcr0
avx_segments m = elim (Bool-cases m.features.avx) [ inl h ↦ rw h refl | inr h ↦ rw h refl ]

selector_of-Serves :
    (address : Handler → ℕ) (v : ℕ) (o : Option Handler) (s t : Vectors)
    → Serves address v o s t
    → has_handler o ≡ true
    → (t.idt v).selector ≡ 0x08
selector_of-Serves address v none s t k h = absurd (cc h)
selector_of-Serves address v (some g) s t (gate, _, _) h = gate.5

module _ (address : Handler → ℕ) (tss_base entry : ℕ) (cpuid : ℕ → Cpuid) where
  load_tables-IsRunning :
      (gdt_base idt_base offset : ℕ) (m : Machine)
      → IsStatic gdt_base idt_base m
      → tss_base < 2 ^ 64
      → IsRunning gdt_base tss_base (segments_of (load_tables address tss_base offset m))
  unfolding load_tables load_segments tss_low tss_high
  load_tables-IsRunning gdt_base idt_base offset m (entries, g, d) h =
      let (base, limit) = tss_lem tss_limit tss_base (omega arith) h in
      let size : m.gdtr.size ≡ 39 = ap (λ (x : GdtDescriptor). x.size) g in
      (
        ap (λ (x : GdtDescriptor). x.offset) g,
        (omega (arith, size), rw (entries 1 (omega arith)) (refl, refl, refl, refl)),
        (omega (arith, size), rw (entries 2 (omega arith)) (refl, refl, refl, refl)),
        (omega (arith, size), (refl, base, limit)),
        refl,
      )

  prepare_segments :
      (offset : ℕ) (smp : Option Smp) (m : Machine)
      → segments_of (prepared address tss_base cpuid offset smp m)
        ≡ segments_of (load_tables address tss_base offset m)
  unfolding detect_features
  prepare_segments offset smp m =
      let n = detect_features cpuid smp (load_tables address tss_base offset m) in
      avx_segments (enable_sse n) ∙ sse_segments n

  finish-IsRunning :
      (gdt_base : ℕ) (m : Machine)
      → IsRunning gdt_base tss_base (segments_of m)
      → IsRunning gdt_base tss_base (segments_of (finish entry (init_pic m)))
  unfolding finish enable_syscall wrmsr init_pic
  finish-IsRunning gdt_base m k = k

  finish-HasCalls :
      (m : Machine)
      → m.cs ≡ 0x08
      → m.ds ≡ 0x10
      → m.tr ≡ 0x18
      → HasCalls (segments_of (finish entry (init_pic m)))
  unfolding finish enable_syscall wrmsr init_pic
  finish-HasCalls m c d t = rw (c, d, t) (refl, refl, refl, refl)

  -- Without a local APIC, without AVX or with OSXSAVE (bit 18) of cr4 set, and with functions and the task state segment at 64-bit addresses, `init`
  -- returns on the static tables with these segments: the code and data
  -- selectors pick present segments of ring 0 inside the loaded table, for 64-bit code and for
  -- writes; the task register picks the task state segment at its address, whose limit, like the
  -- offset of its I/O map, is its whole size of 104. The gate of each vector with a handler is in
  -- the loaded interrupt table and leads into that code segment. `syscall` loads the same two
  -- selectors, but `sysret` those of the two entries of the task state segment.
  pub init_segments :
      (gdt_base idt_base offset v : ℕ) (smp : Option Smp) (m : Machine)
      → IsStatic gdt_base idt_base m
      → ((h : Handler) → address h < 2 ^ 64)
      → tss_base < 2 ^ 64
      → bit_at 9 (cpuid 1).edx ≡ 0
      → IsEnabled cpuid smp m
      → is_served v ≡ true
      → (t : Machine) × (init address tss_base entry cpuid (some offset) smp m ≡ some t)
        × IsRunning gdt_base tss_base (segments_of t)
        × IsReached idt_base v t.vectors (segments_of t)
        × HasCalls (segments_of t)
  unfolding load_tables load_segments finish enable_syscall wrmsr init_pic
  init_segments gdt_base idt_base offset v smp m static fits h no_apic on served =
      let k = prepared address tss_base cpuid offset smp m in
      let same = prepare_segments offset smp m in
      let (vectors, apic) = prepare-frame address tss_base entry cpuid offset smp m in
      let at_most : v < 48 = ground (arith, served) in
      let limit : k.idt_register.limit ≡ 4095 =
        ap (λ (s : Segments). s.idt_register.limit) same
        ∙ ap (λ (r : IdtDescriptor). r.limit) static.2 in
      let (gate, known) = setup-Serves address v m.vectors fits (omega arith) in
      let selector =
        selector_of-Serves address v (handler_at v) m.vectors (setup address m.vectors) gate
          (known ∙ served) in
      let tables = (finish-frame entry (init_pic k)).0 ∙ init_pic-vectors k ∙ vectors in
      let code : k.cs ≡ 0x08 = ap (λ (s : Segments). s.cs) same in
      (
        finish entry (init_pic k),
        init-pic address tss_base entry cpuid offset smp m on (ground (arith, apic)),
        finish-IsRunning gdt_base k (
            subst (IsRunning gdt_base tss_base) (sym same)
              (load_tables-IsRunning gdt_base idt_base offset m static h)),
        (
          ap (λ (s : Segments). s.idt_register.base) same
              ∙ ap (λ (r : IdtDescriptor). r.base) static.2,
          omega (arith, at_most, limit),
          rw (tables, code) selector,
        ),
        finish-HasCalls k code (ap (λ (s : Segments). s.ds) same)
            (ap (λ (s : Segments). s.tr) same),
      )
