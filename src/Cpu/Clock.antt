-- ===== src/Cpu/Clock.antt =====
-- The clock of a machine without a local APIC, whose timer handler ends no interrupt of the PICs.
use oronyx.Base.{
  ℕ, ◌+◌, ◌^◌, ◌<◌, ◌≡◌, refl, arith, ap, ◌∙◌, u64, true, false, Option, some, List, [], ◌∷◌, ◌&&◌,
}
use oronyx.Base.BitAt.{bit_at}
use oronyx.Interrupts.{Handler, setup}
use oronyx.Interrupts.Table.{setup-Serves}
use oronyx.Descriptors.Fields.{gate_offset}
use oronyx.Features.{Cpuid, Smp}
use oronyx.Faults.{timer_handler}
use oronyx.Faults.Ticks.{acknowledges, acknowledged, leads_to, timer_handler_lem, acknowledged-tick}
use oronyx.Paging.Tables.{translate}
use oronyx.Paging.{State}
use oronyx.Base.{Bool-cases, inl, inr}
use oronyx.Controllers.{init_pic}
use oronyx.Controllers.Pic.{Pair, receive, init_pic-IsReady, init_pic-mode}
use oronyx.Controllers.Service.{accepts, serve, accepts-IsReady, serve-first}
use oronyx.Machine.{Machine, get_tick, wrmsr, apic_base}
use oronyx.Cpu.{init, finish}
use oronyx.Cpu.Start.{
  IsEnabled, prepared, prepared-memory, prepared-offset, finish-kept, init_pic-kept, vector_of,
  vector_of-IsReady, prepare-frame, finish-frame, init_pic-vectors, init-pic,
}
use oronyx.Cpu.Requests.{System, request, requests, requests-busy, requests-step, settle_silent}

-- The timer's handler writes to no port.
acknowledged-ports : (m : Machine) → (acknowledged m).ports ≡ m.ports
unfolding acknowledged wrmsr
acknowledged-ports m = ground arith

-- A machine and its controllers, which were sent what it wrote to ports, with no line in service.
abbrev pub booted : Machine → oronyx.Keyboard.State → Pair → System
booted t keys p = record {
  machine = t;
  keys = keys;
  console = [];
  chips = receive t.ports p;
  busy = λ n. false;
}

module _ (code : ℕ → Option Handler) (byte : ℕ) (y : System) where
  -- The first request of the timer's line.
  request-timer :
      accepts 0 y.chips y.busy ≡ true
      → y.machine.interrupts ≡ true
      → code (gate_offset (y.machine.vectors.idt (vector_of 0 y.chips))) ≡ some Handler.timer
      → acknowledges y.machine ≡ true
      → request code 0 byte y
        ≡ some (record y { machine = acknowledged y.machine; busy = serve 0 y.chips y.busy })
  unfolding request
  request-timer a i g stored =
      let taken : (accepts 0 y.chips y.busy && y.machine.interrupts) ≡ true =
        ground (arith, a, i) in
      let handled : timer_handler y.machine ≡ some (acknowledged y.machine) =
        timer_handler_lem y.machine ∙ (rw stored refl) in
      rw (taken, g, handled)
        (ap (λ z. some z)
          (settle_silent (acknowledged y.machine) (record y { busy = serve 0 y.chips y.busy })
            (acknowledged-ports y.machine)))

module _ (address : Handler → ℕ) (tss_base entry : ℕ) (cpuid : ℕ → Cpuid) where
  -- The pointer of the timer's handler behind `init`.
  started_stores :
      (offset : ℕ) (smp : Option Smp) (m : Machine)
      → translate (u64 (apic_base + offset + 0xb0)) m.memory ≡ some (apic_base + 0xb0)
      → acknowledges (finish entry (init_pic (prepared address tss_base cpuid offset smp m))) ≡ true
  started_stores offset smp m wired =
      let k = prepared address tss_base cpuid offset smp m in
      let t = finish entry (init_pic k) in
      let v = u64 (apic_base + offset + 0xb0) in
      let at_offset : t.hhdm_offset ≡ offset =
        (finish-kept entry v (init_pic k)).2
        ∙ (init_pic-kept k).1
        ∙ prepared-offset address tss_base cpuid offset smp m in
      let walk : translate v t.memory ≡ some (apic_base + 0xb0) =
        (finish-kept entry v (init_pic k)).0
        ∙ ap (λ (o : State). translate v o)
            ((init_pic-kept k).0 ∙ prepared-memory address tss_base cpuid offset smp m)
        ∙ wired in
      let hit : leads_to (apic_base + 0xb0)
            (translate (u64 (apic_base + t.hhdm_offset + 0xb0)) t.memory)
          ≡ true =
        rw (at_offset, walk) refl in
      elim (Bool-cases t.features.x2apic) [ inl x ↦ rw x refl | inr x ↦ rw (x, hit) refl ]

  -- The gate of the timer's vector leads to its handler.
  timer_gate :
      (s : oronyx.Descriptors.Vectors)
      → ((h : Handler) → address h < 2 ^ 64)
      → gate_offset ((setup address s).idt 32) ≡ address Handler.timer
  timer_gate s fits = (setup-Serves address 32 s fits (omega arith)).0.0.0

  -- Without a local APIC, without AVX or with OSXSAVE (bit 18) of cr4 set, and with tables that lead
  -- from the timer handler's pointer to the APIC's page: `init` returns, and then the first request of the timer's line is taken and
  -- counted, but its handler ends the interrupt at no PIC, so that of all requests behind it, of any
  -- lines in any order, none is taken: the clock stands still and no key is seen.
  pub clock_stops :
      (code : ℕ → Option Handler) (offset byte : ℕ) (smp : Option Smp) (m : Machine)
      (keys : oronyx.Keyboard.State) (p : Pair) (rs : List (ℕ × ℕ))
      → ((h : Handler) → address h < 2 ^ 64)
      → ((h : Handler) → code (address h) ≡ some h)
      → bit_at 9 (cpuid 1).edx ≡ 0
      → IsEnabled cpuid smp m
      → translate (u64 (apic_base + offset + 0xb0)) m.memory ≡ some (apic_base + 0xb0)
      → (t : Machine) × (y : System) × (init address tss_base entry cpuid (some offset) smp m
          ≡ some t)
        × (requests code ((0, byte) ∷ rs) (booted t keys p) ≡ some y)
        × (get_tick y.machine ≡ u64 (get_tick t + 1))
        × (y.keys ≡ keys)
        × (y.console ≡ [])
  clock_stops code offset byte smp m keys p rs fits known no_apic on wired =
      let k = prepared address tss_base cpuid offset smp m in
      let t = finish entry (init_pic k) in
      let (vectors, apic) = prepare-frame address tss_base entry cpuid offset smp m in
      let (vectors', ports, flag) = finish-frame entry (init_pic k) in
      let (master, slave, _) = init_pic-IsReady k p in
      let line = vector_of-IsReady 0 (receive (init_pic k).ports p) (omega arith) master slave in
      let tables = vectors' ∙ init_pic-vectors k ∙ vectors in
      let y = booted t keys p in
      let z = record y { machine = acknowledged t; busy = serve 0 y.chips y.busy } in
      let open_line : accepts 0 y.chips y.busy ≡ true =
        rw ports (accepts-IsReady 32 (receive (init_pic k).ports p) master) in
      let gate : code (gate_offset (t.vectors.idt (vector_of 0 y.chips))) ≡ some Handler.timer =
        ap code (rw (ports, line, tables) (timer_gate m.vectors fits)) ∙ known Handler.timer in
      let stored : acknowledges t ≡ true = started_stores offset smp m wired in
      let blocked : z.busy 0 ≡ true =
        rw ports (serve-first (receive (init_pic k).ports p) y.busy (init_pic-mode k p).0) in
      (
        t,
        z,
        init-pic address tss_base entry cpuid offset smp m on (ground (arith, apic)),
        requests-step code 0 byte rs y z (request-timer code byte y open_line flag gate stored)
            ∙ requests-busy code rs z blocked,
        acknowledged-tick t,
        refl,
        refl,
      )
