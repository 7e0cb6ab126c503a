-- ===== src/Kernel/Log.antt =====
-- The first line that the start of the memory management prints.
use oronyx.Base.{ℕ, ◌≤◌, ◌<◌, ◌≡◌, ◌≢◌, refl, arith, Option, none, some, List, [], ◌∷◌, ◌==◌}
use oronyx.Base.{if◌then◌else◌, Bool-cases, inl, inr}
use mathlib.Core.List.{append-nil, append_assoc}
use Prim.Native.String.{String}
use oronyx.Machine.{Machine, say, halt}
use oronyx.Memory
use oronyx.Memory.{protect}
use oronyx.Paging.{alloc_page, State}
use oronyx.Pmm
use oronyx.Pmm.{Entry, Print, putln, write_line, alloc_pages}
use oronyx.Pmm.Log.{Extends, Extends-trans, >>=-cases, init-log, alloc_pages-log}
use oronyx.Kernel.{log_of, codes}

-- Text that begins with a visible ASCII character.
abbrev pub IsText : List ℕ → Type 0
IsText [] = ⊥
IsText (c ∷ cs) = (3 ≤ c) × (c < 128) × (c ≢ 10)

abbrev pub StartsWithText : List Print → Type 0
StartsWithText log = (t : String) × (rest : List Print) × (log ≡ putln t ∷ rest) × IsText (codes t)

StartsWithText-Extends :
    (t : String) (new : List Print)
    → IsText (codes t)
    → Extends (putln t ∷ []) new
    → StartsWithText new
StartsWithText-Extends t new text (rest, e) = (t, rest, e, text)

alloc_page-log : (s : State) (t : ℕ × State) → alloc_page s ≡ some t → Extends s.pmm.log t.1.pmm.log
unfolding alloc_page
alloc_page-log s t h = >>=-cases (alloc_pages 1 s.pmm) _ h (λ r run e.
    let grown = alloc_pages-log 1 s.pmm r.1 r.0 run in
    elim (Bool-cases (r.0 == 0)) [
      | inl null ↦
          Extends-trans s.pmm.log r.1.log t.1.pmm.log grown
            (write_line "Failed to allocate physical page" ∷ [], cc (rw null at e))
      | inr some_page ↦
          Extends-trans s.pmm.log r.1.log t.1.pmm.log grown
            ([], cc (rw some_page at e, append-nil r.1.log))
    ])

finish-log :
    (efer : ℕ) (m n : Machine) (p : ℕ)
    → some
        (if p == 0 then halt (say (putln "Failed to allocate physical page") m) else protect efer m)
      ≡ some n
    → Extends (log_of m) (log_of n)
unfolding protect
finish-log efer m n p h = elim (Bool-cases (p == 0)) [
  | inl null ↦ (putln "Failed to allocate physical page" ∷ [], cc (rw null at h))
  | inr page ↦
      let e : n ≡ protect efer m = cc (rw page at h) in
      (
        putln "Enabling NX bit..." ∷ putln "Setting WP bit..." ∷ putln "MM initialized" ∷ [],
        rw e (simp append_assoc),
      )
]

abbrev refusal : String
refusal = "MM init failed: no HHDM or memmap response"

no_response :
    (m n : Machine) → log_of m ≡ [] → n ≡ say (putln refusal) m → StartsWithText (log_of n)
no_response m n empty e =
    StartsWithText-Extends refusal (log_of n) (omega arith, omega arith, λ c. omega arith)
      ([], rw (e, empty) refl)

pub init-StartsWithText :
    (hhdm : Option ℕ) (memmap : Option (List Entry)) (efer : ℕ) (m n : Machine)
    → log_of m ≡ []
    → Memory.init hhdm memmap efer m ≡ some n
    → StartsWithText (log_of n)
unfolding Memory.init
init-StartsWithText none memmap efer m n empty h = no_response m n empty (cc)
init-StartsWithText (some offset) none efer m n empty h = no_response m n empty (cc)
init-StartsWithText (some offset) (some entries) efer m n empty h =
    >>=-cases (Pmm.init (some entries) offset m.memory.pmm) _ h (λ p run e.
      >>=-cases (alloc_page (record m.memory { hhdm_offset = offset; pmm = p })) _ e (λ t run' f.
        StartsWithText-Extends "Physical Memory Regions:" (log_of n)
          (omega arith, omega arith, λ c. omega arith)
          (Extends-trans (putln "Physical Memory Regions:" ∷ []) p.log (log_of n)
            (rw empty at (init-log entries offset m.memory.pmm p run))
            (Extends-trans p.log t.1.pmm.log (log_of n)
              (alloc_page-log (record m.memory { hhdm_offset = offset; pmm = p }) t run')
              (finish-log efer (record m { memory = t.1 }) n t.0 f)))))
