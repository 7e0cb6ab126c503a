-- ===== src/Paging/Shared/Invariant.antt =====
-- What holds after calls of both kinds, by induction on the calls.
use oronyx.Base.{
  ℕ, ◌*◌, ◌%◌, ◌^◌, ◌<◌, ◌≡◌, refl, ◌⊎◌, inl, inr, arith, Option, some, List, ◌∷◌, bit_and,
}
use oronyx.Regions.{page_size}
use oronyx.Pmm.Alloc.{IsTiled}
use oronyx.Pmm.History.{Block}
use oronyx.Paging.{State, map_page, huge}
use oronyx.Paging.Fresh.{HasPages}
use oronyx.Paging.Change.{IsSpace}
use oronyx.Paging.Clear.{IsClear}
use oronyx.Paging.Refine.{remap, map_page-Remaps}
use oronyx.Paging.Runs.{IsRemapped-Stands, IsSame-Stands, cons_ne_self}
use oronyx.Paging.Shared.{
  Use, start, mapped, left, granted, refused, written, freed, frees, fill, with_pmm,
}
use oronyx.Paging.Shared.Kept.{Serves, Keeps-Serves, written-Serves}
use oronyx.Paging.Shared.Steps.{alloc_pages_cases}
use oronyx.Paging.Shared.Release.{free_pages_case}

-- One call of `map_page`.
abbrev pub Maps : ℕ → ℕ → ℕ → State → State → (ℕ → Option ℕ) → List Block → (ℕ → ℕ) → Type 0
Maps virt phys flags s t f held words =
    (u : State) × (map_page virt phys flags t ≡ some u)
    × (IsTiled t.pmm → IsTiled u.pmm)
    × (((u.flushed ≡ virt ∷ t.flushed) × Serves s u (remap 12 virt phys f) held words)
        ⊎ ((u.flushed ≡ t.flushed) × Serves s u f held words × ¬ HasPages 3 t))

pub map_page_cases :
    (virt phys flags : ℕ) (s t : State) (f : ℕ → Option ℕ) (held : List Block) (words : ℕ → ℕ)
    → Serves s t f held words
    → IsClear virt s
    → phys < 2 ^ 64
    → flags % 2 ≡ 1
    → bit_and flags huge ≡ 0
    → Maps virt phys flags s t f held words
map_page_cases virt phys flags s t f held words k c h odd small =
    let st = k.stands in
    let (u, run, clear, outcome) =
      map_page-Remaps virt phys flags t h odd small st.space (st.clear virt c) in
    elim outcome [
      | inl r ↦ (
        u,
        run,
        r.grows.tiled,
        inl (
          r.flushed,
          Keeps-Serves s t u f held words k (remap 12 virt phys f)
              (IsRemapped-Stands virt phys s t u f st clear r) r.keeps r.same_offset r.grows,
        ),
      )
      | inr (kept, few) ↦ (
        u,
        run,
        kept.grows.tiled,
        inr (
          kept.same_flushed,
          Keeps-Serves s t u f held words k f (IsSame-Stands s t u f st kept) kept.keeps
              kept.same_offset kept.grows,
          few,
        ),
      )
    ]

-- What holds after the calls.
abbrev pub Holds : State → State → (ℕ → Option ℕ) → List Block → (ℕ → ℕ) → Type 0
Holds s t f held words = Serves s t f held words × (IsTiled s.pmm → IsTiled t.pmm)

-- Blocks are freed only if the regions had no gap at the start.
abbrev pub IsSafe :
    {s t : State} {f : ℕ → Option ℕ} {held : List Block} {words : ℕ → ℕ}
    → Use s t f held words
    → Type 0
IsSafe {s} h = IsTiled s.pmm ⊎ (frees h ≡ 0)

pub Use-Holds :
    {s t : State} {f : ℕ → Option ℕ} {held : List Block} {words : ℕ → ℕ}
    → IsSpace s
    → (h : Use s t f held words) → IsSafe h
    → Holds s t f held words
unfolding frees
Use-Holds {s} b start safe = (
  record {
    stands = record { space = b; clear = λ v c. c; walks = λ v. refl };
    aside = λ x h. absurd (omega arith);
    word = λ x h e. absurd (omega arith);
    once = λ x. omega arith;
    used = λ g. omega arith;
  },
  λ c. c,
)
Use-Holds {s} b (mapped {t} {f} {held} {words} virt phys flags u h way small odd page e flushed)
      safe =
    let (k, c) = Use-Holds b h safe in
    let (u', run, tiled, outcome) =
      map_page_cases virt phys flags s t f held words k way small odd page in
    let same : u' ≡ u = cc in
    elim outcome [
      | inl (_, k') ↦
          let moved : Holds s u' (remap 12 virt phys f) held words = (k', λ d. tiled (c d)) in
          rw same at moved
      | inr (flushed', _, _) ↦ absurd (cons_ne_self virt t.flushed (cc))
    ]
Use-Holds {s} b (left {t} {f} {held} {words} virt phys flags u h way small odd page e flushed)
      safe =
    let (k, c) = Use-Holds b h safe in
    let (u', run, tiled, outcome) =
      map_page_cases virt phys flags s t f held words k way small odd page in
    let same : u' ≡ u = cc in
    elim outcome [
      | inl (flushed', _) ↦ absurd (cons_ne_self virt t.flushed (cc))
      | inr (_, k', _) ↦
          let moved : Holds s u' f held words = (k', λ d. tiled (c d)) in rw same at moved
    ]
Use-Holds {s} b (granted {t} {f} {held} {words} count p q h pos small e ne) safe =
    let (k, c) = Use-Holds b h safe in
    elim (alloc_pages_cases s t f held words k count pos small) [
      | inl (p', q', run, _, tiled, k') ↦
          let same_p : p' ≡ p = cc in
          let same_q : q' ≡ q = cc in
          let moved : Holds s (with_pmm q' t) f ((p', count) ∷ held)
              (fill p' (count * page_size) words) =
            (k', λ d. tiled (c d)) in
          rw (same_p, same_q) at moved
      | inr (q', run, _, _) ↦ absurd (ne (cc))
    ]
Use-Holds {s} b (refused {t} {f} {held} {words} count q h pos small e) safe =
    let (k, c) = Use-Holds b h safe in
    elim (alloc_pages_cases s t f held words k count pos small) [
      | inl (p', q', run, ne, _, _) ↦ absurd (ne (cc))
      | inr (q', run, tiled, k') ↦
          let same_q : q' ≡ q = cc in
          let moved : Holds s (with_pmm q' t) f held words = (k', λ d. tiled (c d)) in
          rw same_q at moved
    ]
Use-Holds {s} b (written {t} {f} {held} {words} x value h own) safe =
    let (k, c) = Use-Holds b h safe in (written-Serves s t f held words k x value own, c)
Use-Holds {s} b (freed {t} {f} {held} {rest} {words} count p q h r e) safe = elim safe [
  | inr none_freed ↦ absurd (omega arith)
  | inl whole ↦
      let (k, c) = Use-Holds b h (inl whole) in
      let (q', run, tiled, k') = free_pages_case s t f held rest words k (c whole) p count r in
      let same_q : q' ≡ q = cc in
      let moved : Holds s (with_pmm q' t) f rest words = (k', λ d. tiled) in rw same_q at moved
]
