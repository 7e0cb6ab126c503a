-- ===== src/Paging/Shared/Steps.antt =====
-- The calls of `alloc_pages` and `free_pages` keep what holds after calls of both kinds.
use oronyx.Base.{
  ℕ, ◌+◌, ◌-◌, ◌*◌, ◌/◌, ◌%◌, ◌^◌, ◌≤◌, ◌<◌, ◌≡◌, ◌≢◌, ◌⊎◌, inl, inr, refl, ◌∙◌, ap, arith, Option,
  some, List, ◌∷◌, false, ◌==◌,
}
use native.Mathlib.Decide.{ℕ_discrete, dec_lt}
use oronyx.Regions.{page_size}
use oronyx.Regions.Order.{holds}
use oronyx.Pmm.{Print, alloc_pages, free_pages}
use oronyx.Pmm.Alloc.{IsGranted, IsTiled, page_range}
use oronyx.Pmm.FirstFit.{no_room, no_fit, alloc_pages_outcome}
use oronyx.Pmm.History.{Block}
use oronyx.Paging.{State}
use oronyx.Paging.Fresh.{IsTaken, granted_outside}
use oronyx.Paging.Space.{sum-holds_free}
use oronyx.Paging.Level.{entry_at}
use oronyx.Paging.Frame.{IsAside, IsQuiet, quiet-IsAside}
use oronyx.Paging.Shared.{with_pmm, held_at, fill}
use oronyx.Paging.Shared.Kept.{Serves, quiet-Stands, quiet-held}

module _ (s t : State) (f : ℕ → Option ℕ) (held : List Block) (words : ℕ → ℕ)
    (k : Serves s t f held words) where
  -- Only the log differs.
  printed-Serves :
      (log : List Print) → Serves s (with_pmm (record t.pmm { log = log }) t) f held words
  printed-Serves log =
      let u = with_pmm (record t.pmm { log = log }) t in
      let r = k.stands.space.ready in
      let c : IsQuiet t u = record {
        kept = λ l v h. refl;
        taken = λ l v h. k.stands.space.taken l v h;
        ready = record { valid = r.valid; mapped = r.mapped; same_offset = r.same_offset };
        same_offset = refl;
        same_cr3 = refl;
      } in
      record {
        stands = quiet-Stands s t u f k.stands c;
        aside = λ x h. quiet-held s t u f held words k c x h (k.aside x h).0;
        word = k.word;
        once = k.once;
        used = k.used;
      }

  module _ (sz p : ℕ) (q : oronyx.Pmm.State) (g : IsGranted sz t.pmm p q) where
    abbrev u : State
    u = with_pmm q t

    same_at : (x : ℕ) → IsTaken x t → q.memory x ≡ t.pmm.memory x
    same_at x taken =
        g.same_words x (rw k.stands.space.ready.same_offset (granted_outside sz p t q g x taken))

    granted-IsQuiet : IsQuiet t u
    granted-IsQuiet = record {
      kept = λ l v r. same_at (entry_at l v t) (k.stands.space.taken l v r);
      taken = λ l v r y e. omega (arith, k.stands.space.taken l v r y e, g.taken y);
      ready = record {
        valid = g.table;
        mapped = g.mapped;
        same_offset = g.same_offset ∙ k.stands.space.ready.same_offset;
      };
      same_offset = refl;
      same_cr3 = refl;
    }

    held_stays : (x : ℕ) → 0 < held_at x held → IsAside (x + t.hhdm_offset) u
    held_stays x h =
        quiet-held s t u f held words k granted-IsQuiet x h
          (λ y e. omega (arith, (k.aside x h).0 y e, g.taken y))

    old_word : (x : ℕ) → 0 < held_at x held → x % 8 ≡ 0 → q.memory (x + t.hhdm_offset) ≡ words x
    old_word x h e = same_at (x + t.hhdm_offset) (k.aside x h).0 ∙ k.word x h e

    -- A block that nobody holds, at the address 0.
    lost-Serves : Serves s u f held words
    lost-Serves = record {
      stands = quiet-Stands s t u f k.stands granted-IsQuiet;
      aside = held_stays;
      word = old_word;
      once = k.once;
      used = λ m. omega (arith, k.used m, g.used_more m);
    }

    block_apart : (x : ℕ) → holds x (page_range p sz) ≡ 1 → IsAside (x + t.hhdm_offset) u
    block_apart x own =
        quiet-IsAside t u k.stands.space granted-IsQuiet (x + t.hhdm_offset)
          (λ l v r e. omega (arith, own, k.stands.space.taken l v r x e, g.taken x))
          (λ y e.
            let same : y ≡ x = omega arith in
            rw same (
              omega (
                arith,
                own,
                g.taken x,
                sum-holds_free t.pmm.region_count x t.pmm.regions k.stands.space.ready.valid,
              )))

    new_word :
        (x : ℕ) → holds x (page_range p sz) ≡ 1 → x % 8 ≡ 0 → q.memory (x + t.hhdm_offset) ≡ 0
    new_word x own e =
        let inside : (p ≤ x) × (x < p + sz) = ground (arith, own) in
        let start : p % 4096 ≡ 0 = ground (arith, g.used, (g.table.aligned g.place g.in_table).0) in
        let place : x + t.hhdm_offset ≡ p + t.pmm.hhdm_offset + 8 * ((x - p) / 8) =
          omega (arith, k.stands.space.ready.same_offset) in
        ap (λ (a : ℕ). q.memory a) place ∙ g.zeroed ((x - p) / 8) (omega arith)

    apart : (x : ℕ) → 0 < held_at x held → holds x (page_range p sz) ≡ 0
    apart x h = omega (arith, (k.aside x h).0 x refl, g.taken x)

  granted-Serves :
      (count p : ℕ) (q : oronyx.Pmm.State)
      → IsGranted (count * page_size) t.pmm p q
      → Serves s (with_pmm q t) f ((p, count) ∷ held) (fill p (count * page_size) words)
  granted-Serves count p q g =
      let sz = count * page_size in
      record {
        stands = quiet-Stands s t (with_pmm q t) f k.stands (granted-IsQuiet sz p q g);
        aside = λ x h. elim (dec_lt 0 (held_at x held)) [
          | yes old ↦ held_stays sz p q g x old
          | no new ↦ block_apart sz p q g x (ground arith)
        ];
        word = λ x h e. elim (dec_lt 0 (held_at x held)) [
          | yes old ↦
              let miss : (holds x (page_range p sz) == 1) ≡ false =
                ground (arith, apart sz p q g x old) in
              rw miss (old_word sz p q g x old e)
          | no new ↦
              let own : holds x (page_range p sz) ≡ 1 = ground arith in
              rw own (new_word sz p q g x own e)
        ];
        once = λ x. elim (dec_lt 0 (held_at x held)) [
          | yes old ↦ omega (arith, k.once x, apart sz p q g x old)
          | no new ↦ ground arith
        ];
        used = λ m. omega (arith, k.used m, g.used_more m);
      }

  -- A call for pages grants a block at an address that is not 0, or keeps what holds.
  abbrev pub Allocates : ℕ → Type 0
  Allocates count =
      ((p : ℕ) × (q : oronyx.Pmm.State) × (alloc_pages count t.pmm ≡ some (p, q))
        × (p ≢ 0)
        × (IsTiled t.pmm → IsTiled q)
        × Serves s (with_pmm q t) f ((p, count) ∷ held) (fill p (count * page_size) words))
      ⊎ ((q : oronyx.Pmm.State) × (alloc_pages count t.pmm ≡ some (0, q))
          × (IsTiled t.pmm → IsTiled q)
          × Serves s (with_pmm q t) f held words)

  pub alloc_pages_cases : (count : ℕ) → 0 < count → count * page_size < 2 ^ 64 → Allocates count
  alloc_pages_cases count pos small =
      let r = k.stands.space.ready in
      elim (alloc_pages_outcome count t.pmm r.valid r.mapped pos small) [
        | inl (m, _, _, (q, run, g)) ↦
            let p = (t.pmm.regions m).base in
            elim (ℕ_discrete p 0) [
              | yes null ↦ inr (q, rw null at run, g.tiled, lost-Serves (count * page_size) p q g)
              | no frame ↦ inl (p, q, run, frame, g.tiled, granted-Serves count p q g)
            ]
        | inr (inl (m, _, _, _, run)) ↦
            inr (no_room t.pmm, run, λ c. c, printed-Serves (no_room t.pmm).log)
        | inr (inr (_, run)) ↦ inr (no_fit t.pmm, run, λ c. c, printed-Serves (no_fit t.pmm).log)
      ]
