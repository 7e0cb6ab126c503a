-- ===== src/Paging/Shared/Release.antt =====
-- A call of `free_pages` for a held block, on regions without gaps, keeps what holds after calls of
-- both kinds.
use oronyx.Base.{ℕ, ◌+◌, ◌*◌, ◌^◌, ◌<◌, ◌≡◌, refl, ◌∙◌, ap, arith, Option, some, List}
use native.Mathlib.Decide.{dec_lt}
use oronyx.Regions.{page_size}
use oronyx.Regions.Order.{holds}
use oronyx.Pmm.{free_pages}
use oronyx.Pmm.Alloc.{IsTiled, page_range}
use oronyx.Pmm.Free.{IsFreed, free_pages-IsFreed}
use oronyx.Pmm.History.{Block, Removes, total_of-Removes}
use oronyx.Pmm.History.Kept.{held-IsUsed, tiled-Touching}
use oronyx.Paging.{State}
use oronyx.Paging.Fresh.{free_at}
use oronyx.Paging.Level.{entry_at}
use oronyx.Paging.Frame.{IsQuiet}
use oronyx.Paging.Shared.{with_pmm, held_at}
use oronyx.Paging.Shared.Kept.{Serves, quiet-Stands, quiet-held}

module _ (s t : State) (f : ℕ → Option ℕ) (held rest : List Block) (words : ℕ → ℕ)
    (k : Serves s t f held words) (c : IsTiled t.pmm) (p count : ℕ)
    (r : Removes (p, count) held rest) where
  module _ (i : ℕ) (q : oronyx.Pmm.State) (below : i < t.pmm.region_count)
      (fr : IsFreed p (count * page_size) i t.pmm q) where
    abbrev u : State
    u = with_pmm q t

    same_free : (x : ℕ) → free_at x u ≡ free_at x t + holds x (page_range p (count * page_size))
    same_free x = (fr.same_holds (tiled-Touching t.pmm i below c) x).1

    split : (x : ℕ) → held_at x held ≡ holds x (page_range p (count * page_size)) + held_at x rest
    split x = total_of-Removes (λ b size. holds x (page_range b size)) p count r

    freed-IsQuiet : IsQuiet t u
    freed-IsQuiet = record {
      kept = λ l v h. ap (λ (m : ℕ → ℕ). m (entry_at l v t)) fr.same_memory;
      taken = λ l v h y e. elim (dec_lt 0 (held_at y held)) [
        | yes own ↦ absurd ((k.aside y own).1 l v h e)
        | no other ↦ omega (arith, k.stands.space.taken l v h y e, same_free y, split y)
      ];
      ready = record {
        valid = fr.valid;
        mapped = fr.mapped k.stands.space.ready.mapped;
        same_offset = fr.same_offset ∙ k.stands.space.ready.same_offset;
      };
      same_offset = refl;
      same_cr3 = refl;
    }

    held_before : (x : ℕ) → 0 < held_at x rest → 0 < held_at x held
    held_before x h = omega (arith, split x)

    freed-Serves : Serves s u f rest words
    freed-Serves = record {
      stands = quiet-Stands s t u f k.stands freed-IsQuiet;
      aside = λ x h. quiet-held s t u f held words k freed-IsQuiet x (held_before x h) (λ y e.
          let same : x ≡ y = omega arith in
          let here : 0 < held_at y rest = rw same at h in
          omega (arith, (k.aside x (held_before x h)).0 y e, same_free y, split y, k.once y));
      word = λ x h e.
          ap (λ (m : ℕ → ℕ). m (x + t.hhdm_offset)) fr.same_memory ∙ k.word x (held_before x h) e;
      once = λ x. omega (arith, split x, k.once x);
      used = λ g. omega (arith, fr.used_less g, k.used g, total_of-Removes g p count r);
    }

  pub free_pages_case :
      (q : oronyx.Pmm.State) × (free_pages p count t.pmm ≡ some q)
      × IsTiled q
      × Serves s (with_pmm q t) f rest words
  free_pages_case =
      let (i, used) = held-IsUsed t.pmm held rest p count k.used r in
      let valid = k.stands.space.ready.valid in
      let small : count * page_size < 2 ^ 64 =
        ground (arith, valid.inside i used.below, used.range) in
      let (q, run, fr) = free_pages-IsFreed p count i t.pmm valid small used in
      (q, run, fr.tiled c, freed-Serves i q used.below fr)
