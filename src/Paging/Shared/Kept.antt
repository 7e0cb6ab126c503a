-- ===== src/Paging/Shared/Kept.antt =====
-- What holds after calls of both kinds, and that `map_page` and a write of a caller keep it.
use oronyx.Base.{
  ℕ, ◌+◌, ◌%◌, ◌≤◌, ◌<◌, ◌≡◌, refl, sym, subst, ◌∙◌, ap, arith, Option, List, update, ◌==◌, false,
}
use oronyx.Base.Sums.{sum}
use oronyx.Regions.Order.{used_by}
use oronyx.Pmm.Grows.{Grows}
use oronyx.Pmm.History.{Block, total_of}
use oronyx.Paging.{State}
use oronyx.Paging.Level.{entry_at}
use oronyx.Paging.Frame.{
  IsAside, Keeps, IsQuiet, quiet-IsSpace, quiet-IsClear, quiet-translate, quiet-IsAside,
}
use oronyx.Paging.Fresh.{IsTaken}
use oronyx.Paging.Runs.{Stands}
use oronyx.Paging.Shared.{held_at, write_word}

-- The tables stand for `f`; each held address is held once, is no free memory and no entry of a table,
-- and has its word of `words`; the held blocks are used regions.
pub record Serves (s t : State) (f : ℕ → Option ℕ) (held : List Block) (words : ℕ → ℕ)
    : Type 0 where
  pub stands : Stands s t f
  pub aside : (x : ℕ) → 0 < held_at x held → IsAside (x + t.hhdm_offset) t
  pub word : (x : ℕ) → 0 < held_at x held → x % 8 ≡ 0 → t.pmm.memory (x + t.hhdm_offset) ≡ words x
  pub once : (x : ℕ) → held_at x held ≤ 1
  pub used : (g : ℕ → ℕ → ℕ) → total_of g held ≤ sum (used_by g) t.pmm.regions t.pmm.region_count

pub quiet-Stands : (s t u : State) (f : ℕ → Option ℕ) → Stands s t f → IsQuiet t u → Stands s u f
quiet-Stands s t u f st c = record {
  space = quiet-IsSpace t u st.space c;
  clear = λ v h. quiet-IsClear t u st.space c v (st.clear v h);
  walks = λ v. quiet-translate t u st.space c v ∙ st.walks v;
}

module _ (s t u : State) (f : ℕ → Option ℕ) (held : List Block) (words : ℕ → ℕ)
    (k : Serves s t f held words) where
  -- A call of `map_page`.
  pub Keeps-Serves :
      (g : ℕ → Option ℕ)
      → Stands s u g
      → Keeps t u
      → u.hhdm_offset ≡ t.hhdm_offset
      → Grows t.pmm u.pmm
      → Serves s u g held words
  Keeps-Serves g st keeps same grows = record {
    stands = st;
    aside = λ x h.
        subst (λ (o : ℕ). IsAside (x + o) u) (sym same) (keeps (x + t.hhdm_offset) (k.aside x h)).0;
    word = λ x h e.
        ap (λ (o : ℕ). u.pmm.memory (x + o)) same
        ∙ (keeps (x + t.hhdm_offset) (k.aside x h)).1
        ∙ k.word x h e;
    once = k.once;
    used = λ m. omega (arith, k.used m, grows.used m);
  }

  -- An address that is held and was held before, behind a change at no entry.
  pub quiet-held :
      (c : IsQuiet t u) (x : ℕ)
      → 0 < held_at x held
      → IsTaken (x + t.hhdm_offset) u
      → IsAside (x + u.hhdm_offset) u
  quiet-held c x h taken =
      subst (λ (o : ℕ). IsAside (x + o) u) (sym c.same_offset)
        (quiet-IsAside t u k.stands.space c (x + t.hhdm_offset) (k.aside x h).1 taken)

module _ (s t : State) (f : ℕ → Option ℕ) (held : List Block) (words : ℕ → ℕ)
    (k : Serves s t f held words) (x value : ℕ) (own : 0 < held_at x held) where
  abbrev after : State
  after = write_word x value t

  written-IsQuiet : IsQuiet t after
  written-IsQuiet = record {
    kept = λ l v r.
        let apart : (entry_at l v t == x + t.hhdm_offset) ≡ false =
          ground (arith, (k.aside x own).1 l v r) in
        rw apart refl;
    taken = λ l v r. k.stands.space.taken l v r;
    ready = record {
      valid = k.stands.space.ready.valid;
      mapped = k.stands.space.ready.mapped;
      same_offset = k.stands.space.ready.same_offset;
    };
    same_offset = refl;
    same_cr3 = refl;
  }

  pub written-Serves : Serves s after f held (update words x value)
  written-Serves = record {
    stands = quiet-Stands s t after f k.stands written-IsQuiet;
    aside = λ y h. quiet-held s t after f held words k written-IsQuiet y h (k.aside y h).0;
    word = λ y h e. ground (arith, k.word y h e);
    once = k.once;
    used = k.used;
  }
