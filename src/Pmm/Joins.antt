-- ===== src/Pmm/Joins.antt =====
-- The joins of `PMM::free_pages` with both neighbours, one after the other.
use oronyx.Base.{ℕ, zero, suc, ◌+◌, ◌-◌, ◌<◌, ◌≡◌, inl, inr, refl, arith, ◌∙◌, true, some, ◌>>=◌}
use oronyx.Base.Sums.{sum}
use oronyx.Regions.Order.{free_len, used_by}
use oronyx.Pmm.{State, join_previous, join_next}
use oronyx.Pmm.Alloc.{IsValid, IsMapped, IsPlaced, IsTiled}
use oronyx.Pmm.Join.{joined_at, IsFreeAt, Touch, HoldsSame, joined_at-IsSame}
use oronyx.Pmm.Join.{joined_at-HoldsSame, join_previous-zero, join_previous_cases}
use oronyx.Pmm.Join.{join_next_cases}

-- A free neighbour of the region at `i` touches it.
pub record Touching (i : ℕ) (s : State) : Type 0 where
  pub before :
      0 < i
      → (s.regions (i - 1)).is_free ≡ true
      → (s.regions (i - 1)).base + (s.regions (i - 1)).len ≡ (s.regions i).base
  pub after :
      suc i < s.region_count
      → (s.regions (i + 1)).is_free ≡ true
      → (s.regions i).base + (s.regions i).len ≡ (s.regions (i + 1)).base

-- The states between the release and the joins.
pub record IsJoined (s s' : State) (Cond : Type 0) : Type 0 where
  pub valid : IsValid s'
  pub same_free : sum free_len s'.regions s'.region_count ≡ sum free_len s.regions s.region_count
  pub same_used :
      (g : ℕ → ℕ → ℕ)
      → sum (used_by g) s'.regions s'.region_count ≡ sum (used_by g) s.regions s.region_count
  pub mapped : IsMapped s → IsMapped s'
  pub placed : IsPlaced s → IsPlaced s'
  pub tiled : IsTiled s → IsTiled s'
  pub same_holds : Cond → HoldsSame s s'
  pub same_memory : s'.memory ≡ s.memory
  pub same_offset : s'.hhdm_offset ≡ s.hhdm_offset
  pub same_log : s'.log ≡ s.log

join_next_lem :
    (i : ℕ) (s : State)
    → IsValid s
    → i < s.region_count
    → IsFreeAt i s
    → (s' : State) × (join_next i s ≡ some s')
      × IsJoined s s' (suc i < s.region_count → IsFreeAt (i + 1) s → Touch i s)
join_next_lem i s t below f = elim (join_next_cases i s t below) [
  | inl (run, why) ↦ (
    s,
    run,
    record {
      valid = t;
      same_free = refl;
      same_used = λ g. refl;
      mapped = λ m. m;
      placed = λ m. m;
      tiled = λ m. m;
      same_holds = λ c x. (refl, refl);
      same_memory = refl;
      same_offset = refl;
      same_log = refl;
    },
  )
  | inr (l, g, run) ↦ (
    joined_at i s,
    run,
    record {
      valid = (joined_at-IsSame i s t l f g).valid;
      same_free = (joined_at-IsSame i s t l f g).same_free;
      same_used = (joined_at-IsSame i s t l f g).same_used;
      mapped = (joined_at-IsSame i s t l f g).mapped;
      placed = (joined_at-IsSame i s t l f g).placed;
      tiled = (joined_at-IsSame i s t l f g).tiled;
      same_holds = λ c. joined_at-HoldsSame i s t l f g (c l g);
      same_memory = refl;
      same_offset = refl;
      same_log = refl;
    },
  )
]

IsJoined-trans :
    {s s1 s' : State} {C C' D : Type 0}
    → IsJoined s s1 C
    → IsJoined s1 s' C'
    → (D → C)
    → (D → C')
    → IsJoined s s' D
IsJoined-trans j j' c c' = record {
  valid = j'.valid;
  same_free = j'.same_free ∙ j.same_free;
  same_used = λ g. j'.same_used g ∙ j.same_used g;
  mapped = λ m. j'.mapped (j.mapped m);
  placed = λ m. j'.placed (j.placed m);
  tiled = λ m. j'.tiled (j.tiled m);
  same_holds = λ d x. (
    (j'.same_holds (c' d) x).0 ∙ (j.same_holds (c d) x).0,
    (j'.same_holds (c' d) x).1 ∙ (j.same_holds (c d) x).1,
  );
  same_memory = j'.same_memory ∙ j.same_memory;
  same_offset = j'.same_offset ∙ j.same_offset;
  same_log = j'.same_log ∙ j.same_log;
}

IsJoined-after :
    {i : ℕ} {s s' : State}
    → IsJoined s s' (suc i < s.region_count → IsFreeAt (i + 1) s → Touch i s)
    → IsJoined s s' (Touching i s)
IsJoined-after j = record {
  valid = j.valid;
  same_free = j.same_free;
  same_used = j.same_used;
  mapped = j.mapped;
  placed = j.placed;
  tiled = j.tiled;
  same_holds = λ c. j.same_holds c.after;
  same_memory = j.same_memory;
  same_offset = j.same_offset;
  same_log = j.same_log;
}

-- The join with the previous region, seen from the state before it.
module _ (k : ℕ) (s : State) (t : IsValid s) (below : suc k < s.region_count) (g : IsFreeAt k s)
    (f : IsFreeAt (suc k) s) where
  f' : IsFreeAt (k + 1) s
  f' = let e : k + 1 ≡ suc k = omega arith in rw e f

  first : IsJoined s (joined_at k s) (Touching (suc k) s)
  first = record {
    valid = (joined_at-IsSame k s t below g f').valid;
    same_free = (joined_at-IsSame k s t below g f').same_free;
    same_used = (joined_at-IsSame k s t below g f').same_used;
    mapped = (joined_at-IsSame k s t below g f').mapped;
    placed = (joined_at-IsSame k s t below g f').placed;
    tiled = (joined_at-IsSame k s t below g f').tiled;
    same_holds = λ c. joined_at-HoldsSame k s t below g f' (ground (arith, c.before));
    same_memory = refl;
    same_offset = refl;
    same_log = refl;
  }

  next-Touch :
      Touching (suc k) s
      → suc k < s.region_count - 1
      → IsFreeAt (k + 1) (joined_at k s)
      → Touch k (joined_at k s)
  next-Touch c h free = ground (arith, free, c.before, c.after, t.inside (suc k), t.apart k below)

-- After the joins of a region that was freed, in a state where free neighbours touch it.
pub joins_lem :
    (i : ℕ) (s : State)
    → IsValid s
    → i < s.region_count
    → IsFreeAt i s
    → (s' : State) × ((join_previous i s >>= λ r. join_next r.0 r.1) ≡ some s')
      × IsJoined s s' (Touching i s)
joins_lem zero s t below f =
    let (s', run, j) = join_next_lem zero s t below f in
    (s', rw (join_previous-zero s) run, IsJoined-after j)
joins_lem (suc k) s t below f = elim (join_previous_cases k s t below) [
  | inl (run, why) ↦
      let (s', run', j) = join_next_lem (suc k) s t below f in (s', rw run run', IsJoined-after j)
  | inr (g, run) ↦
      let (s', run', j) =
        join_next_lem k (joined_at k s) (first k s t below g f).valid (omega arith)
          (ground arith) in
      (
        s',
        rw run run',
        IsJoined-trans (first k s t below g f) j (λ c. c) (next-Touch k s t below g f),
      )
]
