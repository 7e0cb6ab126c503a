-- ===== src/Paging/Prepare.antt =====
-- `next_table` at a level leaves the walks as they are, and the next table can be reached.
use oronyx.Base.{ℕ, suc, ◌%◌, ◌<◌, ◌≡◌, ◌⊎◌, refl, ◌∙◌, arith, true, false}
use oronyx.Base.{none, some, Bool-cases, inl, inr, bit_and}
use oronyx.Pmm.Grows.{Grows, Grows-trans, printed-Grows}
use oronyx.Paging.{State, next_table, huge}
use oronyx.Paging.Tables.{slot, table_of, is_present, translate}
use oronyx.Paging.Fresh.{HasPages}
use oronyx.Paging.Walk.{next_table_present}
use oronyx.Paging.Link.{next_table_cases}
use oronyx.Paging.Level.{entry_at, index_at, Reached}
use oronyx.Paging.Change.{IsSpace}
use oronyx.Paging.Clear.{IsClear}
use oronyx.Paging.Frame.{Keeps, Keeps-trans, change-Keeps}
use oronyx.Paging.Effect.{change-IsSpace}
use oronyx.Paging.Step.{made-IsChange, made-Reached, made-place, made-same_walks, made-clear}
use oronyx.Paging.Step.{spent-IsChange, spent-same_walks, spent-clear}

-- The walks and the invariant are as before, and clear ways are clear.
pub record IsSame (s s' : State) : Type 0 where
  pub space : IsSpace s'
  pub same_walks : (v : ℕ) → translate v s' ≡ translate v s
  pub same_clear : (w : ℕ) → IsClear w s → IsClear w s'
  pub same_flushed : s'.flushed ≡ s.flushed
  pub keeps : Keeps s s'
  pub same_offset : s'.hhdm_offset ≡ s.hhdm_offset
  pub grows : Grows s.pmm s'.pmm

pub IsSame-trans : (s t u : State) → IsSame s t → IsSame t u → IsSame s u
IsSame-trans s t u a b = record {
  space = b.space;
  same_walks = λ v. b.same_walks v ∙ a.same_walks v;
  same_clear = λ w h. b.same_clear w (a.same_clear w h);
  same_flushed = b.same_flushed ∙ a.same_flushed;
  keeps = Keeps-trans s t u a.keeps b.keeps;
  same_offset = b.same_offset ∙ a.same_offset;
  grows = Grows-trans a.grows b.grows;
}

-- `table` has the entry of `virt` at a level.
pub record IsAt (k virt table : ℕ) (s : State) : Type 0 where
  pub space : IsSpace s
  pub reached : Reached k virt s
  pub place : slot table (index_at k virt) ≡ entry_at k virt s

abbrev pub Prepares : ℕ → ℕ → ℕ → ℕ → State → Type 0
Prepares k virt table flags s =
    (next : ℕ) × (s' : State) × (next_table table (index_at k virt) flags s ≡ some (some next, s'))
    × IsSame s s'
    × IsAt (suc k) virt next s'
    × ((n : ℕ) → HasPages (suc n) s → HasPages n s')

abbrev pub PreparesNone : ℕ → ℕ → ℕ → ℕ → State → Type 0
PreparesNone k virt table flags s =
    (s' : State) × (next_table table (index_at k virt) flags s ≡ some (none, s'))
    × IsSame s s'
    × ¬ HasPages 1 s

present-IsAt :
    (k virt table : ℕ) (s : State)
    → k < 3
    → IsAt k virt table s
    → IsClear virt s
    → is_present (slot table (index_at k virt)) s ≡ true
    → IsAt (suc k) virt (table_of s (s.pmm.memory (slot table (index_at k virt)))) s
unfolding entry_at
present-IsAt k virt table s above a clear there = record {
  space = a.space;
  reached = (a.reached, clear k above a.reached (rw (← a.place) there));
  place = rw a.place refl;
}

pub prepare :
    (k virt table flags : ℕ) (s : State)
    → k < 3
    → bit_and flags huge ≡ 0
    → flags % 2 ≡ 1
    → IsAt k virt table s
    → IsClear virt s
    → Prepares k virt table flags s ⊎ PreparesNone k virt table flags s
prepare k virt table flags s above small odd a clear =
    let i = index_at k virt in
    elim (Bool-cases (is_present (slot table i) s)) [
      | inl there ↦ inl (
        table_of s (s.pmm.memory (slot table i)),
        s,
        next_table_present table i flags s there,
        record {
          space = a.space;
          same_walks = λ v. refl;
          same_clear = λ w h. h;
          same_flushed = refl;
          keeps = λ x h. (h, refl);
          same_offset = refl;
          grows = printed-Grows s.pmm s.pmm.memory s.pmm.log;
        },
        present-IsAt k virt table s above a clear there,
        λ n h. (omega (arith, h.0), omega (arith, h.1), h.2),
      )
      | inr absent ↦ elim (next_table_cases table i flags s a.space.ready odd) [
        | inl (next, s', run, l) ↦
            let c =
              made-IsChange k virt table i flags next s s' a.space a.reached a.place l absent in
            let space = change-IsSpace k virt s s' a.space c in
            inl (
              next,
              s',
              run,
              record {
                space = space;
                same_walks =
                    made-same_walks k virt table i flags next s s' a.space a.reached a.place l
                      absent above small;
                same_clear =
                    made-clear k virt table i flags next s s' a.space a.reached a.place l absent
                      above small;
                same_flushed = l.same_flushed;
                keeps = change-Keeps k virt s s' a.space c;
                same_offset = c.same_offset;
                grows = l.grows;
              },
              record {
                space = space;
                reached =
                    made-Reached k virt table i flags next s s' a.space a.reached a.place l absent
                      above small;
                place =
                    made-place k virt table i flags next s s' a.space a.reached a.place l absent
                      above small;
              },
              l.rest,
            )
        | inr (s', run, _, spent) ↦
            let gone : is_present (entry_at k virt s) s ≡ false = rw (← a.place) absent in
            inr (
              s',
              run,
              record {
                space =
                    change-IsSpace k virt s s' a.space
                      (spent-IsChange k virt s s' a.space a.reached gone spent);
                same_walks = spent-same_walks k virt s s' a.space a.reached gone spent;
                same_clear = spent-clear k virt s s' a.space a.reached gone spent;
                same_flushed = spent.same_flushed;
                keeps =
                    change-Keeps k virt s s' a.space
                      (spent-IsChange k virt s s' a.space a.reached gone spent);
                same_offset = spent.same_offset;
                grows = spent.grows;
              },
              spent.none_left,
            )
      ]
    ]
