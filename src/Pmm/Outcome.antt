-- ===== src/Pmm/Outcome.antt =====
-- `PMM::free_pages` with any arguments, those of no used region included.
use oronyx.Base.{ℕ, zero, suc, ◌+◌, ◌*◌, ◌≤◌, ◌<◌, ◌≡◌, ◌⊎◌, inl, inr, refl, arith, ◌∙◌, Bool-cases}
use oronyx.Base.{Bool, true, false, some, u64, ◌==◌, ◌&&◌, if◌then◌else◌}
use native.Mathlib.Decide.{ℕ_discrete}
use oronyx.Base.Sums.{sum, sum-update}
use oronyx.Regions.{Region, page_size, load, store}
use oronyx.Regions.Order.{free_len, flagged, flagged-IsTable}
use oronyx.Pmm.{State, print, putln, release, free_from, free_pages}
use oronyx.Pmm.Alloc.{IsValid}
use oronyx.Pmm.Joins.{IsJoined, joins_lem, Touching}
use oronyx.Pmm.Free.{freed_at}

abbrev pub is_range : ℕ → ℕ → Region → Bool
is_range base size r = r.base == base && r.len == size

abbrev pub rejected : State → State
rejected s = print (putln "PMM: Tried to free invalid pages!") s

-- The index of the region that `free_from` stops at, and what it then does, or that there is none.
abbrev Found : ℕ → ℕ → ℕ → ℕ → State → Type 0
Found base size k q s =
    ((i : ℕ) × (i < s.region_count)
      × (is_range base size (s.regions i) ≡ true)
      × (free_from base size k q s ≡ release i (s.regions i) s))
    ⊎ (((m : ℕ) → q ≤ m → m < s.region_count → is_range base size (s.regions m) ≡ false)
        × (free_from base size k q s ≡ some (rejected s)))

free_from_cases :
    (base size k q : ℕ) (s : State) → IsValid s → q + k ≡ s.region_count → Found base size k q s
unfolding free_from
free_from_cases base size zero q s t e = inr (λ m h l. absurd (omega arith), refl)
free_from_cases base size (suc k) q s t e =
    let loaded : load s.regions q ≡ some (s.regions q) = ground (arith, t.count_in) in
    elim (Bool-cases (is_range base size (s.regions q))) [
      | inl here ↦ inl (q, omega arith, here, rw (loaded, here) refl)
      | inr other ↦ elim (free_from_cases base size k (q + 1) s t (omega arith)) [
        | inl (i, l, f, run) ↦ inl (i, l, f, rw (loaded, other) run)
        | inr (nowhere, run) ↦ inr (
          λ m h l. elim (ℕ_discrete q m) [
            | yes same ↦ rw same at other
            | no apart ↦ nowhere m (omega arith) l
          ],
          rw (loaded, other) run,
        )
      ]
    ]

release-IsJoined :
    (i : ℕ) (s : State)
    → IsValid s
    → i < s.region_count
    → (s' : State) × (release i (s.regions i) s ≡ some s')
      × IsJoined (freed_at i s) s' (Touching i (freed_at i s))
unfolding release
release-IsJoined i s t below =
    let stored : store s.regions i (record (s.regions i) { is_free = true })
        ≡ some (flagged true i s.regions) =
      ground (arith, below, t.count_in) in
    rw stored (joins_lem i (freed_at i s) (flagged-IsTable t i below true) below (ground arith))

-- The state after a call is valid; it has `more` more free bytes, the same memory and the same log.
pub record IsReleased (more : ℕ) (s s' : State) : Type 0 where
  pub valid : IsValid s'
  pub free : sum free_len s'.regions s'.region_count ≡ sum free_len s.regions s.region_count + more
  pub same_memory : s'.memory ≡ s.memory
  pub same_log : s'.log ≡ s.log

abbrev pub Replies : ℕ → ℕ → State → Type 0
Replies base count s =
    let size = u64 (count * page_size) in
    ((i : ℕ) × (i < s.region_count)
      × (is_range base size (s.regions i) ≡ true)
      × ((s' : State) × (free_pages base count s ≡ some s')
          × IsReleased (if (s.regions i).is_free then 0 else (s.regions i).len) s s'))
    ⊎ (((m : ℕ) → m < s.region_count → is_range base size (s.regions m) ≡ false)
        × (free_pages base count s ≡ some (rejected s)))

-- In a valid state a call with any arguments returns. If a region starts at the address and has the
-- size, modulo 2 ^ 64, of the pages, then the state stays valid and the free bytes grow by the size if
-- the region was used, and stay as many if it was free already. If there is no such region, then the
-- call only prints a message.
pub free_pages_outcome : (base count : ℕ) (s : State) → IsValid s → Replies base count s
unfolding free_pages
free_pages_outcome base count s t =
    elim (free_from_cases base (u64 (count * page_size)) s.region_count 0 s t (omega arith)) [
      | inr (nowhere, run) ↦ inr (λ m l. nowhere m (omega arith) l, run)
      | inl (i, below, f, run) ↦
          let (s', released, j) = release-IsJoined i s t below in
          inl (
            i,
            below,
            f,
            (
              s',
              run ∙ released,
              record {
                valid = j.valid;
                free = ground (
                  arith,
                  j.same_free,
                  sum-update free_len s.regions i (record (s.regions i) { is_free = true })
                      s.region_count below,
                );
                same_memory = j.same_memory;
                same_log = j.same_log;
              },
            ),
          )
    ]
