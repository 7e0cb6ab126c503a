-- ===== src/Paging/Shared/Isolation.antt =====
-- Address spaces and the memory of callers keep apart, in any order of the calls.
use oronyx.Base.{ℕ, ◌*◌, ◌≡◌, ◌≢◌, ◌⊎◌, Option, some, List, ◌∷◌}
use oronyx.Regions.{page_size}
use oronyx.Pmm.{alloc_pages}
use oronyx.Pmm.History.{Block}
use oronyx.Paging.{State, map_page}
use oronyx.Paging.Fresh.{HasPages}
use oronyx.Paging.Refine.{remap}
use oronyx.Paging.Shared.{Use, fill, with_pmm}

-- The next call of `map_page` or `alloc_pages`.
abbrev pub Proceeds :
    (virt phys flags count : ℕ) (s t : State) (f : ℕ → Option ℕ) (held : List Block)
    → (ℕ → ℕ)
    → Type 0
Proceeds virt phys flags count s t f held words =
    ((u : State) × (map_page virt phys flags t ≡ some u)
      × (Use s u (remap 12 virt phys f) held words ⊎ (Use s u f held words × ¬ HasPages 3 t)))
    × (((b : ℕ) × (q : oronyx.Pmm.State) × (alloc_pages count t.pmm ≡ some (b, q))
          × (b ≢ 0)
          × Use s (with_pmm q t) f ((b, count) ∷ held) (fill b (count * page_size) words))
        ⊎ ((q : oronyx.Pmm.State) × (alloc_pages count t.pmm ≡ some (0, q))
            × Use s (with_pmm q t) f held words))
