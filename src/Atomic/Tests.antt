-- ===== src/Atomic/Tests.antt =====
-- The theorems on atomic values at concrete threads.
use oronyx.Base.{ℕ, ◌^◌, ◌≡◌, refl, true, [], ◌∷◌, map}
use oronyx.Atomic.{load, store, fetch_add}
use oronyx.Atomic.Schedule.{attempts, attempts_all}

load-store : load (store 7 3) ≡ 7
unfolding load store
load-store = refl

attempts_all_example : attempts (1 ∷ 2 ∷ []) 0 ≡ (map {A = ℕ} (λ t. true) (1 ∷ 2 ∷ []), 0)
attempts_all_example = attempts_all (1 ∷ 2 ∷ [])

-- An addition to an 8-bit value that wraps around.
fetch_add_run : fetch_add (2 ^ 8) 3 0xfe ≡ (0xfe, 1)
unfolding fetch_add
fetch_add_run = refl
