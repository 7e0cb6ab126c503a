-- ===== src/Atomic/Schedule.antt =====
-- What threads see that share an `atomic`, in any order of their operations.
use oronyx.Base.{ℕ, ◌≡◌, refl, arith, Bool, true, ◌==◌}
use oronyx.Base.{List, [], ◌∷◌, map}
use oronyx.Atomic.{compare_exchange}

-- A lock that a thread takes by `compare_exchange` from 0 to its own number: the results of the
-- attempts of the threads of a schedule, and the value behind them.
unfoldable pub attempts : List ℕ → ℕ → List Bool × ℕ
unfolding compare_exchange
attempts [] value = ([], value)
attempts (thread ∷ threads) value =
    let (taken, expected, value') = compare_exchange 0 thread value in
    let (rest, value'') = attempts threads value' in (taken ∷ rest, value'')

-- `compare_exchange` tells whether the value was the expected one and hands the value over in
-- `expected`, but it never changes the value.
compare_exchange_lem :
    (expected desired value : ℕ)
    → compare_exchange expected desired value ≡ (expected == value, value, value)
unfolding compare_exchange
compare_exchange_lem expected desired value = ground arith

-- A lock that is free is taken by every thread of every schedule, whatever number each of them
-- stores, and is free behind them.
pub attempts_all : (threads : List ℕ) → attempts threads 0 ≡ (map (λ t. true) threads, 0)
unfolding attempts
attempts_all [] = refl
attempts_all (thread ∷ threads) = rw (attempts_all threads) refl
