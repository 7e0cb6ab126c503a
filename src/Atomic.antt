-- ===== src/Atomic.antt =====
-- libk/include/atomic.hpp on x86-64: `atomic<T>` for an unsigned `T` with `modulus` values. Each
-- operation is one locked instruction, so threads interleave between operations only.
pub mod Schedule
mod Tests
use oronyx.Base.{ℕ, ◌+◌, ◌%◌, Bool, true, false, ◌==◌, if◌then◌else◌, List, [], ◌∷◌}

-- `cmpxchg source, memory`: the flag ZF, the accumulator and the memory after it.
abbrev pub cmpxchg : ℕ → ℕ → ℕ → Bool × ℕ × ℕ
cmpxchg source accumulator memory =
    if accumulator == memory then (true, accumulator, source) else (false, memory, memory)

-- The operands of the assembly are numbered from the outputs on: `%2`, the source of the instruction,
-- is the accumulator with `expected`, and `desired` is `%3`, which the template does not name.
-- The results are the truth value, `expected` and the value.
unfoldable pub compare_exchange : ℕ → ℕ → ℕ → Bool × ℕ × ℕ
compare_exchange expected desired value = cmpxchg expected expected value

pub load : ℕ → ℕ
load value = value

pub store : ℕ → ℕ → ℕ
store new_value value = new_value

-- `lock xadd`: the old value, and the value.
module _ (modulus : ℕ) where
  unfoldable pub fetch_add : ℕ → ℕ → ℕ × ℕ
  fetch_add arg value = (value, (value + arg) % modulus)
