-- ===== src/Console.antt =====
-- libk/src/iostream.cpp: the characters that the printing functions give to `putc`, in order.
-- `buffer` is a stack of at most 32 characters: the loop behind it prints from its top down.
pub mod Digits
pub mod Numbers
mod Tests
use oronyx.Base.{ℕ, zero, suc, ◌+◌, ◌-◌, ◌/◌, ◌%◌, bit_and, u32, ◌>>>◌, Option, some, none}
use oronyx.Base.{List, [], ◌∷◌, ltb, ◌==◌, if◌then◌else◌, length}

abbrev pub buffer_size : ℕ
buffer_size = 32

-- A `do … while (value)` loop that pushes the character of `low value` and goes on with
-- `next value`; `none` is a write past the buffer, or the end of the fuel.
module _ (low next char : ℕ → ℕ) where
  unfoldable pub fill : ℕ → ℕ → List ℕ → Option (List ℕ)
  fill zero value buffer = none
  fill (suc fuel) value buffer =
      let rest = fill fuel (next value) (char (low value) ∷ buffer) in
      if ltb (length buffer) buffer_size
      then (if next value == 0 then some (char (low value) ∷ buffer) else rest)
      else none

abbrev pub decimal : ℕ → ℕ
decimal d = b'0' + d

abbrev pub hexadecimal : ℕ → ℕ
hexadecimal d = if ltb d 10 then b'0' + d else b'a' + (d - 10)

-- `value` is a `size_t`, so the test `value < 0` and the two branches behind it never hold.
unfoldable pub print_int : ℕ → Option (List ℕ)
unfolding fill
print_int value = fill (λ v. v % 10) (λ v. v / 10) decimal buffer_size value []

-- The parameter is an `unsigned int`: a wider argument is cut to 32 bits by the call.
unfoldable pub print_uint : ℕ → Option (List ℕ)
unfolding fill
print_uint value = fill (λ v. v % 10) (λ v. v / 10) decimal buffer_size (u32 value) []

unfoldable pub print_hex : ℕ → Option (List ℕ)
unfolding fill
print_hex value = fill (λ v. bit_and v 0xf) (λ v. v >>> 4) hexadecimal buffer_size (u32 value) []

unfoldable pub print_ptr : ℕ → Option (List ℕ)
unfolding print_hex
print_ptr ptr = print_hex ptr
