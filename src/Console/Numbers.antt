-- ===== src/Console/Numbers.antt =====
-- `print_int`, `print_uint` and `print_hex` print the digits of their argument.
use oronyx.Base.{
  ℕ, ◌+◌, ◌-◌, ◌/◌, ◌%◌, ◌^◌, ◌≤◌, ◌<◌, ◌≡◌, refl, arith, some, List, [], bit_and, u32, length,
}
use oronyx.Base.{◌>>>◌, ltb, if◌then◌else◌}
use oronyx.Base.Bits.{bit_and-low}
use mathlib.Core.List.{append-nil}
use oronyx.Console.{fill, decimal, hexadecimal, print_int, print_uint, print_hex}
use oronyx.Console.Digits.{spell, IsPlain, fill_lem}

-- The values of the characters `0` to `9` and `a` to `f`.
abbrev pub decimal_value : ℕ → ℕ
decimal_value c = c - b'0'

abbrev pub hexadecimal_value : ℕ → ℕ
hexadecimal_value c = if ltb c b'a' then c - b'0' else c - b'a' + 10

-- `cs` are the digits of `v` in base `b`, at most `n`, with no zero in front of another digit.
abbrev pub AreDigits : ℕ → (ℕ → ℕ) → ℕ → ℕ → List ℕ → Type 0
AreDigits b value n v cs = (spell b value 0 cs ≡ v) × (length cs ≤ n) × IsPlain value cs

decimal_lem :
    (n v : ℕ)
    → v < 10 ^ n
    → 0 < n
    → n ≤ 32
    → (cs : List ℕ) × (fill (λ w. w % 10) (λ w. w / 10) decimal 32 v [] ≡ some cs)
      × AreDigits 10 decimal_value n v cs
decimal_lem n v h pos room =
    let (cs, run, d) =
      fill_lem 10 (λ w. w % 10) (λ w. w / 10) decimal decimal_value (omega arith) (λ w. refl)
        (λ w. refl) (λ e l. omega arith) n 32 v [] h pos room (omega arith) in
    (cs, rw append-nil at run, (d.spells, d.few, d.plain))

-- `print_int` prints the decimal digits of each `size_t`, at most 20, and stays in its buffer.
pub print_int_lem :
    (v : ℕ)
    → v < 2 ^ 64
    → (cs : List ℕ) × (print_int v ≡ some cs) × AreDigits 10 decimal_value 20 v cs
unfolding print_int
print_int_lem v h = decimal_lem 20 v (omega arith) (omega arith) (omega arith)

-- `print_uint` prints the decimal digits of its argument's low 32 bits, at most 10.
print_uint_lem :
    (v : ℕ) → (cs : List ℕ) × (print_uint v ≡ some cs) × AreDigits 10 decimal_value 10 (u32 v) cs
unfolding print_uint
print_uint_lem v = decimal_lem 10 (u32 v) (omega arith) (omega arith) (omega arith)

-- `print_hex` prints the hexadecimal digits of its argument's low 32 bits, at most 8.
pub print_hex_lem :
    (v : ℕ) → (cs : List ℕ) × (print_hex v ≡ some cs) × AreDigits 16 hexadecimal_value 8 (u32 v) cs
unfolding print_hex
print_hex_lem v =
    let (cs, run, d) =
      fill_lem 16 (λ w. bit_and w 0xf) (λ w. w >>> 4) hexadecimal hexadecimal_value (omega arith)
        (λ w. bit_and-low 4 w) (λ w. refl) (λ e l. ground arith) 8 32 (u32 v) [] (omega arith)
        (omega arith) (omega arith) (omega arith) in
    (cs, rw append-nil at run, (d.spells, d.few, d.plain))
