-- ===== src/Console/Tests.antt =====
-- Runs of the printing functions, and their theorems at concrete numbers.
use oronyx.Base.{ℕ, ◌≡◌, refl, arith, some, List, [], ◌∷◌, u32}
use oronyx.Console.{print_int, print_hex}
use oronyx.Console.Numbers.{AreDigits, decimal_value, hexadecimal_value, print_int_lem}
use oronyx.Console.Numbers.{print_hex_lem}

print_int_runs : print_int 4096 ≡ some (b'4' ∷ b'0' ∷ b'9' ∷ b'6' ∷ [])
unfolding print_int
print_int_runs = refl

-- An address above 4 GiB loses its upper half.
print_hex_runs : print_hex 0x1_0000_00af ≡ some (b'a' ∷ b'f' ∷ [])
unfolding print_hex
print_hex_runs = refl

print_int_lem_example :
    (cs : List ℕ) × (print_int 4096 ≡ some cs) × AreDigits 10 decimal_value 20 4096 cs
print_int_lem_example = print_int_lem 4096 (omega arith)

print_hex_lem_example :
    (cs : List ℕ) × (print_hex 0x1_0000_00af ≡ some cs)
    × AreDigits 16 hexadecimal_value 8 (u32 0x1_0000_00af) cs
print_hex_lem_example = print_hex_lem 0x1_0000_00af
