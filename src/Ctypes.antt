-- ===== src/Ctypes.antt =====
-- libk/src/ctypes.cpp: the classes of characters and the change of case.
pub mod Classes
mod Tests
use oronyx.Base.{ℕ, ◌+◌, ◌-◌, Bool, true, false, ◌&&◌, ◌||◌, leb, ◌==◌, if◌then◌else◌}

-- An `int`: `pos n` is n and `negsuc n` is -(n + 1).
pub data ℤ : Type 0 where
  pos : ℕ → ℤ
  negsuc : ℕ → ℤ

-- The test `c >= low && c <= high` between constants of C, which are not negative.
unfoldable pub in_range : ℕ → ℕ → ℤ → Bool
in_range low high (pos n) = leb low n && leb n high
in_range low high (negsuc n) = false

unfoldable pub equals : ℤ → ℕ → Bool
equals (pos n) k = n == k
equals (negsuc n) k = false

unfoldable pub isalpha : ℤ → Bool
isalpha c = in_range b'A' b'Z' c || in_range b'a' b'z' c

unfoldable pub isdigit : ℤ → Bool
isdigit c = in_range b'0' b'9' c

unfoldable pub isalnum : ℤ → Bool
isalnum c = isalpha c || isdigit c

-- Space, tabulator, line feed, carriage return, form feed and vertical tabulator.
unfoldable pub isspace : ℤ → Bool
isspace c = equals c 32 || equals c 9 || equals c 10 || equals c 13 || equals c 12 || equals c 11

unfoldable pub ispunct : ℤ → Bool
ispunct c = in_range 33 47 c || in_range 58 64 c || in_range 91 96 c || in_range 123 126 c

unfoldable pub isprint : ℤ → Bool
isprint c = in_range 32 126 c

unfoldable pub isupper : ℤ → Bool
isupper c = in_range b'A' b'Z' c

unfoldable pub islower : ℤ → Bool
islower c = in_range b'a' b'z' c

unfoldable pub isxdigit : ℤ → Bool
isxdigit c = isdigit c || in_range b'A' b'F' c || in_range b'a' b'f' c

-- `c - from + to`, for a `c` that is at least `from`; other numbers do not reach it.
unfoldable pub shift_case : ℕ → ℕ → ℤ → ℤ
shift_case from to (pos n) = pos (n - from + to)
shift_case from to (negsuc n) = negsuc n

unfoldable pub toupper : ℤ → ℤ
toupper c = if islower c then shift_case b'a' b'A' c else c

unfoldable pub tolower : ℤ → ℤ
tolower c = if isupper c then shift_case b'A' b'a' c else c
