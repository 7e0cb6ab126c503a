-- ===== src/Runtime.antt =====
-- kernel/src/init.cpp and libk/src/__cxxrt.cpp: the constructors of global objects, and the functions
-- that the compiler calls for destructors and for calls of pure virtual functions.
pub mod Globals
use oronyx.Base.{ℕ, zero, suc, ◌+◌, Option, none, some, ltb, if◌then◌else◌}
use oronyx.Machine.{Machine, halt}

-- `first` and `last` are the linker's bounds of the array of pointers, whose elements are 8 bytes;
-- `call` is what the function of the pointer at an address does to the state of the program. `none`
-- is an end of the fuel.
module _ {ℓ} {S : Type ℓ} (last : ℕ) (call : ℕ → S → S) where
  unfoldable pub init_from : ℕ → ℕ → S → Option S
  init_from zero ctor s = none
  init_from (suc fuel) ctor s =
      let rest = init_from fuel (ctor + 8) (call ctor s) in if ltb ctor last then rest else some s

  unfoldable pub init_globals : ℕ → ℕ → S → Option S
  unfolding init_from
  init_globals fuel first s = init_from fuel first s

-- No destructor is recorded.
abbrev pub cxa_atexit : ℕ → ℕ → ℕ → Machine → ℕ × Machine
cxa_atexit destructor argument handle m = (0, m)

abbrev pub cxa_pure_virtual : Machine → Machine
cxa_pure_virtual m = halt m
