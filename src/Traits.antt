-- ===== src/Traits.antt =====
-- libk/include/type_traits.hpp: the templates as functions on the types of C++, each partial
-- specialization a clause.
pub mod Laws
mod Tests
use oronyx.Base.{ℕ, Bool, true, false, ◌&&◌, ◌==◌, Option, none, some}

-- A type is an unqualified type under `const` and `volatile`, each at most once.
mutual
  pub data CppType : Type 0 where
    qualified : Bool → Bool → Unqualified → CppType

  -- `scalar` numbers the other types without parts; `function` has `noexcept`, the result and the
  -- parameters.
  pub data Unqualified : Type 0 where
    void : Unqualified
    scalar : ℕ → Unqualified
    pointer : CppType → Unqualified
    function : Bool → CppType → Parameters → Unqualified

  pub data Parameters : Type 0 where
    end : Parameters
    parameter : CppType → Parameters → Parameters

-- The value of the template's parameter, and what the conversion and the call return.
pub record IntegralConstant {ℓ} (A : Type ℓ) : Type ℓ where
  pub value : A

abbrev pub to_value {ℓ} : {A : Type ℓ} → IntegralConstant A → A
to_value c = c.value

abbrev pub call {ℓ} : {A : Type ℓ} → IntegralConstant A → A
call c = c.value

-- The base classes of the traits, whose value the functions below return.
abbrev pub true_type : IntegralConstant Bool
true_type = record { value = true }

abbrev pub false_type : IntegralConstant Bool
false_type = record { value = false }

abbrev pub eq_bool : Bool → Bool → Bool
eq_bool true b = b
eq_bool false true = false
eq_bool false false = true

-- `is_same`, whose specialization wants the two types to be one.
unfoldable mutual
  pub is_same : CppType → CppType → Bool
  is_same (qualified c v t) (qualified d w u) = eq_bool c d && (eq_bool v w && same_type t u)

  pub same_type : Unqualified → Unqualified → Bool
  same_type void void = true
  same_type (scalar n) (scalar m) = n == m
  same_type (pointer t) (pointer u) = is_same t u
  same_type (function e t ps) (function f u qs) =
      eq_bool e f && (is_same t u && same_parameters ps qs)
  same_type _ _ = false

  pub same_parameters : Parameters → Parameters → Bool
  same_parameters end end = true
  same_parameters (parameter t ps) (parameter u qs) = is_same t u && same_parameters ps qs
  same_parameters _ _ = false

unfoldable pub remove_cv : CppType → CppType
remove_cv (qualified false false t) = qualified false false t
remove_cv (qualified true false t) = qualified false false t
remove_cv (qualified false true t) = qualified false false t
remove_cv (qualified true true t) = qualified false false t

abbrev pub plain_void : CppType
plain_void = qualified false false void

unfoldable pub is_void : CppType → Bool
unfolding is_same remove_cv
is_void t = is_same plain_void (remove_cv t)

abbrev pub is_pointer_helper : CppType → Bool
is_pointer_helper (qualified false false (pointer t)) = true
is_pointer_helper _ = false

unfoldable pub is_pointer : CppType → Bool
unfolding remove_cv
is_pointer t = is_pointer_helper (remove_cv t)

-- A qualified function type matches no specialization.
unfoldable pub is_function : CppType → Bool
is_function (qualified false false (function e t ps)) = true
is_function _ = false

-- The member `type`; `none` is a class without it.
module _ {ℓ} {A : Type ℓ} where
  unfoldable pub conditional : Bool → A → A → A
  conditional true t u = t
  conditional false t u = u

  unfoldable pub enable_if : Bool → A → Option A
  enable_if false t = none
  enable_if true t = some t

  unfoldable pub compile_time_select : Bool → (Unit {0} → A) → (Unit {0} → A) → A
  compile_time_select true true_func false_func = true_func tt
  compile_time_select false true_func false_func = false_func tt
