-- ===== src/Traits/Laws.antt =====
-- What the templates say of a type.
use oronyx.Base.{◌≡◌, ◌↔◌, refl, arith, sym, ◌∙◌, Bool, true, false}
use oronyx.Traits.{CppType, qualified, Unqualified, void, scalar, pointer, function, Parameters}
use oronyx.Traits.{end, parameter, is_same, same_type, same_parameters, remove_cv}
use oronyx.Traits.{is_void, is_pointer}

mutual
  unfolding is_same same_type same_parameters

  same_refl : (t : CppType) → is_same t t ≡ true
  same_refl (qualified c v t) = ground (arith, type_refl t)

  type_refl : (t : Unqualified) → same_type t t ≡ true
  type_refl void = refl
  type_refl (scalar n) = ground arith
  type_refl (pointer t) = same_refl t
  type_refl (function e t ps) = ground (arith, same_refl t, parameters_refl ps)

  parameters_refl : (ps : Parameters) → same_parameters ps ps ≡ true
  parameters_refl end = refl
  parameters_refl (parameter t ps) = ground (arith, same_refl t, parameters_refl ps)

mutual
  unfolding is_same same_type same_parameters

  same_eq : (t u : CppType) → is_same t u ≡ true → t ≡ u
  same_eq (qualified c v t) (qualified d w u) h = ground (arith, type_eq t u)

  type_eq : (t u : Unqualified) → same_type t u ≡ true → t ≡ u
  type_eq void void h = refl
  type_eq void (scalar m) h = cc
  type_eq void (pointer u) h = cc
  type_eq void (function f u qs) h = cc
  type_eq (scalar n) void h = cc
  type_eq (scalar n) (scalar m) h = ground arith
  type_eq (scalar n) (pointer u) h = cc
  type_eq (scalar n) (function f u qs) h = cc
  type_eq (pointer t) void h = cc
  type_eq (pointer t) (scalar m) h = cc
  type_eq (pointer t) (pointer u) h = cc (same_eq t u h)
  type_eq (pointer t) (function f u qs) h = cc
  type_eq (function e t ps) void h = cc
  type_eq (function e t ps) (scalar m) h = cc
  type_eq (function e t ps) (pointer u) h = cc
  type_eq (function e t ps) (function f u qs) h = ground (arith, same_eq t u, parameters_eq ps qs)

  parameters_eq : (ps qs : Parameters) → same_parameters ps qs ≡ true → ps ≡ qs
  parameters_eq end end h = refl
  parameters_eq end (parameter u qs) h = cc
  parameters_eq (parameter t ps) end h = cc
  parameters_eq (parameter t ps) (parameter u qs) h =
      ground (arith, same_eq t u, parameters_eq ps qs)

-- The shape of a type without its qualifiers.
abbrev pub shape : CppType → Unqualified
shape (qualified c v t) = t

abbrev pub is_pointer_shape : Unqualified → Bool
is_pointer_shape (pointer t) = true
is_pointer_shape _ = false

is_void-shape : (t : CppType) → is_void t ≡ same_type void (shape t)
unfolding is_void is_same remove_cv
is_void-shape (qualified false false t) = refl
is_void-shape (qualified false true t) = refl
is_void-shape (qualified true false t) = refl
is_void-shape (qualified true true t) = refl

is_pointer-unqualified :
    (t : Unqualified) → is_pointer (qualified false false t) ≡ is_pointer_shape t
unfolding is_pointer remove_cv
is_pointer-unqualified void = refl
is_pointer-unqualified (scalar n) = refl
is_pointer-unqualified (pointer t) = refl
is_pointer-unqualified (function e t ps) = refl

is_pointer-shape : (t : CppType) → is_pointer t ≡ is_pointer_shape (shape t)
unfolding is_pointer remove_cv
is_pointer-shape (qualified false false t) = is_pointer-unqualified t
is_pointer-shape (qualified false true t) = is_pointer-unqualified t
is_pointer-shape (qualified true false t) = is_pointer-unqualified t
is_pointer-shape (qualified true true t) = is_pointer-unqualified t

-- `is_same` holds exactly of a type and itself; `is_void` and `is_pointer` hold exactly of the types
-- that are void, or a pointer, under any qualifiers.
pub is_same_iff :
    (t u : CppType)
    → ((is_same t u ≡ true) ↔ (t ≡ u))
      × ((is_void t ≡ true) ↔ (shape t ≡ void))
      × (is_pointer t ≡ is_pointer_shape (shape t))
is_same_iff t u = (
  (same_eq t u, λ e. rw e (same_refl u)),
  (
    (λ h. sym (type_eq void (shape t) (sym (is_void-shape t) ∙ h))),
    λ e. is_void-shape t ∙ (rw e (type_refl void)),
  ),
  is_pointer-shape t,
)
