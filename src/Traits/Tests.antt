-- ===== src/Traits/Tests.antt =====
-- Runs of the templates, and their theorem at concrete types.
use oronyx.Base.{◌≡◌, ◌↔◌, refl, true, false, none}
use oronyx.Traits.{CppType, qualified, void, scalar, pointer, function, end, is_same, is_void}
use oronyx.Traits.{is_pointer, is_function, plain_void, conditional, enable_if}
use oronyx.Traits.Laws.{shape, is_pointer_shape, is_same_iff}

-- `void *const` and `int`.
abbrev const_pointer : CppType
const_pointer = qualified true false (pointer plain_void)

abbrev int : CppType
int = qualified false false (scalar 0)

is_same_iff_example :
    ((is_same const_pointer int ≡ true) ↔ (const_pointer ≡ int))
    × ((is_void const_pointer ≡ true) ↔ (shape const_pointer ≡ void))
    × (is_pointer const_pointer ≡ is_pointer_shape (shape const_pointer))
is_same_iff_example = is_same_iff const_pointer int

function_runs : is_function (qualified false false (function true int end)) ≡ true
unfolding is_function
function_runs = refl

conditional_runs : conditional (is_pointer const_pointer) int const_pointer ≡ int
unfolding conditional is_pointer
conditional_runs = refl

enable_if_runs : enable_if (is_pointer int) int ≡ none
unfolding enable_if is_pointer
enable_if_runs = refl
