-- ===== src/Interrupts/Tests.antt =====
-- The theorems on the interrupt table at a concrete kernel.
use oronyx.Base.{ℕ, ◌<◌, ◌^◌, ◌≡◌, refl, arith, some, [], ◌∷◌}
use oronyx.Descriptors.{no_vectors}
use oronyx.Interrupts.{Handler, Dispatch, setup, int_no_error, int_with_error}
use oronyx.Interrupts.Table.{Serves, handler_at, has_handler, is_served, setup-Serves}

-- The functions of a kernel in the upper half of memory.
abbrev address : Handler → ℕ
address Handler.no_error = 0xffff_ffff_8000_0000
address Handler.with_error = 0xffff_ffff_8000_0040
address Handler.double_fault = 0xffff_ffff_8000_0080
address Handler.general_protection = 0xffff_ffff_8000_00c0
address Handler.page_fault = 0xffff_ffff_8000_0100
address Handler.timer = 0xffff_ffff_8000_0140
address Handler.keyboard = 0xffff_ffff_8000_0180

address_fits : (h : Handler) → address h < 2 ^ 64
address_fits Handler.no_error = omega arith
address_fits Handler.with_error = omega arith
address_fits Handler.double_fault = omega arith
address_fits Handler.general_protection = omega arith
address_fits Handler.page_fault = omega arith
address_fits Handler.timer = omega arith
address_fits Handler.keyboard = omega arith

page_fault_vector : handler_at 14 ≡ some Handler.page_fault
page_fault_vector = refl

setup-Serves_example :
    Serves address 14 (handler_at 14) no_vectors (setup address no_vectors)
    × (has_handler (handler_at 14) ≡ is_served 14)
setup-Serves_example = setup-Serves address 14 no_vectors address_fits (omega arith)

-- A number behind the array, and that of the page fault.
read_outside : int_no_error address 1 (λ d. 256) (setup address no_vectors) ≡ Dispatch.outside
unfolding int_no_error
read_outside = refl

read_page_fault :
    int_with_error address 1 (λ d. 14) 2 (setup address no_vectors)
    ≡ Dispatch.calls (address Handler.page_fault) (2 ∷ [])
unfolding int_with_error setup
read_page_fault = refl
