-- ===== src/Kernel/Output.antt =====
-- What becomes of the kernel's first line on the screen, and so of `kernel_main`.
use oronyx.Base.{ℕ, ◌^◌, ◌<◌, ◌≡◌, refl, arith, Bool, true, false, not, Option, none, some}
use oronyx.Base.{List, [], ◌∷◌, ◌>>=◌, if◌then◌else◌, ◌||◌, Bool-cases, inl, inr}
use oronyx.Graphics
use oronyx.Graphics.{Screen, write, write_line, clear}
use oronyx.Graphics.Cursor.{IsInside, IsSize}
use oronyx.Graphics.Glyph.{write_fault}
use oronyx.Machine.{Machine, halt}
use oronyx.Memory
use oronyx.Pmm.{Print}
use oronyx.Kernel.{Boot, Framebuffer, codes, show, render, no_screen, log_of, start, kernel_main}
use oronyx.Kernel.Log.{IsText, StartsWithText, init-StartsWithText}

>>=-none {ℓ κ} :
    {A : Type ℓ} {B : Type κ} (m : Option A) (f : A → Option B)
    → ((a : A) → m ≡ some a → f a ≡ none)
    → (m >>= f) ≡ none
>>=-none none f h = refl
>>=-none (some a) f h = h a refl

text-fault : (cs : List ℕ) (s : Screen) → IsText cs → IsSize s → IsInside s → write_line cs s ≡ none
unfolding write_line
text-fault [] s text size inside = absurd text
text-fault (c ∷ cs) s (low, ascii, lf) size inside =
    rw (write_fault 0 c cs s size inside low ascii lf) refl

render-fault :
    (log : List Print) (s : Screen)
    → StartsWithText log
    → IsSize s
    → IsInside s
    → render log s ≡ none
unfolding render show
render-fault log s (t, rest, e, text) size inside =
    rw (e, text-fault (codes t) s text size inside) refl

-- A frame buffer with pixels, whose lines and columns a console can count.
pub record IsVisible (fb : Framebuffer) : Type 0 where
  pub width_pos : 0 < fb.width
  pub height_pos : 0 < fb.height
  pub width_fits : fb.width < 2 ^ 32
  pub height_fits : fb.height < 2 ^ 32

init-IsInside :
    (fb : Framebuffer)
    → IsVisible fb
    → IsSize (Graphics.init fb.pixels fb.width fb.height fb.pitch)
      × IsInside (Graphics.init fb.pixels fb.width fb.height fb.pitch)
unfolding Graphics.init clear
init-IsInside fb v = ((ground arith, ground arith), (ground arith, ground arith))

start-fault :
    (boot : Boot) (fb : Framebuffer) (m : Machine)
    → log_of m ≡ []
    → IsVisible fb
    → start boot fb m ≡ none
unfolding start
start-fault boot fb m empty v =
    let (size, inside) = init-IsInside fb v in
    >>=-none (Memory.init boot.hhdm boot.memmap boot.efer m) _ (λ n run.
      let text = init-StartsWithText boot.hhdm boot.memmap boot.efer m n empty run in
      rw
        (render-fault (log_of n) (Graphics.init fb.pixels fb.width fb.height fb.pitch) text size
          inside)
        refl)

abbrev pub has_no_framebuffer : Option (List Framebuffer) → Bool
has_no_framebuffer none = true
has_no_framebuffer (some []) = true
has_no_framebuffer (some (fb ∷ fbs)) = false

abbrev pub FirstIsVisible : Option (List Framebuffer) → Type 0
FirstIsVisible none = Unit
FirstIsVisible (some []) = Unit
FirstIsVisible (some (fb ∷ fbs)) = IsVisible fb

-- `hcf` before the console has started.
abbrev pub halted : Machine → Option (Machine × Screen)
halted m = some (halt m, no_screen)

first-outcome :
    (fbs : Option (List Framebuffer)) (boot : Boot) (m : Machine)
    → log_of m ≡ []
    → FirstIsVisible fbs
    → elim fbs as (λ k. Option (Machine × Screen)) [
      | none ↦ halted m
      | some [] ↦ halted m
      | some (fb ∷ rest) ↦ start boot fb m
    ]
      ≡ (if has_no_framebuffer fbs then halted m else none)
first-outcome none boot m empty v = refl
first-outcome (some []) boot m empty v = refl
first-outcome (some (fb ∷ fbs)) boot m empty v = start-fault boot fb m empty v

-- From an empty log `kernel_main` halts without a screen if the boot loader does not support the
-- protocol's revision or gives no frame buffer; otherwise, with a first frame buffer of one pixel or
-- more whose sizes fit 32 bits, it ends in a fault.
pub kernel_main_outcome :
    (boot : Boot) (m : Machine)
    → log_of m ≡ []
    → FirstIsVisible boot.framebuffers
    → kernel_main boot m
      ≡ (if not boot.is_supported || has_no_framebuffer boot.framebuffers then halted m else none)
unfolding kernel_main
kernel_main_outcome boot m empty v = elim (Bool-cases boot.is_supported) [
  | inl supported ↦ rw supported (first-outcome boot.framebuffers boot m empty v)
  | inr unsupported ↦ rw unsupported refl
]
