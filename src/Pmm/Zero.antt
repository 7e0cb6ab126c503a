-- ===== src/Pmm/Zero.antt =====
-- The loop of `alloc_pages` that clears the allocated pages.
use oronyx.Base.{ℕ, zero, suc, ◌+◌, ◌*◌, ◌^◌, ◌≤◌, ◌<◌, ◌≡◌, ◌⊎◌, refl, arith, ◌∙◌, u64, update}
use oronyx.Pmm.{zero_words}

-- A word that the loop does not reach keeps its value.
pub zero_words-outside :
    (k j ptr x : ℕ) (memory : ℕ → ℕ)
    → ptr + 8 * (j + k) ≤ 2 ^ 64
    → (x < ptr + 8 * j) ⊎ (ptr + 8 * (j + k) ≤ x)
    → zero_words k j ptr memory x ≡ memory x
unfolding zero_words
zero_words-outside zero j ptr x memory h o = refl
zero_words-outside (suc k) j ptr x memory h o =
    zero_words-outside k (j + 1) ptr x (update memory (u64 (ptr + 8 * j)) 0) (omega arith)
      (omega arith)
    ∙ ground arith

-- The loop leaves 0 in each word that it reaches.
pub zero_words-inside :
    (k j ptr i : ℕ) (memory : ℕ → ℕ)
    → ptr + 8 * (j + k) ≤ 2 ^ 64
    → i < k
    → zero_words k j ptr memory (ptr + 8 * (j + i)) ≡ 0
unfolding zero_words
zero_words-inside zero j ptr i memory h l = absurd (omega arith)
zero_words-inside (suc k) j ptr zero memory h l =
    zero_words-outside k (j + 1) ptr (ptr + 8 * (j + 0)) (update memory (u64 (ptr + 8 * j)) 0)
      (omega arith) (omega arith)
    ∙ ground arith
zero_words-inside (suc k) j ptr (suc i) memory h l =
    let e : ptr + 8 * (j + suc i) ≡ ptr + 8 * (j + 1 + i) = omega arith in
    rw e (
      zero_words-inside k (j + 1) ptr i (update memory (u64 (ptr + 8 * j)) 0) (omega arith)
        (omega arith))
