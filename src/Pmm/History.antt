-- ===== src/Pmm/History.antt =====
-- Calls of `PMM::alloc_pages` and `PMM::free_pages` in any order, by callers that free what they hold.
pub mod Kept
pub mod Calls
pub mod Memory
mod Tests
use oronyx.Base.{ℕ, suc, ◌+◌, ◌*◌, ◌^◌, ◌<◌, ◌≡◌, ◌≢◌, refl, arith, List, [], ◌∷◌, some}
use oronyx.Regions.{page_size}
use oronyx.Pmm.{State, alloc_pages, free_pages}

-- An address with a number of pages, and the lists with one block taken out.
abbrev pub Block : Type 0
Block = ℕ × ℕ

pub data Removes (b : Block) : List Block → List Block → Type 0 where
  here : (l : List Block) → Removes b (b ∷ l) l
  there : {l r : List Block} (c : Block) → Removes b l r → Removes b (c ∷ l) (c ∷ r)

-- The states that calls lead to, with the blocks that their callers hold.
pub data History (s0 : State) : State → List Block → Type 0 where
  start : History s0 s0 []
  granted :
      {s : State} {held : List Block} (count p : ℕ) (u : State)
      → History s0 s held
      → 0 < count
      → count * page_size < 2 ^ 64
      → alloc_pages count s ≡ some (p, u)
      → p ≢ 0
      → History s0 u ((p, count) ∷ held)
  refused :
      {s : State} {held : List Block} (count : ℕ) (u : State)
      → History s0 s held
      → 0 < count
      → count * page_size < 2 ^ 64
      → alloc_pages count s ≡ some (0, u)
      → History s0 u held
  freed :
      {s : State} {held rest : List Block} (count p : ℕ) (u : State)
      → History s0 s held
      → Removes (p, count) held rest
      → free_pages p count s ≡ some u
      → History s0 u rest

-- A measure of the held blocks, by their address and size in bytes.
abbrev pub total_of : (ℕ → ℕ → ℕ) → List Block → ℕ
total_of g [] = 0
total_of g ((p, count) ∷ held) = g p (count * page_size) + total_of g held

abbrev pub bytes_of : List Block → ℕ
bytes_of held = total_of (λ p size. size) held

pub total_of-Removes :
    (g : ℕ → ℕ → ℕ) (p count : ℕ) {held rest : List Block}
    → Removes (p, count) held rest
    → total_of g held ≡ g p (count * page_size) + total_of g rest
total_of-Removes g p count (here l) = refl
total_of-Removes g p count (there (q, n) r) = omega (arith, total_of-Removes g p count r)

-- The number of calls of `free_pages`.
unfoldable pub frees : {s0 s : State} {held : List Block} → History s0 s held → ℕ
frees start = 0
frees (granted count p u h pos small e ne) = frees h
frees (refused count u h pos small e) = frees h
frees (freed count p u h r e) = suc (frees h)
