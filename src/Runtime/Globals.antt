-- ===== src/Runtime/Globals.antt =====
-- The loop over the constructors.
use oronyx.Base.{ℕ, zero, suc, ◌+◌, ◌*◌, ◌<◌, ◌≡◌, refl, arith, some}
use oronyx.Runtime.{init_from, init_globals}

module _ {ℓ} {S : Type ℓ} (call : ℕ → S → S) where
  -- The calls of `n` functions, in the order of the pointers to them.
  unfoldable pub calls : ℕ → ℕ → S → S
  calls zero first s = s
  calls (suc n) first s = calls n (first + 8) (call first s)

  calls-init_from :
      (last n fuel first : ℕ) (s : S)
      → n < fuel
      → first + 8 * n ≡ last
      → init_from last call fuel first s ≡ some (calls n first s)
  unfolding init_from calls
  calls-init_from last zero (suc fuel) first s enough e = ground arith
  calls-init_from last (suc n) (suc fuel) first s enough e =
      ground
        (arith, calls-init_from last n fuel (first + 8) (call first s) (omega arith) (omega arith))
  calls-init_from last n zero first s enough e = absurd (omega arith)

  -- With more fuel than there are pointers, `init_globals` ends, and has called each function once, in
  -- the order of the pointers.
  pub init_globals_lem :
      (n fuel first : ℕ) (s : S)
      → n < fuel
      → init_globals (first + 8 * n) call fuel first s ≡ some (calls n first s)
  unfolding init_globals
  init_globals_lem n fuel first s enough =
      calls-init_from (first + 8 * n) n fuel first s enough refl
