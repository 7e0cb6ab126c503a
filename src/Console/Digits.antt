-- ===== src/Console/Digits.antt =====
-- The loop that turns a number into digits: which number they spell, and how many there are.
use oronyx.Base.{ℕ, zero, suc, ◌+◌, ◌*◌, ◌/◌, ◌%◌, ◌^◌, ◌≤◌, ◌<◌, ◌≡◌, ◌≢◌, refl, arith}
use oronyx.Base.{ap, ◌∙◌, sym, some, List, [], ◌∷◌, ◌++◌, length, length-append}
use mathlib.Core.List.{append_assoc}
use native.Mathlib.Nat.{pow-suc, div-lt_iff_lt-mul, div-add-mod}
use Prim.Native.Nat.pow
use native.Mathlib.Decide.{ℕ_discrete}
use oronyx.Console.{fill}

-- The number that a list of digits spells in base `b`, read by `digit`.
module _ (b : ℕ) (digit : ℕ → ℕ) where
  abbrev pub spell : ℕ → List ℕ → ℕ
  spell acc [] = acc
  spell acc (c ∷ cs) = spell (acc * b + digit c) cs

  spell-append :
      (acc : ℕ) (cs : List ℕ) (c : ℕ) → spell acc (cs ++ (c ∷ [])) ≡ spell acc cs * b + digit c
  spell-append acc [] c = refl
  spell-append acc (x ∷ cs) c = spell-append (acc * b + digit x) cs c

-- No zero in front, but for the number 0 alone.
abbrev pub IsPlain : (ℕ → ℕ) → List ℕ → Type 0
IsPlain digit [] = ⊥
IsPlain digit (c ∷ []) = Unit
IsPlain digit (c ∷ d ∷ cs) = digit c ≢ 0

module _ (b : ℕ) (low next char digit : ℕ → ℕ) (big : 2 ≤ b) (low_lem : (v : ℕ) → low v ≡ v % b)
    (next_lem : (v : ℕ) → next v ≡ v / b) (digit-char : (d : ℕ) → d < b → digit (char d) ≡ d) where
  -- The digits `cs` of `v`, and what they satisfy with the fuel `f`.
  pub record IsDigits (f v : ℕ) (cs : List ℕ) : Type 0 where
    pub spells : spell b digit 0 cs ≡ v
    pub few : length cs ≤ f
    pub plain : IsPlain digit cs

  IsPlain-append :
      (cs : List ℕ) (c v : ℕ)
      → IsPlain digit cs
      → spell b digit 0 cs ≡ v
      → v ≢ 0
      → IsPlain digit (cs ++ (c ∷ []))
  IsPlain-append [] c v p e ne = absurd p
  IsPlain-append (x ∷ []) c v p e ne = λ z. ne (omega (arith, e, z))
  IsPlain-append (x ∷ y ∷ cs) c v p e ne = p

  small : (v f : ℕ) → v < b ^ suc f → v / b < b ^ f
  small v f h = (div-lt_iff_lt-mul (omega arith)).1 (omega (arith, pow-suc b f))

  lowest : (v : ℕ) → digit (char (low v)) ≡ v % b
  lowest v = rw (low_lem v) (digit-char (v % b) (omega arith))

  -- The fuel is positive where a digit is left.
  fuel_left : (v f : ℕ) → v / b ≢ 0 → v / b < b ^ f → 0 < f
  fuel_left v zero ne h = absurd (ne (omega (arith, pow.zero b)))
  fuel_left v (suc f) ne h = omega arith

  fill-last :
      (f v : ℕ) (buffer : List ℕ)
      → v / b ≡ 0
      → length buffer < 32
      → fill low next char (suc f) v buffer ≡ some (char (low v) ∷ buffer)
  unfolding fill
  fill-last fuel v buffer e room = rw (next_lem v, e) (ground arith)

  fill-more :
      (f v : ℕ) (buffer : List ℕ)
      → v / b ≢ 0
      → length buffer < 32
      → fill low next char (suc f) v buffer ≡ fill low next char f (v / b) (char (low v) ∷ buffer)
  unfolding fill
  fill-more fuel v buffer ne room = rw (next_lem v) (ground arith)

  pub fill_lem :
      (f fuel v : ℕ) (buffer : List ℕ)
      → v < b ^ f
      → 0 < f
      → f ≤ fuel
      → length buffer + f ≤ 32
      → (cs : List ℕ) × (fill low next char fuel v buffer ≡ some (cs ++ buffer)) × IsDigits f v cs
  fill_lem zero fuel v buffer h pos l room = absurd (omega arith)
  fill_lem (suc f) zero v buffer h pos l room = absurd (omega arith)
  fill_lem (suc f) (suc fuel) v buffer h pos l room = elim (ℕ_discrete (v / b) 0) [
    | yes e ↦ (
      char (low v) ∷ [],
      fill-last fuel v buffer e (omega arith),
      record {
        spells = omega (arith, lowest v, div-add-mod v b, ap (λ (t : ℕ). b * t) e);
        few = omega arith;
        plain = tt;
      },
    )
    | no ne ↦
        let (cs, run, d) =
          fill_lem f fuel (v / b) (char (low v) ∷ buffer) (small v f h)
            (fuel_left v f ne (small v f h)) (omega arith) (omega arith) in
        (
          cs ++ (char (low v) ∷ []),
          fill-more fuel v buffer ne (omega arith)
              ∙ run
              ∙ ap some (sym (append_assoc cs (char (low v) ∷ []) buffer)),
          record {
            spells =
                spell-append b digit 0 cs (char (low v))
                ∙ omega (arith, lowest v, div-add-mod v b, ap (λ (t : ℕ). t * b) d.spells);
            few = omega (arith, d.few, length-append cs (char (low v) ∷ []));
            plain = IsPlain-append cs (char (low v)) (v / b) d.plain d.spells ne;
          },
        )
  ]
