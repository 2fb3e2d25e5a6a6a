-- ===== src/Store/Filter/Digits.antt =====
-- The placeholders' numbers: `itoa` of server/internal/store/threads.go.
use native.Mathlib.Nat.{pow-suc}
use clawgard.Prelude.{
  ℕ, zero, suc, ◌+◌, ◌-◌, ◌*◌, ◌/◌, ◌%◌, ◌^◌, ◌<◌, ◌≡◌, refl, ap, ◌∙◌, false, List, [], ◌∷◌, arith,
  ◌==◌, Comparable-ℕ,
}
use clawgard.Store.Filter.{digits, itoa}

-- The number that decimal digits write, after those already read.
abbrev pub value : ℕ → List ℕ → ℕ
value n [] = n
value n (b ∷ bs) = value (n * 10 + (b - b'0')) bs

value-digits : (f i : ℕ) (out : List ℕ) → i < 10 ^ f → value 0 (digits f i out) ≡ value i out
unfolding digits
value-digits zero i out h = ap (λ n. value n out) (omega arith)
value-digits (suc f) zero out h = refl
value-digits (suc f) (suc i) out h =
    value-digits f (suc i / 10) ((b'0' + suc i % 10) ∷ out) (omega (arith, pow-suc 10 f))
    ∙ ap (λ n. value n out) (omega arith)

-- `itoa` writes a number of up to 16 digits in decimal.
pub value-itoa : (i : ℕ) → i < 10 ^ 16 → value 0 (itoa i) ≡ i
unfolding itoa
value-itoa zero h = refl
value-itoa (suc i) h = rw not_zero (value-digits 16 (suc i) [] h)
  where
    not_zero : (suc i == 0) ≡ false
    not_zero = ground arith
