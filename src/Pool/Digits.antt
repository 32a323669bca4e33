-- ===== src/Pool/Digits.antt =====
-- What strconv.Itoa begins with.
use go_fula.Prelude.{
  ℕ, zero, suc, ◌+◌, ◌/◌, ◌%◌, ◌<◌, false, [], ◌∷◌, ◌++◌, eqb, ltb, ◌≡◌, refl, arith, inl, inr,
  Bool-cases,
}
use go_fula.Evm.Hex.{Text, codes, has_prefix}
use go_fula.Pool.{ℤ, pos, negsuc, digits, itoa}

digit-has_prefix : (d : ℕ) (s : Text) → d < 10 → has_prefix ((d + b'0') ∷ s) (codes "http") ≡ false
unfolding has_prefix
digit-has_prefix d s h = let other : eqb (d + b'0') b'h' ≡ false = ground arith in rw other refl

digits-has_prefix :
    (fuel n : ℕ) (rest s u : Text)
    → has_prefix ((digits fuel n rest ++ s) ++ u) (codes "http") ≡ false
unfolding digits
digits-has_prefix zero n rest s u = digit-has_prefix (n % 10) ((rest ++ s) ++ u) (omega arith)
digits-has_prefix (suc fuel) n rest s u = elim (Bool-cases (ltb n 10)) [
  | inl e ↦ rw e (digit-has_prefix n ((rest ++ s) ++ u) (ground arith))
  | inr e ↦ rw e (digits-has_prefix fuel (n / 10) ((n % 10 + b'0') ∷ rest) s u)
]

-- A text that begins with a number does not begin with "http".
pub itoa-has_prefix : (n : ℤ) (s u : Text) → has_prefix ((itoa n ++ s) ++ u) (codes "http") ≡ false
unfolding itoa has_prefix
itoa-has_prefix (pos n) s u = digits-has_prefix 18 n [] s u
itoa-has_prefix (negsuc n) s u = refl
