-- ===== src/Io/Decimals.antt =====
-- equistore-core/src/io/mod.rs: the numbers in the paths of an archive.
use equistore.Prelude.{
  ℕ, zero, suc, ◌+◌, ◌-◌, ◌*◌, ◌/◌, ◌%◌, ◌<◌, ◌≡◌, ◌∙◌, refl, sym, ap, Bool-cases, inl, inr, ltb,
  [], ◌∷◌, ◌++◌, arith,
}
use equistore.Errors.{Name}
use equistore.Io.Archives.{digits, decimal}

-- The number that a text of digits denotes, behind those that denote `n`.
abbrev pub value_from : ℕ → Name → ℕ
value_from n [] = n
value_from n (c ∷ cs) = value_from (n * 10 + (c - 48)) cs

value_from-snoc :
    (n : ℕ) (cs : Name) (c : ℕ) → value_from n (cs ++ c ∷ []) ≡ value_from n cs * 10 + (c - 48)
value_from-snoc n [] c = refl
value_from-snoc n (d ∷ cs) c = value_from-snoc (n * 10 + (d - 48)) cs c

value_from-digits : (fuel n : ℕ) → n < fuel → value_from 0 (digits fuel n) ≡ n
unfolding digits
value_from-digits zero n h = absurd (omega (arith, h))
value_from-digits (suc fuel) n h = elim (Bool-cases (ltb n 10)) [
  | inl small ↦ rw small (omega arith)
  | inr large ↦
      let rest = value_from-digits fuel (n / 10) (ground (arith, h, large)) in
      rw large (value_from-snoc 0 (digits fuel (n / 10)) (48 + n % 10) ∙ rw rest (omega arith))
]

-- The text of a number denotes it, so that all its digits are there.
pub value_from-decimal : (n : ℕ) → value_from 0 (decimal n) ≡ n
unfolding decimal
value_from-decimal n = value_from-digits (suc n) n (omega arith)

-- Different blocks, and different components, have different numbers in their paths.
pub decimal-injective : (m n : ℕ) → decimal m ≡ decimal n → m ≡ n
decimal-injective m n h = sym (value_from-decimal m) ∙ ap (value_from 0) h ∙ value_from-decimal n
