-- ===== src/Text/Decimal.antt =====
-- Decimal numerals: what `%d` prints reads back, so its fuel is enough.
use flash_sale.Prelude.{
  ℕ, zero, suc, ◌+◌, ◌-◌, ◌*◌, ◌/◌, ◌<◌, [], ◌∷◌, ◌++◌, ◌≡◌, refl, sym, ap, ◌∙◌, arith, ltb,
  Bool-cases, inl, inr,
}
use flash_sale.Text.{Text, digit, decimal, decimal_from}

-- The number that a text of digits shows, after `n`.
read_digits : ℕ → Text → ℕ
read_digits n [] = n
read_digits n (c ∷ s) = read_digits (n * 10 + (c - 48)) s

abbrev pub power : ℕ → ℕ
power zero = 1
power (suc k) = 10 * power k

read_digits-last :
    (n : ℕ) (s : Text) (c : ℕ) → read_digits n (s ++ c ∷ []) ≡ read_digits n s * 10 + (c - 48)
unfolding read_digits
read_digits-last n [] c = refl
read_digits-last n (d ∷ s) c = read_digits-last (n * 10 + (d - 48)) s c

read_digits-decimal_from : (fuel n : ℕ) → n < power fuel → read_digits 0 (decimal_from fuel n) ≡ n
unfolding read_digits decimal_from
read_digits-decimal_from zero n h = omega (arith, h)
read_digits-decimal_from (suc fuel) n h = elim (Bool-cases (ltb n 10)) [
  | inl b ↦ rw b (ground (arith, b))
  | inr b ↦
      let back = read_digits-decimal_from fuel (n / 10) (omega (arith, h)) in
      rw b (rw (read_digits-last 0 (decimal_from fuel (n / 10)) (digit n)) (omega (arith, back)))
]

pub decimal_injective : (m n : ℕ) → m < power 20 → n < power 20 → decimal m ≡ decimal n → m ≡ n
unfolding decimal
decimal_injective m n h k e =
    sym (read_digits-decimal_from 20 m h) ∙ ap (read_digits 0) e ∙ read_digits-decimal_from 20 n k
