-- ===== src/Text/Trim.antt =====
-- `strings.TrimSpace` is idempotent, and keeps an inner suffix.
use flash_sale.Prelude.{ℕ, false, [], ◌∷◌, ◌≡◌, refl, Bool-cases, inl, inr}
use flash_sale.Text.{Text, is_space, keep, trim_left, trim_right, trim_space}

-- What `trim_left` returns starts with no space.
abbrev StartsPlain : Text → Type 0
StartsPlain [] = Unit
StartsPlain (c ∷ _) = is_space c ≡ false

trim_left-StartsPlain : (s : Text) → StartsPlain (trim_left s)
unfolding trim_left
trim_left-StartsPlain [] = tt
trim_left-StartsPlain (c ∷ s) = elim (Bool-cases (is_space c)) [
  | inl h ↦ rw h (trim_left-StartsPlain s)
  | inr h ↦ rw h h
]

trim_left_plain : (s : Text) → StartsPlain s → trim_left s ≡ s
unfolding trim_left
trim_left_plain [] h = refl
trim_left_plain (c ∷ s) h = rw h

keep-StartsPlain : (c : ℕ) (s : Text) → is_space c ≡ false → StartsPlain (keep c s)
keep-StartsPlain c [] h = rw h h
keep-StartsPlain c (d ∷ s) h = h

trim_right-StartsPlain : (s : Text) → StartsPlain s → StartsPlain (trim_right s)
unfolding trim_right
trim_right-StartsPlain [] h = tt
trim_right-StartsPlain (c ∷ s) h = keep-StartsPlain c (trim_right s) h

keep-trim_right : (c : ℕ) (s : Text) → trim_right s ≡ s → trim_right (keep c s) ≡ keep c s
unfolding trim_right
keep-trim_right c [] h = elim (Bool-cases (is_space c)) [ inl e ↦ rw e | inr e ↦ rw (e, e) ]
keep-trim_right c (d ∷ s) h = rw h

trim_right_idem : (s : Text) → trim_right (trim_right s) ≡ trim_right s
unfolding trim_right
trim_right_idem [] = refl
trim_right_idem (c ∷ s) = keep-trim_right c (trim_right s) (trim_right_idem s)

pub trim_space_idem : (s : Text) → trim_space (trim_space s) ≡ trim_space s
unfolding trim_space
trim_space_idem s =
    rw (trim_left_plain _ (trim_right-StartsPlain _ (trim_left-StartsPlain s)))
      (trim_right_idem (trim_left s))
