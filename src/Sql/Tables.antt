-- ===== src/Sql/Tables.antt =====
-- A table as the list of its rows, addressed by a key that identifies a row (its primary key).
use mathlib.Core.Option
use mathlib.Core.Path.{subst}
use flash_sale.Prelude.{
  ℕ, Option, none, some, List, [], ◌∷◌, ◌++◌, ◌≡◌, refl, arith, nat_beq, if◌then◌else◌, Bool-cases,
  inl, inr,
}

-- Every row satisfies the predicate.
abbrev pub All {ℓ κ} : {A : Type ℓ} → (A → Type κ) → List A → Type κ
All P [] = Unit
All P (x ∷ xs) = P x × All P xs

-- The first of the two that is there.
abbrev pub or_else {ℓ} : {A : Type ℓ} → Option A → Option A → Option A
or_else none o = o
or_else (some a) _ = some a

module _ {R : Type 0} (key : R → ℕ) where
  -- `SELECT … WHERE id = ? LIMIT 1`
  unfoldable pub find : ℕ → List R → Option R
  find k [] = none
  find k (r ∷ t) = if nat_beq (key r) k then some r else find k t

  -- `UPDATE … SET … WHERE id = ?`: at most one row has the key.
  unfoldable pub update : ℕ → (R → R) → List R → List R
  update k f [] = []
  update k f (r ∷ t) = if nat_beq (key r) k then f r ∷ t else r ∷ update k f t

  unfoldable pub insert : R → List R → List R
  insert r t = t ++ r ∷ []

  abbrev pub KeepsKey : (R → R) → Type 0
  KeepsKey f = (r : R) → key (f r) ≡ key r

  pub find-update :
      (j k : ℕ) (f : R → R) (t : List R)
      → KeepsKey f
      → find j (update k f t) ≡ (if nat_beq k j then Option.map f (find j t) else find j t)
  unfolding find update
  find-update j k f [] h = ground arith
  find-update j k f (r ∷ t) h = ground (arith, h r, find-update j k f t h)

  pub find-insert :
      (j : ℕ) (r : R) (t : List R)
      → find j (insert r t) ≡ or_else (find j t) (if nat_beq (key r) j then some r else none)
  unfolding find insert
  find-insert j r [] = refl
  find-insert j r (y ∷ t) = ground (arith, find-insert j r t)

  module _ (P : R → Type 0) where
    pub All-update :
        (k : ℕ) (f : R → R) (t : List R)
        → ((r : R) → find k t ≡ some r → P r → P (f r))
        → All P t
        → All P (update k f t)
    unfolding find update
    All-update k f [] h a = tt
    All-update k f (r ∷ t) h a = elim (Bool-cases (nat_beq (key r) k)) [
      | inl e ↦ rw e (h r (rw e) a.0, a.1)
      | inr e ↦ rw e (a.0, All-update k f t (λ x p. h x (rw e p)) a.1)
    ]

    pub All-insert : (r : R) (t : List R) → P r → All P t → All P (insert r t)
    unfolding insert
    All-insert r [] p a = (p, tt)
    All-insert r (x ∷ t) p a = (a.0, All-insert r t p a.1)

    pub All-find : (k : ℕ) (t : List R) {r : R} → All P t → find k t ≡ some r → P r
    unfolding find
    All-find k [] a h = absurd (ground arith)
    All-find k (x ∷ t) a h = elim (Bool-cases (nat_beq (key x) k)) [
      | inl e ↦ let p : some x ≡ some _ = (rw e at h) in subst P (cc) a.0
      | inr e ↦ All-find k t a.1 (rw e at h)
    ]
