-- ===== src/Sql/Transactions.antt =====
-- `database/sql` transactions: `defer tx.Rollback()` undoes every statement unless `Commit` ran.
use flash_sale.Prelude.{ℕ, Option, none, some, ◌≡◌, refl, arith}
use flash_sale.Text.{Text}
use flash_sale.Result.{Result, ok, err}

-- The driver's errors: a server error by its number and text, the context's two, any other text.
pub data DriverErr : Type 0 where
  mysql_error : ℕ → Text → DriverErr
  deadline_exceeded canceled : DriverErr
  other_error : Text → DriverErr

-- What the driver reports at the n-th database call of an operation, in source order.
abbrev pub Faults : Type 0
Faults = ℕ → Option DriverErr

abbrev pub no_faults : Faults
no_faults _ = none

-- The body of a transaction: on an error its writes are lost.
abbrev pub Tx : Type 0 → Type 0 → Type 0 → Type 0
Tx E S A = S → Result E (A × S)

module _ {E S A : Type 0} where
  abbrev pub pure : A → Tx E S A
  pure a s = ok (a, s)

  abbrev pub fail : E → Tx E S A
  fail e s = err e

  abbrev pub gets : (S → A) → Tx E S A
  gets f s = ok (f s, s)

  -- One transaction: its result, and the committed state.
  abbrev pub run_tx : Tx E S A → S → Result E A × S
  run_tx m s = elim (m s) [ ok (a, s') ↦ (ok a, s') | err e ↦ (err e, s) ]

  -- A transaction that returns an error leaves the database as it was.
  pub run_tx_rollback : (m : Tx E S A) (s : S) {e : E} → (run_tx m s).0 ≡ err e → (run_tx m s).1 ≡ s
  run_tx_rollback m s h = ground arith

  pub run_tx-eq_ok :
      (m : Tx E S A) (s : S) {a : A} → (run_tx m s).0 ≡ ok a → m s ≡ ok (a, (run_tx m s).1)
  run_tx-eq_ok m s h = ground arith

module _ {E S A : Type 0} (P : S → Type 0) where
  tx_result :
      (s : S) (r : Result E (A × S))
      → P s
      → ((a : A) (s' : S) → r ≡ ok (a, s') → P s')
      → P (run_tx (λ _. r) s).1
  tx_result s (ok (a, s')) p h = h a s' refl
  tx_result s (err e) p h = p

  -- A property of the state before and of every committed state holds after the transaction.
  pub run_tx_induction :
      (m : Tx E S A) (s : S) → P s → ((a : A) (s' : S) → m s ≡ ok (a, s') → P s') → P (run_tx m s).1
  run_tx_induction m s p h = tx_result s (m s) p h

module _ {E S : Type 0} where
  abbrev pub modify : (S → S) → Tx E S (Unit {0})
  modify f s = ok (tt, f s)

  -- A call of the driver that may report an error.
  abbrev pub call : (DriverErr → E) → Option DriverErr → Tx E S (Unit {0})
  call wrap none s = ok (tt, s)
  call wrap (some e) s = err (wrap e)

module _ {E S A B : Type 0} where
  abbrev continue : Result E (A × S) → (A → Tx E S B) → Result E (B × S)
  continue (ok (a, s)) f = f a s
  continue (err e) f = err e

  infixl 5 ◌>>=◌ ◌>>◌
  abbrev pub ◌>>=◌ : Tx E S A → (A → Tx E S B) → Tx E S B
  ◌>>=◌ m f s = continue (m s) f

  abbrev pub ◌>>◌ : Tx E S A → Tx E S B → Tx E S B
  m >> n = m >>= λ _. n
