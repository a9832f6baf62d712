-- ===== src/Seckill/Repository/LedgerIds.antt =====
-- The ids of the stock ledger.
use flash_sale.Prelude.{ℕ, ◌<◌, List, [], ◌∷◌, arith}
use flash_sale.Seckill.Repository.{next_stock_ledger_id}

-- The ids that a process gives out, at the clock's readings, after the id `prev`.
unfoldable pub ledger_ids : ℕ → List ℕ → List ℕ
ledger_ids prev [] = []
ledger_ids prev (nanos ∷ rest) =
    next_stock_ledger_id prev nanos ∷ ledger_ids (next_stock_ledger_id prev nanos) rest

-- Each number is above the one before it, the first above `low`.
abbrev pub Ascends : ℕ → List ℕ → Type 0
Ascends low [] = Unit
Ascends low (n ∷ ns) = (low < n) × Ascends n ns

next_above : (prev nanos : ℕ) → prev < next_stock_ledger_id prev nanos
unfolding next_stock_ledger_id
next_above prev nanos = ground arith

-- The ids that a process gives out ascend, whatever the clock reads: standing still or stepping
-- back, it never makes a process give an id twice.
pub ledger_ids-Ascends : (prev : ℕ) (clock : List ℕ) → Ascends prev (ledger_ids prev clock)
unfolding ledger_ids
ledger_ids-Ascends prev [] = tt
ledger_ids-Ascends prev (nanos ∷ rest) =
    (next_above prev nanos, ledger_ids-Ascends (next_stock_ledger_id prev nanos) rest)
