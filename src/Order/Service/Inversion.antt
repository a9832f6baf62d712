-- ===== src/Order/Service/Inversion.antt =====
-- What a sequence of actions that succeeded has gone through.
use flash_sale.Prelude.{
  ℕ, ℤ, positive, true, Option, none, some, List, [], ◌∷◌, ◌≡◌, refl, sym, ap, arith, nat_beq,
  Bool-cases, inl, inr,
}
use flash_sale.Result.{Result, ok, err}
use flash_sale.Errorx.{Code}
use flash_sale.Sql.{find, run_tx-eq_ok, find-update, DriverErr, Faults}
use flash_sale.Order.Model.{Order, OrderDb, OrderErr, OrderEvent}
use flash_sale.Order.Repository.{
  find_order, find_by_id, updated, exec_with_event, mark_stock_released,
}
use flash_sale.Order.Repository.Operations.{
  apply_op, update_of, OrderOp, moves, releases, Transition, Moved, exec_with_event-Moved, Released,
  flagged, already, mark_stock_released-Released,
}
use flash_sale.Text.{Text}
use flash_sale.Order.Service.Steps.{
  emit_state, both, both_ids, always_db, mark_order_stock_released,
}
use flash_sale.Order.Service.World.{
  World, Env, Act, StateEventType, continue, ◌>>=◌, decide, read, write, emit,
}

-- A sequence that succeeded: its first action, then the rest.
pub record Stepped {A B : Type 0} (m : Act A) (f : A → Act B) (w : World) (b : B) (w' : World)
    : Type 0 where
  pub value : A
  pub mid : World
  pub first : m w ≡ (ok value, mid)
  pub rest : f value mid ≡ (ok b, w')

module _ {A B : Type 0} (m : Act A) (f : A → Act B) (w : World) (b : B) (w' : World) where
  stepped : (r : Result Code A × World) → m w ≡ r → continue r f ≡ (ok b, w') → Stepped m f w b w'
  unfolding continue
  stepped (ok a, v) e h = record { value = a; mid = v; first = e; rest = h }
  stepped (err c, v) e h = absurd (ground (arith, h))

  pub bind_ok : (m >>= f) w ≡ (ok b, w') → Stepped m f w b w'
  unfolding ◌>>=◌
  bind_ok h = stepped (m w) refl h

pub outcome : {A : Type 0} (m : Act A) (w : World) (a : A) → (m w).0 ≡ ok a → m w ≡ (ok a, (m w).1)
outcome m w a h = ground (arith, h)

pub write_ok :
    (code : OrderErr → Code) (op : OrderOp) (w w' : World)
    → write code op w ≡ (ok tt, w')
    → ((apply_op op w.orders).0 ≡ ok tt) × (w'.orders ≡ (apply_op op w.orders).1)
unfolding write
write_ok code op w w' h = (ground (arith, h), ground (arith, h))

pub decide_ok :
    {A : Type 0} (r : Result Code A) (w : World) (a : A) (w' : World)
    → decide r w ≡ (ok a, w')
    → (r ≡ ok a) × (w' ≡ w)
unfolding decide
decide_ok r w a w' h = (ground (arith, h), ground (arith, h))

pub answer_ok :
    {A : Type 0} (a : A) (w : World) (b : A) (w' : World)
    → decide (ok a) w ≡ (ok b, w')
    → (b ≡ a) × (w' ≡ w)
unfolding decide
answer_ok a w b w' h = (ground (arith, h), ground (arith, h))

pub read_ok :
    {A : Type 0} (code : OrderErr → Code) (query : OrderDb → Result OrderErr A) (w : World) (a : A)
    (w' : World)
    → read code query w ≡ (ok a, w')
    → (query w.orders ≡ ok a) × (w' ≡ w)
unfolding read
read_ok code query w a w' h = (ground (arith, h), ground (arith, h))

pub find_by_id_ok :
    (fault : Option DriverErr) (id : ℕ) (db : OrderDb) (o : Order)
    → find_by_id fault id db ≡ ok o
    → find_order id db ≡ some o
unfolding find_by_id
find_by_id_ok fault id db o h = ground (arith, h)

-- The row that a guarded update has written.
pub record Rewritten (clock id : ℕ) (t : Transition) (db db' : OrderDb) : Type 0 where
  pub before : Order
  pub was : find_order id db ≡ some before
  pub allowed : (update_of t).where_ before ≡ true
  pub is_now : find_order id db' ≡ some (updated clock (update_of t) before)

Moved-Rewritten :
    (clock id : ℕ) (t : Transition) {event : OrderEvent} {db db' : OrderDb}
    → Moved clock id (update_of t) event db db'
    → Rewritten clock id t db db'
Moved-Rewritten clock id t {db = db} m = record {
  before = m.row;
  was = m.there;
  allowed = m.allowed;
  is_now = rw m.orders (
      ground (
        arith,
        m.there,
        find-update (λ r. r.id) id id (updated clock (update_of t)) db.orders (λ _. refl),
      ));
}

pub move_ok :
    (code : OrderErr → Code) (faults : Faults) (clock id : ℕ) (t : Transition) (event : OrderEvent)
    (w w' : World)
    → write code (moves faults clock id t event) w ≡ (ok tt, w')
    → Rewritten clock id t w.orders w'.orders
unfolding apply_op
move_ok code faults clock id t event w w' h =
    let wrote = write_ok code (moves faults clock id t event) w w' h in
    rw wrote.1 (
      Moved-Rewritten clock id t (
        exec_with_event-Moved faults clock id (update_of t) event w.orders _
          (run_tx-eq_ok (exec_with_event faults clock id (update_of t) event) w.orders wrote.0)))

-- The row whose stock flag is set.
pub record Flagged (id : ℕ) (db : OrderDb) : Type 0 where
  pub row : Order
  pub there : find_order id db ≡ some row
  pub flag : row.stock_released ≡ true

Released-Flagged :
    {clock id now : ℕ} {event : OrderEvent} {db db' : OrderDb}
    → Released clock id now event db db'
    → Flagged id db'
Released-Flagged (already o f b e) = record { row = o; there = rw e f; flag = b }
Released-Flagged {id = id} {now = now} {db = db} (flagged o f b e) = record {
  row = record o { stock_released = true; updated_at = now };
  there = rw e (
      ground (
        arith,
        f,
        find-update (λ r. r.id) id id (λ r. record r { stock_released = true; updated_at = now })
            db.orders (λ _. refl),
      ));
  flag = refl;
}

pub flag_ok :
    (code : OrderErr → Code) (faults : Faults) (clock id now : ℕ) (event : OrderEvent)
    (w w' : World)
    → write code (releases faults clock id now event) w ≡ (ok tt, w')
    → Flagged id w'.orders
unfolding apply_op
flag_ok code faults clock id now event w w' h =
    let wrote = write_ok code (releases faults clock id now event) w w' h in
    rw wrote.1 (
      Released-Flagged (
        mark_stock_released-Released faults clock id now event w.orders _
          (run_tx-eq_ok (mark_stock_released faults clock id now event) w.orders wrote.0)))

pub mark_ok :
    (env : Env) (n id remain : ℕ) (trigger : Text) (now : ℕ) (w w' : World)
    → mark_order_stock_released env n id remain trigger now w ≡ (ok tt, w')
    → Flagged id w'.orders
unfolding mark_order_stock_released
mark_ok env n id remain trigger now w w' h = flag_ok always_db _ _ id now _ w w' h

-- The row that is found has the id that was asked for.
pub find_order_id :
    (id : ℕ) (os : List Order) (o : Order) → find (λ r. r.id) id os ≡ some o → o.id ≡ id
unfolding find
find_order_id id [] o h = ground (arith, h)
find_order_id id (x ∷ os) o h = elim (Bool-cases (nat_beq x.id id)) [
  | inl b ↦ let e : some x ≡ some o = (rw b at h) in ground (arith, e, b)
  | inr b ↦ find_order_id id os o (rw b at h)
]

both_ok : (m n : Option ℕ) (ids : ℕ × ℕ) → both m n ≡ ok ids → (m ≡ some ids.0) × (n ≡ some ids.1)
both_ok (some m) (some n) ids h = (ground (arith, h), ground (arith, h))
both_ok none n ids h = absurd (ground (arith, h))
both_ok (some m) none ids h = absurd (ground (arith, h))

pub both_ids_ok :
    (a b : ℤ) (ids : ℕ × ℕ)
    → both_ids a b ≡ ok ids
    → (positive a ≡ some ids.0) × (positive b ≡ some ids.1)
unfolding both_ids
both_ids_ok a b ids h = both_ok (positive a) (positive b) ids h

pub emitted_only :
    (env : Env) (event_type : StateEventType) (o : Order) (w w' : World)
    → emit_state env event_type o w ≡ (ok tt, w')
    → w'.orders ≡ w.orders
unfolding emit_state emit
emitted_only env event_type o w w' h = ap (λ p. p.1.orders) (sym h)
