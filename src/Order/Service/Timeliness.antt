-- ===== src/Order/Service/Timeliness.antt =====
-- apps/order/rpc/internal/logic/timeout_job_logic.go: a round of the job leaves no due order behind.
use mathlib.Core.List.{Memᴰ}
use mathlib.Core.List.Memᴰ.{head, tail}
use flash_sale.Prelude.{
  ℕ, zero, suc, ◌≤◌, Bool, true, none, some, List, [], ◌∷◌, ◌≡◌, ◌≢◌, ◌⊎◌, inl, inr, refl, sym, ap,
  ◌∙◌, arith, nat_beq, Bool-cases, length, take, select,
}
use flash_sale.Text.{text}
use flash_sale.Result.{Result, ok, err, map_err}
use flash_sale.Errorx.{Code}
use flash_sale.Sql.{no_faults, All, All-find, find}
use flash_sale.Order.Model.{
  order_closed_by_pay_timeout, Order, OrderDb, OrderStatus, OrderEvent, pending_pay, pending_review,
  pending_ship, shipped, closed,
}
use flash_sale.Order.Repository.{find_order, updated, exec_with_event, append_event_tx}
use flash_sale.Order.Repository.Lists.{pay_timed_out, list_by_condition}
use flash_sale.Order.Repository.Operations.{times_out_pay, apply_op, update_of, moves}
use flash_sale.Order.Repository.Phases.{IsLegal, run-IsLegal}
use flash_sale.Order.Repository.Finality.{
  ◌⟶◌, ◌⟶*◌, here, onward, pay_manual, pay_auto, abandon, approve, refuse, send, receive,
}
use flash_sale.Order.Service.World.{World, Env, Act, continue, ◌>>=◌, logged, read, write}
use flash_sale.Order.Service.Steps.{move, conflict_or_db, always_db}
use flash_sale.Order.Service.Jobs.{
  by_system, after_close, for_each, close_and_release, pay_timeout_item, background_batch_size,
  batch, handle_pay_timeout, pay_timeout_dur,
}
use flash_sale.Order.Service.Inversion.{move_ok, outcome, find_order_id}
use flash_sale.Order.Service.Cancellation.{Continues-Refines}
use flash_sale.Order.Service.History.{Refines}
use flash_sale.Order.Service.History.Jobs.{
  after_close-IsHistory, pay_timeout_item-IsHistory, for_each-IsHistory,
}

-- The order is there, and it does not wait for its payment any more.
pub record Settled (id : ℕ) (w : World) : Type 0 where
  pub row : Order
  pub there : find_order id w.orders ≡ some row
  pub status : row.order_status ≢ pending_pay

⟶-pending_pay : {s t : OrderStatus} → s ⟶ t → t ≢ pending_pay
⟶-pending_pay pay_manual h = cc
⟶-pending_pay pay_auto h = cc
⟶-pending_pay abandon h = cc
⟶-pending_pay approve h = cc
⟶-pending_pay refuse h = cc
⟶-pending_pay send h = cc
⟶-pending_pay receive h = cc

⟶*-pending_pay : {s t : OrderStatus} → s ⟶* t → t ≡ pending_pay → s ≡ pending_pay
⟶*-pending_pay here h = h
⟶*-pending_pay (onward e p) h = absurd (⟶-pending_pay e (⟶*-pending_pay p h))

Settled-stays : (id : ℕ) (w w' : World) → Refines w w' → Settled id w → Settled id w'
Settled-stays id w w' h s =
    let c = Continues-Refines id s.row w w' h s.there in
    record {
      row = c.row;
      there = c.there;
      status = λ e. s.status (⟶*-pending_pay c.follows.path e);
    }

later-IsLegal :
    (w w' : World) → Refines w w' → All IsLegal w.orders.orders → All IsLegal w'.orders.orders
later-IsLegal w w' h a = rw h.orders (run-IsLegal h.order_ops w.orders h.creates_new a)

waits_or_not : (s : OrderStatus) → (s ≡ pending_pay) ⊎ (s ≢ pending_pay)
waits_or_not pending_pay = inl refl
waits_or_not pending_review = inr (λ e. cc)
waits_or_not pending_ship = inr (λ e. cc)
waits_or_not shipped = inr (λ e. cc)
waits_or_not closed = inr (λ e. cc)

allowed :
    (now : ℕ) (r : Order)
    → IsLegal r
    → r.order_status ≡ pending_pay
    → (update_of (times_out_pay now)).where_ r ≡ true
unfolding update_of
allowed now r l h = ground (arith, l.phase)

module _ (now clock id : ℕ) (event : OrderEvent) (w : World) (r : Order)
    (f : find_order id w.orders ≡ some r)
    (g : (update_of (times_out_pay now)).where_ r ≡ true) where
  closes_now :
      (write conflict_or_db (moves no_faults clock id (times_out_pay now) event) w).0 ≡ ok tt
  unfolding write apply_op exec_with_event append_event_tx
  closes_now = ground (arith, f, g)

-- The rest of a sequence runs from where its first action, a success, has led.
after_first :
    {A B : Type 0} (m : Act A) (f : A → Act B) (w : World) (a : A)
    → (m w).0 ≡ ok a
    → (m >>= f) w ≡ f a (m w).1
unfolding ◌>>=◌ continue
after_first m f w a h = along (m w) h
  where
    along : (r : Result Code _ × World) → r.0 ≡ ok a → continue r f ≡ f a r.1
    along (ok x, v) e = ground (arith, e)
    along (err c, v) e = absurd (ground (arith, e))

logged_world :
    {A B : Type 0} (m : Act A) (f : A → Act B) (w : World) (a : A)
    → (m w).0 ≡ ok a
    → (logged (m >>= f) w).1 ≡ (f a (m w).1).1
unfolding logged
logged_world m f w a h = ap (λ r. r.1) (after_first m f w a h)

closed_row :
    (id now clock : ℕ) (r : Order) (w : World)
    → find_order id w.orders ≡ some (updated clock (update_of (times_out_pay now)) r)
    → Settled id w
unfolding update_of
closed_row id now clock r w f = record { row = _; there = f; status = λ e. cc }

module _ (now : ℕ) (env : Env) (o : Order) (quiet : env.write 0 ≡ no_faults) where
  waiting-Settled :
      (w : World) (r : Order)
      → find_order o.id w.orders ≡ some r
      → IsLegal r
      → r.order_status ≡ pending_pay
      → Settled o.id (pay_timeout_item now env o w).1
  unfolding pay_timeout_item close_and_release
  waiting-Settled w r f l e =
      let event = by_system o order_closed_by_pay_timeout now in
      let closing = move env o.id (times_out_pay now) event in
      let done : (closing w).0 ≡ ok tt =
        rw quiet (closes_now now (env.clock 0) o.id event w r f (allowed now r l e)) in
      let mid = (closing w).1 in
      let moved =
        move_ok conflict_or_db (env.write 0) (env.clock 0) o.id (times_out_pay now) event w mid
          (outcome closing w tt done) in
      let rest = after_close (text "release:pay_timeout") (text "pay_timeout") env o in
      rw (logged_world closing (λ _. rest) w tt done) (
        Settled-stays o.id mid (rest mid).1 ((after_close-IsHistory _ _ env o).steps mid)
          (closed_row o.id now (env.clock 0) moved.before mid moved.is_now))

  item-Settled :
      (w : World) (r : Order)
      → find_order o.id w.orders ≡ some r
      → IsLegal r
      → Settled o.id (pay_timeout_item now env o w).1
  item-Settled w r f l = elim (waits_or_not r.order_status) [
    | inl e ↦ waiting-Settled w r f l e
    | inr e ↦
        Settled-stays o.id w _ ((pay_timeout_item-IsHistory now env o).steps w)
          (record { row = r; there = f; status = e })
  ]

always_ok : (now : ℕ) (env : Env) (o : Order) (w : World) → (pay_timeout_item now env o w).0 ≡ ok tt
unfolding pay_timeout_item close_and_release logged
always_ok now env o w = refl

-- One order of the batch, and the rest of the loop.
module _ (now : ℕ) (envs : ℕ → Env) (o x : Order) (os : List Order) (w : World) where
  abbrev first : World
  first = (pay_timeout_item now (envs 0) x w).1

  abbrev later : Act (Unit {0})
  later = for_each (λ n. envs (suc n)) (pay_timeout_item now) os

  first_step : Refines w first
  first_step = (pay_timeout_item-IsHistory now (envs 0) x).steps w

  loop_step :
      Settled o.id (later first).1
      → Settled o.id (for_each envs (pay_timeout_item now) (x ∷ os) w).1
  unfolding for_each
  loop_step s =
      rw
        (after_first (pay_timeout_item now (envs 0) x) (λ _. later) w tt
          (always_ok now (envs 0) x w))
        s

  loop_head :
      (r : Order)
      → (envs 0).write 0 ≡ no_faults
      → o ≡ x
      → find_order o.id w.orders ≡ some r
      → All IsLegal w.orders.orders
      → Settled o.id (for_each envs (pay_timeout_item now) (x ∷ os) w).1
  loop_head r quiet e f a = loop_step (
      Settled-stays o.id first (later first).1
        ((for_each-IsHistory _ _ os (pay_timeout_item-IsHistory now)).steps first)
        (rw (← e) (
          item-Settled now (envs 0) o quiet w r f
            (All-find (λ z. z.id) IsLegal o.id w.orders.orders a f))))

loop-Settled :
    (now : ℕ) (envs : ℕ → Env) (o : Order) (os : List Order) (w : World) (r : Order)
    → ((n : ℕ) → (envs n).write 0 ≡ no_faults)
    → Memᴰ o os
    → find_order o.id w.orders ≡ some r
    → All IsLegal w.orders.orders
    → Settled o.id (for_each envs (pay_timeout_item now) os w).1
loop-Settled now envs o [] w r quiet m f a = elim m [ ]
loop-Settled now envs o (x ∷ os) w r quiet (head e) f a =
    loop_head now envs o x os w r (quiet 0) e f a
loop-Settled now envs o (x ∷ os) w r quiet (tail t) f a =
    let h = first_step now envs o x os w in
    let v = first now envs o x os w in
    let c = Continues-Refines o.id r w v h f in
    loop_step now envs o x os w (
      loop-Settled now (λ n. envs (suc n)) o os v c.row (λ n. quiet (suc n)) t c.there
        (later-IsLegal w v h a))

find-Memᴰ : (id : ℕ) (os : List Order) (o : Order) → find (λ r. r.id) id os ≡ some o → Memᴰ o os
unfolding find
find-Memᴰ id [] o h = absurd (ground (arith, h))
find-Memᴰ id (x ∷ os) o h = elim (Bool-cases (nat_beq x.id id)) [
  | inl b ↦ let e : some x ≡ some o = (rw b at h) in head (ground (arith, e))
  | inr b ↦ tail (find-Memᴰ id os o (rw b at h))
]

select-Memᴰ :
    (p : Order → Bool) (os : List Order) (o : Order) → p o ≡ true → Memᴰ o os → Memᴰ o (select p os)
select-Memᴰ p [] o h m = elim m [ ]
select-Memᴰ p (x ∷ os) o h (head e) = rw (ap p (sym e) ∙ h) (head e)
select-Memᴰ p (x ∷ os) o h (tail m) = elim (Bool-cases (p x)) [
  | inl b ↦ rw b (tail (select-Memᴰ p os o h m))
  | inr b ↦ rw b (select-Memᴰ p os o h m)
]

take_all : (n : ℕ) (os : List Order) → length os ≤ n → take n os ≡ os
take_all zero [] h = refl
take_all zero (x ∷ os) h = absurd (omega (arith, h))
take_all (suc n) [] h = refl
take_all (suc n) (x ∷ os) h = ap (λ t. x ∷ t) (take_all n os (omega (arith, h)))

-- What an `ORDER BY` does: it answers the same rows.
pub record Reorders (sort : List Order → List Order) : Type 0 where
  pub keeps : (o : Order) (os : List Order) → Memᴰ o os → Memᴰ o (sort os)
  pub size : (os : List Order) → length (sort os) ≡ length os

module _ (oldest_first : List Order → List Order) where
  batch_list :
      (due : Order → Bool) (db : OrderDb)
      → Reorders oldest_first
      → length (select due db.orders) ≤ 100
      → list_by_condition oldest_first none due background_batch_size db
        ≡ ok (oldest_first (select due db.orders))
  unfolding list_by_condition
  batch_list due db sorts small = ap ok (
      take_all 100 (oldest_first (select due db.orders))
        (rw (sorts.size (select due db.orders)) small))

  -- From legal orders, a round of the payment job whose list and whose first transaction for every
  -- order meet no error of the driver, whatever happens to its other calls, leaves no order waiting
  -- for its payment that was there and was due, where at most 100 orders were due.
  pub handle_pay_timeout_settles :
      (envs : ℕ → Env) (now : ℕ) (w : World) (id : ℕ) (o : Order)
      → Reorders oldest_first
      → ((n : ℕ) → (envs n).write 0 ≡ no_faults)
      → All IsLegal w.orders.orders
      → length (select (pay_timed_out now pay_timeout_dur) w.orders.orders) ≤ 100
      → find_order id w.orders ≡ some o
      → pay_timed_out now pay_timeout_dur o ≡ true
      → Settled id (handle_pay_timeout oldest_first none envs now w).1
  unfolding handle_pay_timeout batch read
  handle_pay_timeout_settles envs now w id o sorts quiet a small f due =
      let key = find_order_id id w.orders.orders o f in
      let m = sorts.keeps o _ (
        select-Memᴰ (pay_timed_out now pay_timeout_dur) w.orders.orders o due
          (find-Memᴰ id w.orders.orders o f)) in
      let rows = select (pay_timed_out now pay_timeout_dur) w.orders.orders in
      let query =
        list_by_condition oldest_first none (pay_timed_out now pay_timeout_dur)
          background_batch_size in
      let loop =
        loop-Settled now envs o (oldest_first rows) w o quiet m
          (ap (λ i. find_order i w.orders) key ∙ f) a in
      rw
        (logged_world (read always_db query) (for_each envs (pay_timeout_item now)) w
          (oldest_first rows)
          (ap (map_err always_db)
            (batch_list (pay_timed_out now pay_timeout_dur) w.orders sorts small)))
        (rw (← key) loop)
