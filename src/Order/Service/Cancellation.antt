-- ===== src/Order/Service/Cancellation.antt =====
-- apps/order/rpc/internal/logic/cancel_order_logic.go: what a successful cancellation has done.
use flash_sale.Prelude.{ℕ, ℤ, positive, true, some, ◌≡◌, refl, sym, ap, ◌∙◌, arith}
use flash_sale.Text.{Text, text}
use flash_sale.Result.{ok}
use flash_sale.Order.Model.{Order, OrderDb, closed, user_cancel}
use flash_sale.Order.Repository.{find_order, updated}
use flash_sale.Order.Repository.Operations.{update_of, Transition, cancels_unpaid, cancels_paid}
use flash_sale.Order.Repository.Finality.{Continues, run-Continues, ⟶*-closed}
use flash_sale.Order.Service.Views.{OrderView, to_order_view}
use flash_sale.Order.Service.World.{World, Env, Act, StateEventType, ◌>>=◌, answer}
use flash_sale.Order.Service.Steps.{
  reload, mark_order_stock_released, release_unless_seckill, emit_state, always_db, missing_or_db,
  conflict_or_db,
}
use flash_sale.Order.Service.Inversion.{
  bind_ok, decide_ok, answer_ok, read_ok, find_by_id_ok, move_ok, emitted_only, mark_ok, outcome,
  both_ids_ok, find_order_id,
}
use flash_sale.Order.Service.Buyer.{cancellation, cancel_order}
use flash_sale.Order.Service.History.{Refines, IsHistory}
use flash_sale.Order.Service.History.Handlers.{
  release_unless_seckill-IsHistory, mark_order_stock_released-IsHistory,
}

-- What comes of an order along a history of calls.
pub Continues-Refines :
    (id : ℕ) (o : Order) (w w' : World)
    → Refines w w'
    → find_order id w.orders ≡ some o
    → Continues id o w'.orders
Continues-Refines id o w w' h f = rw h.orders (run-Continues id o h.order_ops w.orders f)

-- Where an action that succeeded has led.
reached :
    {A : Type 0} {m : Act A} {w w' : World} {a : A} → IsHistory m → m w ≡ (ok a, w') → Refines w w'
reached {w = w} h e = rw (← ap (λ p. p.1) e) (h.steps w)

-- An order that its buyer has cancelled, and what the answer shows of it.
pub record Cancelled (id : ℕ) (v : OrderView) (w : World) : Type 0 where
  pub row : Order
  pub there : find_order id w.orders ≡ some row
  pub status : row.order_status ≡ closed
  pub reason : row.close_reason ≡ user_cancel
  pub flag : row.stock_released ≡ true
  pub shown : v ≡ to_order_view row

cancellation_closes :
    (now : ℕ) (o : Order) (t : Transition) (clock : ℕ) (r : Order)
    → cancellation now o ≡ ok t
    → ((updated clock (update_of t) r).order_status ≡ closed)
      × ((updated clock (update_of t) r).close_reason ≡ user_cancel)
unfolding cancellation update_of
cancellation_closes now o (cancels_unpaid user_id at) clock r h = (refl, refl)
cancellation_closes now o (cancels_paid user_id at due) clock r h = (refl, refl)
cancellation_closes now o t clock r h = absurd (ground (arith, h))

moved_to :
    {id : ℕ} (w w' : World) (v v' : OrderView)
    → Cancelled id v w
    → w'.orders ≡ w.orders
    → v' ≡ v
    → Cancelled id v' w'
moved_to w w' v v' h e shown = record {
  row = h.row;
  there = rw e h.there;
  status = h.status;
  reason = h.reason;
  flag = h.flag;
  shown = shown ∙ h.shown;
}

same_row :
    (id : ℕ) (db : OrderDb) {a b : Order}
    → find_order id db ≡ some a
    → find_order id db ≡ some b
    → a ≡ b
same_row id db p q = ground (arith, p, q)

module _ (env : Env) (id : ℕ) (o r : Order) (mid : World) (f : find_order id mid.orders ≡ some r)
    (c : r.order_status ≡ closed) (why : r.close_reason ≡ user_cancel) where
  seen :
      (m1 m2 : World) (u : Order) (remain : ℕ)
      → Refines mid m1
      → mark_order_stock_released env 1 id remain (text "user_cancel") env.later m1 ≡ (ok tt, m2)
      → find_order id m2.orders ≡ some u
      → Cancelled id (to_order_view u) m2
  seen m1 m2 u remain h marked found =
      let kept = Continues-Refines id r mid m1 h f in
      let after =
        Continues-Refines id kept.row m1 m2
          (reached (mark_order_stock_released-IsHistory env 1 id remain _ _) marked) kept.there in
      let flag = mark_ok env 1 id remain _ _ m1 m2 marked in
      let was_closed = ⟶*-closed kept.follows.path c in
      let same = same_row id m2.orders found after.there in
      let same_flag = same_row id m2.orders found flag.there in
      record {
        row = u;
        there = found;
        status = ap (λ x. x.order_status) same ∙ ⟶*-closed after.follows.path was_closed;
        reason =
            ap (λ x. x.close_reason) same
            ∙ after.follows.reason was_closed
            ∙ kept.follows.reason c
            ∙ why;
        flag = ap (λ x. x.stock_released) same_flag ∙ flag.flag;
        shown = refl;
      }

  -- From the closed order on: the stock, the flag, the answer.
  tail_closes :
      (v : OrderView) (w' : World)
      → (release_unless_seckill env o (text "release:cancel") >>= λ remain.
            mark_order_stock_released env 1 id remain (text "user_cancel") env.later >>= λ _.
            reload env id >>= λ updated. emit_state env StateEventType.order_closed updated >>= λ _.
            answer (to_order_view updated))
          mid
        ≡ (ok v, w')
      → Cancelled id v w'
  tail_closes v w' h =
      let s1 = bind_ok _ _ mid v w' h in
      let s2 = bind_ok _ _ s1.mid v w' s1.rest in
      let s3 = bind_ok _ _ s2.mid v w' s2.rest in
      let s4 = bind_ok _ _ s3.mid v w' s3.rest in
      let loaded = read_ok always_db _ s2.mid _ s3.mid s3.first in
      let found = find_by_id_ok _ id s2.mid.orders s3.value loaded.0 in
      let shown = answer_ok _ s4.mid v w' s4.rest in
      let cancelled =
        seen s1.mid s2.mid s3.value s1.value
          (reached (release_unless_seckill-IsHistory env o _) s1.first) s2.first found in
      let quiet = emitted_only env _ s3.value s3.mid s4.mid s4.first in
      moved_to s2.mid w' _ v cancelled
        (ap (λ x. x.orders) shown.1 ∙ quiet ∙ ap (λ x. x.orders) loaded.1) shown.0

same_id_of : {a b : ℕ} → some a ≡ some b → a ≡ b
same_id_of h = ground (arith, h)

named : {i j : ℕ} (v : OrderView) (w : World) → i ≡ j → Cancelled i v w → Cancelled j v w
named v w e h = rw (← e) h

-- Whatever fails on the way, a cancellation that answers with an order has closed it with the
-- buyer's reason and set its stock flag, and the answer shows the order as it is stored then.
pub cancel_order-Cancelled :
    (env : Env) (user_id order_id : ℤ) (reason : Text) (w : World) {id : ℕ} {v : OrderView}
    → positive order_id ≡ some id
    → (cancel_order env user_id order_id reason w).0 ≡ ok v
    → Cancelled id v (cancel_order env user_id order_id reason w).1
unfolding cancel_order
cancel_order-Cancelled env user_id order_id reason w {id} {v} p h =
    let w' = (cancel_order env user_id order_id reason w).1 in
    let s1 = bind_ok _ _ w v w' (outcome (cancel_order env user_id order_id reason) w v h) in
    let s2 = bind_ok _ _ s1.mid v w' s1.rest in
    let s3 = bind_ok _ _ s2.mid v w' s2.rest in
    let s4 = bind_ok _ _ s3.mid v w' s3.rest in
    let s5 = bind_ok _ _ s4.mid v w' s4.rest in
    let s6 = bind_ok _ _ s5.mid v w' s5.rest in
    let o = s2.value in
    let ids = decide_ok _ w s1.value s1.mid s1.first in
    let same_id = both_ids_ok user_id order_id s1.value ids.0 in
    let loaded = read_ok missing_or_db _ s1.mid o s2.mid s2.first in
    let found = find_by_id_ok _ s1.value.1 s1.mid.orders o loaded.0 in
    let key = find_order_id s1.value.1 s1.mid.orders.orders o found in
    let t = decide_ok _ s4.mid s5.value s5.mid s5.first in
    let moved = move_ok conflict_or_db _ _ o.id s5.value _ s5.mid s6.mid s6.first in
    let closing = cancellation_closes env.now o s5.value (env.clock 0) moved.before t.0 in
    let done = tail_closes env o.id o _ s6.mid moved.is_now closing.0 closing.1 v w' s6.rest in
    named v w' (key ∙ same_id_of (sym same_id.1 ∙ p)) done
