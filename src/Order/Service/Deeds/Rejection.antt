-- ===== src/Order/Service/Deeds/Rejection.antt =====
-- apps/order/rpc/internal/logic/review_order_admin_logic.go: what a successful rejection has done.
use flash_sale.Prelude.{ℕ, ℤ, ◌+◌, pos, positive, true, false, some, ◌≡◌, ◌∙◌, refl, sym, ap, arith}
use flash_sale.Text.{Text}
use flash_sale.Result.{ok}
use flash_sale.Order.Model.{Order, OrderDb}
use flash_sale.Order.Repository.{find_order, updated}
use flash_sale.Order.Service.Views.{OrderView, to_order_view}
use flash_sale.Order.Service.World.{World, Env, StateEventType, ◌>>=◌, answer}
use flash_sale.Order.Service.Steps.{reload, emit_state, missing_or_db, conflict_or_db, always_db}
use flash_sale.Order.Service.Inversion.{
  bind_ok, decide_ok, answer_ok, read_ok, find_by_id_ok, move_ok, emitted_only, mark_ok, outcome,
  both_ids_ok, find_order_id, Rewritten, Flagged,
}
use flash_sale.Order.Repository.Operations.{rejects, update_of}
use flash_sale.Order.Service.Buyer.{virtual_refund_dur}
use flash_sale.Order.Service.Admin.{rejection_reason, review_order_admin, review_move, after_review}
use flash_sale.Order.Service.Deeds.{Rejects}
use flash_sale.Order.Service.Deeds.Moves.{positive-pos, refused_by}
use flash_sale.Order.Service.Deeds.Asked.{after_review-IsMarking}

-- An order that was rejected and whose stock has gone back, and what the answer shows of it.
pub record Rejected (env : Env) (admin : ℤ) (id : ℕ) (v : OrderView) (w : World) : Type 0 where
  pub before : Order
  pub row : Order
  pub there : find_order id w.orders ≡ some row
  pub deed : Rejects env admin before row
  pub flag : row.stock_released ≡ true
  pub shown : v ≡ to_order_view row

moved_to :
    {env : Env} {admin : ℤ} {id : ℕ} (w w' : World) (v v' : OrderView)
    → Rejected env admin id v w
    → w'.orders ≡ w.orders
    → v' ≡ v
    → Rejected env admin id v' w'
moved_to w w' v v' h q shown = record {
  before = h.before;
  row = h.row;
  there = rw q h.there;
  deed = h.deed;
  flag = h.flag;
  shown = shown ∙ h.shown;
}

same_row :
    (id : ℕ) (db : OrderDb) {a b : Order}
    → find_order id db ≡ some a
    → find_order id db ≡ some b
    → a ≡ b
same_row id db p q = ground (arith, p, q)

named :
    {env : Env} {admin : ℤ} {i j : ℕ} (v : OrderView) (w : World)
    → i ≡ j
    → Rejected env admin i v w
    → Rejected env admin j v w
named v w e h = rw (← e) h

same_id : {a b : ℕ} → some a ≡ some b → a ≡ b
same_id h = ground (arith, h)

after_review_flags :
    (env : Env) (o : Order) (w w' : World)
    → after_review env false o w ≡ (ok tt, w')
    → Flagged o.id w'.orders
unfolding after_review
after_review_flags env o w w' h =
    let s = bind_ok _ _ w tt w' h in mark_ok env 1 o.id s.value _ _ s.mid w' s.rest

-- From the rejected order on: the stock, the flag, the order that is read again.
review_done :
    (env : Env) (admin : ℤ) (n clock : ℕ) (reason : Text) (o u : Order) (m₀ m₁ m₂ : World)
    → admin ≡ pos n
    → Rewritten clock o.id
        (rejects n env.now reason (env.now + virtual_refund_dur))
        m₀.orders
        m₁.orders
    → after_review env false o m₁ ≡ (ok tt, m₂)
    → find_order o.id m₂.orders ≡ some u
    → Rejected env admin o.id (to_order_view u) m₂
review_done env admin n clock reason o u m₀ m₁ m₂ by moved after found =
    let t = rejects n env.now reason (env.now + virtual_refund_dur) in
    let ends = ap (λ p. p.1.orders) after in
    let k =
      ((after_review-IsMarking env false o).marks m₁).own (updated clock (update_of t) moved.before)
        moved.is_now in
    let here : find_order o.id m₂.orders ≡ some k.row = ap (find_order o.id) (sym ends) ∙ k.there in
    let flag = after_review_flags env o m₁ m₂ after in
    let deed = refused_by env clock moved.before k.row admin n reason by moved.allowed k.holds in
    record {
      before = moved.before;
      row = u;
      there = found;
      deed = rw (same_row o.id m₂.orders found here) deed;
      flag = ap (λ x. x.stock_released) (same_row o.id m₂.orders found flag.there) ∙ flag.flag;
      shown = refl;
    }

-- The same with the answer.
tail_rejects :
    (env : Env) (admin : ℤ) (n clock : ℕ) (reason : Text) (o : Order) (m₀ m₁ : World)
    (v : OrderView) (w' : World)
    → admin ≡ pos n
    → Rewritten clock o.id
        (rejects n env.now reason (env.now + virtual_refund_dur))
        m₀.orders
        m₁.orders
    → (after_review env false o >>= λ _. reload env o.id >>= λ updated.
          emit_state env StateEventType.order_review_rejected updated >>= λ _.
          answer (to_order_view updated))
        m₁
      ≡ (ok v, w')
    → Rejected env admin o.id v w'
tail_rejects env admin n clock reason o m₀ m₁ v w' by moved h =
    let s1 = bind_ok _ _ m₁ v w' h in
    let s2 = bind_ok _ _ s1.mid v w' s1.rest in
    let s3 = bind_ok _ _ s2.mid v w' s2.rest in
    let u = s2.value in
    let again = read_ok always_db _ s1.mid u s2.mid s2.first in
    let there = find_by_id_ok _ o.id s1.mid.orders u again.0 in
    let quiet = emitted_only env _ u s2.mid s3.mid s3.first in
    let shown = answer_ok _ s3.mid v w' s3.rest in
    let done = review_done env admin n clock reason o u m₀ m₁ s1.mid by moved s1.first there in
    moved_to s1.mid w' _ v done (ap (λ x. x.orders) shown.1 ∙ quiet ∙ ap (λ x. x.orders) again.1)
      shown.0

-- Whatever fails on the way, a rejection that answers with an order has closed it for its review,
-- in the administrator's name and with its money to be paid back, and has set its stock flag; the
-- answer shows the order as it is stored then.
pub review_order_admin-Rejected :
    (env : Env) (order_id admin_id : ℤ) (reason : Text) (w : World) {id : ℕ} {v : OrderView}
    → positive order_id ≡ some id
    → (review_order_admin env order_id admin_id false reason w).0 ≡ ok v
    → Rejected env admin_id id v (review_order_admin env order_id admin_id false reason w).1
unfolding review_order_admin review_move
review_order_admin-Rejected env order_id admin_id reason w {id} {v} p h =
    let w' = (review_order_admin env order_id admin_id false reason w).1 in
    let s1 =
      bind_ok _ _ w v w' (outcome (review_order_admin env order_id admin_id false reason) w v h) in
    let s2 = bind_ok _ _ s1.mid v w' s1.rest in
    let s3 = bind_ok _ _ s2.mid v w' s2.rest in
    let s4 = bind_ok _ _ s3.mid v w' s3.rest in
    let o = s2.value in
    let ids = decide_ok _ w s1.value s1.mid s1.first in
    let both = both_ids_ok order_id admin_id s1.value ids.0 in
    let loaded = read_ok missing_or_db _ s1.mid o s2.mid s2.first in
    let found = find_by_id_ok _ s1.value.0 s1.mid.orders o loaded.0 in
    let key = find_order_id s1.value.0 s1.mid.orders.orders o found in
    let moved = move_ok conflict_or_db _ _ o.id _ _ s3.mid s4.mid s4.first in
    let done =
      tail_rejects env admin_id s1.value.1 (env.clock 0) (rejection_reason reason) o s3.mid s4.mid v
        w' (positive-pos admin_id both.1) moved s4.rest in
    named v w' (key ∙ same_id (sym both.0 ∙ p)) done
