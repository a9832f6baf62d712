-- ===== src/Order/Service/Deeds/Asked.antt =====
-- The order that a request asks for: loaded, found to be the buyer's, and marked after its move.
use flash_sale.Prelude.{
  ℕ, ℤ, pos, positive, not, ◌==◌, Bool, true, false, some, ◌≡◌, ◌∙◌, sym, ap, arith, nat_eq,
}
use flash_sale.Text.{Text}
use flash_sale.Result.{ok, reject_if}
use flash_sale.Prelude.{Option}
use flash_sale.Sql.{DriverErr}
use flash_sale.Errorx.{Code}
use flash_sale.Order.Model.{Order, OrderDb}
use flash_sale.Order.Repository.{find_by_id}
use flash_sale.Order.Repository.Operations.{Transition}
use flash_sale.Order.Service.World.{Env, StateEventType}
use flash_sale.Order.Service.Steps.{
  mark_order_stock_released, release_stock_for, release_unless_seckill, emit_state,
}
use flash_sale.Order.Service.Admin.{after_review}
use flash_sale.Order.Service.Inversion.{find_by_id_ok, find_order_id}
use flash_sale.Order.Service.Deeds.Rows.{
  Row, Flags, Handled, MovedBy, decide-Handled, read-Handled, move-Handled, IsMarking,
  bind-IsMarking, decide-IsMarking, read-IsMarking, emit-IsMarking, call_product-IsMarking,
  if-IsMarking, flag-IsMarking,
}
use flash_sale.Order.Service.Deeds.Moves.{positive-pos}

pub emit_state-IsMarking :
    {j : ℕ} (env : Env) (t : StateEventType) (o : Order) → IsMarking j (emit_state env t o)
unfolding emit_state
emit_state-IsMarking env t o = emit-IsMarking _

pub release_unless_seckill-IsMarking :
    {j : ℕ} (env : Env) (o : Order) (suffix : Text)
    → IsMarking j (release_unless_seckill env o suffix)
unfolding release_unless_seckill release_stock_for
release_unless_seckill-IsMarking env o suffix =
    if-IsMarking _ (bind-IsMarking (decide-IsMarking _) (λ _. call_product-IsMarking _ _))
      (decide-IsMarking _)

pub mark-IsMarking :
    (env : Env) (n j remain : ℕ) (trigger : Text) (now : ℕ)
    → IsMarking j (mark_order_stock_released env n j remain trigger now)
unfolding mark_order_stock_released
mark-IsMarking env n j remain trigger now = flag-IsMarking _ _ _ j now _

pub ruleset markings = (
  bind-IsMarking, decide-IsMarking, read-IsMarking, emit_state-IsMarking,
  release_unless_seckill-IsMarking, mark-IsMarking,
)

-- The order that was loaded is the one that the request names, and the one that was moved.
pub record Loaded (db : OrderDb) (asked : ℤ) (id : ℕ) (o a : Order) : Type 0 where
  pub named : asked ≡ pos id
  pub same : a ≡ o

pub loaded :
    {clock n : ℕ} {t : Transition} (db : OrderDb) (asked : ℤ) (a : Order) {id : ℕ} {o o' : Order}
    (fault : Option DriverErr)
    → positive asked ≡ some n
    → find_by_id fault n db ≡ ok a
    → MovedBy clock a.id t db id o o'
    → Loaded db asked id o a
loaded {n = n} db asked a {id = id} {o = o} fault p q m =
    let found = find_by_id_ok fault n db a q in
    let key : a.id ≡ n = find_order_id n db.orders a found in
    let id_n : id ≡ n = m.named ∙ key in
    record {
      named = positive-pos asked p ∙ ap pos (sym id_n);
      same = ground (arith, found, m.stored, id_n);
    }

-- What was loaded is what the request asked for.
pub asked_for :
    {n : ℕ} (db : OrderDb) (asked : ℤ) (a : Order) (fault : Option DriverErr)
    → positive asked ≡ some n
    → find_by_id fault n db ≡ ok a
    → asked ≡ pos a.id
asked_for {n = n} db asked a fault p q =
    positive-pos asked p ∙ ap pos (sym (find_order_id n db.orders a (find_by_id_ok fault n db a q)))

-- The check of the buyer, at the order that is moved.
pub owned :
    (user_id : ℤ) (c : Code) {u : ℕ} {o a : Order}
    → positive user_id ≡ some u
    → reject_if (not (a.user_id == u)) c ≡ ok tt
    → a ≡ o
    → user_id ≡ pos o.user_id
owned user_id c p mine same = positive-pos user_id p ∙ ap pos (ground (arith, mine, same))

pub after_review-IsMarking :
    (env : Env) (approved : Bool) (o : Order) → IsMarking o.id (after_review env approved o)
unfolding after_review
after_review-IsMarking env true o = decide-IsMarking _
after_review-IsMarking env false o = search markings depth 30
