-- ===== src/Order/Service/History/Calls.antt =====
-- The whole order service: any sequence of its calls, jobs and messages.
use flash_sale.Prelude.{ℕ, ℤ, Bool, Option, some, List, [], ◌∷◌, ◌≡◌}
use flash_sale.Text.{Text}
use flash_sale.Sql.{All, DriverErr}
use flash_sale.Order.Model.{Order}
use flash_sale.Order.Repository.{find_order}
use flash_sale.Order.Repository.Phases.{IsLegal, IsSafe, run-IsSafe}
use flash_sale.Order.Repository.Finality.{Continues, run-Continues}
use flash_sale.Order.Service.Input.{PaymentForm}
use flash_sale.Order.Service.World.{World, Env}
use flash_sale.Order.Service.Buyer.{confirm_payment_and_info, cancel_order, confirm_receipt}
use flash_sale.Order.Service.Admin.{review_order_admin, ship_order_admin}
use flash_sale.Order.Service.Creation.{create_order}
use flash_sale.Order.Service.Jobs.{run_once}
use flash_sale.Order.Service.Seckill.{SeckillForm, create_order_from_seckill}
use flash_sale.Order.Service.Consumer.{PurchaseEvent, Attempt, Broker, consume_message}
use flash_sale.Order.Service.History.{Refines, Refines_refl, Refines_trans}
use flash_sale.Order.Service.History.Handlers.{
  create_order-IsHistory, confirm_payment_and_info-IsHistory, cancel_order-IsHistory,
  confirm_receipt-IsHistory, review_order_admin-IsHistory, ship_order_admin-IsHistory,
}
use flash_sale.Order.Service.History.Jobs.{run_once-IsHistory}
use flash_sale.Order.Service.History.Seckill.{
  create_order_from_seckill-IsHistory, consume_message-IsHistory,
}

-- A call of a handler, a round of the jobs, or a message of the consumer, with all it meets.
pub data Call : Type 0 where
  creates_order : Env → ℕ → ℤ → ℤ → ℤ → Call
  creates_seckill : Bool → (ℕ → Bool) → Env → ℕ → SeckillForm → Call
  pays : Env → ℤ → ℤ → PaymentForm → Call
  cancels : Env → ℤ → ℤ → Text → Call
  confirms : Env → ℤ → ℤ → Call
  reviews : Env → ℤ → ℤ → Bool → Text → Call
  ships : Env → ℤ → ℤ → Text → Call
  runs_jobs : (ℕ → Option DriverErr) → (ℕ → ℕ → Env) → ℕ → Call
  consumes : (ℕ → Attempt) → Broker → Option PurchaseEvent → Call

module _ (sha1_hex : Text → Text) (oldest_first : List Order → List Order) where
  unfoldable pub serve : Call → World → World
  serve (creates_order env id user_id product_id source) w =
      (create_order env id user_id product_id source w).1
  serve (creates_seckill busy canceled env id form) w =
      (create_order_from_seckill sha1_hex busy canceled env id form w).1
  serve (pays env user_id order_id form) w =
      (confirm_payment_and_info env user_id order_id form w).1
  serve (cancels env user_id order_id reason) w = (cancel_order env user_id order_id reason w).1
  serve (confirms env user_id order_id) w = (confirm_receipt env user_id order_id w).1
  serve (reviews env order_id admin_id approved reason) w =
      (review_order_admin env order_id admin_id approved reason w).1
  serve (ships env order_id admin_id number) w = (ship_order_admin env order_id admin_id number w).1
  serve (runs_jobs lists envs now) w = (run_once oldest_first lists envs now w).1
  serve (consumes attempts broker message) w =
      (consume_message sha1_hex attempts broker message w).1

  unfoldable pub serve_all : List Call → World → World
  unfolding serve
  serve_all [] w = w
  serve_all (c ∷ cs) w = serve_all cs (serve c w)

  serve-Refines : (c : Call) (w : World) → Refines w (serve c w)
  unfolding serve
  serve-Refines (creates_order env id user_id product_id source) w =
      (create_order-IsHistory env id user_id product_id source).steps w
  serve-Refines (creates_seckill busy canceled env id form) w =
      (create_order_from_seckill-IsHistory sha1_hex busy canceled env id form).steps w
  serve-Refines (pays env user_id order_id form) w =
      (confirm_payment_and_info-IsHistory env user_id order_id form).steps w
  serve-Refines (cancels env user_id order_id reason) w =
      (cancel_order-IsHistory env user_id order_id reason).steps w
  serve-Refines (confirms env user_id order_id) w =
      (confirm_receipt-IsHistory env user_id order_id).steps w
  serve-Refines (reviews env order_id admin_id approved reason) w =
      (review_order_admin-IsHistory env order_id admin_id approved reason).steps w
  serve-Refines (ships env order_id admin_id number) w =
      (ship_order_admin-IsHistory env order_id admin_id number).steps w
  serve-Refines (runs_jobs lists envs now) w =
      (run_once-IsHistory oldest_first lists envs now).steps w
  serve-Refines (consumes attempts broker message) w =
      (consume_message-IsHistory sha1_hex attempts broker message).steps w

  -- Any sequence of calls, rounds of jobs and messages, whatever fails in them, does to the orders
  -- what some history of guarded updates, stock flags and insertions of new orders does, and to the
  -- products what some history of stock reservations and releases does.
  pub serve_all-Refines : (cs : List Call) (w : World) → Refines w (serve_all cs w)
  unfolding serve_all
  serve_all-Refines [] w = Refines_refl w
  serve_all-Refines (c ∷ cs) w =
      Refines_trans (serve-Refines c w) (serve_all-Refines cs (serve c w))

  -- After any sequence of calls of the service from legal orders, every order is safe: shipped only
  -- when paid and reviewed, refunded only when paid and closed before shipping, and closed only with
  -- its money unpaid, in refund or refunded, or its goods received.
  pub serve_all-IsSafe :
      (cs : List Call) (w : World) (id : ℕ) {o : Order}
      → All IsLegal w.orders.orders
      → find_order id (serve_all cs w).orders ≡ some o
      → IsSafe o
  serve_all-IsSafe cs w id {o} a f =
      let h = serve_all-Refines cs w in
      run-IsSafe h.order_ops w.orders id h.creates_new a (rw (← h.orders) f)

  -- An order that is there is there after any sequence of calls, its status moved along the arrows
  -- of its life only, with its buyer, its price and its quantity, and, once it is closed, with its
  -- closing reason and time; a stock flag that is set stays set.
  pub serve_all-Continues :
      (cs : List Call) (w : World) (id : ℕ) (o : Order)
      → find_order id w.orders ≡ some o
      → Continues id o (serve_all cs w).orders
  serve_all-Continues cs w id o f =
      let h = serve_all-Refines cs w in rw h.orders (run-Continues id o h.order_ops w.orders f)
