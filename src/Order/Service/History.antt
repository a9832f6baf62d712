-- ===== src/Order/Service/History.antt =====
-- What the order service does to the two databases, as histories of their repositories' calls.
pub mod Handlers
pub mod Jobs
pub mod Seckill
pub mod Calls
use flash_sale.Prelude.{
  ℕ, ℤ, pos, Bool, true, false, Option, none, some, List, [], ◌∷◌, ◌++◌, ◌≡◌, refl, arith,
  if◌then◌else◌,
}
use flash_sale.Text.{Text}
use flash_sale.Result.{Result, ok, err}
use flash_sale.Sql.{Faults, All}
use flash_sale.Errorx.{Code}
use flash_sale.Order.Model.{OrderDb, OrderErr, Order}
use flash_sale.Order.Repository.Operations
use flash_sale.Order.Repository.Operations.{OrderOp, moves, releases, creates}
use flash_sale.Order.Repository.Phases.{CreatesNew}
use flash_sale.Product.Model.{ProductDb}
use flash_sale.Product.Repository.History
use flash_sale.Product.Repository.History.{StockOp}
use flash_sale.Product.Service.Trades.{Trades}
use flash_sale.Order.Service.World.{
  World, Rpc, delivered, undelivered, unanswered, Act, continue, ◌>>=◌, decide, read, write,
  attempt, catch, publish, Publish, sent, unsent, unconfirmed, Post, logged, failed, on_error,
  call_product, emit, StateEvent,
}

-- The second world is reached from the first by guarded updates, stock flags and new orders in the
-- one database, and by reservations and releases in the other.
pub record Refines (w w' : World) : Type 0 where
  pub order_ops : List OrderOp
  pub stock_ops : List StockOp
  pub creates_new : All CreatesNew order_ops
  pub orders : w'.orders ≡ Operations.run order_ops w.orders
  pub products : w'.products ≡ History.run stock_ops w.products

pub run_order_ops :
    (a b : List OrderOp) (db : OrderDb)
    → Operations.run (a ++ b) db ≡ Operations.run b (Operations.run a db)
unfolding Operations.run
run_order_ops [] b db = refl
run_order_ops (op ∷ a) b db = run_order_ops a b _

pub run_stock_ops :
    (a b : List StockOp) (db : ProductDb)
    → History.run (a ++ b) db ≡ History.run b (History.run a db)
unfolding History.run
run_stock_ops [] b db = refl
run_stock_ops (op ∷ a) b db = run_stock_ops a b _

All-append : (a b : List OrderOp) → All CreatesNew a → All CreatesNew b → All CreatesNew (a ++ b)
All-append [] b p q = q
All-append (op ∷ a) b p q = (p.0, All-append a b p.1 q)

pub Refines_refl : (w : World) → Refines w w
unfolding Operations.run History.run
Refines_refl w = record {
  order_ops = [];
  stock_ops = [];
  creates_new = tt;
  orders = refl;
  products = refl;
}

pub Refines_trans : {u v w : World} → Refines u v → Refines v w → Refines u w
Refines_trans {u} p q = record {
  order_ops = p.order_ops ++ q.order_ops;
  stock_ops = p.stock_ops ++ q.stock_ops;
  creates_new = All-append p.order_ops q.order_ops p.creates_new q.creates_new;
  orders = rw (run_order_ops p.order_ops q.order_ops u.orders, ← p.orders) q.orders;
  products = rw (run_stock_ops p.stock_ops q.stock_ops u.products, ← p.products) q.products;
}

-- Whatever an action answers, what it has done is such a history.
pub record IsHistory {A : Type 0} (m : Act A) : Type 0 where
  pub steps : (w : World) → Refines w (m w).1

continued :
    {A B : Type 0} (r : Result Code A × World) (f : A → Act B) (w : World)
    → Refines w r.1
    → ((a : A) → IsHistory (f a))
    → Refines w (continue r f).1
unfolding continue
continued (ok a, v) f w p h = Refines_trans p ((h a).steps v)
continued (err c, v) f w p h = p

pub bind-IsHistory :
    {A B : Type 0} {m : Act A} {f : A → Act B}
    → IsHistory m
    → ((a : A) → IsHistory (f a))
    → IsHistory (m >>= f)
unfolding ◌>>=◌
bind-IsHistory {m = m} {f = f} p h = record { steps = λ w. continued (m w) f w (p.steps w) h }

pub decide-IsHistory : {A : Type 0} (r : Result Code A) → IsHistory (decide r)
unfolding decide
decide-IsHistory r = record { steps = λ w. Refines_refl w }

pub read-IsHistory :
    {A : Type 0} (code : OrderErr → Code) (query : OrderDb → Result OrderErr A)
    → IsHistory (read code query)
unfolding read
read-IsHistory code query = record { steps = λ w. Refines_refl w }

untouched : (w w' : World) → w'.orders ≡ w.orders → w'.products ≡ w.products → Refines w w'
unfolding Operations.run History.run
untouched w w' o p = record {
  order_ops = [];
  stock_ops = [];
  creates_new = tt;
  orders = o;
  products = p;
}

pub emit-IsHistory : (events : List StateEvent) → IsHistory (emit events)
unfolding emit
emit-IsHistory events = record { steps = λ w. untouched w _ refl refl }

pub write-IsHistory :
    (code : OrderErr → Code) (op : OrderOp) → CreatesNew op → IsHistory (write code op)
unfolding write Operations.run History.run
write-IsHistory code op n = record {
  steps = λ w. record {
    order_ops = op ∷ [];
    stock_ops = [];
    creates_new = (n, tt);
    orders = refl;
    products = refl;
  };
}

pub attempt-IsHistory : (op : OrderOp) → CreatesNew op → IsHistory (attempt op)
unfolding attempt Operations.run History.run
attempt-IsHistory op n = record {
  steps = λ w. record {
    order_ops = op ∷ [];
    stock_ops = [];
    creates_new = (n, tt);
    orders = refl;
    products = refl;
  };
}

pub catch-IsHistory : {A : Type 0} {m : Act A} → IsHistory m → IsHistory (catch m)
unfolding catch
catch-IsHistory p = record { steps = λ w. p.steps w }

pub publish-IsHistory : (p : Publish) (post : Post) → IsHistory (publish p post)
unfolding publish
publish-IsHistory sent post = record { steps = λ w. untouched w _ refl refl }
publish-IsHistory unsent post = record { steps = λ w. untouched w _ refl refl }
publish-IsHistory unconfirmed post = record { steps = λ w. untouched w _ refl refl }

pub logged-IsHistory : {A : Type 0} {m : Act A} → IsHistory m → IsHistory (logged m)
unfolding logged
logged-IsHistory p = record { steps = λ w. p.steps w }

cleaned_up :
    {A : Type 0} (r : Result Code A × World) (cleanup : Act (Unit {0})) (w : World)
    → Refines w r.1
    → IsHistory cleanup
    → Refines w (failed r cleanup).1
cleaned_up (ok a, v) cleanup w p h = p
cleaned_up (err c, v) cleanup w p h = Refines_trans p (h.steps v)

pub on_error-IsHistory :
    {A : Type 0} {m : Act A} {cleanup : Act (Unit {0})}
    → IsHistory m
    → IsHistory cleanup
    → IsHistory (on_error m cleanup)
unfolding on_error
on_error-IsHistory {m = m} {cleanup = cleanup} p q = record {
  steps = λ w. cleaned_up (m w) cleanup w (p.steps w) q;
}

pub if-IsHistory :
    {A : Type 0} (b : Bool) {m n : Act A}
    → IsHistory m
    → IsHistory n
    → IsHistory (if b then m else n)
if-IsHistory true p q = p
if-IsHistory false p q = q

traded :
    (w : World) (db : ProductDb) → Trades w.products db → Refines w (record w { products = db })
unfolding Operations.run
traded w db t = record {
  order_ops = [];
  stock_ops = t.ops;
  creates_new = tt;
  orders = refl;
  products = t.done;
}

pub call_product-IsHistory :
    {A : Type 0} (rpc : Rpc) (handler : Faults → ℕ → ProductDb → Result Code A × ProductDb)
    → ((faults : Faults) (now : ℕ) (db : ProductDb) → Trades db (handler faults now db).1)
    → IsHistory (call_product rpc handler)
unfolding call_product
call_product-IsHistory (delivered faults now) handler h = record {
  steps = λ w. traded w _ (h faults now w.products);
}
call_product-IsHistory (undelivered c) handler h = record { steps = λ w. Refines_refl w }
call_product-IsHistory (unanswered faults now c) handler h = record {
  steps = λ w. traded w _ (h faults now w.products);
}
