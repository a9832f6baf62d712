-- ===== src/Order/Service/Delivery.antt =====
-- apps/order/rpc/internal/logic/purchase_create_consumer.go: no purchase is dropped.
pub mod Consumer
use flash_sale.Prelude.{
  ℕ, zero, suc, ℤ, positive, Bool, true, false, ◌||◌, Option, none, some, List, [], ◌∷◌, ◌++◌, ◌≡◌,
  ◌⊎◌, inl, inr, refl, sym, ap, ◌∙◌, arith, if◌then◌else◌, Bool-cases, is_some,
}
use flash_sale.Text.{Text, trim_space, is_blank, text_beq_refl}
use flash_sale.Result.{Result, ok, err, require}
use flash_sale.Sql.{DriverErr, run_tx-eq_ok, insert}
use flash_sale.Errorx.{Code}
use flash_sale.Order.Model.{Order, OrderDb, OrderErr, OrderEvent}
use flash_sale.Order.Repository.{
  create, lookup_order_no, has_order_no, find_by_order_no, inserted_row, collides,
}
use flash_sale.Order.Repository.Operations.{apply_op, OrderOp, creates, Created, create-Created}
use flash_sale.Order.Service.Views.{OrderView}
use flash_sale.Order.Service.World.{
  World, Env, Act, Post, attempt, read, decide, answer, ◌>>=◌, emit, Publish, publish,
}
use flash_sale.Order.Service.Steps.{always_db, emit_state}
use flash_sale.Order.Service.Inversion.{
  Stepped, bind_ok, decide_ok, answer_ok, read_ok, outcome, emitted_only,
}
use flash_sale.Order.Service.Seckill
use flash_sale.Order.Service.Seckill.{
  SeckillForm, Purchase, check_seckill, seckill_total, order_of, same_purchase, matched,
  find_idempotent_seckill_order, found_or, find_again, find_idempotent_seckill_order_with_retry,
  with_order, idempotent_replay_retry_count, is_duplicate_order_no_err, seckill_event, insert_total,
  insert_purchase, existing_or, after_insert, build_seckill_order_no, order_no_of,
  create_order_from_seckill,
}

-- The order of a purchase is there, under its number, which a lookup trims.
pub record Placed (p : Purchase) (order_no : Text) (db : OrderDb) : Type 0 where
  pub number : Text
  pub row : Order
  pub named : (number ≡ order_no) ⊎ (number ≡ trim_space order_no)
  pub there : lookup_order_no number db.orders ≡ some row
  pub same : same_purchase p row ≡ true

lookup-insert :
    (n : Text) (r : Order) (os : List Order)
    → is_some (lookup_order_no n os) ≡ false
    → has_order_no n r ≡ true
    → lookup_order_no n (insert (λ x. x.id) r os) ≡ some r
unfolding lookup_order_no insert
lookup-insert n r [] h k = rw k refl
lookup-insert n r (x ∷ os) h k = elim (Bool-cases (has_order_no n x)) [
  | inl b ↦ absurd (ground (arith, rw b at h))
  | inr b ↦ rw b (lookup-insert n r os (rw b at h) k)
]

order_of-same :
    (id : ℕ) (n : Text) (p : Purchase) (total now clock : ℕ)
    → same_purchase p (inserted_row clock (order_of id n p total now)) ≡ true
order_of-same id n p total now clock = ground arith

Created-Placed :
    {clock id total now : ℕ} {n : Text} (p : Purchase) {event : OrderEvent} {db db' : OrderDb}
    → Created clock (order_of id n p total now) event db db'
    → Placed p n db'
Created-Placed {clock = clock} {id = id} {total = total} {now = now} {n = n} p {db = db} c =
    record {
      number = n;
      row = inserted_row clock (order_of id n p total now);
      named = inl refl;
      there =
          rw c.orders (
            lookup-insert n _ db.orders (ground (arith, c.fresh))
              (ground (arith, text_beq_refl n)));
      same = order_of-same id n p total now clock;
    }

attempt_ok :
    (op : OrderOp) (w w' : World) (r : Result OrderErr (Unit {0}))
    → attempt op w ≡ (ok r, w')
    → ((apply_op op w.orders).0 ≡ r) × (w'.orders ≡ (apply_op op w.orders).1)
unfolding attempt
attempt_ok op w w' r h = (ground (arith, h), ground (arith, h))

module _ (env : Env) (id : ℕ) (n : Text) (p : Purchase) where
  inserted :
      (total : ℕ) (w w' : World)
      → attempt
          (creates
            (env.write 0)
            (env.clock 0)
            (order_of id n p total env.now)
            (seckill_event id p env.now))
          w
        ≡ (ok (ok tt), w')
      → Placed p n w'.orders
  unfolding apply_op
  inserted total w w' h =
      let a = attempt_ok _ w w' (ok tt) h in
      rw a.1 (
        Created-Placed p (
          create-Created (env.write 0) (env.clock 0) (order_of id n p total env.now) _ w.orders _
            (run_tx-eq_ok (create (env.write 0) (env.clock 0) _ _) w.orders a.0)))

matched_ok :
    (p : Purchase) (r : Result OrderErr Order) (o : Order)
    → matched p r ≡ ok (some o)
    → (r ≡ ok o) × (same_purchase p o ≡ true)
matched_ok p (ok x) o h = elim (Bool-cases (same_purchase p x)) [
  | inl b ↦ let e : x ≡ o = ground (arith, h, b) in (ap ok e, rw (← e) b)
  | inr b ↦ absurd (ground (arith, h, b))
]
matched_ok p (err e) o h = absurd (ground (arith, h))

find_by_order_no_ok :
    (fault : Option DriverErr) (n : Text) (db : OrderDb) (o : Order)
    → find_by_order_no fault n db ≡ ok o
    → lookup_order_no (trim_space n) db.orders ≡ some o
unfolding find_by_order_no
find_by_order_no_ok fault n db o h = ground (arith, h)

Placed-kept :
    {p : Purchase} {n : Text} (db db' : OrderDb) → db' ≡ db → Placed p n db → Placed p n db'
Placed-kept db db' e h = rw e h

found-Placed :
    (env : Env) (k : ℕ) (n : Text) (p : Purchase) (w w' : World) (o : Order)
    → find_idempotent_seckill_order env k n p w ≡ (ok (some o), w')
    → Placed p n w'.orders
unfolding find_idempotent_seckill_order
found-Placed env k n p w w' o h =
    let r = read_ok always_db _ w (some o) w' h in
    let m = matched_ok p (find_by_order_no (env.lookup k) n w.orders) o r.0 in
    Placed-kept w.orders w'.orders (ap (λ x. x.orders) r.1) (record {
      number = trim_space n;
      row = o;
      named = inr refl;
      there = find_by_order_no_ok (env.lookup k) n w.orders o m.0;
      same = m.1;
    })

-- A sequence that has found an order: at once, or by what follows.
found_or-Placed :
    (p : Purchase) (n : Text) (found : Option Order) (again : Act (Option Order)) (w w' : World)
    (o : Order)
    → ((x : Order) → found ≡ some x → Placed p n w.orders)
    → (again w ≡ (ok (some o), w') → Placed p n w'.orders)
    → found_or found again w ≡ (ok (some o), w')
    → Placed p n w'.orders
found_or-Placed p n none again w w' o f g h = g h
found_or-Placed p n (some x) again w w' o f g h =
    let e = answer_ok (some x) w (some o) w' h in
    Placed-kept w.orders w'.orders (ap (λ v. v.orders) e.1) (f x refl)

found_again-Placed :
    (canceled : ℕ → Bool) (env : Env) (retries k : ℕ) (n : Text) (p : Purchase) (w w' : World)
    (o : Order)
    → find_again canceled env retries k n p w ≡ (ok (some o), w')
    → Placed p n w'.orders
unfolding find_again
found_again-Placed canceled env zero k n p w w' o h =
    absurd (let e = answer_ok none w (some o) w' h in ground (arith, e))
found_again-Placed canceled env (suc retries) k n p w w' o h =
    let s1 = bind_ok _ _ w (some o) w' h in
    let s2 = bind_ok _ _ s1.mid (some o) w' s1.rest in
    found_or-Placed p n s2.value _ s2.mid w' o
      (λ x e. found-Placed env k n p s1.mid s2.mid x (rw (← e) s2.first))
      (found_again-Placed canceled env retries (suc k) n p s2.mid w' o) s2.rest

found_with_retry-Placed :
    (canceled : ℕ → Bool) (env : Env) (n : Text) (p : Purchase) (w w' : World) (o : Order)
    → find_idempotent_seckill_order_with_retry canceled env n p w ≡ (ok (some o), w')
    → Placed p n w'.orders
unfolding find_idempotent_seckill_order_with_retry
found_with_retry-Placed canceled env n p w w' o h =
    let s = bind_ok _ _ w (some o) w' h in
    found_or-Placed p n s.value _ s.mid w' o
      (λ x e. found-Placed env 0 n p w s.mid x (rw (← e) s.first))
      (found_again-Placed canceled env idempotent_replay_retry_count 1 n p s.mid w' o) s.rest

existing-Placed :
    (p : Purchase) (n : Text) (c : Code) (found : Option Order) (w w' : World) (v : OrderView)
    → ((x : Order) → found ≡ some x → Placed p n w.orders)
    → existing_or c found w ≡ (ok v, w')
    → Placed p n w'.orders
existing-Placed p n c none w w' v f h = absurd (let e = decide_ok _ w v w' h in ground (arith, e.0))
existing-Placed p n c (some x) w w' v f h =
    let e = decide_ok _ w v w' h in
    Placed-kept w.orders w'.orders (ap (λ u. u.orders) e.1) (f x refl)

placed_order : (o x : Order) (r : Result OrderErr (Unit {0})) → with_order o r ≡ ok x → r ≡ ok tt
placed_order o x (ok _) h = refl
placed_order o x (err e) h = absurd (ground (arith, h))

module _ (env : Env) (id : ℕ) (n : Text) (p : Purchase) (w w' : World) (o : Order) where
  total-Placed :
      (total : Option ℕ) → insert_total env id n p total w ≡ (ok (ok o), w') → Placed p n w'.orders
  total-Placed none h = absurd (let e = answer_ok _ w (ok o) w' h in ground (arith, e.0))
  total-Placed (some total) h =
      let s = bind_ok _ _ w (ok o) w' h in
      let e = answer_ok _ s.mid (ok o) w' s.rest in
      Placed-kept s.mid.orders w'.orders (ap (λ v. v.orders) e.1) (
        inserted env id n p total w s.mid
          (s.first ∙ ap (λ r. (ok r, s.mid)) (placed_order _ o s.value (sym e.0))))

  insert_purchase-Placed : insert_purchase env id n p w ≡ (ok (ok o), w') → Placed p n w'.orders
  unfolding insert_purchase
  insert_purchase-Placed h = total-Placed _ h

after_insert-Placed :
    (canceled : ℕ → Bool) (env : Env) (n : Text) (p : Purchase) (r : Result OrderErr Order)
    (w w' : World) (v : OrderView)
    → ((o : Order) → r ≡ ok o → Placed p n w.orders)
    → after_insert canceled env n p r w ≡ (ok v, w')
    → Placed p n w'.orders
unfolding after_insert
after_insert-Placed canceled env n p (ok o) w w' v f h =
    let s = bind_ok _ _ w v w' h in
    let e = answer_ok _ s.mid v w' s.rest in
    Placed-kept w.orders w'.orders (ap (λ u. u.orders) e.1 ∙ emitted_only env _ o w s.mid s.first)
      (f o refl)
after_insert-Placed canceled env n p (err e) w w' v f h =
    elim (Bool-cases (is_duplicate_order_no_err e)) [
      | inl b ↦
          let s =
            bind_ok (find_idempotent_seckill_order_with_retry canceled env n p) _ w v w'
              (rw b at h) in
          existing-Placed p n _ s.value s.mid w' v
            (λ x q. found_with_retry-Placed canceled env n p w s.mid x (rw (← q) s.first)) s.rest
      | inr b ↦
          let s = bind_ok (find_idempotent_seckill_order env 0 n p) _ w v w' (rw b at h) in
          existing-Placed p n _ s.value s.mid w' v
            (λ x q. found-Placed env 0 n p w s.mid x (rw (← q) s.first)) s.rest
    ]

-- What a form becomes once it is checked.
pub record Checked (form : SeckillForm) (p : Purchase) : Type 0 where
  pub user : positive form.user_id ≡ some p.user_id
  pub activity : positive form.activity_id ≡ some p.activity_id
  pub item : positive form.activity_item_id ≡ some p.activity_item_id
  pub key : p.idempotency_key ≡ trim_space form.idempotency_key

number_ok :
    (v : ℤ) (w w' : World) (n : ℕ)
    → Seckill.number v w ≡ (ok n, w')
    → (positive v ≡ some n) × (w' ≡ w)
number_ok v w w' n h = required (positive v) (decide_ok _ w n w' h)
  where
    required :
        (o : Option ℕ)
        → (require o Code.sys_bad_request ≡ ok n) × (w' ≡ w)
        → (o ≡ some n) × (w' ≡ w)
    required none e = absurd (ground (arith, e.0))
    required (some m) e = (ground (arith, e.0), e.1)

check_seckill-Checked :
    (form : SeckillForm) (w w' : World) (p : Purchase)
    → check_seckill form w ≡ (ok p, w')
    → Checked form p
unfolding check_seckill
check_seckill-Checked form w w' p h =
    let s1 = bind_ok _ _ w p w' h in
    let s2 = bind_ok _ _ s1.mid p w' s1.rest in
    let s3 = bind_ok _ _ s2.mid p w' s2.rest in
    let s4 = bind_ok _ _ s3.mid p w' s3.rest in
    let s5 = bind_ok _ _ s4.mid p w' s4.rest in
    let s6 = bind_ok _ _ s5.mid p w' s5.rest in
    let s7 = bind_ok _ _ s6.mid p w' s6.rest in
    let s8 = bind_ok _ _ s7.mid p w' s7.rest in
    let same = (answer_ok _ s8.mid p w' s8.rest).0 in
    record {
      user =
          (number_ok form.user_id w s1.mid s1.value s1.first).0
          ∙ ap (λ q. some q.user_id) (sym same);
      activity =
          (number_ok form.activity_id s1.mid s2.mid s2.value s2.first).0
          ∙ ap (λ q. some q.activity_id) (sym same);
      item =
          (number_ok form.activity_item_id s2.mid s3.mid s3.value s3.first).0
          ∙ ap (λ q. some q.activity_item_id) (sym same);
      key = ap (λ q. q.idempotency_key) same;
    }

-- The order of the purchase that a form asks for is there.
pub record Ordered (sha1_hex : Text → Text) (form : SeckillForm) (db : OrderDb) : Type 0 where
  pub purchase : Purchase
  pub checked : Checked form purchase
  pub placed : Placed purchase (order_no_of sha1_hex purchase) db

module _ (sha1_hex : Text → Text) where
  pub create_ok :
      (busy : Bool) (canceled : ℕ → Bool) (env : Env) (id : ℕ) (form : SeckillForm) (w w' : World)
      (v : OrderView)
      → create_order_from_seckill sha1_hex busy canceled env id form w ≡ (ok v, w')
      → Ordered sha1_hex form w'.orders
  unfolding create_order_from_seckill
  create_ok busy canceled env id form w w' v h =
      let s1 = bind_ok _ _ w v w' h in
      let s2 = bind_ok _ _ s1.mid v w' s1.rest in
      let s3 = bind_ok _ _ s2.mid v w' s2.rest in
      let n = order_no_of sha1_hex s1.value in
      record {
        purchase = s1.value;
        checked = check_seckill-Checked form w s1.mid s1.value s1.first;
        placed =
            after_insert-Placed canceled env n s1.value s3.value s3.mid w' v
              (λ o e.
                insert_purchase-Placed env id n s1.value s2.mid s3.mid o
                  (s3.first ∙ ap (λ r. (ok r, s3.mid)) e))
              s3.rest;
      }

  -- Whatever fails on the way, and whether it inserts the order or finds it, a call of
  -- `CreateOrderFromSeckill` that answers with an order leaves an order of that buyer, activity and
  -- item under the number that is made of them and of the idempotency key.
  pub create_order_from_seckill-Ordered :
      (busy : Bool) (canceled : ℕ → Bool) (env : Env) (id : ℕ) (form : SeckillForm) (w : World)
      {v : OrderView}
      → (create_order_from_seckill sha1_hex busy canceled env id form w).0 ≡ ok v
      → Ordered sha1_hex form
          (create_order_from_seckill sha1_hex busy canceled env id form w).1.orders
  create_order_from_seckill-Ordered busy canceled env id form w {v} h =
      create_ok busy canceled env id form w _ v
        (outcome (create_order_from_seckill sha1_hex busy canceled env id form) w v h)
