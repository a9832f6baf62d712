-- ===== src/Order/Repository/Finality.antt =====
-- The order of an order's statuses: every write follows an edge, and a closed order stays closed.
use flash_sale.Prelude.{
  ℕ, true, some, List, [], ◌∷◌, ◌≡◌, ◌≢◌, ◌∙◌, refl, arith, inl, inr, nat_beq, nat_beq_iff,
  Bool-cases,
}
use flash_sale.Sql.{run_tx_induction, find, update, find-update, find-insert}
use flash_sale.Order.Model.{
  OrderStatus, pending_pay, pending_review, pending_ship, shipped, closed, Order, OrderEvent,
  OrderDb,
}
use flash_sale.Order.Repository.{
  find_order, updated, inserted_row, exec_with_event, mark_stock_released, create,
}
use flash_sale.Order.Repository.Operations.{
  Transition, update_of, OrderOp, moves, releases, creates, apply_op, run, Moved,
  exec_with_event-Moved, Released, flagged, already, mark_stock_released-Released, Created,
  create-Created,
}

infix 40 ◌⟶◌ ◌⟶*◌
-- The edges of the state diagram.
pub data ◌⟶◌ : OrderStatus → OrderStatus → Type 0 where
  pay_manual : pending_pay ⟶ pending_review
  pay_auto : pending_pay ⟶ pending_ship
  abandon : pending_pay ⟶ closed
  approve : pending_review ⟶ pending_ship
  refuse : pending_review ⟶ closed
  send : pending_ship ⟶ shipped
  receive : shipped ⟶ closed

-- Any number of edges.
pub data ◌⟶*◌ : OrderStatus → OrderStatus → Type 0 where
  here : {s : OrderStatus} → s ⟶* s
  onward : {s t u : OrderStatus} → s ⟶ t → t ⟶* u → s ⟶* u

pay_manual_path : pending_pay ⟶* pending_review
pay_manual_path = onward pay_manual here

pay_auto_path : pending_pay ⟶* pending_ship
pay_auto_path = onward pay_auto here

abandon_path : pending_pay ⟶* closed
abandon_path = onward abandon here

approve_path : pending_review ⟶* pending_ship
approve_path = onward approve here

refuse_path : pending_review ⟶* closed
refuse_path = onward refuse here

send_path : pending_ship ⟶* shipped
send_path = onward send here

receive_path : shipped ⟶* closed
receive_path = onward receive here

ruleset paths = (
  pay_manual_path, pay_auto_path, abandon_path, approve_path, refuse_path, send_path, receive_path,
)

⟶*-trans : {s t u : OrderStatus} → s ⟶* t → t ⟶* u → s ⟶* u
⟶*-trans here q = q
⟶*-trans (onward e p) q = onward e (⟶*-trans p q)

⟶-closed : {s t : OrderStatus} → s ⟶ t → s ≢ closed
⟶-closed pay_manual h = cc
⟶-closed pay_auto h = cc
⟶-closed abandon h = cc
⟶-closed approve h = cc
⟶-closed refuse h = cc
⟶-closed send h = cc
⟶-closed receive h = cc

pub ⟶*-closed : {s t : OrderStatus} → s ⟶* t → s ≡ closed → t ≡ closed
⟶*-closed here h = h
⟶*-closed (onward e p) h = absurd (⟶-closed e h)

-- What an order keeps for good, from any state and from the closed one.
pub record Follows (o o' : Order) : Type 0 where
  pub path : o.order_status ⟶* o'.order_status
  pub owner : o'.user_id ≡ o.user_id
  pub price : o'.total_amount_cent ≡ o.total_amount_cent
  pub units : o'.quantity ≡ o.quantity
  pub reason : o.order_status ≡ closed → o'.close_reason ≡ o.close_reason
  pub time : o.order_status ≡ closed → o'.closed_at ≡ o.closed_at
  pub flag : o.stock_released ≡ true → o'.stock_released ≡ true

update_of-⟶ :
    (t : Transition) (o : Order)
    → (update_of t).where_ o ≡ true
    → o.order_status ⟶* ((update_of t).set_ o).order_status
unfolding update_of
update_of-⟶ t o g = grind (arith, paths, here)

updated-Follows :
    (clock : ℕ) (t : Transition) (o : Order)
    → (update_of t).where_ o ≡ true
    → Follows o (updated clock (update_of t) o)
unfolding update_of
updated-Follows clock t o g = record {
  path = update_of-⟶ t o g;
  owner = ground arith;
  price = ground arith;
  units = ground arith;
  reason = λ c. ground arith;
  time = λ c. ground arith;
  flag = λ c. ground arith;
}

Follows-refl : (o : Order) → Follows o o
Follows-refl o = record {
  path = here;
  owner = refl;
  price = refl;
  units = refl;
  reason = λ _. refl;
  time = λ _. refl;
  flag = λ h. h;
}

Follows-trans : {o p q : Order} → Follows o p → Follows p q → Follows o q
Follows-trans f g = record {
  path = ⟶*-trans f.path g.path;
  owner = g.owner ∙ f.owner;
  price = g.price ∙ f.price;
  units = g.units ∙ f.units;
  reason = λ c. g.reason (⟶*-closed f.path c) ∙ f.reason c;
  time = λ c. g.time (⟶*-closed f.path c) ∙ f.time c;
  flag = λ h. g.flag (f.flag h);
}

-- The order with the id is there, and has come from `o`.
pub record Continues (id : ℕ) (o : Order) (db : OrderDb) : Type 0 where
  pub row : Order
  pub there : find_order id db ≡ some row
  pub follows : Follows o row

continue_update :
    (id j : ℕ) (f : Order → Order) (o : Order) (orders : List Order) (events : List OrderEvent)
    → ((r : Order) → (f r).id ≡ r.id)
    → find (λ r. r.id) id orders ≡ some o
    → (nat_beq j id ≡ true → Follows o (f o))
    → Continues id o (record { orders = update (λ r. r.id) j f orders; events = events })
continue_update id j f o orders events key e h = elim (Bool-cases (nat_beq j id)) [
  | inl b ↦ record {
    row = f o;
    there = find-update (λ r. r.id) id j f orders key ∙ ground (arith, b, e);
    follows = h b;
  }
  | inr b ↦ record {
    row = o;
    there = find-update (λ r. r.id) id j f orders key ∙ ground (arith, b, e);
    follows = Follows-refl o;
  }
]

module _ (id : ℕ) (o : Order) (db : OrderDb) (e : find_order id db ≡ some o) where
  Moved-Continues :
      (clock j : ℕ) (t : Transition) (event : OrderEvent) (db' : OrderDb)
      → Moved clock j (update_of t) event db db'
      → Continues id o db'
  Moved-Continues clock j t event db' m =
      let c =
        continue_update id j (updated clock (update_of t)) o db.orders db'.events (λ r. refl) e
          (λ b. updated-Follows clock t o (
            let same : m.row ≡ o = ground (arith, b, m.there, e, nat_beq_iff j id) in
            rw (← same) m.allowed)) in
      record { row = c.row; there = rw m.orders c.there; follows = c.follows }

  Released-Continues :
      (clock j now : ℕ) (event : OrderEvent) (db' : OrderDb)
      → Released clock j now event db db'
      → Continues id o db'
  Released-Continues clock j now event db' (already p f b q) =
      rw q (record { row = o; there = e; follows = Follows-refl o })
  Released-Continues clock j now event db' (flagged p f b q) = rw q (
      continue_update id j _ o db.orders _ (λ r. refl) e
        (λ _. record {
          path = here;
          owner = refl;
          price = refl;
          units = refl;
          reason = λ _. refl;
          time = λ _. refl;
          flag = λ _. refl;
        }))

  Created-Continues :
      (clock : ℕ) (new : Order) (event : OrderEvent) (db' : OrderDb)
      → Created clock new event db db'
      → Continues id o db'
  Created-Continues clock new event db' c = record {
    row = o;
    there =
        rw c.orders
          (find-insert (λ r. r.id) id (inserted_row clock new) db.orders ∙ ground (arith, e));
    follows = Follows-refl o;
  }

  stays : Continues id o db
  stays = record { row = o; there = e; follows = Follows-refl o }

  apply_op-Continues : (op : OrderOp) → Continues id o (apply_op op db).1
  unfolding apply_op
  apply_op-Continues (moves faults clock j t event) =
      run_tx_induction (Continues id o) (exec_with_event faults clock j (update_of t) event) db
        stays
        (λ _ db' h.
          Moved-Continues clock j t event db'
            (exec_with_event-Moved faults clock j (update_of t) event db db' h))
  apply_op-Continues (releases faults clock j now event) =
      run_tx_induction (Continues id o) (mark_stock_released faults clock j now event) db stays
        (λ _ db' h.
          Released-Continues clock j now event db'
            (mark_stock_released-Released faults clock j now event db db' h))
  apply_op-Continues (creates faults clock new event) =
      run_tx_induction (Continues id o) (create faults clock new event) db stays (λ _ db' h.
        Created-Continues clock new event db' (create-Created faults clock new event db db' h))

-- Over any history of writes an order is never lost: it moves along the state diagram, keeps its
-- owner, its total and its quantity, and once it is closed it stays closed with the reason and the
-- time of its closing; a stock-released flag is never taken back.
pub run-Continues :
    (id : ℕ) (o : Order) (ops : List OrderOp) (db : OrderDb)
    → find_order id db ≡ some o
    → Continues id o (run ops db)
unfolding run
run-Continues id o [] db e = stays id o db e
run-Continues id o (op ∷ ops) db e =
    let first = apply_op-Continues id o db e op in
    let rest = run-Continues id first.row ops (apply_op op db).1 first.there in
    record {
      row = rest.row;
      there = rest.there;
      follows = Follows-trans first.follows rest.follows;
    }
