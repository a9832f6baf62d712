-- ===== src/Order/Service/Deeds/Rows.antt =====
-- What an action does to the stored orders, one by one: the row with an id, before and after.
use flash_sale.Prelude.{
  ℕ, ℤ, pos, Bool, true, false, some, List, ◌≡◌, ◌⊎◌, ◌∙◌, refl, sym, ap, arith, inl, inr, nat_beq,
  nat_beq_iff, Bool-cases, if◌then◌else◌,
}
use flash_sale.Result.{Result, ok, err, map_err}
use flash_sale.Sql.{Faults, find-update, run_tx_induction, run_tx_rollback, run_tx-eq_ok}
use flash_sale.Errorx.{Code}
use flash_sale.Order.Model.{Order, OrderDb, OrderErr, OrderEvent}
use flash_sale.Product.Model.{ProductDb}
use flash_sale.Order.Repository.{find_order, updated, exec_with_event, mark_stock_released}
use flash_sale.Order.Repository.Operations.{
  apply_op, update_of, moves, releases, Transition, Moved, exec_with_event-Moved, Released, flagged,
  already, mark_stock_released-Released,
}
use flash_sale.Order.Service.World.{
  World, Act, StateEvent, Rpc, delivered, undelivered, unanswered, continue, ◌>>=◌, ◌>>◌, decide,
  read, write, written, emit, call_product,
}

-- The row with the id is there, and satisfies the predicate.
pub record Row (id : ℕ) (db : OrderDb) (P : Order → Type 0) : Type 0 where
  pub row : Order
  pub there : find_order id db ≡ some row
  pub holds : P row

abbrev with_flag : ℕ → Order → Order
with_flag at o = record o { stock_released = true; updated_at = at }

-- The order as it was, or with its stock flag set.
pub data Flags (o o' : Order) : Type 0 where
  unflagged : o' ≡ o → Flags o o'
  now_flagged : (at : ℕ) → o' ≡ with_flag at o → Flags o o'

Flags-trans : {o p q : Order} → Flags o p → Flags p q → Flags o q
Flags-trans f (unflagged e) = rw e f
Flags-trans (unflagged e) (now_flagged at d) = now_flagged at (rw e at d)
Flags-trans (now_flagged b e) (now_flagged at d) = now_flagged at (d ∙ ap (with_flag at) e)

-- Nothing but the stock flag of the order `j` may have changed.
pub record Marks (j : ℕ) (db db' : OrderDb) : Type 0 where
  pub others :
      (id : ℕ) (o : Order)
      → find_order id db ≡ some o
      → nat_beq j id ≡ false
      → find_order id db' ≡ some o
  pub own : (o : Order) → find_order j db ≡ some o → Row j db' (Flags o)

Marks-refl : (j : ℕ) (db : OrderDb) → Marks j db db
Marks-refl j db = record {
  others = λ id o f b. f;
  own = λ o f. record { row = o; there = f; holds = unflagged refl };
}

Marks-trans : {j : ℕ} {a b c : OrderDb} → Marks j a b → Marks j b c → Marks j a c
Marks-trans m n = record {
  others = λ id o f x. n.others id o (m.others id o f x) x;
  own = λ o f.
      let r = m.own o f in
      let s = n.own r.row r.there in
      record { row = s.row; there = s.there; holds = Flags-trans r.holds s.holds };
}

Released-Marks :
    {clock j now : ℕ} {event : OrderEvent} {db db' : OrderDb}
    → Released clock j now event db db'
    → Marks j db db'
Released-Marks {j = j} {db = db} (already o f b e) = rw e (Marks-refl j db)
Released-Marks {j = j} {now = now} {db = db} (flagged p f b e) =
    let g = with_flag now in
    rw e (record {
      others =
          λ id o h x. ground (arith, h, x, find-update (λ r. r.id) id j g db.orders (λ _. refl));
      own = λ o h. record {
        row = g o;
        there = ground (arith, h, find-update (λ r. r.id) j j g db.orders (λ _. refl));
        holds = now_flagged now refl;
      };
    })

-- An action that, whatever it answers, marks only the order `j`.
pub record IsMarking {A : Type 0} (j : ℕ) (m : Act A) : Type 0 where
  pub marks : (w : World) → Marks j w.orders (m w).1.orders

continued :
    {A B : Type 0} (j : ℕ) (r : Result Code A × World) (f : A → Act B) (w : World)
    → Marks j w.orders r.1.orders
    → ((a : A) → IsMarking j (f a))
    → Marks j w.orders (continue r f).1.orders
unfolding continue
continued j (ok a, v) f w p h = Marks-trans p ((h a).marks v)
continued j (err c, v) f w p h = p

pub bind-IsMarking :
    {A B : Type 0} {j : ℕ} {m : Act A} {f : A → Act B}
    → IsMarking j m
    → ((a : A) → IsMarking j (f a))
    → IsMarking j (m >>= f)
unfolding ◌>>=◌
bind-IsMarking {j = j} {m = m} {f = f} p h = record {
  marks = λ w. continued j (m w) f w (p.marks w) h;
}

pub decide-IsMarking : {A : Type 0} {j : ℕ} (r : Result Code A) → IsMarking j (decide r)
unfolding decide
decide-IsMarking {j = j} r = record { marks = λ w. Marks-refl j w.orders }

pub read-IsMarking :
    {A : Type 0} {j : ℕ} (code : OrderErr → Code) (query : OrderDb → Result OrderErr A)
    → IsMarking j (read code query)
unfolding read
read-IsMarking {j = j} code query = record { marks = λ w. Marks-refl j w.orders }

pub emit-IsMarking : {j : ℕ} (events : List StateEvent) → IsMarking j (emit events)
unfolding emit
emit-IsMarking {j = j} events = record { marks = λ w. Marks-refl j w.orders }

pub call_product-IsMarking :
    {A : Type 0} {j : ℕ} (rpc : Rpc) (handler : Faults → ℕ → ProductDb → Result Code A × ProductDb)
    → IsMarking j (call_product rpc handler)
unfolding call_product
call_product-IsMarking {j = j} (delivered faults now) handler = record {
  marks = λ w. Marks-refl j w.orders;
}
call_product-IsMarking {j = j} (undelivered c) handler = record {
  marks = λ w. Marks-refl j w.orders;
}
call_product-IsMarking {j = j} (unanswered faults now c) handler = record {
  marks = λ w. Marks-refl j w.orders;
}

pub if-IsMarking :
    {A : Type 0} {j : ℕ} (b : Bool) {m n : Act A}
    → IsMarking j m
    → IsMarking j n
    → IsMarking j (if b then m else n)
if-IsMarking true p q = p
if-IsMarking false p q = q

releases-Marks :
    (faults : Faults) (clock j now : ℕ) (event : OrderEvent) (db : OrderDb)
    → Marks j db (apply_op (releases faults clock j now event) db).1
unfolding apply_op
releases-Marks faults clock j now event db =
    run_tx_induction (Marks j db) (mark_stock_released faults clock j now event) db
      (Marks-refl j db)
      (λ _ db' h. Released-Marks (mark_stock_released-Released faults clock j now event db db' h))

pub flag-IsMarking :
    (code : OrderErr → Code) (faults : Faults) (clock j now : ℕ) (event : OrderEvent)
    → IsMarking j (write code (releases faults clock j now event))
unfolding write
flag-IsMarking code faults clock j now event = record {
  marks = λ w. releases-Marks faults clock j now event w.orders;
}

-- Why a request for one order leaves another order, or all of them, alone.
pub data Excused {A : Type 0} (asked : ℤ) (id : ℕ) (answer : Result Code A) : Type 0 where
  names_another : ¬ (asked ≡ pos id) → Excused asked id answer
  answers_error : (c : Code) → answer ≡ err c → Excused asked id answer

-- Each stored order has had `D` done to it, or is what it was, for a reason.
abbrev pub Handled :
    {A : Type 0} → (ℕ → Order → Order → Type 0) → ℤ → World → Result Code A × World → Type 0
Handled D asked w r =
    (id : ℕ) (o : Order)
    → find_order id w.orders ≡ some o
    → Row id r.1.orders (λ o'. ((o' ≡ o) × Excused asked id r.0) ⊎ D id o o')

module _ {A B : Type 0} (D : ℕ → Order → Order → Type 0) (asked : ℤ) (f : A → Act B)
    (w : World) where
  decided :
      (r : Result Code A)
      → ((a : A) → r ≡ ok a → Handled D asked w (f a w))
      → Handled D asked w (continue (r, w) f)
  unfolding continue
  decided (ok a) h = h a refl
  decided (err c) h =
      λ id o g. record { row = o; there = g; holds = inl (refl, answers_error c refl) }

  -- What a handler decides and reads before it writes is known to what comes after.
  pub decide-Handled :
      (r : Result Code A)
      → ((a : A) → r ≡ ok a → Handled D asked w (f a w))
      → Handled D asked w ((decide r >>= f) w)
  unfolding ◌>>=◌ decide
  decide-Handled r h = decided r h

  pub read-Handled :
      (code : OrderErr → Code) (query : OrderDb → Result OrderErr A)
      → ((a : A) → query w.orders ≡ ok a → Handled D asked w (f a w))
      → Handled D asked w ((read code query >>= f) w)
  unfolding ◌>>=◌ read
  read-Handled code query h =
      decided (map_err code (query w.orders)) (λ a e. h a (ground (arith, e)))

-- The order `j`, moved by a guarded update that its `WHERE` let through, and perhaps flagged.
pub record MovedBy (clock j : ℕ) (t : Transition) (db : OrderDb) (id : ℕ) (o o' : Order)
    : Type 0 where
  pub stored : find_order id db ≡ some o
  pub named : id ≡ j
  pub allowed : (update_of t).where_ o ≡ true
  pub after : Flags (updated clock (update_of t) o) o'

module _ (clock j : ℕ) (t : Transition) where
  row_after_move :
      (event : OrderEvent) (db db₁ db' : OrderDb)
      → Moved clock j (update_of t) event db db₁
      → Marks j db₁ db'
      → (id : ℕ) (o : Order) → find_order id db ≡ some o
      → Row id db' (λ o'. ((o' ≡ o) × (nat_beq j id ≡ false)) ⊎ MovedBy clock j t db id o o')
  row_after_move event db db₁ db' m k id o f = elim (Bool-cases (nat_beq j id)) [
    | inr b ↦ record {
      row = o;
      there =
          k.others id o
            (rw m.orders (
              ground (
                arith,
                b,
                f,
                find-update (λ r. r.id) id j (updated clock (update_of t)) db.orders (λ _. refl),
              )))
            b;
      holds = inl (refl, b);
    }
    | inl b ↦
        let same : j ≡ id = ground (arith, b, nat_beq_iff j id) in
        let this : m.row ≡ o = ground (arith, same, m.there, f) in
        let at_j : find_order j db ≡ some o = rw same f in
        let r = k.own (updated clock (update_of t) o) (
          rw m.orders (
            ground (
              arith,
              at_j,
              find-update (λ r. r.id) j j (updated clock (update_of t)) db.orders (λ _. refl),
            ))) in
        record {
          row = r.row;
          there = ap (λ k. find_order k db') (sym same) ∙ r.there;
          holds = inr (record {
            stored = f;
            named = sym same;
            allowed = ap (update_of t).where_ (sym this) ∙ m.allowed;
            after = r.holds;
          });
        }
  ]

  module _ {B : Type 0} (D : ℕ → Order → Order → Type 0) (asked : ℤ) (faults : Faults)
      (event : OrderEvent) (code : OrderErr → Code) (rest : Act B) (w : World) where
    done :
        {id : ℕ} {o : Order} {answer : Result Code B} (o' : Order)
        → asked ≡ pos j
        → ((id : ℕ) (o o' : Order) → MovedBy clock j t w.orders id o o' → D id o o')
        → ((o' ≡ o) × (nat_beq j id ≡ false)) ⊎ MovedBy clock j t w.orders id o o'
        → ((o' ≡ o) × Excused asked id answer) ⊎ D id o o'
    done {id} o' n d (inl (e, b)) =
        inl (e, names_another (λ p. ground (arith, n, p, b, nat_beq_iff j id)))
    done {id} {o} o' n d (inr m) = inr (d id o o' m)

    after_write :
        (r : Result OrderErr (Unit {0}) × OrderDb)
        → apply_op (moves faults clock j t event) w.orders ≡ r
        → asked ≡ pos j
        → ((id : ℕ) (o o' : Order) → MovedBy clock j t w.orders id o o' → D id o o')
        → IsMarking j rest
        → Handled D asked w (continue (written code r w) (λ _. rest))
    unfolding continue apply_op
    after_write (err e, db₁) q n d k id o f =
        let same : db₁ ≡ w.orders =
          ap (λ p. p.1) (sym q)
          ∙ run_tx_rollback (exec_with_event faults clock j (update_of t) event) w.orders
              (ap (λ p. p.0) q) in
        record { row = o; there = rw same f; holds = inl (refl, answers_error _ refl) }
    after_write (ok tt, db₁) q n d k id o f =
        let wrote = exec_with_event-Moved faults clock j (update_of t) event w.orders _ (
          run_tx-eq_ok (exec_with_event faults clock j (update_of t) event) w.orders
            (ap (λ p. p.0) q)) in
        let at = record w { orders = db₁ } in
        let r =
          row_after_move event w.orders db₁ (rest at).1.orders (rw (ap (λ p. p.1) q) at wrote)
            (k.marks at) id o f in
        record { row = r.row; there = r.there; holds = done r.row n d r.holds }

    -- A guarded update of the order `j`, and then actions that at most mark it.
    pub move-Handled :
        asked ≡ pos j
        → ((id : ℕ) (o o' : Order) → MovedBy clock j t w.orders id o o' → D id o o')
        → IsMarking j rest
        → Handled D asked w ((write code (moves faults clock j t event) >> rest) w)
    unfolding ◌>>=◌ write
    move-Handled n d k = after_write _ refl n d k
