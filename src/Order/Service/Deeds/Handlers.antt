-- ===== src/Order/Service/Deeds/Handlers.antt =====
-- The handlers do the deeds that they are asked for, and no others.
use flash_sale.Prelude.{ℕ, ℤ, Bool, true, false, some, ◌≡◌, ◌⊎◌, ◌∙◌, sym, ap, nat_eq}
use flash_sale.Text.{Text}
use flash_sale.Order.Updates.{PaymentInfo}
use flash_sale.Order.Model.{Order, OrderDb}
use flash_sale.Order.Repository.{find_order}
use flash_sale.Order.Repository.Operations.{update_of}
use flash_sale.Order.Service.World.{World, Act, Env}
use flash_sale.Order.Service.Views.{OrderView}
use flash_sale.Order.Service.Steps.{both_ids}
use flash_sale.Order.Service.Input.{PaymentForm, check_payment, normalize_tracking_no}
use flash_sale.Order.Service.Buyer.{
  confirm_payment_and_info, cancel_order, confirm_receipt, payment_move, cancellation,
}
use flash_sale.Order.Service.Admin.{review_order_admin, review_move, ship_order_admin}
use flash_sale.Order.Service.Inversion.{both_ids_ok}
use flash_sale.Order.Service.Deeds.{
  Request, pays, cancels, confirms, reviews, ships, names, Deed, Pays,
}
use flash_sale.Order.Service.Deeds.Rows.{
  Row, Handled, Excused, MovedBy, decide-Handled, read-Handled, move-Handled,
}
use flash_sale.Order.Service.Deeds.Moves.{
  kept_deal, positive-pos, received, paid_for, cancelled, approved, refused_by, shipped_by,
}
use flash_sale.Order.Service.Deeds.Asked.{
  markings, loaded, asked_for, owned, after_review-IsMarking,
}

confirm_receipt-Handled :
    (env : Env) (user_id order_id : ℤ) (w : World)
    → Handled
        (Deed (confirms env user_id order_id))
        order_id
        w
        (confirm_receipt env user_id order_id w)
unfolding confirm_receipt
confirm_receipt-Handled env user_id order_id w =
    let D = Deed (confirms env user_id order_id) in
    decide-Handled D order_id _ w (both_ids user_id order_id) (λ ids e.
      let (u, i) = both_ids_ok user_id order_id ids e in
      read-Handled D order_id _ w _ _ (λ a q. decide-Handled D order_id _ w _ (λ _ mine.
        decide-Handled D order_id _ w _ (λ _ _.
          move-Handled _ a.id _ D order_id _ _ _ _ w (asked_for w.orders order_id a _ i q)
            (λ id o o' m.
              let l = loaded w.orders order_id a _ i q m in
              (
                l.named,
                owned user_id _ u mine l.same,
                kept_deal _ _ o o' m.after,
                received env _ o o' _ m.allowed m.after,
              ))
            (search markings depth 30)))))

-- What a payment does to the order that was loaded.
paid_as :
    (env : Env) {clock : ℕ} (db : OrderDb) (a : Order) (info : PaymentInfo) (id : ℕ) (o o' : Order)
    → a ≡ o
    → MovedBy clock a.id (payment_move a info env.now) db id o o'
    → Pays env o o'
paid_as env {clock} db a info id o o' same m =
    let t = ap (λ r. payment_move r info env.now) same in
    paid_for env clock o o' o.user_id info (ap (λ t. (update_of t).where_ o) (sym t) ∙ m.allowed)
      (rw t at m.after)

confirm_payment-Handled :
    (env : Env) (user_id order_id : ℤ) (form : PaymentForm) (w : World)
    → Handled
        (Deed (pays env user_id order_id form))
        order_id
        w
        (confirm_payment_and_info env user_id order_id form w)
unfolding confirm_payment_and_info
confirm_payment-Handled env user_id order_id form w =
    let D = Deed (pays env user_id order_id form) in
    decide-Handled D order_id _ w (both_ids user_id order_id) (λ ids e.
      let (u, i) = both_ids_ok user_id order_id ids e in
      read-Handled D order_id _ w _ _ (λ a q. decide-Handled D order_id _ w _ (λ _ mine.
        decide-Handled D order_id _ w _ (λ _ _.
          decide-Handled D order_id _ w (check_payment form) (λ info _.
            move-Handled _ a.id _ D order_id _ _ _ _ w (asked_for w.orders order_id a _ i q)
              (λ id o o' m.
                let l = loaded w.orders order_id a _ i q m in
                (
                  l.named,
                  owned user_id _ u mine l.same,
                  kept_deal _ _ o o' m.after,
                  paid_as env w.orders a info id o o' l.same m,
                ))
              (search markings depth 30))))))

cancel_order-Handled :
    (env : Env) (user_id order_id : ℤ) (reason : Text) (w : World)
    → Handled
        (Deed (cancels env user_id order_id reason))
        order_id
        w
        (cancel_order env user_id order_id reason w)
unfolding cancel_order
cancel_order-Handled env user_id order_id reason w =
    let D = Deed (cancels env user_id order_id reason) in
    decide-Handled D order_id _ w (both_ids user_id order_id) (λ ids e.
      let (u, i) = both_ids_ok user_id order_id ids e in
      read-Handled D order_id _ w _ _ (λ a q. decide-Handled D order_id _ w _ (λ _ mine.
        decide-Handled D order_id _ w _ (λ _ _.
          decide-Handled D order_id _ w (cancellation env.now a) (λ t c.
            move-Handled _ a.id t D order_id _ _ _ _ w (asked_for w.orders order_id a _ i q)
              (λ id o o' m.
                let l = loaded w.orders order_id a _ i q m in
                let k =
                  cancelled env _ o o' t (ap (cancellation env.now) (sym l.same) ∙ c) m.allowed
                    m.after in
                (l.named, owned user_id _ u mine l.same, kept_deal _ _ o o' m.after, k.0, k.1))
              (search markings depth 30))))))

ship_order-Handled :
    (env : Env) (order_id admin_id : ℤ) (number : Text) (w : World)
    → Handled
        (Deed (ships env order_id admin_id number))
        order_id
        w
        (ship_order_admin env order_id admin_id number w)
unfolding ship_order_admin
ship_order-Handled env order_id admin_id number w =
    let D = Deed (ships env order_id admin_id number) in
    decide-Handled D order_id _ w (both_ids order_id admin_id) (λ ids e.
      let (i, u) = both_ids_ok order_id admin_id ids e in
      decide-Handled D order_id _ w (normalize_tracking_no number) (λ parcel p.
        read-Handled D order_id _ w _ _ (λ a q. decide-Handled D order_id _ w _ (λ _ _.
          move-Handled _ a.id _ D order_id _ _ _ _ w (asked_for w.orders order_id a _ i q)
            (λ id o o' m.
              let l = loaded w.orders order_id a _ i q m in
              (
                l.named,
                kept_deal _ _ o o' m.after,
                shipped_by env _ o o' admin_id _ number parcel (positive-pos admin_id u) p m.allowed
                    m.after,
              ))
            (search markings depth 30)))))

review_order-Handled :
    (env : Env) (order_id admin_id : ℤ) (verdict : Bool) (reason : Text) (w : World)
    → Handled
        (Deed (reviews env order_id admin_id verdict reason))
        order_id
        w
        (review_order_admin env order_id admin_id verdict reason w)
unfolding review_order_admin review_move
review_order-Handled env order_id admin_id true reason w =
    let D = Deed (reviews env order_id admin_id true reason) in
    decide-Handled D order_id _ w (both_ids order_id admin_id) (λ ids e.
      let (i, u) = both_ids_ok order_id admin_id ids e in
      read-Handled D order_id _ w _ _ (λ a q. decide-Handled D order_id _ w _ (λ _ _.
        move-Handled _ a.id _ D order_id _ _ _ _ w (asked_for w.orders order_id a _ i q)
          (λ id o o' m.
            let l = loaded w.orders order_id a _ i q m in
            (
              l.named,
              kept_deal _ _ o o' m.after,
              approved env _ o o' admin_id _ _ (positive-pos admin_id u) m.allowed m.after,
            ))
          (search markings depth 30))))
review_order-Handled env order_id admin_id false reason w =
    let D = Deed (reviews env order_id admin_id false reason) in
    decide-Handled D order_id _ w (both_ids order_id admin_id) (λ ids e.
      let (i, u) = both_ids_ok order_id admin_id ids e in
      read-Handled D order_id _ w _ _ (λ a q. decide-Handled D order_id _ w _ (λ _ _.
        move-Handled _ a.id _ D order_id _ _ _ _ w (asked_for w.orders order_id a _ i q)
          (λ id o o' m.
            let l = loaded w.orders order_id a _ i q m in
            (
              l.named,
              kept_deal _ _ o o' m.after,
              refused_by env _ o o' admin_id _ _ (positive-pos admin_id u) m.allowed m.after,
            ))
          (search (markings, after_review-IsMarking) depth 30))))

abbrev pub handle : Request → Act OrderView
handle (pays env user_id order_id form) = confirm_payment_and_info env user_id order_id form
handle (cancels env user_id order_id reason) = cancel_order env user_id order_id reason
handle (confirms env user_id order_id) = confirm_receipt env user_id order_id
handle (reviews env order_id admin_id approved reason) =
    review_order_admin env order_id admin_id approved reason
handle (ships env order_id admin_id number) = ship_order_admin env order_id admin_id number

-- Whatever a request of a buyer or an administrator meets, every stored order has afterwards had
-- the deed done to it that the request asks for, or is what it was; and the second only if the
-- request names another order or is answered with an error. The deed is done to the order that the
-- request names, for a buyer the buyer's own, from the statuses that the deed starts from, and an
-- order is approved only by an approval and rejected only by a rejection, by the administrator who
-- asked.
pub handle-Deed :
    (r : Request) (w : World) (id : ℕ) (o : Order)
    → find_order id w.orders ≡ some o
    → Row id
        (handle r w).1.orders
        (λ o'. ((o' ≡ o) × Excused (names r) id (handle r w).0) ⊎ Deed r id o o')
handle-Deed (pays env user_id order_id form) w = confirm_payment-Handled env user_id order_id form w
handle-Deed (cancels env user_id order_id reason) w =
    cancel_order-Handled env user_id order_id reason w
handle-Deed (confirms env user_id order_id) w = confirm_receipt-Handled env user_id order_id w
handle-Deed (reviews env order_id admin_id approved reason) w =
    review_order-Handled env order_id admin_id approved reason w
handle-Deed (ships env order_id admin_id number) w =
    ship_order-Handled env order_id admin_id number w
