-- ===== src/Order/Service/Delivery/Consumer.antt =====
-- apps/order/rpc/internal/logic/purchase_create_consumer.go: what becomes of a consumed message.
use flash_sale.Prelude.{
  ℕ, zero, suc, Bool, false, some, List, [], ◌∷◌, ◌++◌, ◌≡◌, ◌⊎◌, inl, inr, refl, sym, ap, ◌∙◌,
  arith, Bool-cases,
}
use flash_sale.Text.{Text, text}
use flash_sale.Result.{Result, ok, err}
use flash_sale.Errorx.{Code}
use flash_sale.Order.Model.{OrderDb}
use flash_sale.Order.Service.Views.{OrderView}
use flash_sale.Order.Service.World.{
  World, Act, Post, Publish, sent, unsent, unconfirmed, publish, catch,
}
use flash_sale.Order.Service.Inversion.{bind_ok, decide_ok, answer_ok, outcome}
use flash_sale.Order.Service.Consumer.{
  PurchaseEvent, Attempt, Broker, is_valid_event, is_non_retryable, publish_stock_compensate,
  request_of, form_of, Ending, created, refused, exhausted, interrupted, judge, retry_count,
  attempt_create, try_create, give_up, finish, consume_event, consume_message,
}
use flash_sale.Order.Service.Delivery.{Ordered, create_ok}

-- The last thing that was published is the request to give the purchase's stock back.
pub record Asked (broker : Broker) (e : PurchaseEvent) (w : World) : Type 0 where
  pub earlier : List Post
  pub last : w.posted ≡ earlier ++ request_of broker e ∷ []

publish-last :
    (p : Publish) (post : Post) (w w' : World)
    → publish p post w ≡ (ok tt, w')
    → w'.posted ≡ w.posted ++ post ∷ []
unfolding publish
publish-last sent post w w' h = ap (λ r. r.1.posted) (sym h)
publish-last unsent post w w' h = absurd (ground (arith, h))
publish-last unconfirmed post w w' h = absurd (ground (arith, h))

give_up-Asked :
    (broker : Broker) (reason : Text) (e : PurchaseEvent) (w w' : World)
    → give_up broker reason e w ≡ (ok tt, w')
    → Asked broker e w'
unfolding give_up publish_stock_compensate
give_up-Asked broker reason e w w' h =
    let s = bind_ok _ _ w tt w' h in
    record {
      earlier = s.mid.posted;
      last = publish-last broker.compensate (request_of broker e) s.mid w' s.rest;
    }

caught :
    {A : Type 0} (m : Act A) (w w' : World) (r : Result Code A)
    → catch m w ≡ (ok r, w')
    → m w ≡ (r, w')
unfolding catch
caught m w w' r h = ground (arith, h)

judged :
    (r : Result Code OrderView) (stop : Bool) (again : Act Ending) (w w' : World)
    → judge r stop again w ≡ (ok created, w')
    → ((v : OrderView) × (r ≡ ok v) × (w' ≡ w)) ⊎ (again w ≡ (ok created, w'))
unfolding judge
judged (ok v) stop again w w' h = inl (v, refl, (answer_ok _ w created w' h).1)
judged (err c) stop again w w' h = elim (Bool-cases (is_non_retryable c)) [
  | inl b ↦ absurd (let e = answer_ok refused w created w' (rw b at h) in ground (arith, e.0))
  | inr b ↦ elim (Bool-cases stop) [
    | inl s ↦
        absurd (let e = answer_ok interrupted w created w' (rw (b, s) at h) in ground (arith, e.0))
    | inr s ↦ inr (rw (b, s) at h)
  ]
]

module _ (sha1_hex : Text → Text) where
  Ordered-kept :
      (e : PurchaseEvent) (db db' : OrderDb)
      → db' ≡ db
      → Ordered sha1_hex (form_of e) db
      → Ordered sha1_hex (form_of e) db'
  Ordered-kept e db db' q h = rw q h

  attempt-Ordered :
      (a : Attempt) (e : PurchaseEvent) (w mid w' : World) (r : Result Code OrderView)
      → catch (attempt_create sha1_hex a e) w ≡ (ok r, mid)
      → (v : OrderView) × (r ≡ ok v) × (w' ≡ mid)
      → Ordered sha1_hex (form_of e) w'.orders
  attempt-Ordered a e w mid w' r h (v, q, same) =
      Ordered-kept e mid.orders w'.orders (ap (λ u. u.orders) same) (
        create_ok sha1_hex a.busy a.canceled a.env a.id (form_of e) w mid v
          (caught (attempt_create sha1_hex a e) w mid r h ∙ ap (λ x. (x, mid)) q))

  try_create-Ordered :
      (attempts : ℕ → Attempt) (retries : ℕ) (e : PurchaseEvent) (w w' : World)
      → try_create sha1_hex attempts retries e w ≡ (ok created, w')
      → Ordered sha1_hex (form_of e) w'.orders
  unfolding try_create
  try_create-Ordered attempts zero e w w' h =
      let s = bind_ok _ _ w created w' h in
      elim (judged s.value false _ s.mid w' s.rest) [
        | inl x ↦ attempt-Ordered (attempts 0) e w s.mid w' s.value s.first x
        | inr x ↦ absurd (let q = answer_ok exhausted s.mid created w' x in ground (arith, q.0))
      ]
  try_create-Ordered attempts (suc retries) e w w' h =
      let s = bind_ok _ _ w created w' h in
      elim (judged s.value (attempts 0).interrupted _ s.mid w' s.rest) [
        | inl x ↦ attempt-Ordered (attempts 0) e w s.mid w' s.value s.first x
        | inr x ↦ try_create-Ordered (λ n. attempts (suc n)) retries e s.mid w' x
      ]

  finished :
      (broker : Broker) (e : PurchaseEvent) (ending : Ending) (w w' : World)
      → (ending ≡ created → Ordered sha1_hex (form_of e) w.orders)
      → finish broker e ending w ≡ (ok tt, w')
      → Ordered sha1_hex (form_of e) w'.orders ⊎ Asked broker e w'
  unfolding finish
  finished broker e created w w' f h =
      inl
        (Ordered-kept e w.orders w'.orders (ap (λ u. u.orders) (answer_ok tt w tt w' h).1) (f refl))
  finished broker e refused w w' f h = inr (give_up-Asked broker _ e w w' h)
  finished broker e exhausted w w' f h = inr (give_up-Asked broker _ e w w' h)
  finished broker e interrupted w w' f h =
      absurd (let q = decide_ok _ w tt w' h in ground (arith, q.0))

  consumed :
      (attempts : ℕ → Attempt) (broker : Broker) (e : PurchaseEvent) (w w' : World)
      → consume_message sha1_hex attempts broker (some e) w ≡ (ok tt, w')
      → Ordered sha1_hex (form_of e) w'.orders ⊎ Asked broker e w'
  unfolding consume_message consume_event
  consumed attempts broker e w w' h = elim (Bool-cases (is_valid_event e)) [
    | inl b ↦
        let s = bind_ok (try_create sha1_hex attempts retry_count e) _ w tt w' (rw b at h) in
        finished broker e s.value s.mid w'
          (λ q.
            try_create-Ordered attempts retry_count e w s.mid (s.first ∙ ap (λ x. (ok x, s.mid)) q))
          s.rest
    | inr b ↦ inr (give_up-Asked broker (text "invalid_payload") e w w' (rw b at h))
  ]

  -- A message that is consumed without an error has not been dropped, whatever failed on the way:
  -- either an order of its buyer, activity and item is there under the purchase's number, or the
  -- request to give its stock back is the last thing that was published.
  pub consume_message_drops_nothing :
      (attempts : ℕ → Attempt) (broker : Broker) (e : PurchaseEvent) (w : World)
      → (consume_message sha1_hex attempts broker (some e) w).0 ≡ ok tt
      → let later = (consume_message sha1_hex attempts broker (some e) w).1 in
        Ordered sha1_hex (form_of e) later.orders ⊎ Asked broker e later
  consume_message_drops_nothing attempts broker e w h =
      consumed attempts broker e w _
        (outcome (consume_message sha1_hex attempts broker (some e)) w tt h)
