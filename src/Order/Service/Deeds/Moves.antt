-- ===== src/Order/Service/Deeds/Moves.antt =====
-- What each guarded update of a handler does to its order.
use flash_sale.Prelude.{ℕ, ℤ, pos, negsuc, zero, suc, positive, ◌+◌, true, some, ◌≡◌, arith}
use flash_sale.Text.{Text}
use flash_sale.Result.{ok}
use flash_sale.Order.Model.{Order, user_cancel}
use flash_sale.Order.Repository.{updated}
use flash_sale.Order.Repository.Operations
use flash_sale.Order.Updates.{PaymentInfo}
use flash_sale.Order.Repository.Operations.{
  Transition, update_of, pays_auto, pays_manual, cancels_unpaid, cancels_paid, approves, rejects,
  confirms,
}
use flash_sale.Order.Service.World.{Env}
use flash_sale.Order.Service.Input.{
  normalize_tracking_no, need_manual_review, is_manual_pending_for_cancel,
}
use flash_sale.Order.Service.Buyer.{payment_move, cancellation, virtual_refund_dur}
use flash_sale.Order.Service.Deeds.{
  SameDeal, Pays, Cancels, drops, pays_back, Closes, Approves, Rejects, Ships, Receives,
}
use flash_sale.Order.Service.Deeds.Rows.{Flags, unflagged, now_flagged}

pub kept_deal :
    (clock : ℕ) (t : Transition) (o o' : Order)
    → Flags (updated clock (update_of t) o) o'
    → SameDeal o o'
unfolding update_of
kept_deal clock t o o' (unflagged e) = record {
  id = ground (arith, e);
  order_no = ground (arith, e);
  user = ground (arith, e);
  source = ground (arith, e);
  product = ground (arith, e);
  units = ground (arith, e);
  price = ground (arith, e);
}
kept_deal clock t o o' (now_flagged at e) = record {
  id = ground (arith, e);
  order_no = ground (arith, e);
  user = ground (arith, e);
  source = ground (arith, e);
  product = ground (arith, e);
  units = ground (arith, e);
  price = ground (arith, e);
}

pub positive-pos : (v : ℤ) {n : ℕ} → positive v ≡ some n → v ≡ pos n
positive-pos (pos zero) h = absurd (ground (arith, h))
positive-pos (pos (suc n)) h = ground (arith, h)
positive-pos (negsuc n) h = absurd (ground (arith, h))

module _ (env : Env) (clock : ℕ) (o o' : Order) where
  pub received :
      (user : ℕ)
      → (update_of (confirms user env.now)).where_ o ≡ true
      → Flags (updated clock (update_of (confirms user env.now)) o) o'
      → Receives env o o'
  unfolding update_of
  received user g (unflagged e) = ground (arith, g, e)
  received user g (now_flagged at e) = ground (arith, g, e)

  pub paid_for :
      (user : ℕ) (info : PaymentInfo)
      → (update_of (payment_move o info env.now)).where_ o ≡ true
      → Flags (updated clock (update_of (payment_move o info env.now)) o) o'
      → Pays env o o'
  unfolding update_of payment_move need_manual_review
  paid_for user info g (unflagged e) = ground (arith, g, e)
  paid_for user info g (now_flagged at e) = ground (arith, g, e)

  pub cancelled :
      (t : Transition)
      → cancellation env.now o ≡ ok t
      → (update_of t).where_ o ≡ true
      → Flags (updated clock (update_of t) o) o'
      → Closes env user_cancel o' × Cancels env o o'
  unfolding update_of cancellation is_manual_pending_for_cancel
  cancelled (cancels_unpaid user now) c g (unflagged e) =
      (ground (arith, c, g, e), drops (ground (arith, g)) (ground (arith, e)))
  cancelled (cancels_unpaid user now) c g (now_flagged at e) =
      (ground (arith, c, g, e), drops (ground (arith, g)) (ground (arith, e)))
  cancelled (cancels_paid user now due) c g (unflagged e) =
      (ground (arith, c, g, e), pays_back (ground (arith, g)) (ground (arith, c, e)))
  cancelled (cancels_paid user now due) c g (now_flagged at e) =
      (ground (arith, c, g, e), pays_back (ground (arith, g)) (ground (arith, c, e)))
  cancelled t c g f = absurd (ground (arith, c))

  pub approved :
      (admin : ℤ) (n : ℕ) (reason : Text)
      → admin ≡ pos n
      → (update_of (approves n env.now reason)).where_ o ≡ true
      → Flags (updated clock (update_of (approves n env.now reason)) o) o'
      → Approves admin o o'
  unfolding update_of
  approved admin n reason a g (unflagged e) = ground (arith, a, g, e)
  approved admin n reason a g (now_flagged at e) = ground (arith, a, g, e)

  pub refused_by :
      (admin : ℤ) (n : ℕ) (reason : Text)
      → admin ≡ pos n
      → (update_of (rejects n env.now reason (env.now + virtual_refund_dur))).where_ o ≡ true
      → Flags
          (updated clock (update_of (rejects n env.now reason (env.now + virtual_refund_dur))) o)
          o'
      → Rejects env admin o o'
  unfolding update_of
  refused_by admin n reason a g (unflagged e) = ground (arith, a, g, e)
  refused_by admin n reason a g (now_flagged at e) = ground (arith, a, g, e)

  pub shipped_by :
      (admin : ℤ) (n : ℕ) (given number : Text)
      → admin ≡ pos n
      → normalize_tracking_no given ≡ ok number
      → (update_of (Operations.ships n number env.now)).where_ o ≡ true
      → Flags (updated clock (update_of (Operations.ships n number env.now)) o) o'
      → Ships admin given o o'
  unfolding update_of
  shipped_by admin n given number a p g (unflagged e) = ground (arith, a, p, g, e)
  shipped_by admin n given number a p g (now_flagged at e) = ground (arith, a, p, g, e)
