-- ===== src/Seckill/Cache/Limits.antt =====
-- What a reservation in the cache respects, and what a refused one leaves.
use flash_sale.Prelude.{
  ℕ, ℤ, positive, ◌+◌, ◌-◌, ◌≤◌, false, Option, none, some, ltb, if◌then◌else◌, ◌≡◌, ◌≢◌, ◌⊎◌, inl,
  refl, arith, length,
}
use flash_sale.Seckill.Model.{UserLimitMode, no_limit, window_completed}
use flash_sale.Seckill.Cache.{
  Slot, success, Reply, live, count_of, in_window, reserve_purchase_script,
}

-- The user's units after the reservation, as the item's limit mode counts them.
abbrev pub units_held : UserLimitMode → ℕ → ℕ → ℕ → Slot → ℕ
units_held no_limit q now_ts window_sec slot = count_of slot.bought + q
units_held window_completed q now_ts window_sec slot =
    length (in_window now_ts window_sec slot.completed) + q

-- A reservation that the cache let through, from `slot` to `slot'`.
pub record CacheSold (clock : ℕ) (quantity : ℤ) (max_qty : ℕ) (mode : UserLimitMode)
    (limit window_sec now_ts : ℕ) (slot slot' : Slot) : Type 0 where
  pub q : ℕ
  pub before : ℕ
  pub asked : positive quantity ≡ some q
  pub had : slot.stock ≡ some before
  pub enough : q ≤ before
  pub left : slot'.stock ≡ some (before - q)
  pub order_allows : (max_qty ≡ 0) ⊎ (q ≤ max_qty)
  pub user_allows : (limit ≡ 0) ⊎ (units_held mode q now_ts window_sec slot ≤ limit)
  pub was_new : live clock slot.request ≡ false
  pub claimed : slot'.request ≡ some (clock + 60)
  pub counted : count_of slot'.bought ≡ elim mode [
    | no_limit ↦ if ltb 0 limit then count_of slot.bought + q else count_of slot.bought
    | window_completed ↦ count_of slot.bought
  ]
  pub marks : slot'.close_mark ≡ slot.close_mark

module _ (clock : ℕ) (quantity : ℤ) (max_qty : ℕ) (mode : UserLimitMode)
    (limit window_sec now_ts : ℕ) (slot : Slot) where
  abbrev reserved : Reply × Slot
  reserved = reserve_purchase_script clock quantity max_qty mode limit window_sec now_ts slot

  sold_step :
      (p : Option ℕ) (s : Option ℕ)
      → positive quantity ≡ p
      → slot.stock ≡ s
      → reserved.0.0 ≡ success
      → CacheSold clock quantity max_qty mode limit window_sec now_ts slot reserved.1
  unfolding reserve_purchase_script
  sold_step none s e f h = absurd (ground (arith, e))
  sold_step (some q) none e f h = absurd (ground (arith, e, f))
  sold_step (some q) (some stock) e f h = record {
    q = q;
    before = stock;
    asked = e;
    had = f;
    enough = ground (arith, e, f);
    left = ground (arith, e, f);
    order_allows = ground (arith, e, f);
    user_allows = ground (arith, e, f);
    was_new = ground (arith, e, f);
    claimed = ground (arith, e, f);
    counted = ground (arith, e, f);
    marks = ground (arith, e, f);
  }

  -- A reservation that the cache script grants found the stock and took exactly the units asked for,
  -- within the item's units per order and the user's limit as the item's mode counts it, under a
  -- request key that was not live and is claimed for sixty seconds.
  pub reserve_purchase_script-CacheSold :
      reserved.0.0 ≡ success
      → CacheSold clock quantity max_qty mode limit window_sec now_ts slot reserved.1
  reserve_purchase_script-CacheSold h = sold_step _ _ refl refl h

  refused_step :
      (p : Option ℕ) (s : Option ℕ)
      → positive quantity ≡ p
      → slot.stock ≡ s
      → reserved.0.0 ≢ success
      → (reserved.1 ≡ slot)
        ⊎ (reserved.1 ≡ record slot { completed = in_window now_ts window_sec slot.completed })
  unfolding reserve_purchase_script
  refused_step none s e f h = inl (ground (arith, e))
  refused_step (some q) none e f h = inl (ground (arith, e, f))
  refused_step (some q) (some stock) e f h = ground (arith, e, f)

  -- A reservation that the cache script does not grant leaves the values of its keys as they were,
  -- but for completed units that may be dropped because they have left the user's window.
  pub refused_reserve_keeps_slot :
      reserved.0.0 ≢ success
      → (reserved.1 ≡ slot)
        ⊎ (reserved.1 ≡ record slot { completed = in_window now_ts window_sec slot.completed })
  refused_reserve_keeps_slot h = refused_step _ _ refl refl h
