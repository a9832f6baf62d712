-- ===== src/Seckill/Cache/Undo.antt =====
-- Undoing a reservation in the cache, and repeating its calls.
use flash_sale.Prelude.{
  ℕ, ℤ, positive, ◌+◌, ◌-◌, ◌≤◌, ◌<◌, true, Option, none, some, ltb, if◌then◌else◌, ◌≡◌, ◌∙◌, ◌⊎◌,
  refl, arith,
}
use flash_sale.Seckill.Model.{UserLimitMode, no_limit, window_completed}
use flash_sale.Seckill.Cache.{
  Slot, success, duplicate, live, count_of, reserve_purchase_script, rollback_reserve_script,
  release_by_close_script, rollback_units, release_units,
}
use flash_sale.Seckill.Cache.Limits.{CacheSold, reserve_purchase_script-CacheSold}

-- The units of stock and the user's units of two slots are the same.
pub record SameUnits (a b : Slot) : Type 0 where
  pub stock : count_of a.stock ≡ count_of b.stock
  pub bought : count_of a.bought ≡ count_of b.bought
  pub no_request : a.request ≡ none

-- While the request's key is live, a reservation under it is a duplicate.
duplicate_while_live :
    (clock : ℕ) (quantity : ℤ) (max_qty : ℕ) (mode : UserLimitMode) (limit window_sec now_ts : ℕ)
    (slot : Slot) {q : ℕ}
    → live clock slot.request ≡ true
    → positive quantity ≡ some q
    → (max_qty ≡ 0) ⊎ (q ≤ max_qty)
    → reserve_purchase_script clock quantity max_qty mode limit window_sec now_ts slot
      ≡ ((duplicate, 0, 0), slot)
unfolding reserve_purchase_script
duplicate_while_live clock quantity max_qty mode limit window_sec now_ts slot l p m =
    ground (arith, l, p, m)

freed :
    (clock : ℕ) (q : Option ℕ) (mode : UserLimitMode) (slot : Slot)
    → (rollback_units clock q mode slot).0 ≡ 1
    → (rollback_units clock q mode slot).1.request ≡ none
freed clock none mode slot h = absurd (ground (arith))
freed clock (some q) mode slot h = ground arith

spent_request :
    (clock : ℕ) (quantity : ℤ) (mode : UserLimitMode) (slot : Slot)
    → slot.request ≡ none
    → rollback_units clock (positive quantity) mode slot ≡ (0, slot)
spent_request clock quantity mode slot h = ground (arith, h)

marked :
    (clock ttl : ℕ) (q : Option ℕ) (mode : UserLimitMode) (slot : Slot) {later : ℕ}
    → (release_units clock q mode ttl slot).0 ≡ 1
    → later < clock + ttl
    → live later (release_units clock q mode ttl slot).1.close_mark ≡ true
marked clock ttl none mode slot h t = absurd (ground (arith))
marked clock ttl (some q) mode slot h t = ground arith

spent_mark :
    (clock ttl : ℕ) (q : Option ℕ) (mode : UserLimitMode) (slot : Slot)
    → live clock slot.close_mark ≡ true
    → release_units clock q mode ttl slot ≡ (0, slot)
spent_mark clock ttl none mode slot h = refl
spent_mark clock ttl (some q) mode slot h = ground (arith, h)

-- The user's units off which a rollback takes its own.
abbrev less : ℕ → UserLimitMode → ℕ → ℕ
less q no_limit n = n - q
less q window_completed n = n

rolled_counts :
    (clock : ℕ) (quantity : ℤ) (mode : UserLimitMode) (slot : Slot) {q : ℕ}
    → live clock slot.request ≡ true
    → positive quantity ≡ some q
    → count_of (rollback_reserve_script clock quantity mode slot).1.bought
      ≡ less q mode (count_of slot.bought)
unfolding rollback_reserve_script
rolled_counts clock quantity no_limit slot l p = ground (arith, l, p)
rolled_counts clock quantity window_completed slot l p = ground (arith, l, p)

counts_back :
    (mode : UserLimitMode) (limit q n m : ℕ)
    → m ≡ elim mode [ no_limit ↦ if ltb 0 limit then n + q else n | window_completed ↦ n ]
    → (mode ≡ window_completed) ⊎ (0 < limit)
    → less q mode m ≡ n
counts_back no_limit limit q n m e l = ground (arith, e, l)
counts_back window_completed limit q n m e l = ground (arith, e, l)

module _ (clock : ℕ) (quantity : ℤ) (max_qty : ℕ) (mode : UserLimitMode)
    (limit window_sec now_ts : ℕ) (slot : Slot) where
  abbrev after : Slot
  after = (reserve_purchase_script clock quantity max_qty mode limit window_sec now_ts slot).1

  rolled_back :
      (later : ℕ)
      → CacheSold clock quantity max_qty mode limit window_sec now_ts slot after
      → later < clock + 60
      → (mode ≡ window_completed) ⊎ (0 < limit)
      → ((rollback_reserve_script later quantity mode after).0 ≡ 1)
        × SameUnits (rollback_reserve_script later quantity mode after).1 slot
  unfolding rollback_reserve_script
  rolled_back later s t l = (
    ground (arith, s.asked, s.claimed),
    record {
      stock = ground (arith, s.asked, s.claimed, s.left, s.had, s.enough);
      bought =
          rolled_counts later quantity mode after (ground (arith, s.claimed)) s.asked
          ∙ counts_back mode limit s.q (count_of slot.bought) (count_of after.bought) s.counted l;
      no_request = ground (arith, s.asked, s.claimed);
    },
  )

  -- Undoing a reservation that the cache granted, before its request key expires, gives its stock
  -- back and, where the item counts the user's units, the user's number as it was, and frees the
  -- request; an item without a limit that counts units in no window is the exception.
  pub rollback_reserve_script-SameUnits :
      (later : ℕ)
      → (reserve_purchase_script clock quantity max_qty mode limit window_sec now_ts slot).0.0
        ≡ success
      → later < clock + 60
      → (mode ≡ window_completed) ⊎ (0 < limit)
      → ((rollback_reserve_script later quantity mode after).0 ≡ 1)
        × SameUnits (rollback_reserve_script later quantity mode after).1 slot
  rollback_reserve_script-SameUnits later h t l =
      rolled_back later
        (reserve_purchase_script-CacheSold clock quantity max_qty mode limit window_sec now_ts slot
          h)
        t l

  -- Within sixty seconds of a reservation that the cache granted, another one under the same request
  -- key, of any positive quantity that the item allows in an order, is told that it is a duplicate
  -- and changes nothing.
  pub reserve_purchase_script_once :
      (later : ℕ) (quantity' : ℤ) (max_qty' : ℕ) (mode' : UserLimitMode)
      (limit' window_sec' now_ts' : ℕ) {q : ℕ}
      → (reserve_purchase_script clock quantity max_qty mode limit window_sec now_ts slot).0.0
        ≡ success
      → later < clock + 60
      → positive quantity' ≡ some q
      → (max_qty' ≡ 0) ⊎ (q ≤ max_qty')
      → reserve_purchase_script later quantity' max_qty' mode' limit' window_sec' now_ts' after
        ≡ ((duplicate, 0, 0), after)
  reserve_purchase_script_once later quantity' max_qty' mode' limit' window_sec' now_ts' h t p m =
      let s =
        reserve_purchase_script-CacheSold clock quantity max_qty mode limit window_sec now_ts slot
          h in
      duplicate_while_live later quantity' max_qty' mode' limit' window_sec' now_ts' after
        (ground (arith, s.claimed)) p m

-- A rollback that answers 1 is done once: until the request is made again, one more answers 0 and
-- changes nothing.
pub rollback_reserve_script_once :
    (clock later : ℕ) (quantity quantity' : ℤ) (mode mode' : UserLimitMode) (slot : Slot)
    → (rollback_reserve_script clock quantity mode slot).0 ≡ 1
    → let after = (rollback_reserve_script clock quantity mode slot).1 in
      rollback_reserve_script later quantity' mode' after ≡ (0, after)
unfolding rollback_reserve_script
rollback_reserve_script_once clock later quantity quantity' mode mode' slot h =
    spent_request later quantity' mode' _ (freed clock _ mode slot h)

-- The release of a closed order that answers 1 is done once within its time to live: one more
-- answers 0 and changes nothing.
pub release_by_close_script_once :
    (clock later ttl ttl' : ℕ) (quantity quantity' : ℤ) (mode mode' : UserLimitMode) (slot : Slot)
    → (release_by_close_script clock quantity mode ttl slot).0 ≡ 1
    → later < clock + ttl
    → let after = (release_by_close_script clock quantity mode ttl slot).1 in
      release_by_close_script later quantity' mode' ttl' after ≡ (0, after)
unfolding release_by_close_script
release_by_close_script_once clock later ttl ttl' quantity quantity' mode mode' slot h t =
    spent_mark later ttl' _ mode' _ (marked clock ttl _ mode slot h t)
