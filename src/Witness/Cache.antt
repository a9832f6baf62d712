-- ===== src/Witness/Cache.antt =====
-- One user's requests for an item with ten units in the cache.
use flash_sale.Prelude.{◌≡◌, ◌⊎◌, inr, refl, none, some, pos, [], arith}
use flash_sale.Seckill.Model.{no_limit}
use flash_sale.Seckill.Cache.{
  Slot, duplicate, reserve_purchase_script, rollback_reserve_script, in_window,
}
use flash_sale.Seckill.Cache.Limits.{
  CacheSold, reserve_purchase_script-CacheSold, refused_reserve_keeps_slot,
}
use flash_sale.Seckill.Cache.Undo.{
  SameUnits, rollback_reserve_script-SameUnits, reserve_purchase_script_once,
}

abbrev shelf : Slot
shelf = record {
  stock = some 10;
  bought = some 1;
  completed = [];
  request = none;
  release_token = none;
  close_mark = none;
}

abbrev granted : Slot
granted = (reserve_purchase_script 100 (pos 3) 4 no_limit 5 0 100 shelf).1

reserve_purchase_script-CacheSold_example : CacheSold 100 (pos 3) 4 no_limit 5 0 100 shelf granted
unfolding reserve_purchase_script
reserve_purchase_script-CacheSold_example =
    reserve_purchase_script-CacheSold 100 (pos 3) 4 no_limit 5 0 100 shelf refl

refused_reserve_keeps_slot_example :
    let refused = (reserve_purchase_script 100 (pos 11) 20 no_limit 50 0 100 shelf).1 in
    (refused ≡ shelf) ⊎ (refused ≡ record shelf { completed = in_window 100 0 [] })
unfolding reserve_purchase_script
refused_reserve_keeps_slot_example =
    refused_reserve_keeps_slot 100 (pos 11) 20 no_limit 50 0 100 shelf (λ h. ground (arith, h))

rollback_reserve_script-SameUnits_example :
    ((rollback_reserve_script 130 (pos 3) no_limit granted).0 ≡ 1)
    × SameUnits (rollback_reserve_script 130 (pos 3) no_limit granted).1 shelf
unfolding reserve_purchase_script
rollback_reserve_script-SameUnits_example =
    rollback_reserve_script-SameUnits 100 (pos 3) 4 no_limit 5 0 100 shelf 130 refl (omega arith)
      (inr (omega arith))

reserve_purchase_script_once_example :
    reserve_purchase_script 130 (pos 3) 4 no_limit 5 0 130 granted ≡ ((duplicate, 0, 0), granted)
unfolding reserve_purchase_script
reserve_purchase_script_once_example =
    reserve_purchase_script_once 100 (pos 3) 4 no_limit 5 0 100 shelf 130 (pos 3) 4 no_limit 5 0 130
      refl (omega arith) refl (inr (omega arith))
