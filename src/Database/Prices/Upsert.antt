-- ===== src/Database/Prices/Upsert.antt =====
-- updatePrice and getPrice of common/Database.cpp together.
use protokol_javni_prevoz.Prelude.{
  ℕ, ◌+◌, ◌≡◌, ◌∙◌, ap, subst, Bool, true, false, ◌&&◌, Option, none, some, List, [], ◌∷◌, ◌++◌,
  ◌==◌, ltb, arith, if◌then◌else◌,
}
use protokol_javni_prevoz.Text.{Str}
use protokol_javni_prevoz.Platform.{Platform}
use protokol_javni_prevoz.Database.Rows.{PriceList}
use protokol_javni_prevoz.Database.{
  Database, NoFault, c_str, prepare_statement, step, select, now_iso, expect_done, stored_double,
}
use protokol_javni_prevoz.Database.Prices.{
  is_for, find_price, count_prices, change_prices, update_prices, insert_price, insert_if_none,
  update_price, get_price,
}

abbrev pub base_of : {R : Type 0} → Option (PriceList R) → Option R
base_of none = none
base_of (some p) = some p.base_price

abbrev priced : {R : Type 0} → R → Str → PriceList R → PriceList R
priced price now p = record p { base_price = price; last_update = now }

abbrev pair_of : ℕ → ℕ → ℕ → ℕ → Bool
pair_of v k v' k' = v == v' && k == k'

base-change_prices :
    {R : Type 0} (v k vt tt' : ℕ) (price : R) (now : Str) (ps : List (PriceList R))
    → base_of (find_price v k (change_prices vt tt' (priced price now) ps)) ≡ (
        if pair_of v k vt tt'
        then (if ltb 0 (count_prices vt tt' ps) then some price else none)
        else base_of (find_price v k ps))
unfolding find_price change_prices count_prices
base-change_prices v k vt tt' price now [] = ground arith
base-change_prices v k vt tt' price now (p ∷ ps) =
    ground (arith, base-change_prices v k vt tt' price now ps)

base-append :
    {R : Type 0} (v k : ℕ) (p : PriceList R) (ps : List (PriceList R))
    → base_of (find_price v k (ps ++ p ∷ [])) ≡ elim (base_of (find_price v k ps)) [
      | some r ↦ some r
      | none ↦ if is_for v k p then some p.base_price else none
    ]
unfolding find_price
base-append v k p [] = ground arith
base-append v k p (q ∷ ps) = ground (arith, base-append v k p ps)

module _ (env : Platform) where
  open env use {Real, real_one}

  abbrev fresh_price : ℕ → ℕ → Real → Str → PriceList Real
  fresh_price vt tt' price now = record {
    vehicle_type = vt;
    ticket_type = tt';
    base_price = price;
    distance_multiplier = real_one;
    time_multiplier = real_one;
    last_update = now;
  }

  -- The rows once the price is set: the rows of the pair are changed, or else one is added.
  abbrev rows_after : ℕ → ℕ → Real → Str → List (PriceList Real) → List (PriceList Real)
  rows_after vt tt' price now ps =
      if ltb 0 (count_prices vt tt' ps)
      then change_prices vt tt' (priced price now) ps
      else change_prices vt tt' (priced price now) ps ++ fresh_price vt tt' price now ∷ []

  base-rows_after :
      (v k vt tt' : ℕ) (price : Real) (now : Str) (ps : List (PriceList Real))
      → base_of (find_price v k (rows_after vt tt' price now ps))
        ≡ (if pair_of v k vt tt' then some price else base_of (find_price v k ps))
  base-rows_after v k vt tt' price now ps = ground (
    arith,
    base-change_prices v k vt tt' price now ps,
    base-append v k (fresh_price vt tt' price now) (change_prices vt tt' (priced price now) ps),
  )

  abbrev PriceSet : ℕ → ℕ → Real → Database Real → Bool × Database Real → Type 0
  PriceSet vt tt' price db (true, db') =
      db'.tables.price_list
      ≡ rows_after vt tt' (stored_double env price)
          (c_str (env.local_time (env.clock (db.calls + 1)))) db.tables.price_list
  PriceSet vt tt' price db (false, db') = Unit {0}

  update_price-PriceSet :
      (vt tt' : ℕ) (price : Real) (db : Database Real)
      → PriceSet vt tt' price db (update_price env vt tt' price db)
  unfolding update_price prepare_statement now_iso step update_prices expect_done insert_if_none
      insert_price
  update_price-PriceSet vt tt' price db = ground arith

  get_price_lem :
      (vt tt' : ℕ) (db : Database Real)
      → NoFault env 2 db.calls
      → (get_price env vt tt' db).0 ≡ find_price vt tt' db.tables.price_list
  unfolding get_price prepare_statement select
  get_price_lem vt tt' db h = ground arith

  -- After updatePrice has returned true, getPrice without a failure of SQLite finds for that
  -- vehicle type and ticket type the price as SQLite stores it, which is the new price, or 0.0
  -- where the new price is a NaN, whether there was a row before or not; and for every other pair
  -- the base price that was there before.
  pub update_price-get_price :
      (vt tt' v k : ℕ) (price : Real) (db db' : Database Real)
      → update_price env vt tt' price db ≡ (true, db')
      → NoFault env 2 db'.calls
      → base_of (get_price env v k db').0 ≡ (
          if v == vt && k == tt'
          then some (stored_double env price)
          else base_of (find_price v k db.tables.price_list))
  update_price-get_price vt tt' v k price db db' e h =
      let facts = subst (PriceSet vt tt' price db) e (update_price-PriceSet vt tt' price db) in
      ap base_of (get_price_lem v k db' h)
      ∙ ap (λ l. base_of (find_price v k l)) facts
      ∙ base-rows_after v k vt tt' (stored_double env price) _ db.tables.price_list
