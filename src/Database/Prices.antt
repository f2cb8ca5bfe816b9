-- ===== src/Database/Prices.antt =====
-- The table `price_list`, prices and discounts, common/Database.cpp.
pub mod Upsert
use protokol_javni_prevoz.Prelude.{
  ℕ, ◌+◌, Bool, true, false, not, ◌&&◌, Option, none, some, List, [], ◌∷◌, ◌++◌, ltb, ◌==◌,
  if◌then◌else◌,
}
use protokol_javni_prevoz.Prelude.Int.{ℤ, pos, leb_ℤ}
use protokol_javni_prevoz.Text.{Str, str, is_empty}
use protokol_javni_prevoz.Platform.{Platform}
use protokol_javni_prevoz.Database.Rows.{PriceList}
use protokol_javni_prevoz.Database.{
  sqlite_done, Db, ◌>>=◌, ◌>>◌, pure, clear_last_error, c_str, Statement, Row, row, no_row, failed,
  prepare_statement, step, select, now_iso, expect_done, stored_double,
}

abbrev pub is_for : {R : Type 0} → ℕ → ℕ → PriceList R → Bool
is_for vehicle_type ticket_type p = p.vehicle_type == vehicle_type && p.ticket_type == ticket_type

-- SELECT ... FROM price_list WHERE vehicle_type = ? AND ticket_type = ? LIMIT 1
unfoldable pub find_price : {R : Type 0} → ℕ → ℕ → List (PriceList R) → Option (PriceList R)
find_price vt tt [] = none
find_price vt tt (p ∷ ps) = if is_for vt tt p then some p else find_price vt tt ps

unfoldable pub count_prices : {R : Type 0} → ℕ → ℕ → List (PriceList R) → ℕ
count_prices vt tt [] = 0
count_prices vt tt (p ∷ ps) = (if is_for vt tt p then 1 else 0) + count_prices vt tt ps

unfoldable pub change_prices :
    {R : Type 0} → ℕ → ℕ → (PriceList R → PriceList R) → List (PriceList R) → List (PriceList R)
change_prices vt tt change [] = []
change_prices vt tt change (p ∷ ps) =
    (if is_for vt tt p then change p else p) ∷ change_prices vt tt change ps

-- UPDATE price_list SET ... WHERE vehicle_type = ? AND ticket_type = ?
unfoldable pub update_prices : {R : Type 0} → ℕ → ℕ → (PriceList R → PriceList R) → Statement R
update_prices vt tt change t = (
  sqlite_done,
  count_prices vt tt t.price_list,
  record t { price_list = change_prices vt tt change t.price_list },
)

-- INSERT INTO price_list; the table has no key but its id.
unfoldable pub insert_price : {R : Type 0} → PriceList R → Statement R
insert_price p t = (sqlite_done, 1, record t { price_list = t.price_list ++ p ∷ [] })

-- Database::calculateDiscount: 10 % for families and for three or more. TicketType 2 is the family.
abbrev pub group_family : ℕ
group_family = 2

-- Database::isEligibleForGroupDiscount.
unfoldable pub is_eligible_for_group_discount : ℕ → ℤ → Bool
is_eligible_for_group_discount ticket_type group_size =
    if ticket_type == group_family then true else if leb_ℤ (pos 3) group_size then true else false

-- Database::isEligibleForAgeDiscount.
unfoldable pub is_eligible_for_age_discount : Str → Bool
is_eligible_for_age_discount urn = false

module _ (env : Platform) where
  open env use {Real, real_zero, real_tenth, real_one}

  unfoldable pub calculate_discount : Str → ℕ → ℤ → Real
  calculate_discount urn ticket_type group_size =
      if ticket_type == group_family
      then real_tenth
      else if leb_ℤ (pos 3) group_size
      then real_tenth
      else real_zero

  -- Database::calculateTicketPrice, which looks at none of its arguments.
  unfoldable pub calculate_ticket_price : ℕ → ℕ → ℤ → Real → Real → Real
  calculate_ticket_price vehicle_type ticket_type passengers distance time_minutes = real_one

  unfoldable pub found : Row (PriceList Real) → Option (PriceList Real)
  found (row p) = some p
  found no_row = none
  found (failed rc) = none

  -- Database::getPrice.
  unfoldable pub get_price : ℕ → ℕ → Db Real (Option (PriceList Real))
  unfolding found
  get_price vehicle_type ticket_type = do
    clear_last_error
    ready ← prepare_statement env
    if not ready then pure none else do
      answer ← select env (λ t. find_price vehicle_type ticket_type t.price_list)
      pure (found answer)

  -- The INSERT behind an UPDATE that changed no row.
  unfoldable pub insert_if_none : ℕ → PriceList Real → Db Real Bool
  insert_if_none changes price = if ltb 0 changes then pure true else do
    ready ← prepare_statement env
    if not ready then pure false else do
      (rc, inserted) ← step env (insert_price price)
      expect_done (str "Failed to insert into price_list") rc

  unfoldable pub date_of : Str → Db Real Str
  date_of last_update = if is_empty last_update then now_iso env else pure last_update

  -- Database::updatePriceList.
  unfoldable pub update_price_list : PriceList Real → Db Real Bool
  update_price_list price = do
    clear_last_error
    ready ← prepare_statement env
    if not ready then pure false else do
      date ← date_of price.last_update
      (rc, changes) ← step env (
          update_prices price.vehicle_type price.ticket_type (λ p. record p {
            base_price = stored_double env price.base_price;
            distance_multiplier = stored_double env price.distance_multiplier;
            time_multiplier = stored_double env price.time_multiplier;
            last_update = c_str date;
          }))
      done ← expect_done (str "Failed to update price_list") rc
      if not done
          then pure false
          else insert_if_none changes (record price {
            base_price = stored_double env price.base_price;
            distance_multiplier = stored_double env price.distance_multiplier;
            time_multiplier = stored_double env price.time_multiplier;
            last_update = c_str date;
          })

  -- Database::updatePrice.
  unfoldable pub update_price : ℕ → ℕ → Real → Db Real Bool
  update_price vehicle_type ticket_type price = do
    clear_last_error
    ready ← prepare_statement env
    if not ready then pure false else do
      now ← now_iso env
      (rc, changes) ← step env (
          update_prices vehicle_type ticket_type
            (λ p. record p { base_price = stored_double env price; last_update = c_str now }))
      done ← expect_done (str "Failed to update price_list") rc
      if not done
          then pure false
          else insert_if_none changes (record {
            vehicle_type = vehicle_type;
            ticket_type = ticket_type;
            base_price = stored_double env price;
            distance_multiplier = real_one;
            time_multiplier = real_one;
            last_update = c_str now;
          })
