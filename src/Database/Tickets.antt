-- ===== src/Database/Tickets.antt =====
-- The tables `tickets` and `payments` and their methods, common/Database.cpp.
pub mod Recording
use protokol_javni_prevoz.Prelude.{
  Bool, true, false, not, ◌&&◌, ◌||◌, Option, none, some, List, [], ◌∷◌, ◌++◌, if◌then◌else◌,
}
use protokol_javni_prevoz.Text.{Str, str, eq_str, is_empty}
use protokol_javni_prevoz.Platform.{Platform}
use protokol_javni_prevoz.Database.Rows.{Ticket, Payment, PaymentRow, Tables}
use protokol_javni_prevoz.Database.Users.{has_user}
use protokol_javni_prevoz.Database.{
  sqlite_done, sqlite_constraint, Db, ◌>>=◌, pure, c_str, Statement, prepare_statement, step,
  expect_done, stored_double,
}

unfoldable pub has_ticket_id : {R : Type 0} → Str → List (Ticket R) → Bool
has_ticket_id id [] = false
has_ticket_id id (k ∷ ks) = eq_str k.ticket_id id || has_ticket_id id ks

unfoldable pub has_transaction : {R : Type 0} → Str → List (PaymentRow R) → Bool
has_transaction id [] = false
has_transaction id (p ∷ ps) = eq_str p.transaction_id id || has_transaction id ps

-- INSERT INTO tickets: the id is the key, and the user is one of `users`.
unfoldable pub insert_ticket : {R : Type 0} → Bool → Ticket R → Statement R
insert_ticket foreign_keys k t =
    if has_ticket_id k.ticket_id t.tickets || foreign_keys && not (has_user k.user_urn t.users)
    then (sqlite_constraint, 0, t)
    else (sqlite_done, 1, record t { tickets = t.tickets ++ k ∷ [] })

unfoldable pub refers : {R : Type 0} → Option Str → Tables R → Bool
refers none t = true
refers (some id) t = has_ticket_id id t.tickets

-- INSERT INTO payments: the id is the key, and the ticket is NULL or one of `tickets`.
unfoldable pub insert_payment : {R : Type 0} → Bool → PaymentRow R → Statement R
unfolding refers
insert_payment foreign_keys p t =
    if has_transaction p.transaction_id t.payments || foreign_keys && not (refers p.ticket_id t)
    then (sqlite_constraint, 0, t)
    else (sqlite_done, 1, record t { payments = t.payments ++ p ∷ [] })

-- An empty ticket id is bound as NULL.
unfoldable pub null_if_empty : Str → Option Str
null_if_empty s = if is_empty s then none else some (c_str s)

module _ (env : Platform) where
  open env use {Real}

  -- The rows with what is bound to them.
  unfoldable pub ticket_row : Ticket Real → Ticket Real
  ticket_row k = record k {
    ticket_id = c_str k.ticket_id;
    user_urn = c_str k.user_urn;
    route = c_str k.route;
    price = stored_double env k.price;
    discount = stored_double env k.discount;
    purchase_date = c_str k.purchase_date;
    seat_number = c_str k.seat_number;
  }

  unfoldable pub payment_row : Payment Real → PaymentRow Real
  unfolding null_if_empty
  payment_row p = record {
    transaction_id = c_str p.transaction_id;
    ticket_id = null_if_empty p.ticket_id;
    amount = stored_double env p.amount;
    payment_method = c_str p.payment_method;
    payment_date = c_str p.payment_date;
    successful = p.successful;
  }

  -- Database::createTicket.
  unfoldable pub create_ticket : Ticket Real → Db Real Bool
  create_ticket ticket = do
    ready ← prepare_statement env
    if not ready then pure false else do
      foreign_keys ← λ db. (db.foreign_keys, db)
      (rc, changes) ← step env (insert_ticket foreign_keys (ticket_row ticket))
      expect_done (str "Failed to insert ticket") rc

  -- Database::recordPayment.
  unfoldable pub record_payment : Payment Real → Db Real Bool
  record_payment payment = do
    ready ← prepare_statement env
    if not ready then pure false else do
      foreign_keys ← λ db. (db.foreign_keys, db)
      (rc, changes) ← step env (insert_payment foreign_keys (payment_row payment))
      expect_done (str "Failed to insert payment") rc
