-- ===== src/Central/Purchase/Records.antt =====
-- The stages of a purchase, as handleTicketPurchase of server/CentralServer.cpp goes through them:
-- what has been recorded so far.
use protokol_javni_prevoz.Prelude.{
  ℕ, ◌+◌, ◌≡◌, ◌∙◌, ap, ◌⊎◌, Bool, true, false, Option, none, some, List, length, length-append,
  arith,
}
use protokol_javni_prevoz.Prelude.Int.{pos_part, ◌-ℤ◌}
use protokol_javni_prevoz.Text.{Str}
use protokol_javni_prevoz.Database.Rows.{Vehicle, Ticket, PaymentRow, Tables}
use protokol_javni_prevoz.Database.{c_str}
use protokol_javni_prevoz.Database.Vehicles.{update_rows}
use protokol_javni_prevoz.Database.Vehicles.Seats.{with_seats}
use protokol_javni_prevoz.Database.Tickets.Recording.{TicketAdded, PaymentAdded}
use protokol_javni_prevoz.Central.Purchase.{Order}

-- So many tickets and payments more than in `t`, and the vehicles as they were.
pub record Recorded {R : Type 0} (t : Tables R) (tickets payments : ℕ) (x : Tables R) : Type 0 where
  pub vehicles : x.vehicles ≡ t.vehicles
  pub more_tickets : length x.tickets ≡ length t.tickets + tickets
  pub more_payments : length x.payments ≡ length t.payments + payments

-- A ticket for each passenger, one payment, and the seats taken from the vehicle.
pub record Sold {R : Type 0} (t : Tables R) (o : Order) (v : Vehicle) (x : Tables R) : Type 0 where
  pub vehicles :
      x.vehicles
      ≡ update_rows (c_str v.uri) (with_seats (v.available_seats -ℤ o.passengers)) t.vehicles
  pub tickets : length x.tickets ≡ length t.tickets + pos_part o.passengers
  pub payment : length x.payments ≡ length t.payments + 1

abbrev pub Unsold : {R : Type 0} → Tables R → Tables R → Type 0
Unsold t x = x.vehicles ≡ t.vehicles

-- The flag: there are too few seats.
abbrev pub PurchaseOutcome : {R : Type 0} → Tables R → Order → Vehicle → Bool → Tables R → Type 0
PurchaseOutcome t o v true x = x ≡ t
PurchaseOutcome t o v false x = Sold t o v x ⊎ (x.vehicles ≡ t.vehicles)

abbrev pub Issued : {R : Type 0} → Tables R → ℕ → Option (List Str) → Tables R → Type 0
Issued t k none x = Unsold t x
Issued t k (some ids) x = Recorded t k 0 x

abbrev pub Ticketed : {R : Type 0} → Tables R → ℕ → Bool → Tables R → Type 0
Ticketed t k true x = Recorded t (k + 1) 0 x
Ticketed t k false x = Unsold t x

abbrev pub Paid : {R : Type 0} → Tables R → ℕ → Bool → Tables R → Type 0
Paid t k true x = Recorded t k 1 x
Paid t k false x = Unsold t x

pub TicketAdded-Ticketed :
    {R : Type 0} (t x y : Tables R) (n : ℕ) (k : Ticket R) (good : Bool)
    → Recorded t n 0 x
    → TicketAdded k x good y
    → Ticketed t n good y
TicketAdded-Ticketed t x y n k true p e = record {
  vehicles = ap (λ z. z.vehicles) e ∙ p.vehicles;
  more_tickets =
      omega (arith, ap (λ z. length z.tickets) e, length-append x.tickets _, p.more_tickets);
  more_payments = ap (λ z. length z.payments) e ∙ p.more_payments;
}
TicketAdded-Ticketed t x y n k false p e = ap (λ z. z.vehicles) e ∙ p.vehicles

pub PaymentAdded-Paid :
    {R : Type 0} (t x y : Tables R) (n : ℕ) (k : PaymentRow R) (good : Bool)
    → Recorded t n 0 x
    → PaymentAdded k x good y
    → Paid t n good y
PaymentAdded-Paid t x y n k true p e = record {
  vehicles = ap (λ z. z.vehicles) e ∙ p.vehicles;
  more_tickets = ap (λ z. length z.tickets) e ∙ p.more_tickets;
  more_payments =
      omega (arith, ap (λ z. length z.payments) e, length-append x.payments _, p.more_payments);
}
PaymentAdded-Paid t x y n k false p e = ap (λ z. z.vehicles) e ∙ p.vehicles
