-- ===== src/Database/Tickets/Recording.antt =====
-- createTicket and recordPayment of common/Database.cpp: what they add to the tables.
use protokol_javni_prevoz.Prelude.{◌≡◌, Bool, true, false, [], ◌∷◌, ◌++◌, arith}
use protokol_javni_prevoz.Platform.{Platform}
use protokol_javni_prevoz.Database.Rows.{Ticket, Payment, PaymentRow, Tables}
use protokol_javni_prevoz.Database.{Database, prepare_statement, step, expect_done}
use protokol_javni_prevoz.Database.Tickets.{
  ticket_row, payment_row, insert_ticket, insert_payment, create_ticket, record_payment,
}

abbrev pub TicketAdded : {R : Type 0} → Ticket R → Tables R → Bool → Tables R → Type 0
TicketAdded k t true t' = t' ≡ record t { tickets = t.tickets ++ k ∷ [] }
TicketAdded k t false t' = t' ≡ t

abbrev pub PaymentAdded : {R : Type 0} → PaymentRow R → Tables R → Bool → Tables R → Type 0
PaymentAdded p t true t' = t' ≡ record t { payments = t.payments ++ p ∷ [] }
PaymentAdded p t false t' = t' ≡ t

module _ (env : Platform) where
  open env use {Real}

  pub create_ticket-TicketAdded :
      (k : Ticket Real) (db : Database Real)
      → TicketAdded
          (ticket_row env k)
          db.tables
          (create_ticket env k db).0
          (create_ticket env k db).1.tables
  unfolding create_ticket prepare_statement step insert_ticket expect_done
  create_ticket-TicketAdded k db = ground arith

  pub record_payment-PaymentAdded :
      (p : Payment Real) (db : Database Real)
      → PaymentAdded
          (payment_row env p)
          db.tables
          (record_payment env p db).0
          (record_payment env p db).1.tables
  unfolding record_payment prepare_statement step insert_payment expect_done
  record_payment-PaymentAdded p db = ground arith
