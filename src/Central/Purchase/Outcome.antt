-- ===== src/Central/Purchase/Outcome.antt =====
-- handleTicketPurchase of server/CentralServer.cpp, from the vehicle on: what a purchase leaves in
-- the tables.
use protokol_javni_prevoz.Central.Purchase.Records.{Sold, Unsold, PurchaseOutcome}
use protokol_javni_prevoz.Prelude.{ℕ, Bool, true, false}
use protokol_javni_prevoz.Platform.{Platform}
use protokol_javni_prevoz.Database.Rows.{Vehicle, Tables}
use protokol_javni_prevoz.Database.{Database}
use protokol_javni_prevoz.Central.{◌>>=◌}
use protokol_javni_prevoz.Central.Purchase.{Order}
use protokol_javni_prevoz.Central.Triple.{Triple}

module _ (env : Platform) (t : Tables env.Real) (o : Order) (v : Vehicle) (client i : ℕ) where
  open env use {Real}

  Finished : Tables Real → Type 0
  Finished x = PurchaseOutcome t o v false x

  abbrev Seated : Bool → Tables Real → Type 0
  Seated true x = Sold t o v x
  Seated false x = Unsold t x
