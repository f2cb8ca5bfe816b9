-- ===== src/Database/Rows.antt =====
-- The record structs of common/Database.h, one for each row of the tables of common/Database.cpp.
-- A vehicle type or ticket type is its uint8_t.
use protokol_javni_prevoz.Prelude.{ℕ, Bool, Option, List}
use protokol_javni_prevoz.Prelude.Int.{ℤ}
use protokol_javni_prevoz.Text.{Str}

pub record User : Type 0 where
  pub urn : Str
  pub name : Str
  pub age : ℤ
  pub registration_date : Str
  pub active : Bool
  pub pin_hash : Str

-- A row of `groups`; the members stand in a table of their own.
pub record Group : Type 0 where
  pub group_id : ℕ
  pub group_name : Str
  pub leader_urn : Str
  pub creation_date : Str
  pub active : Bool

-- A row of `group_members`.
pub record Member : Type 0 where
  pub group_id : ℕ
  pub member_urn : Str
  pub join_date : Str
  pub active : Bool

pub record Vehicle : Type 0 where
  pub uri : Str
  pub type : ℕ
  pub capacity : ℤ
  pub available_seats : ℤ
  pub route : Str
  pub active : Bool
  pub last_update : Str

pub record Ticket (Real : Type 0) : Type 0 where
  pub ticket_id : Str
  pub user_urn : Str
  pub type : ℕ
  pub vehicle_type : ℕ
  pub route : Str
  pub price : Real
  pub discount : Real
  pub purchase_date : Str
  pub seat_number : Str
  pub used : Bool

pub record Payment (Real : Type 0) : Type 0 where
  pub transaction_id : Str
  pub ticket_id : Str
  pub amount : Real
  pub payment_method : Str
  pub payment_date : Str
  pub successful : Bool

-- A row of `payments`; `none` is NULL.
pub record PaymentRow (Real : Type 0) : Type 0 where
  pub transaction_id : Str
  pub ticket_id : Option Str
  pub amount : Real
  pub payment_method : Str
  pub payment_date : Str
  pub successful : Bool

pub record PriceList (Real : Type 0) : Type 0 where
  pub vehicle_type : ℕ
  pub ticket_type : ℕ
  pub base_price : Real
  pub distance_multiplier : Real
  pub time_multiplier : Real
  pub last_update : Str

-- The database file. Rows stand in the order of their insertion. The AUTOINCREMENT id of
-- price_list is never read and is left out, and so is active_connections, which nothing uses.
pub record Tables (Real : Type 0) : Type 0 where
  pub users : List User
  pub groups : List Group
  pub next_group_id : ℕ
  pub group_members : List Member
  pub vehicles : List Vehicle
  pub tickets : List (Ticket Real)
  pub payments : List (PaymentRow Real)
  pub price_list : List (PriceList Real)
