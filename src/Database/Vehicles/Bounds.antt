-- ===== src/Database/Vehicles/Bounds.antt =====
-- The free seats of the vehicles, and the methods of common/Database.cpp: none of them makes the
-- number negative.
use protokol_javni_prevoz.Prelude.{
  ℕ, ◌≡◌, refl, sym, subst, Bool, true, false, Option, List, [], ◌∷◌, ◌++◌, arith, if◌then◌else◌,
  Bool-cases, not, Option-cases, ◌||◌, ◌&&◌, ◌==◌, inl, inr,
}
use protokol_javni_prevoz.Prelude.Int.{ℤ, pos, neg_part, ltb_ℤ}
use protokol_javni_prevoz.Text.{Str, str, eq_str, is_empty}
use protokol_javni_prevoz.Platform.{Platform}
use protokol_javni_prevoz.Database.Rows.{Vehicle, Tables}
use protokol_javni_prevoz.Database.{
  Rc, sqlite_ok, sqlite_row, sqlite_done, sqlite_constraint, sqlite_notfound, sqlite_misuse,
  own_error, failure, Db, Database, Statement, ◌>>=◌, ◌>>◌, pure, set_last_error, clear_last_error,
  prepare_statement, step, select, expect_done, now_iso, c_str,
}
use protokol_javni_prevoz.Database.Vehicles.{
  has_value, map_c_str, update_rows, update_vehicles, without_vehicle, vehicle_row, put_vehicle,
  set_fields, register_vehicle, update_seat_availability, expect_change, update_vehicle,
  update_vehicle_capacity,
}

-- No vehicle has fewer than no free seats.
abbrev pub Seated : List Vehicle → Type 0
Seated [] = Unit {0}
Seated (v ∷ vs) = (neg_part v.available_seats ≡ 0) × Seated vs

abbrev pub SeatedIn : {R : Type 0} → Tables R → Type 0
SeatedIn t = Seated t.vehicles

pub record Keeps {R A : Type 0} (m : Db R A) : Type 0 where
  pub run : (db : Database R) → SeatedIn db.tables → SeatedIn (m db).1.tables

pub record StatementKeeps {R : Type 0} (statement : Statement R) : Type 0 where
  pub run : (t : Tables R) → SeatedIn t → SeatedIn (statement t).2

update_rows-Seated :
    (uri : Str) (change : Vehicle → Vehicle) (vs : List Vehicle)
    → ((v : Vehicle) → neg_part v.available_seats ≡ 0 → neg_part (change v).available_seats ≡ 0)
    → Seated vs
    → Seated (update_rows uri change vs)
unfolding update_rows
update_rows-Seated uri change [] h p = tt
update_rows-Seated uri change (v ∷ vs) h p = elim (Bool-cases (eq_str v.uri uri)) [
  | inl e ↦ rw e (h v p.0, update_rows-Seated uri change vs h p.1)
  | inr e ↦ rw e (p.0, update_rows-Seated uri change vs h p.1)
]

without_vehicle-Seated :
    (uri : Str) (vs : List Vehicle) → Seated vs → Seated (without_vehicle uri vs)
unfolding without_vehicle
without_vehicle-Seated uri [] p = tt
without_vehicle-Seated uri (v ∷ vs) p = elim (Bool-cases (eq_str v.uri uri)) [
  | inl e ↦ rw e (without_vehicle-Seated uri vs p.1)
  | inr e ↦ rw e (p.0, without_vehicle-Seated uri vs p.1)
]

append-Seated :
    (v : Vehicle) (vs : List Vehicle)
    → neg_part v.available_seats ≡ 0
    → Seated vs
    → Seated (vs ++ v ∷ [])
append-Seated v [] h p = (h, tt)
append-Seated v (w ∷ vs) h p = (p.0, append-Seated v vs h p.1)

module _ {R : Type 0} where
  pub after :
      {A B : Type 0} {m : Db R A} {f : A → Db R B}
      → Keeps m
      → ((a : A) → Keeps (f a))
      → Keeps (m >>= f)
  after {m} h k = record { run = λ db p. (k (m db).0).run (m db).1 (h.run db p) }

  -- A method that leaves the vehicles alone.
  pub untouched :
      {A : Type 0} {m : Db R A}
      → ((db : Database R) → (m db).1.tables.vehicles ≡ db.tables.vehicles)
      → Keeps m
  untouched h = record { run = λ db p. subst Seated (sym (h db)) p }

  pub returns : {A : Type 0} (a : A) → Keeps (pure {R = R} a)
  returns a = untouched (λ db. refl)

  pub choose :
      {A : Type 0} {m k : Db R A} (b : Bool) → Keeps m → Keeps k → Keeps (if b then m else k)
  choose true h k = h
  choose false h k = k

  -- The second branch may use that the test failed.
  pub otherwise :
      {A : Type 0} {m k : Db R A} (b : Bool)
      → Keeps m
      → (b ≡ false → Keeps k)
      → Keeps (if b then m else k)
  otherwise true h k = h
  otherwise false h k = k refl

  pub fails : (text : Str) (rc : Rc) → Keeps {R = R} (do set_last_error text rc; pure false)
  fails text rc = untouched (λ db. refl)

  pub clears : Keeps {R = R} clear_last_error
  clears = untouched (λ db. refl)

  pub expect_done-Keeps : (text : Str) (rc : Rc) → Keeps (expect_done {R = R} text rc)
  unfolding expect_done
  expect_done-Keeps text sqlite_ok = untouched (λ db. refl)
  expect_done-Keeps text sqlite_row = untouched (λ db. refl)
  expect_done-Keeps text sqlite_done = untouched (λ db. refl)
  expect_done-Keeps text sqlite_constraint = untouched (λ db. refl)
  expect_done-Keeps text sqlite_notfound = untouched (λ db. refl)
  expect_done-Keeps text sqlite_misuse = untouched (λ db. refl)
  expect_done-Keeps text own_error = untouched (λ db. refl)
  expect_done-Keeps text (failure n) = untouched (λ db. refl)

  update_vehicles-Keeps :
      (uri : Str) (change : Vehicle → Vehicle)
      → ((v : Vehicle) → neg_part v.available_seats ≡ 0 → neg_part (change v).available_seats ≡ 0)
      → StatementKeeps {R = R} (update_vehicles uri change)
  unfolding update_vehicles
  update_vehicles-Keeps uri change h = record {
    run = λ t p. update_rows-Seated uri change t.vehicles h p;
  }

  put_vehicle-Keeps :
      (v : Vehicle) → neg_part v.available_seats ≡ 0 → StatementKeeps {R = R} (put_vehicle v)
  unfolding put_vehicle
  put_vehicle-Keeps v h = record {
    run = λ t p.
        append-Seated v (without_vehicle v.uri t.vehicles) h
          (without_vehicle-Seated v.uri t.vehicles p);
  }

module _ (env : Platform) where
  open env use {Real}

  pub prepare-Keeps : Keeps (prepare_statement env)
  unfolding prepare_statement
  prepare-Keeps = untouched (λ db. ground arith)

  pub now_iso-Keeps : Keeps (now_iso env)
  unfolding now_iso
  now_iso-Keeps = untouched (λ db. refl)

  pub select-Keeps : {A : Type 0} (q : Tables Real → Option A) → Keeps (select env q)
  unfolding select
  select-Keeps q = untouched (λ db. ground arith)

  pub step-Keeps :
      (statement : Statement Real) → StatementKeeps statement → Keeps (step env statement)
  unfolding step
  step-Keeps statement h = record {
    run = λ db p. elim (Option-cases (env.fault db.calls)) [
      | inl e ↦ rw (e, step) (h.run db.tables p)
      | inr (code, e) ↦ rw (e, step) p
    ];
  }

  pub prepared :
      {A : Type 0} {m k : Db Real A}
      → Keeps m
      → Keeps k
      → Keeps (prepare_statement env >>= λ ready. if not ready then m else k)
  prepared h k = after prepare-Keeps (λ ready. choose (not ready) h k)

  -- A statement that is prepared, stepped and looked at.
  written :
      (statement : Statement Real) (text : Str)
      → StatementKeeps statement
      → Keeps (
          prepare_statement env >>= λ ready.
          if not ready then pure false else step env statement >>= λ r. expect_done text r.0)
  written statement text h =
      prepared (returns false) (after (step-Keeps statement h) (λ r. expect_done-Keeps text r.0))

  pub register_vehicle-Keeps :
      (v : Vehicle) → neg_part v.available_seats ≡ 0 → Keeps (register_vehicle env v)
  unfolding register_vehicle vehicle_row
  register_vehicle-Keeps v h =
      written (put_vehicle (vehicle_row v)) (str "Failed to register vehicle")
        (put_vehicle-Keeps (vehicle_row v) h)

  pub update_seat_availability-Keeps :
      (uri : Str) (n : ℤ) → neg_part n ≡ 0 → Keeps (update_seat_availability env uri n)
  unfolding update_seat_availability
  update_seat_availability-Keeps uri n h =
      written _ (str "Failed to update available seats")
        (update_vehicles-Keeps (c_str uri) (λ v. record v { available_seats = n }) (λ v p. h))

  expect_change-Keeps : (done : Bool) (n : ℕ) → Keeps (expect_change env done n)
  unfolding expect_change
  expect_change-Keeps done n =
      choose (not done) (returns false)
        (choose (n == 0) (fails (str "Vehicle not found") sqlite_notfound) (returns true))

  -- The same with the time, for the updates that look at the number of rows.
  pub changed :
      (statement : Str → Statement Real) (text : Str)
      → ((now : Str) → StatementKeeps (statement now))
      → Keeps (
          prepare_statement env >>= λ ready.
          if not ready
          then pure false
          else now_iso env >>= λ now. step env (statement now) >>= λ r.
              expect_done text r.0 >>= λ done. expect_change env done r.1)
  changed statement text h = prepared (returns false) (
      after now_iso-Keeps (λ now.
        after (step-Keeps (statement now) (h now))
          (λ r. after (expect_done-Keeps text r.0) (λ done. expect_change-Keeps done r.1))))

  pub update_vehicle-Keeps :
      (uri : Str) (active : Option Bool) (route : Option Str) (type : Option ℕ)
      → Keeps (update_vehicle env uri active route type)
  unfolding update_vehicle
  update_vehicle-Keeps uri active route type = after clears (λ _.
      choose (is_empty uri) (fails (str "Empty URI") sqlite_misuse) (
        choose (not (has_value active) && not (has_value route) && not (has_value type))
          (fails (str "Nothing to update") sqlite_misuse)
          (changed _ (str "Failed to update vehicle") (λ now.
            update_vehicles-Keeps (c_str uri) (set_fields active (map_c_str route) type (c_str now))
              (λ v p. unfold set_fields in p)))))

  pub update_vehicle_capacity-Keeps :
      (uri : Str) (capacity available : ℤ)
      → Keeps (update_vehicle_capacity env uri capacity available)
  unfolding update_vehicle_capacity
  update_vehicle_capacity-Keeps uri capacity available = after clears (λ _.
      choose (is_empty uri) (fails (str "Empty URI") sqlite_misuse) (
        otherwise (ltb_ℤ capacity (pos 0) || ltb_ℤ available (pos 0) || ltb_ℤ capacity available)
          (fails (str "Invalid capacity/available_seats") sqlite_misuse)
          (λ e. changed _ (str "Failed to update vehicle capacity") (λ now.
            update_vehicles-Keeps (c_str uri)
              (λ v. record v {
                capacity = capacity;
                available_seats = available;
                last_update = c_str now;
              })
              (λ v p. ground arith)))))
