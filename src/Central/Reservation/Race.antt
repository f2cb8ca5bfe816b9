-- ===== src/Central/Reservation/Race.antt =====
-- Two runs of handleSeatReservation, server/CentralServer.cpp, on two connections, as a sequence of
-- their steps.
use protokol_javni_prevoz.Message.Factory.{create_success_response, create_multicast_update}
use protokol_javni_prevoz.Prelude.{ℕ, ◌≡◌, refl, ◌∙◌, ap, false, some, List, [], ◌∷◌, ◌++◌, arith}
use mathlib.Core.List.{append_assoc}
use protokol_javni_prevoz.Prelude.Int.{ℤ, pos, leb_ℤ, ◌-ℤ◌}
use protokol_javni_prevoz.Text.{Str, is_empty, str}
use protokol_javni_prevoz.Message.{Message}
use protokol_javni_prevoz.Platform.{Platform}
use protokol_javni_prevoz.Database.Rows.{Vehicle, Tables}
use protokol_javni_prevoz.Database.{c_str}
use protokol_javni_prevoz.Database.Vehicles.{find_vehicle, update_rows}
use protokol_javni_prevoz.Database.Vehicles.Seats.{with_seats}
use protokol_javni_prevoz.Central.{Server, Handler, ◌>>=◌, ◌>>◌}
use protokol_javni_prevoz.Central.Reservation.{find_reserved, reserve_found, seat_details, route_or}
use protokol_javni_prevoz.Central.Reservation.Meaning.{
  meant, reserved_tables, reserved_messages, by_uri,
}
use protokol_javni_prevoz.Central.Reservation.Outcome.{find_reserved-Finds, reserve_found_lem}
use protokol_javni_prevoz.Central.Triple.{Triple, Ends, NeverThrows, bind, map_Ends}
use protokol_javni_prevoz.Central.World.{World, Reliable, map_World, to_all}
use protokol_javni_prevoz.Central.World.Finds.{after}

-- Client `a` on connection `i` and client `b` on connection `j` ask for the same vehicle; both look
-- it up before either of them updates it.
abbrev pub both_look_first : (env : Platform) → Str → ℕ → ℕ → ℕ → ℕ → Handler env.Real (Unit {0})
both_look_first env uri a i b j = do
  for_a ← find_reserved env i uri [] 0
  for_b ← find_reserved env j uri [] 0
  reserve_found env a i for_a
  reserve_found env b j for_b

-- The answer of a reservation that went through, and the update for the subscribers.
abbrev pub reservation_done : ℕ → List ℕ → Vehicle → List (ℕ × Message)
reservation_done client subs v =
    let details = seat_details (route_or v.route v.route) v (v.available_seats -ℤ pos 1) in
    (client, create_success_response (str "Seat reserved successfully") details)
    ∷ to_all subs (create_multicast_update (str "seat_reserved") details)

update_rows-update_rows :
    (uri : Str) (n : ℤ) (vs : List Vehicle)
    → update_rows uri (with_seats n) (update_rows uri (with_seats n) vs)
      ≡ update_rows uri (with_seats n) vs
unfolding update_rows
update_rows-update_rows uri n [] = refl
update_rows-update_rows uri n (v ∷ vs) = ground (arith, update_rows-update_rows uri n vs)

reserved_twice :
    {R : Type 0} (v : Vehicle) (route : Str) (t : Tables R)
    → reserved_tables (some (v, route)) (reserved_tables (some (v, route)) t)
      ≡ reserved_tables (some (v, route)) t
reserved_twice v route t =
    ground (arith, update_rows-update_rows (c_str v.uri) (v.available_seats -ℤ pos 1) t.vehicles)

race_lem :
    (env : Platform) (reliable : Reliable env) (t : Tables env.Real) (subs : List ℕ)
    (out : List (ℕ × Message)) (uri : Str) (a i b j : ℕ)
    → Triple NeverThrows (World t subs out) (both_look_first env uri a i b j) (λ _.
      World
        (reserved_tables
          (meant uri [] 0 t.vehicles)
          (reserved_tables (meant uri [] 0 t.vehicles) t))
        subs
        (out
          ++ (reserved_messages a subs (meant uri [] 0 t.vehicles)
              ++ reserved_messages b subs (meant uri [] 0 t.vehicles))))
race_lem env reliable t subs out uri a i b j =
    let v = meant uri [] 0 t.vehicles in
    let out' = out ++ reserved_messages a subs v in
    after t subs out _ (find_reserved-Finds env reliable t subs out i uri [] 0) (
      after t subs out _ (find_reserved-Finds env reliable t subs out j uri [] 0) (
        bind (reserve_found_lem env reliable t subs out a i v) (λ _.
          map_World (append_assoc out (reserved_messages a subs v) (reserved_messages b subs v))
            (reserve_found_lem env reliable (reserved_tables v t) subs out' b j v))))

-- Two clients ask for the same vehicle, with SQLite and the network reliable, and both requests
-- look it up before either of them writes: if it has a seat, both clients get the answer of a
-- reservation that went through, and the rows of its uri have one seat less than it had, not two.
pub both_look_first_lem :
    (env : Platform) (uri : Str) (v : Vehicle) (a i b j : ℕ) (s : Server env.Real)
    → Reliable env
    → is_empty uri ≡ false
    → find_vehicle (c_str uri) s.pool.file.tables.vehicles ≡ some v
    → leb_ℤ v.available_seats (pos 0) ≡ false
    → Ends NeverThrows
        (λ _.
          World
            (record s.pool.file.tables {
              vehicles =
                  update_rows
                    (c_str v.uri)
                    (with_seats (v.available_seats -ℤ pos 1))
                    s.pool.file.tables.vehicles;
            })
            s.subscribers
            (s.sent ++ (reservation_done a s.subscribers v ++ reservation_done b s.subscribers v)))
        (both_look_first env uri a i b j s)
both_look_first_lem env uri v a i b j s reliable n f e =
    let t = s.pool.file.tables in
    let subs = s.subscribers in
    let it : meant uri [] 0 t.vehicles ≡ some (v, v.route) = rw (n, f, meant, by_uri) refl in
    map_Ends NeverThrows (both_look_first env uri a i b j s)
      ((race_lem env reliable t subs s.sent uri a i b j).run s
        (record { tables = refl; subscribers = refl; sent = refl }))
      (λ x s' w. record {
        tables =
            w.tables
            ∙ ap (λ o. reserved_tables o (reserved_tables o t)) it
            ∙ reserved_twice v v.route t
            ∙ rw e refl;
        subscribers = w.subscribers;
        sent =
            w.sent
            ∙ ap (λ o. s.sent ++ (reserved_messages a subs o ++ reserved_messages b subs o)) it
            ∙ rw e refl;
      })
