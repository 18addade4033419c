-- ===== src/FanOut/Stations.antt =====
-- The stations of a relay event: `fan_out_relay_event` of env/app/relay.py.
use ccj.Prelude.{
  ℕ, ◌+◌, ◌≡◌, refl, sym, ap, ◌∙◌, true, false, none, some, List, [], ◌∷◌, ◌++◌, arith, ◌==◌,
  ==_iff, ◌&&◌, is_some, Option-cases, inl, inr,
}
use ccj.Models.{Delivery, Phase, Status}
use ccj.Models.Tables.{Db, Destination}
use ccj.Sql.{update, first}
use ccj.Sql.Evolve.{All, first-update, first_holds}
use ccj.FanOut.Insert.{Posting, new_copy, bump, is_address}
use ccj.FanOut.{fan_out_relay_event, station_copy}
use ccj.FanOut.Pairs.{placed_db, insert_at}

-- The copy of one station: queued, in earnest, and waiting for no nod.
pub record IsStation (p : Posting) (chain no i : ℕ) (d : Delivery) : Type 0 where
  pub same_event : d.event_id ≡ p.event_id
  pub goes_to : d.destination_id ≡ i
  pub same_chain : d.relay_chain_id ≡ some chain
  pub same_station : d.relay_station_no ≡ some no
  pub waits : d.status ≡ Status.pending
  pub in_earnest : d.observe_only ≡ false
  pub is_content : d.phase ≡ Phase.body
  pub no_gate : d.release_state ≡ none

-- one copy for each address of the chain, in order, with numbers from `no` on
abbrev pub AreStations : Posting → ℕ → ℕ → List ℕ → List Delivery → Type 0
AreStations p chain n [] [] = Unit
AreStations p chain n [] (d ∷ ds) = ⊥
AreStations p chain n (i ∷ is) [] = ⊥
AreStations p chain n (i ∷ is) (d ∷ ds) =
    IsStation p chain n i d × AreStations p chain (n + 1) is ds

-- the foreign key of relay_chain_stations.destination_id
abbrev pub AreThere : List Destination → List ℕ → Type 0
AreThere xs is = All (λ (i : ℕ). is_some (first (is_address i) xs) ≡ true) is

there :
    (i : ℕ) (xs : List Destination)
    → is_some (first (is_address i) xs) ≡ true
    → (x : Destination) × (first (is_address i) xs ≡ some x)
there i xs h = elim (Option-cases (first (is_address i) xs)) [
  | inl e ↦ absurd (ground arith)
  | inr found ↦ found
]

still_there :
    (i j : ℕ) (xs : List Destination)
    → is_some (first (is_address j) xs) ≡ true
    → is_some (first (is_address j) (update (λ (y : Destination). y.id == i && true) bump xs))
      ≡ true
unfolding bump
still_there i j xs h =
    let (x, e) = there j xs h in
    rw
      (first-update (is_address j) (λ (y : Destination). y.id == i && true) bump xs x (λ x. refl) e)
      refl

there_update :
    (i : ℕ) (xs : List Destination) (is : List ℕ)
    → AreThere xs is
    → AreThere (update (λ (y : Destination). y.id == i && true) bump xs) is
there_update i xs [] h = tt
there_update i xs (j ∷ is) h = (still_there i j xs h.0, there_update i xs is h.1)

append_assoc_one :
    (xs : List Delivery) (a : Delivery) (ys : List Delivery)
    → (xs ++ (a ∷ [])) ++ ys ≡ xs ++ (a ∷ ys)
append_assoc_one [] a ys = refl
append_assoc_one (x ∷ xs) a ys = ap (λ (zs : List Delivery). x ∷ zs) (append_assoc_one xs a ys)

made-IsStation :
    (p : Posting) (chain no i id : ℕ) (x : Destination)
    → x.id ≡ i
    → IsStation p chain no i (station_copy p chain no id (bump x))
unfolding station_copy new_copy bump
made-IsStation p chain n i id x e = record {
  same_event = refl;
  goes_to = e;
  same_chain = refl;
  same_station = refl;
  waits = refl;
  in_earnest = refl;
  is_content = refl;
  no_gate = refl;
}

-- what a fan-out adds behind the rows that are there
pub record AddsStations (p : Posting) (chain no : ℕ) (is : List ℕ) (rows rows' : List Delivery)
    : Type 0 where
  pub stations : List Delivery
  pub appended : rows' ≡ rows ++ stations
  pub in_order : AreStations p chain no is stations

append_nil : (xs : List Delivery) → xs ++ [] ≡ xs
append_nil [] = refl
append_nil (x ∷ xs) = ap (λ (zs : List Delivery). x ∷ zs) (append_nil xs)

step :
    (fresh : List Delivery → ℕ) (p : Posting) (chain no i : ℕ) (is : List ℕ) (x : Destination)
    (db : Db)
    → first (is_address i) db.destinations ≡ some x
    → AddsStations p chain
        (no + 1)
        is
        (placed_db fresh i (station_copy p chain no) x db).deliveries
        (fan_out_relay_event fresh p chain
          (no + 1)
          is
          (placed_db fresh i (station_copy p chain no) x db)).deliveries
    → AddsStations p chain no
        (i ∷ is)
        db.deliveries
        (fan_out_relay_event fresh p chain no (i ∷ is) db).deliveries
unfolding fan_out_relay_event
step fresh p chain n i is x db e r = record {
  stations = station_copy p chain n (fresh db.deliveries) (bump x) ∷ r.stations;
  appended =
      rw (fan_out_relay_event, insert_at fresh i (station_copy p chain n) x db e)
        (r.appended
          ∙ append_assoc_one db.deliveries (station_copy p chain n (fresh db.deliveries) (bump x))
              r.stations);
  in_order = (
    made-IsStation p chain n i (fresh db.deliveries) x
        ((==_iff x.id i).0 (first_holds (is_address i) db.destinations x e)),
    r.in_order,
  );
}

-- An event on a chain gets exactly one copy for each station of the chain, in the chain's order and
-- numbered from 1 where the loop starts there, each with the version of the chain. All of them are
-- queued, in earnest whatever mode the address is in, and no row that was there is changed.
pub fan_out_relay_event-AddsStations :
    (fresh : List Delivery → ℕ) (p : Posting) (chain no : ℕ) (is : List ℕ) (db : Db)
    → AreThere db.destinations is
    → AddsStations p chain no is db.deliveries
        (fan_out_relay_event fresh p chain no is db).deliveries
unfolding fan_out_relay_event
fan_out_relay_event-AddsStations fresh p chain n [] db h = record {
  stations = [];
  appended = sym (append_nil db.deliveries);
  in_order = tt;
}
fan_out_relay_event-AddsStations fresh p chain n (i ∷ is) db h =
    let (x, e) = there i db.destinations h.0 in
    step fresh p chain n i is x db e (
      fan_out_relay_event-AddsStations fresh p chain (n + 1) is
        (placed_db fresh i (station_copy p chain n) x db) (there_update i db.destinations is h.1))
