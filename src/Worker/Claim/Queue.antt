-- ===== src/Worker/Claim/Queue.antt =====
-- Order and exclusion in one address's queue.
use mathlib.Core.List.{Mem}
use ccj.Prelude.{◌||◌, arith, ℕ, ◌≤◌, ◌≡◌, refl, true, false, some, List, [], ◌∷◌, ◌&&◌, not}
use ccj.Models.{Delivery, is_pending, is_in_flight, is_deliverable}
use ccj.Release.Gate.{in_time}
use ccj.Models.Tables.{Destination}
use ccj.Sql.{where_rows, order_by}
use ccj.Sql.Evolve.{All, All-both}
use ccj.Sql.Select.{rows_are_rows, All-of_where, All-of_order_by, order_by-LeastFirst, IsLeast}
use ccj.Relay.Gate.{relay_open}
use ccj.Worker.Claim.{is_candidate, by_seq, picked}
use ccj.Worker.Claim.Sends.{picked_row}

none_locked : (rows : List Delivery) → where_rows (λ (e : Delivery). not false) rows ≡ rows
unfolding where_rows
none_locked [] = refl
none_locked (d ∷ ds) = rw (none_locked ds) refl

-- The head of the address's queue among the copies whose gate, cutoff and station let them pass.
pub record IsHead (now : ℕ) (x : Destination) (rows : List Delivery) (e : Delivery) : Type 0 where
  pub known : Mem e rows
  pub to_address : e.destination_id ≡ x.id
  pub waits : (is_pending e.status || is_in_flight e.status) ≡ true
  pub gate_open : is_deliverable e.release_state ≡ true
  pub before_cutoff : in_time e.deliver_by now ≡ true
  pub station_open : relay_open rows e ≡ true
  pub foremost :
      All
        (λ (d : Delivery).
          d.destination_id ≡ x.id
          → (is_pending d.status || is_in_flight d.status) ≡ true
          → is_deliverable d.release_state ≡ true
          → in_time d.deliver_by now ≡ true
          → relay_open rows d ≡ true
          → e.destination_seq ≤ d.destination_seq)
        rows

candidate_parts :
    (now i : ℕ) (rows : List Delivery) (d : Delivery)
    → (is_candidate now i d && relay_open rows d) ≡ true
    → (d.destination_id ≡ i)
      × ((is_pending d.status || is_in_flight d.status) ≡ true)
      × (is_deliverable d.release_state ≡ true)
      × (in_time d.deliver_by now ≡ true)
      × (relay_open rows d ≡ true)
unfolding is_candidate
candidate_parts now i rows d h = ground arith

is_candidate_lem :
    (now i : ℕ) (rows : List Delivery) (d : Delivery)
    → d.destination_id ≡ i
    → (is_pending d.status || is_in_flight d.status) ≡ true
    → is_deliverable d.release_state ≡ true
    → in_time d.deliver_by now ≡ true
    → relay_open rows d ≡ true
    → (is_candidate now i d && relay_open rows d) ≡ true
unfolding is_candidate
is_candidate_lem now i rows d a b c e f = ground arith

least_of_queue :
    (now : ℕ) (x : Destination) (rows : List Delivery) (e : Delivery)
    → picked now (λ i. false) x rows ≡ some e
    → All
        (λ d.
          (is_candidate now x.id d && relay_open rows d) ≡ true
          → e.destination_seq ≤ d.destination_seq)
        rows
unfolding picked
least_of_queue now x rows e h =
    let q = λ (d : Delivery). is_candidate now x.id d && relay_open rows d in
    let sorted = order_by by_seq (where_rows q rows) in
    let least : IsLeast (λ d. d.destination_seq) e sorted =
      order_by-LeastFirst (λ (d : Delivery). d.destination_seq) (where_rows q rows) e
        (rw (none_locked sorted) at h) in
    All-of_where (λ d. e.destination_seq ≤ d.destination_seq) q rows
      (All-of_order_by (λ d. e.destination_seq ≤ d.destination_seq) by_seq (where_rows q rows)
        least)

-- When no other transaction holds a copy of the address, the copy that is picked is the head of the
-- address's queue: it is a copy of the address that waits or is under way, its gate and its station are
-- open and its cutoff has not passed, and every such copy has the same place or a later one.
pub picked-IsHead :
    (now : ℕ) (x : Destination) (rows : List Delivery) (e : Delivery)
    → picked now (λ i. false) x rows ≡ some e
    → IsHead now x rows e
picked-IsHead now x rows e h =
    let (known, passes) =
      picked_row now (λ i. false) x rows e (λ d. Mem d rows) h (rows_are_rows rows) in
    let (a, b, c, d, f) = candidate_parts now x.id rows e passes in
    record {
      known = known;
      to_address = a;
      waits = b;
      gate_open = c;
      before_cutoff = d;
      station_open = f;
      foremost =
          All-both _ _ _ rows (λ y l _ a b c g r. l (is_candidate_lem now x.id rows y a b c g r))
            (least_of_queue now x rows e h) (rows_are_rows rows);
    }
