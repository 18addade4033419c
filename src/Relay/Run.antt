-- ===== src/Relay/Run.antt =====
-- The run view of an event that walks a chain: `build_event_relay` and `_reason_of` of
-- env/app/relay.py, without the chain's own row.
pub mod Laws
use ccj.Prelude.{
  ℕ, zero, suc, ◌+◌, Bool, true, false, Option, none, some, is_some, List, [], ◌∷◌, ◌&&◌, ◌||◌, not,
  ◌==◌, ltb, leb, coalesce, map, length, if◌then◌else◌,
}
use ccj.Models.{
  Delivery, Status, ReconcileState, SkipReason, DeadLetterReason, is_body, is_acknowledged,
  is_relay_skipped,
}
use ccj.Models.Tables.{Destination}
use ccj.Sql.{where_rows, order_by, exists}
use ccj.Standing.{is_stopped}

abbrev reason_of_receipt : ReconcileState → Option SkipReason
reason_of_receipt ReconcileState.receipt_failed = some SkipReason.receipt_failed
reason_of_receipt ReconcileState.timed_out = some SkipReason.receipt_timeout
reason_of_receipt _ = none

abbrev reason_by : Status → Delivery → Option SkipReason
reason_by Status.superseded d = some SkipReason.superseded
reason_by Status.deadline_expired d = some SkipReason.deliver_by_expired
reason_by Status.dead_lettered d = some (
    SkipReason.dead_letter
      (coalesce d.dead_letter_reason DeadLetterReason.delivery_attempts_exhausted))
reason_by _ d = reason_of_receipt d.reconcile_state

-- `_reason_of`
unfoldable pub reason_of : Delivery → Option SkipReason
reason_of d = reason_by d.status d

-- the entry of `stations`
pub record Station : Type 0 where
  pub station_no : Option ℕ
  pub destination_id : ℕ
  pub delivery_id : ℕ
  pub status : Status
  pub reconcile_state : ReconcileState
  pub acknowledged : Bool
  pub delivered : Bool
  pub reached : Bool
  pub skip_reason : Option SkipReason
  pub skipped_at : Option ℕ
  pub stopped_by_delivery_id : Option ℕ

abbrev pub status_reached : Status → Bool
status_reached Status.in_flight = true
status_reached Status.dead_lettered = true
status_reached Status.superseded = true
status_reached _ = false

abbrev pub receipt_reached : ReconcileState → Bool
receipt_reached ReconcileState.unset = false
receipt_reached _ = true

unfoldable pub station : Delivery → Station
station d = record {
  station_no = d.relay_station_no;
  destination_id = d.destination_id;
  delivery_id = d.id;
  status = d.status;
  reconcile_state = d.reconcile_state;
  acknowledged = is_acknowledged d.reconcile_state;
  delivered = is_some d.delivered_at;
  reached =
      is_some d.delivered_at || (status_reached d.status || receipt_reached d.reconcile_state);
  skip_reason = d.relay_skip_reason;
  skipped_at = d.relay_skipped_at;
  stopped_by_delivery_id = d.relay_stopped_by_delivery_id;
}

-- the variables of the loop; `None` of a station is that no station was found
pub record Walk : Type 0 where
  pub acknowledged : ℕ
  pub delivered : ℕ
  pub skipped : ℕ
  pub stop_station : Option ℕ
  pub stop_reason : Option SkipReason
  pub current_station : Option ℕ

abbrev pub start : Walk
start = record {
  acknowledged = 0;
  delivered = 0;
  skipped = 0;
  stop_station = none;
  stop_reason = none;
  current_station = none;
}

-- the body of the loop
unfoldable pub visit : Delivery → Walk → Walk
visit d w =
    let stops = is_stopped d && not (is_some w.stop_station) in
    let settled_ack = is_acknowledged d.reconcile_state in
    record {
      acknowledged = if settled_ack then w.acknowledged + 1 else w.acknowledged;
      delivered = if is_some d.delivered_at then w.delivered + 1 else w.delivered;
      skipped = if is_relay_skipped d.status then w.skipped + 1 else w.skipped;
      stop_station = if stops then d.relay_station_no else w.stop_station;
      stop_reason = if stops then reason_of d else w.stop_reason;
      current_station =
          if not (is_some w.current_station) && not settled_ack
          then d.relay_station_no
          else w.current_station;
    }

unfoldable pub walk : List Delivery → Walk → Walk
walk [] w = w
walk (d ∷ rows) w = walk rows (visit d w)

pub record RunView : Type 0 where
  pub station_count : ℕ
  pub acknowledged_count : ℕ
  pub delivered_count : ℕ
  pub skipped_count : ℕ
  pub current_station_no : Option ℕ
  pub stopped : Bool
  pub stopped_at_station_no : Option ℕ
  pub stop_reason : Option SkipReason
  pub completed : Bool
  pub stations : List Station

-- the SELECT
unfoldable pub is_station_of : ℕ → List Destination → Delivery → Bool
is_station_of event_id destinations d =
    d.event_id == event_id
    && (is_some d.relay_chain_id
        && (is_body d.phase && exists (λ (x : Destination). x.id == d.destination_id) destinations))

abbrev pub by_station_no : Delivery → Delivery → Bool
by_station_no d e = leb (coalesce d.relay_station_no 0) (coalesce e.relay_station_no 0)

unfoldable pub stations_of : ℕ → List Destination → List Delivery → List Delivery
stations_of event_id destinations rows =
    order_by by_station_no (where_rows (is_station_of event_id destinations) rows)

unfoldable pub view_of : List Delivery → RunView
view_of rows =
    let w = walk rows start in
    let total = length rows in
    let completed = leb total w.acknowledged && ltb 0 total in
    let stopped = is_some w.stop_station && not completed in
    record {
      station_count = total;
      acknowledged_count = w.acknowledged;
      delivered_count = w.delivered;
      skipped_count = w.skipped;
      current_station_no =
          if completed then none else if stopped then w.stop_station else w.current_station;
      stopped = stopped;
      stopped_at_station_no = if stopped then w.stop_station else none;
      stop_reason = if stopped then w.stop_reason else none;
      completed = completed;
      stations = map station rows;
    }

abbrev view_if_any : List Delivery → Option RunView
view_if_any [] = none
view_if_any (d ∷ rows) = some (view_of (d ∷ rows))

-- `None` for an event that walks no chain
unfoldable pub build_event_relay : ℕ → List Destination → List Delivery → Option RunView
build_event_relay event_id destinations rows = view_if_any (stations_of event_id destinations rows)
