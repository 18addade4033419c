-- ===== src/Examples/Standing.antt =====
-- The standing of an event with several copies, and of a relay run that stopped.
use ccj.Prelude.{
  ◌≡◌, ◌≢◌, ◌↔◌, ◌≤◌, refl, true, false, none, some, is_null, ◌==◌, List, [], ◌∷◌, ◌&&◌, ltb,
  if◌then◌else◌, length, arith,
}
use ccj.Models.{Delivery, Status, ReconcileState, SkipReason, DeadLetterReason, is_acknowledged}
use ccj.Models.Tables.{Db, Event}
use ccj.Models.Checks.{IsSound, checks}
use ccj.Sql.{count_where, first, exists}
use ccj.Sql.Evolve.{All}
use ccj.Standing.{
  event_counts, event_report, live_count, mark_relay_halt, EventStatus, ReconcileStatus, is_stopped,
}
use ccj.Standing as Standing
use ccj.Standing.Laws.{is_live, live_count_lem}
use ccj.Standing.Acknowledged.{acknowledged-le-live, acknowledged_stays}
use ccj.Operator.Laws.{replied_db}
use ccj.Operator.Bulk.{requeue_event_unreconciled}
use ccj.Operator.Bulk.Laws.{HasBodies, requeue_event_unreconciled-unchanged}
use ccj.Standing.Delivered.{Settled, event_status-delivered_iff}
use ccj.Relay.Run as Run
use ccj.Relay.Run.{view_of, stations_of, is_station_of}
use ccj.Relay.Run.Laws.{
  IsPlaced, IsRun, stop_at, stop_why, view_of-first_stop, mark_relay_halt-stopped,
}
use ccj.System.{State, Op, run}
use ccj.System.Laws.{IsValid}
use ccj.Examples.{settings, copy, address, database, event}

-- an event for which one receipt is enough
abbrev posted : Event
posted = record (event 100) { required_ack_count = some 1 }

abbrev acked : Delivery
acked = record copy {
  status = Status.delivered;
  delivered_at = some 30;
  reconcile_state = ReconcileState.acknowledged;
}

abbrev queued : Delivery
queued = record copy { id = 2; destination_id = 8 }

abbrev gone : Delivery
gone = record copy { id = 3; destination_id = 9; status = Status.superseded }

abbrev rows : List Delivery
rows = acked ∷ queued ∷ gone ∷ []

rows-IsSound : All IsSound rows
unfolding checks
rows-IsSound = (
  record {
    checked = refl;
    gate_agrees = refl;
    awaits_receipt = λ e. refl;
    acknowledged = λ e. refl;
    gated = refl;
  },
  (
    record {
      checked = refl;
      gate_agrees = refl;
      awaits_receipt = λ e. absurd (cc);
      acknowledged = λ e. absurd (cc);
      gated = refl;
    },
    (
      record {
        checked = refl;
        gate_agrees = refl;
        awaits_receipt = λ e. absurd (cc);
        acknowledged = λ e. absurd (cc);
        gated = refl;
      },
      tt,
    ),
  ),
)

abbrev before_ops : State
before_ops = record { db = database rows; claims = [] }

before_ops-IsValid : IsValid before_ops
before_ops-IsValid = record { keyed = omega arith; sound = rows-IsSound; held = tt }

reported : (event_report posted none rows).reconcile_status ≡ ReconcileStatus.acknowledged
unfolding event_report Standing.event_response Standing.event_reconcile_status
    Standing.required_acks live_count event_counts count_where
reported = refl

acknowledged_stays_example :
    (event_report posted none
      (run settings
        (Op.deadline 40 100 (some 35) ∷ Op.recover 50 7 ∷ [])
        before_ops).db.deliveries).reconcile_status
    ≡ ReconcileStatus.acknowledged
acknowledged_stays_example =
    acknowledged_stays settings (Op.deadline 40 100 (some 35) ∷ Op.recover 50 7 ∷ []) before_ops
      posted posted none none before_ops-IsValid refl refl reported

live_count_lem_example : live_count (event_counts 100 none rows) ≡ count_where (is_live 100) rows
live_count_lem_example = live_count_lem 100 none rows

acknowledged-le-live_example :
    ((event_counts 100 none rows).acknowledged_count
      ≤ (event_report posted none rows).delivery_count)
    × ((event_report posted none rows).required_ack_count
        ≤ (event_report posted none rows).delivery_count)
acknowledged-le-live_example = acknowledged-le-live posted none rows rows-IsSound

abbrev done : List Delivery
done = acked ∷ gone ∷ []

done_live : (event_report posted none done).delivery_count ≢ 0
unfolding event_report Standing.event_response live_count event_counts count_where
done_live = omega arith

event_status-delivered_iff_example :
    ((event_report posted none done).status ≡ EventStatus.delivered) ↔ (
      (is_null posted.cancelled_at ≡ true)
      × (mark_relay_halt (event_counts 100 none done) ≡ false)
      × Settled 100 done)
event_status-delivered_iff_example = event_status-delivered_iff posted none done done_live

done_status : (event_report posted none done).status ≡ EventStatus.delivered
unfolding event_report Standing.event_response Standing.event_status mark_relay_halt event_counts
    count_where live_count Standing.live_status
done_status = refl

-- a run whose second station is parked in the dead-letter area
abbrev station_one : Delivery
station_one = record acked {
  relay_chain_id = some 50;
  relay_station_no = some 1;
  destination_id = 7;
}

abbrev station_two : Delivery
station_two = record copy {
  id = 2;
  status = Status.dead_lettered;
  dead_letter_reason = some DeadLetterReason.receipt_timeout_exhausted;
  relay_chain_id = some 50;
  relay_station_no = some 2;
}

abbrev station_three : Delivery
station_three = record copy {
  id = 3;
  status = Status.relay_skipped;
  relay_skip_reason = some (SkipReason.dead_letter DeadLetterReason.receipt_timeout_exhausted);
  relay_chain_id = some 50;
  relay_station_no = some 3;
}

abbrev stations : List Delivery
stations = station_one ∷ station_two ∷ station_three ∷ []

stations-IsPlaced : All IsPlaced stations
unfolding checks
stations-IsPlaced = ((refl, refl), ((refl, refl), ((refl, refl), tt)))

view_of-first_stop_example :
    let v = view_of stations in
    (v.stopped ≡ (
      ltb 0 (count_where is_stopped stations)
      && ltb
          (count_where (λ (d : Delivery). is_acknowledged d.reconcile_state) stations)
          (length stations)))
    × (v.stopped_at_station_no ≡ (if v.stopped then stop_at (first is_stopped stations) else none))
    × (v.stop_reason ≡ (if v.stopped then stop_why (first is_stopped stations) else none))
view_of-first_stop_example = view_of-first_stop stations stations-IsPlaced

stops_at_two : (view_of stations).stopped_at_station_no ≡ some 2
unfolding view_of Run.walk Run.visit
stops_at_two = refl

stations-IsRun : All (IsRun 100 (address ∷ [])) stations
unfolding checks is_station_of exists
stations-IsRun = (
  (λ e. (refl, refl, (refl, refl))),
  ((λ e. (refl, refl, (refl, refl))), ((λ e. (refl, refl, (refl, refl))), tt)),
)

mark_relay_halt-stopped_example :
    mark_relay_halt (event_counts 100 none stations)
    ≡ (view_of (stations_of 100 (address ∷ []) stations)).stopped
mark_relay_halt-stopped_example =
    mark_relay_halt-stopped 100 none (address ∷ []) stations stations-IsRun

abbrev with_event : Db
with_event = record (database rows) { events = posted ∷ [] }

found_posted : first (λ (x : Event). x.id == 100) with_event.events ≡ some posted
unfolding first
found_posted = refl

rows-HasBodies : HasBodies 100 rows
unfolding checks
rows-HasBodies = ((λ e. refl), ((λ e. refl), ((λ e. refl), tt)))

requeue_event_unreconciled-unchanged_example :
    (replied_db with_event (requeue_event_unreconciled 60 100 with_event)).deliveries ≡ rows
requeue_event_unreconciled-unchanged_example =
    requeue_event_unreconciled-unchanged 60 100 posted none with_event rows-IsSound rows-HasBodies
      found_posted reported
