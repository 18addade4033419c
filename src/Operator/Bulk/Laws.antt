-- ===== src/Operator/Bulk/Laws.antt =====
-- Bulk requeues beside the standing that an event reports.
use ccj.Prelude.{
  ℕ, ◌≤◌, ◌≡◌, refl, Bool, true, false, Option, some, List, [], ◌∷◌, ◌&&◌, coalesce, ltb, leb, ◌==◌,
  arith, Bool-cases, inl, inr,
}
use ccj.Models.{Delivery, is_acknowledged, is_body}
use ccj.Models.Tables.{Db, Destination, Event}
use ccj.Models.Checks.{IsSound}
use ccj.Sql.{update, count_where, first}
use ccj.Sql.Evolve.{All, All-both}
use ccj.Standing.{
  is_real, Evaluation, min_count, event_counts, event_report, event_response, required_acks,
  event_reconcile_status, ReconcileStatus,
}
use ccj.Standing.Laws.{is_live, live_count_lem, count-le, count_eq, acked-IsLive}
use ccj.Operator.{requeueable, requeue_row}
use ccj.Operator.Laws.{replied_db}
use ccj.Operator.Bulk.{
  is_counted, quorum_reached, event_requeueable, requeue_found, requeue_event_unreconciled,
}

update_none :
    (p : Delivery → Bool) (f : Delivery → Delivery) (rows : List Delivery)
    → All (λ d. p d ≡ false) rows
    → update p f rows ≡ rows
unfolding update
update_none p f [] h = refl
update_none p f (d ∷ rows) h = ground (arith, h.0, update_none p f rows h.1)

-- the event has no previews
abbrev pub HasBodies : ℕ → List Delivery → Type 0
HasBodies i rows = All (λ (d : Delivery). d.event_id ≡ i → is_body d.phase ≡ true) rows

-- If the report says acknowledged and the quorum says no, each live copy is acknowledged.
counts_meet :
    (required : Option ℕ) (acked live acked' live' : ℕ)
    → acked ≤ acked'
    → live ≤ live'
    → event_reconcile_status acked (min_count (coalesce required live) live)
      ≡ ReconcileStatus.acknowledged
    → (ltb 0 (min_count (coalesce required live') live')
        && leb (min_count (coalesce required live') live') acked')
      ≡ false
    → live ≤ acked
unfolding event_reconcile_status
counts_meet required acked live acked' live' a l e q = ground arith

acked_counted :
    (i : ℕ) (rows : List Delivery)
    → All IsSound rows
    → All
        (λ d.
          (is_real i d && is_acknowledged d.reconcile_state) ≡ true
          → (is_counted i d && is_acknowledged d.reconcile_state) ≡ true)
        rows
acked_counted i [] h = tt
acked_counted i (d ∷ rows) h = ((λ e. ground (arith, h.0.acknowledged)), acked_counted i rows h.1)

live_counted :
    (i : ℕ) (rows : List Delivery) → All (λ d. is_live i d ≡ true → is_counted i d ≡ true) rows
live_counted i [] = tt
live_counted i (d ∷ rows) = ((λ e. ground arith), live_counted i rows)

none_left :
    (i : ℕ) (xs : List Destination) (d : Delivery)
    → (d.event_id ≡ i → is_body d.phase ≡ true)
    → (is_live i d ≡ true → (is_real i d && is_acknowledged d.reconcile_state) ≡ true)
    → event_requeueable xs i d ≡ false
unfolding event_requeueable requeueable
none_left i xs d b l = ground arith

reported_acked :
    (e : Event) (es : Option (List Evaluation)) (rows : List Delivery)
    → All IsSound rows
    → (event_report e es rows).reconcile_status ≡ ReconcileStatus.acknowledged
    → quorum_reached e rows ≡ false
    → All
        (λ d. is_live e.id d ≡ true → (is_real e.id d && is_acknowledged d.reconcile_state) ≡ true)
        rows
unfolding event_report event_response required_acks event_counts quorum_reached
reported_acked e es rows s a q =
    count_eq (λ d. is_real e.id d && is_acknowledged d.reconcile_state) (is_live e.id) rows
      (acked-IsLive e.id rows s)
      (counts_meet e.required_ack_count
        (count_where (λ d. is_real e.id d && is_acknowledged d.reconcile_state) rows)
        (count_where (is_live e.id) rows)
        (count_where (λ d. is_counted e.id d && is_acknowledged d.reconcile_state) rows)
        (count_where (is_counted e.id) rows) (count-le _ _ rows (acked_counted e.id rows s))
        (count-le (is_live e.id) (is_counted e.id) rows (live_counted e.id rows))
        (rw (live_count_lem e.id es rows) at a) q)

found-unchanged :
    (now : ℕ) (e : Event) (es : Option (List Evaluation)) (db : Db)
    → All IsSound db.deliveries
    → HasBodies e.id db.deliveries
    → (event_report e es db.deliveries).reconcile_status ≡ ReconcileStatus.acknowledged
    → (replied_db db (requeue_found now (some e) db)).deliveries ≡ db.deliveries
unfolding requeue_found
found-unchanged now e es db s b a = elim (Bool-cases (quorum_reached e db.deliveries)) [
  | inl q ↦ rw q refl
  | inr q ↦ rw q (
      update_none (event_requeueable db.destinations e.id) (requeue_row now) db.deliveries (
        All-both _ _ _ db.deliveries (λ d h l. none_left e.id db.destinations d h l) b
          (reported_acked e es db.deliveries s a q)))
]

-- Once an event without previews reports that it is acknowledged, asking for its unacknowledged copies to
-- be sent again changes no copy.
pub requeue_event_unreconciled-unchanged :
    (now i : ℕ) (e : Event) (es : Option (List Evaluation)) (db : Db)
    → All IsSound db.deliveries
    → HasBodies e.id db.deliveries
    → first (λ (x : Event). x.id == i) db.events ≡ some e
    → (event_report e es db.deliveries).reconcile_status ≡ ReconcileStatus.acknowledged
    → (replied_db db (requeue_event_unreconciled now i db)).deliveries ≡ db.deliveries
unfolding requeue_event_unreconciled
requeue_event_unreconciled-unchanged now i e es db s b f a =
    rw f (found-unchanged now e es db s b a)
