-- ===== src/Standing/Acknowledged.antt =====
-- `event_reconcile_status` of env/app/main.py, over time.
use ccj.Prelude.{ℕ, ◌≤◌, ◌≡◌, Bool, true, Option, List, [], ◌∷◌, arith, ◌&&◌, coalesce}
use ccj.Config.{Settings}
use ccj.Models.{Delivery, is_acknowledged}
use ccj.Models.Tables.{Event}
use ccj.Models.Checks.{IsSound}
use ccj.Models.Progress.{Progress}
use ccj.Sql.{count_where}
use ccj.Sql.Evolve.{All, Evolves}
use ccj.Standing.{
  is_real, Evaluation, event_counts, ReconcileStatus, event_reconcile_status, required_acks,
  min_count, event_response, event_report,
}
use ccj.Standing.Laws.{count-le, is_live, live_count_lem, acked-IsLive}
use ccj.System.{State, Op, run}
use ccj.System.Laws.{IsValid, run-IsValid, run-Progress}

-- how many real copies of the event are acknowledged
abbrev acks : ℕ → List Delivery → ℕ
acks e rows = count_where (λ d. is_real e d && is_acknowledged d.reconcile_state) rows

count_grows :
    (R : Delivery → Delivery → Type 0) (p : Delivery → Bool) (xs ys : List Delivery)
    → ((x y : Delivery) → R x y → p x ≡ true → p y ≡ true)
    → Evolves R xs ys
    → count_where p xs ≤ count_where p ys
unfolding count_where
count_grows R p [] [] k h = omega arith
count_grows R p [] (y ∷ ys) k h = absurd h
count_grows R p (x ∷ xs) [] k h = absurd h
count_grows R p (x ∷ xs) (y ∷ ys) k h = ground (arith, count_grows R p xs ys k h.1, k x y h.0)

count_falls :
    (R : Delivery → Delivery → Type 0) (p : Delivery → Bool) (xs ys : List Delivery)
    → ((x y : Delivery) → R x y → p y ≡ true → p x ≡ true)
    → Evolves R xs ys
    → count_where p ys ≤ count_where p xs
unfolding count_where
count_falls R p [] [] k h = omega arith
count_falls R p [] (y ∷ ys) k h = absurd h
count_falls R p (x ∷ xs) [] k h = absurd h
count_falls R p (x ∷ xs) (y ∷ ys) k h = ground (arith, count_falls R p xs ys k h.1, k x y h.0)

acked_grows :
    (e : ℕ) (x y : Delivery)
    → Progress x y
    → (is_real e x && is_acknowledged x.reconcile_state) ≡ true
    → (is_real e y && is_acknowledged y.reconcile_state) ≡ true
acked_grows e x y p h = ground (arith, p.same_event, p.same_mode, p.same_phase, p.ack_stays)

live_falls : (e : ℕ) (x y : Delivery) → Progress x y → is_live e y ≡ true → is_live e x ≡ true
live_falls e x y p h = ground (arith, p.same_event, p.same_mode, p.same_phase, p.withdrawn_stays)

-- Among sound rows, an event reports no more acknowledged copies than live ones, and its required
-- number of receipts is at most the number of its live copies: `unacknowledged_count` does not fall
-- below 0.
pub acknowledged-le-live :
    (e : Event) (es : Option (List Evaluation)) (rows : List Delivery)
    → All IsSound rows
    → ((event_counts e.id es rows).acknowledged_count ≤ (event_report e es rows).delivery_count)
      × ((event_report e es rows).required_ack_count ≤ (event_report e es rows).delivery_count)
unfolding event_counts event_report event_response required_acks
acknowledged-le-live e es rows s = (
  omega (
    arith,
    live_count_lem e.id es rows,
    count-le (λ d. is_real e.id d && is_acknowledged d.reconcile_state) (is_live e.id) rows
        (acked-IsLive e.id rows s),
  ),
  ground arith,
)

-- the decision, for other counts
still_acked :
    (required : Option ℕ) (acked live acked' live' : ℕ)
    → acked ≤ acked'
    → live' ≤ live
    → acked' ≤ live'
    → event_reconcile_status acked (min_count (coalesce required live) live)
      ≡ ReconcileStatus.acknowledged
    → event_reconcile_status acked' (min_count (coalesce required live') live')
      ≡ ReconcileStatus.acknowledged
unfolding event_reconcile_status
still_acked required acked live acked' live' g f b a = ground arith

-- Once an event reports that it is acknowledged, it does so after every later sequence of the
-- transactions of `Op`, whatever they do to its other copies: the number of receipts that it requires is the one of its
-- creation, capped at its live copies.
pub acknowledged_stays :
    (cfg : Settings) (ops : List Op) (s : State) (e e' : Event) (es es' : Option (List Evaluation))
    → IsValid s
    → e'.id ≡ e.id
    → e'.required_ack_count ≡ e.required_ack_count
    → (event_report e es s.db.deliveries).reconcile_status ≡ ReconcileStatus.acknowledged
    → (event_report e' es' (run cfg ops s).db.deliveries).reconcile_status
      ≡ ReconcileStatus.acknowledged
unfolding event_report event_response required_acks count_where event_counts
acknowledged_stays cfg ops s e e' es es' v i r a =
    let rows = s.db.deliveries in
    let rows' = (run cfg ops s).db.deliveries in
    let goes = run-Progress cfg ops s v in
    rw (i, r, live_count_lem e.id es' rows')
      (still_acked e.required_ack_count (acks e.id rows) (count_where (is_live e.id) rows)
        (acks e.id rows') (count_where (is_live e.id) rows')
        (count_grows Progress (λ d. is_real e.id d && is_acknowledged d.reconcile_state) rows rows'
          (acked_grows e.id) goes)
        (count_falls Progress (is_live e.id) rows rows' (live_falls e.id) goes)
        (count-le (λ d. is_real e.id d && is_acknowledged d.reconcile_state) (is_live e.id) rows'
          (acked-IsLive e.id rows' (run-IsValid cfg ops s v).sound))
        (rw (live_count_lem e.id es rows) at a))
