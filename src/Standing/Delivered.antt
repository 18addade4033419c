-- ===== src/Standing/Delivered.antt =====
-- When `event_status` of env/app/main.py says that an event is delivered.
use ccj.Prelude.{
  ℕ, ◌≤◌, ◌≡◌, ◌≢◌, ◌↔◌, Bool, true, false, Option, is_null, List, [], ◌∷◌, arith, ◌&&◌, not, ◌||◌,
  ◌==◌,
}
use ccj.Models.{Delivery, is_delivered, is_dead_lettered, is_deadline_expired}
use ccj.Models.Tables.{Event}
use ccj.Models.Progress.{is_withdrawn}
use ccj.Sql.{count_where}
use ccj.Sql.Evolve.{All, All-both}
use ccj.Standing.{
  is_real, is_queued, is_failed, Evaluation, event_counts, live_count, EventStatus, event_status,
  live_status, Counts, event_response, event_report, mark_relay_halt,
}
use ccj.Standing.Laws.{count-le, count_eq, count_zero, zero_count, is_live, live_count_lem}

-- A copy that the event does not wait for and does not miss: it was delivered, or it was never to go
-- out, for another reason than its cutoff.
abbrev pub is_settled : Delivery → Bool
is_settled d =
    is_delivered d.status || (is_withdrawn d.status && not (is_deadline_expired d.status))

abbrev pub Settled : ℕ → List Delivery → Type 0
Settled e rows = All (λ d. is_real e d ≡ true → is_settled d ≡ true) rows

-- the branches of `event_status` before the last one
abbrev quiet : ℕ → ℕ → ℕ → ℕ → Bool
quiet pending expired dead failed = pending == 0 && (expired == 0 && (dead == 0 && failed == 0))

none_of :
    (e : ℕ) (p : Delivery → Bool) (rows : List Delivery)
    → ((d : Delivery) → is_settled d ≡ true → p d ≡ false)
    → Settled e rows
    → count_where (λ d. is_real e d && p d) rows ≡ 0
none_of e p rows k h =
    zero_count (λ d. is_real e d && p d) rows
      (All-both (λ d. is_real e d ≡ true → is_settled d ≡ true)
        (λ d. is_real e d ≡ true → is_settled d ≡ true) (λ d. (is_real e d && p d) ≡ false) rows
        (λ d a b. ground (arith, a, k d)) h h)

delivered-live :
    (e : ℕ) (rows : List Delivery)
    → All (λ d. (is_real e d && is_delivered d.status) ≡ true → is_live e d ≡ true) rows
delivered-live e [] = tt
delivered-live e (d ∷ rows) = ((λ h. ground arith), delivered-live e rows)

live-delivered :
    (e : ℕ) (rows : List Delivery)
    → Settled e rows
    → All (λ d. is_live e d ≡ true → (is_real e d && is_delivered d.status) ≡ true) rows
live-delivered e [] h = tt
live-delivered e (d ∷ rows) h = ((λ l. ground (arith, h.0)), live-delivered e rows h.1)

counts-Settled :
    (e : ℕ) (rows : List Delivery)
    → count_where (λ d. is_real e d && is_deadline_expired d.status) rows ≡ 0
    → count_where (is_live e) rows ≤ count_where (λ d. is_real e d && is_delivered d.status) rows
    → Settled e rows
counts-Settled e rows z le =
    All-both _ _ _ rows (λ d a b. λ r. ground (arith, a, b, r))
      (count_eq (λ d. is_real e d && is_delivered d.status) (is_live e) rows (delivered-live e rows)
        le)
      (count_zero (λ d. is_real e d && is_deadline_expired d.status) rows z)

status_lem :
    (cancelled : Option ℕ) (halted : Bool) (c : Counts)
    → live_count c ≢ 0
    → (event_status cancelled halted c ≡ EventStatus.delivered) ↔ (
        (is_null cancelled ≡ true)
        × (halted ≡ false)
        × (quiet c.pending_count c.deadline_expired_count c.dead_lettered_count c.failed_count
            ≡ true)
        × (live_count c ≤ c.delivered_count))
unfolding event_status live_status
status_lem cancelled halted c n = (λ h. ground arith, λ h. ground arith)

-- An event with live copies is reported delivered exactly when it is not cancelled, its relay run is
-- not halted, and each of its real body copies was delivered or, for another reason than a missed
-- cutoff, was never to go out.
pub event_status-delivered_iff :
    (e : Event) (es : Option (List Evaluation)) (rows : List Delivery)
    → (event_report e es rows).delivery_count ≢ 0
    → ((event_report e es rows).status ≡ EventStatus.delivered) ↔ (
        (is_null e.cancelled_at ≡ true)
        × (mark_relay_halt (event_counts e.id es rows) ≡ false)
        × Settled e.id rows)
unfolding event_report event_response
event_status-delivered_iff e es rows n =
    let c = event_counts e.id es rows in
    let (to, from) = status_lem e.cancelled_at (mark_relay_halt c) c n in
    (
      (λ h.
          let (open_, runs, q, le) = to h in
          (
            open_,
            runs,
            unfold event_counts in
                counts-Settled e.id rows (ground arith) (rw (live_count_lem e.id es rows) at le),
          )),
      (λ h. from (
        h.0,
        h.1,
        unfold event_counts in
            ground (
              arith,
              none_of e.id (λ d. is_queued d.status) rows (λ d k. ground arith) h.2,
              none_of e.id (λ d. is_deadline_expired d.status) rows (λ d k. ground arith) h.2,
              none_of e.id (λ d. is_dead_lettered d.status) rows (λ d k. ground arith) h.2,
              none_of e.id (λ d. is_failed d.status) rows (λ d k. ground arith) h.2,
            ),
        rw (live_count_lem e.id es rows)
            (unfold event_counts in count-le _ _ rows (live-delivered e.id rows h.2)),
      )),
    )
