-- ===== src/Ingest.antt =====
-- A posted event: `store_event` of env/app/main.py, after its sender was admitted (Ingest/Admission).
pub mod Setup
pub mod Admission
pub mod Routing
pub mod Kept
pub mod Once
pub mod Unrouted
use text.Mathlib.Text.{◌==◌ as str_eq}
use mathlib.Core.Option
use ccj.Prelude.{
  ℕ, ◌+◌, String, Bool, true, false, Option, none, some, List, [], ◌∷◌, ◌++◌, ◌&&◌, not, is_some,
  is_null, leb, ◌==◌, length, if◌then◌else◌, map,
}
use ccj.Models.Tables.{Db, Event}
use ccj.Sql.{update, exists, count_where}
use ccj.Filters.Text.{Chars}
use ccj.FanOut.{Subscriber, fan_out_plain, fan_out_relay_event, fan_out_gated_event}
use ccj.FanOut.Insert.{Posting}
use ccj.Ingest.Setup.{
  Catalog, Chain, EventIn, Attempt, Disposition, Store, Surroundings, threshold_of, policy_of,
  active_chain_of, stations_of_chain,
}
use ccj.Ingest.Routing.{Routed, subscribers_of, judge_all, subscriber_count}

pub data Stored : Type 0 where
  -- the new event, with 201
  created : Disposition → ℕ → Store → Stored
  -- the event that is there, with 200
  duplicate : Store → Stored
  -- AdmissionError
  rejected : Disposition → Store → Stored
  -- an exception that is not caught: the transaction is rolled back
  crashed : Stored

abbrev attempt_of : Disposition → EventIn → Option ℕ → Attempt
attempt_of disposition body event_id = record {
  disposition = disposition;
  event_id = event_id;
  dedupe_key = some body.dedupe_key;
}

-- `log_attempt`, of an attempt whose body is known
unfoldable pub log_attempt : Disposition → EventIn → Option ℕ → Store → Store
log_attempt disposition body event_id st = record st {
  log = attempt_of disposition body event_id ∷ st.log;
}

unfoldable pub posting : ℕ → ℕ → EventIn → Posting
posting now event_id body = record {
  now = now;
  event_id = event_id;
  event_type = body.event_type;
  dedupe_key = body.dedupe_key;
  payload = body.payload;
  preview_payload = body.preview_payload;
  not_before = body.not_before;
  deliver_by = body.deliver_by;
}

-- the INSERT INTO events, with the placeholder of the required count
unfoldable pub new_event : ℕ → EventIn → Event
new_event event_id body = record {
  id = event_id;
  event_type = body.event_type;
  dedupe_key = body.dedupe_key;
  not_before = body.not_before;
  deliver_by = body.deliver_by;
  cancelled_at = none;
  corrects_event_id = none;
  required_ack_count = some 0;
}

-- the UPDATE of required_ack_count, and the log
unfoldable pub finish : Disposition → ℕ → ℕ → EventIn → Store → Stored
unfolding log_attempt
finish disposition required event_id body st = Stored.created disposition required (
    log_attempt disposition body (some event_id) (record st {
      db = record st.db {
        events =
            update (λ (e : Event). e.id == event_id)
              (λ (e : Event). record e { required_ack_count = some required }) st.db.events;
      };
    }))

-- the disposition of an event that walks no chain
abbrev pub outcome_of : ℕ → ℕ → ℕ → Disposition
outcome_of routed confirmed total =
    if routed == 0
    then (if confirmed == 0
        then (if total == 0 then Disposition.unrouted else Disposition.pending_confirmation)
        else Disposition.filtered)
    else Disposition.accepted

-- the number of for-real subscribers that are routed to
unfoldable pub real_pairs : List Subscriber → ℕ
real_pairs ss = count_where (λ (s : Subscriber). not s.observe_only) ss

abbrev pub required_of : Option ℕ → ℕ → ℕ
required_of none pairs = pairs
required_of (some n) pairs = if leb n pairs then n else pairs

-- the copies of an event that walks no chain
abbrev pub copies : Surroundings → Posting → Option ℕ → List Subscriber → Db → Option Db
copies u p none ss db = some (fan_out_plain u.fresh p ss db)
copies u p (some window) ss db = fan_out_gated_event u.fresh p window ss db

abbrev pub finish_routed :
    Surroundings → Catalog → EventIn → ℕ → ℕ → Routed → Option Db → Store → Stored
finish_routed u cat body event_id confirmed r none st = Stored.crashed
finish_routed u cat body event_id confirmed r (some db) st =
    finish (outcome_of (length r.routed) confirmed (subscriber_count body.event_type cat))
      (required_of (threshold_of body.event_type cat) (real_pairs r.routed)) event_id body
      (record st { db = db; evaluations = r.evaluations })

-- the subscribers, their conditions and the fan-out; `none` is that a condition raised
abbrev pub route_judged :
    Surroundings → Catalog → ℕ → EventIn → ℕ → ℕ → Option Routed → Store → Stored
route_judged u cat now body event_id confirmed none st = Stored.crashed
route_judged u cat now body event_id confirmed (some r) st =
    finish_routed u cat body event_id confirmed r
      (copies u (posting now event_id body) (policy_of body.event_type cat) r.routed st.db) st

abbrev pub route : Surroundings → Catalog → ℕ → EventIn → ℕ → Option Chain → Store → Stored
route u cat now body event_id (some chain) st =
    let stations = stations_of_chain chain.id cat in
    finish Disposition.accepted (length stations) event_id body (record st {
      db = fan_out_relay_event u.fresh (posting now event_id body) chain.id 1 stations st.db;
    })
route u cat now body event_id none st =
    let subscribers = subscribers_of body.event_type cat st.db in
    route_judged u cat now body event_id (length subscribers)
      (judge_all u body event_id subscribers st.evaluations) st

-- the event row is there: ON CONFLICT (dedupe_key) DO NOTHING
unfoldable pub has_key : String → Event → Bool
has_key key e = str_eq e.dedupe_key key

unfoldable pub store_event : Surroundings → Catalog → ℕ → EventIn → Store → Stored
unfolding log_attempt finish has_key new_event posting
store_event u cat now body st =
    if is_null (policy_of body.event_type cat) && is_some body.preview_payload
    then Stored.rejected Disposition.invalid_body
        (log_attempt Disposition.invalid_body body none st)
    else if exists (has_key body.dedupe_key) st.db.events
    then Stored.duplicate (log_attempt Disposition.duplicate body none st)
    else (let event_id = u.fresh_event st.db.events in
        route u cat now body event_id (active_chain_of body.event_type cat) (record st {
          db = record st.db { events = st.db.events ++ (new_event event_id body ∷ []) };
        }))
