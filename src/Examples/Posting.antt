-- ===== src/Examples/Posting.antt =====
-- Posting an event: admission, storing and fan-out.
use ccj.Prelude.{ℕ, suc, ◌+◌, ◌<◌, ◌≡◌, ◌↔◌, refl, false, none, some, List, [], ◌∷◌, ◌++◌, arith}
use ccj.Models.{Delivery}
use ccj.Models.Tables.{Db}
use ccj.Models.Checks.{checks}
use ccj.Sql.{first}
use ccj.Sql.Evolve.{All, All-both}
use ccj.Filters.Text.{Digit}
use ccj.Filters.Json.{Json, Fields}
use ccj.FanOut.{Subscriber, fan_out_pair, fan_out_relay_event}
use ccj.FanOut.Insert.{Posting, is_address}
use ccj.FanOut.Lined.{IsFresh, IsLined}
use ccj.FanOut.Pairs.{AddsPair, fan_out_pair-AddsPair}
use ccj.FanOut.Stations.{AddsStations, fan_out_relay_event-AddsStations}
use ccj.Ingest.{Stored, store_event, log_attempt}
use ccj.Ingest as Ingest
use ccj.Ingest.Setup as Setup
use ccj.Ingest.Routing as Routing
use ccj.Sql as Sql
use ccj.FanOut as FanOut
use ccj.Ingest.Setup.{Catalog, EventIn, Disposition, Store, Surroundings, Source}
use ccj.Ingest.Kept.{stored_db, store_event-IsLined}
use ccj.Ingest.Once.{store_event-once}
use ccj.Ingest.Unrouted.{IsHonest, store_event-IsHonest}
use ccj.Filters.Text as Text
use ccj.Ingest.Admission.{
  SourceId, Python, Window, Request, Parsed, Decoded, admitted, authenticate, create_event,
}
use ccj.Ingest.Admission.Laws.{IsSigned, authenticate-IsSigned_iff}
use ccj.Ingest.Admission.Logged.{IsHandled, create_event-IsHandled}
use ccj.Chains.{Definition, define_chain}
use ccj.Chains.Laws.{WhenDefined, define_chain-IsActive}
use ccj.Examples.{copy, address, database}

-- one more than all ids together
abbrev next_id : List Delivery → ℕ
next_id [] = 1
next_id (d ∷ ds) = suc d.id + next_id ds

next_id-above : (rows : List Delivery) → All (λ (d : Delivery). d.id < next_id rows) rows
next_id-above [] = tt
next_id-above (x ∷ xs) = (
  omega arith,
  All-both _ _ _ xs (λ d h g. omega (arith, h)) (next_id-above xs) (next_id-above xs),
)

next_id-IsFresh : IsFresh next_id
next_id-IsFresh rows =
    All-both _ _ _ rows (λ d h g. omega (arith, h)) (next_id-above rows) (next_id-above rows)

abbrev surroundings : Surroundings
surroundings = record {
  fresh = next_id;
  fresh_event = λ es. 400;
  dumps = λ j. "{}";
  chars = record { digit = λ c. Digit.no_digit; is_space = λ c. false };
}

abbrev catalog : Catalog
catalog = record {
  sources = [];
  subscriptions = [];
  policies = [];
  thresholds = [];
  chains = [];
  stations = [];
}

abbrev body : EventIn
body = record {
  event_type = "order.paid";
  dedupe_key = "evt:400";
  payload = "{}";
  content = Json.object Fields.end;
  preview_payload = none;
  not_before = none;
  deliver_by = none;
}

abbrev store : Store
store = record { db = database (copy ∷ []); evaluations = []; log = [] }

store-IsLined : IsLined store.db
unfolding checks first
store-IsLined = record {
  keyed = (tt, tt);
  sound = (
    record {
      checked = refl;
      gate_agrees = refl;
      awaits_receipt = λ e. absurd (cc);
      acknowledged = λ e. absurd (cc);
      gated = refl;
    },
    tt,
  );
  given_out = (omega arith, tt);
  apart = (tt, tt);
}

store_event-IsLined_example :
    IsLined (stored_db store (store_event surroundings catalog 20 body store))
store_event-IsLined_example =
    store_event-IsLined surroundings catalog 20 body store next_id-IsFresh store-IsLined

store_event-IsHonest_example : IsHonest store (store_event surroundings catalog 20 body store)
store_event-IsHonest_example = store_event-IsHonest surroundings catalog 20 body store

abbrev posted : Posting
posted = record {
  now = 20;
  event_id = 400;
  event_type = "order.paid";
  dedupe_key = "evt:400";
  payload = "{}";
  preview_payload = some "[]";
  not_before = none;
  deliver_by = none;
}

abbrev subscriber : Subscriber
subscriber = record { destination_id = 7; observe_only = false; filter_spec = none }

address_seven : first (is_address 7) store.db.destinations ≡ some address
unfolding first
address_seven = refl

fan_out_pair-AddsPair_example :
    AddsPair posted 60 subscriber address store.db
      (fan_out_pair next_id posted 60 subscriber store.db)
fan_out_pair-AddsPair_example =
    fan_out_pair-AddsPair next_id posted 60 subscriber address store.db next_id-IsFresh
      store-IsLined.given_out address_seven

abbrev two_addresses : Db
two_addresses = record store.db { destinations = address ∷ record address { id = 8 } ∷ [] }

fan_out_relay_event-AddsStations_example :
    AddsStations posted 50 1
      (8 ∷ 7 ∷ [])
      two_addresses.deliveries
      (fan_out_relay_event next_id posted 50 1 (8 ∷ 7 ∷ []) two_addresses).deliveries
unfolding first
fan_out_relay_event-AddsStations_example =
    fan_out_relay_event-AddsStations next_id posted 50 1 (8 ∷ 7 ∷ []) two_addresses
      (refl, (refl, tt))

abbrev python : Python
python = record {
  strip = λ s. s;
  without_prefix = λ s. s;
  uuid = λ s. SourceId.named 5;
  timestamp = λ s. Parsed.time 100;
  hmac_sha256 = λ k m. m;
  decode = λ s. Decoded.event body;
}

abbrev window : Window
window = record { ingest_max_age_seconds = 300; ingest_max_future_skew_seconds = 60 }

abbrev sender : Source
sender = record { id = 5; secret = "secret"; disabled_at = none }

abbrev request : Request
request = record {
  source_id_header = some "5";
  signed_at_header = some "100";
  signature_header = some "100.{}";
  body = "{}";
}

authenticate-IsSigned_iff_example :
    (authenticate python window 120 request (sender ∷ []) [] ≡ admitted sender)
    ↔ IsSigned python window 120 request (sender ∷ []) sender
authenticate-IsSigned_iff_example =
    authenticate-IsSigned_iff python window 120 request (sender ∷ []) [] sender

signed : authenticate python window 120 request (sender ∷ []) [] ≡ admitted sender
unfolding authenticate first Text.is_ascii
signed = refl

create_event-IsHandled_example :
    IsHandled python window 120 request
      (sender ∷ [])
      []
      (create_event python window 120 request (sender ∷ []) [])
create_event-IsHandled_example = create_event-IsHandled python window 120 request (sender ∷ []) []

abbrev after : Store
after = record store {
  db = record store.db {
    events =
        store.db.events
        ++ (record {
          id = 400;
          event_type = "order.paid";
          dedupe_key = "evt:400";
          not_before = none;
          deliver_by = none;
          cancelled_at = none;
          corrects_event_id = none;
          required_ack_count = some 0;
        }
            ∷ []);
  };
  log =
      (record {
        disposition = Disposition.unrouted;
        event_id = some 400;
        dedupe_key = some "evt:400";
      })
      ∷ [];
}

stored_once :
    store_event surroundings catalog 20 body store ≡ Stored.created Disposition.unrouted 0 after
unfolding store_event Setup.policy_of first Sql.exists Setup.active_chain_of Routing.judge_all
    Routing.subscribers_of Sql.order_by Sql.where_rows Routing.subscriber_count Setup.threshold_of
    FanOut.fan_out_plain Sql.update Sql.count_where Ingest.real_pairs
stored_once = refl

store_event-once_example :
    store_event surroundings catalog 30 body after
    ≡ Stored.duplicate (log_attempt Disposition.duplicate body none after)
unfolding Setup.policy_of first
store_event-once_example =
    store_event-once surroundings surroundings catalog catalog 20 30 0 body Disposition.unrouted
      store after after stored_once refl refl

define_chain-IsActive_example :
    WhenDefined "order.paid"
      (8 ∷ 7 ∷ [])
      two_addresses.destinations
      catalog
      (define_chain 50 "order.paid" (8 ∷ 7 ∷ []) two_addresses.destinations catalog)
define_chain-IsActive_example =
    define_chain-IsActive 50 "order.paid" (8 ∷ 7 ∷ []) two_addresses.destinations catalog tt

-- the call above is not refused
abbrev version_of : Definition → ℕ
version_of (Definition.defined c cat) = c.version
version_of (Definition.refused e) = 0

first_version :
    version_of (define_chain 50 "order.paid" (8 ∷ 7 ∷ []) two_addresses.destinations catalog) ≡ 1
unfolding define_chain Sql.exists Setup.policy_of first Sql.update
first_version = refl
