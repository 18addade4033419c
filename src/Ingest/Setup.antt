-- ===== src/Ingest/Setup.antt =====
-- What the ingest of an event reads and writes besides the tables of `Db`, and what it is given.
use text.Mathlib.Text.{◌==◌ as str_eq}
use ccj.Prelude.{ℕ, String, Bool, Option, none, some, List, ◌&&◌, ◌==◌, leb, map}
use ccj.Models.{Delivery}
use ccj.Models.Tables.{Db, Event}
use ccj.Sql.{first, where_rows, order_by}
use ccj.Filters.Text.{Chars}
use ccj.Filters.Json.{Json}
use ccj.Standing.{Evaluation}

-- event_sources
pub record Source : Type 0 where
  pub id : ℕ
  pub secret : String
  pub disabled_at : Option ℕ

-- destination_subscriptions
pub record Subscription : Type 0 where
  pub destination_id : ℕ
  pub event_type : String
  pub filter_spec : Option Json

-- event_type_preview_policies
pub record Policy : Type 0 where
  pub event_type : String
  pub consent_timeout_seconds : ℕ

-- event_type_ack_thresholds
pub record Threshold : Type 0 where
  pub event_type : String
  pub ack_threshold : ℕ

-- relay_chains
pub record Chain : Type 0 where
  pub id : ℕ
  pub event_type : String
  pub version : ℕ
  pub active : Bool

-- relay_chain_stations
pub record ChainStation : Type 0 where
  pub chain_id : ℕ
  pub station_no : ℕ
  pub destination_id : ℕ

-- the tables that an operator writes
pub record Catalog : Type 0 where
  pub sources : List Source
  pub subscriptions : List Subscription
  pub policies : List Policy
  pub thresholds : List Threshold
  pub chains : List Chain
  pub stations : List ChainStation

-- ingestion_attempts.disposition
pub data Disposition : Type 0 where
  accepted unrouted pending_confirmation filtered duplicate source_unknown : Disposition
  source_disabled bad_signature stale_timestamp future_timestamp : Disposition
  invalid_timestamp invalid_body : Disposition

-- ingestion_attempts
pub record Attempt : Type 0 where
  pub disposition : Disposition
  pub event_id : Option ℕ
  pub dedupe_key : Option String

-- the tables that the ingest writes; the last attempt stands first
pub record Store : Type 0 where
  pub db : Db
  pub evaluations : List Evaluation
  pub log : List Attempt

-- EventIn: `payload` is its JSON text, `content` the value
pub record EventIn : Type 0 where
  pub event_type : String
  pub dedupe_key : String
  pub payload : String
  pub content : Json
  pub preview_payload : Option String
  pub not_before : Option ℕ
  pub deliver_by : Option ℕ

-- gen_random_uuid for deliveries and events, `json.dumps`, and Python's tables of characters
pub record Surroundings : Type 0 where
  pub fresh : List Delivery → ℕ
  pub fresh_event : List Event → ℕ
  pub dumps : Json → String
  pub chars : Chars

abbrev threshold_in : Option Threshold → Option ℕ
threshold_in none = none
threshold_in (some t) = some t.ack_threshold

unfoldable pub threshold_of : String → Catalog → Option ℕ
threshold_of type cat =
    threshold_in (first (λ (t : Threshold). str_eq t.event_type type) cat.thresholds)

abbrev window_in : Option Policy → Option ℕ
window_in none = none
window_in (some p) = some p.consent_timeout_seconds

-- `get_policy`: its consent_timeout_seconds
unfoldable pub policy_of : String → Catalog → Option ℕ
policy_of type cat = window_in (first (λ (p : Policy). str_eq p.event_type type) cat.policies)

-- `get_active_chain`
unfoldable pub active_chain_of : String → Catalog → Option Chain
active_chain_of type cat = first (λ (c : Chain). str_eq c.event_type type && c.active) cat.chains

-- the stations of `get_active_chain`, in order
unfoldable pub stations_of_chain : ℕ → Catalog → List ℕ
stations_of_chain chain_id cat =
    map (λ (s : ChainStation). s.destination_id)
      (order_by (λ (s t : ChainStation). leb s.station_no t.station_no)
        (where_rows (λ (s : ChainStation). s.chain_id == chain_id) cat.stations))
