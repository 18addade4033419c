-- ===== src/Ingest/Admission.antt =====
-- Who may post: env/app/ingest_auth.py, and `create_event` of env/app/main.py up to `store_event`.
pub mod Laws
pub mod Logged
use text.Mathlib.Text.{◌==◌ as str_eq}
use Prim.Native.String.{◌++◌}
use ccj.Prelude.{
  ℕ, ◌+◌, String, Bool, true, false, Option, none, some, List, [], ◌∷◌, ◌==◌, ◌&&◌, ltb, coalesce,
  is_some, if◌then◌else◌,
}
use ccj.Filters.Text.{is_ascii}
use ccj.Sql.{first}
use ccj.Ingest.Setup.{Source, Disposition, Attempt, EventIn}

-- What `float` and `datetime.fromtimestamp` make of a text: a time, ValueError of `float`, or an error
-- that is not caught.
pub data Parsed : Type 0 where
  time : ℕ → Parsed
  no_number : Parsed
  out_of_range : Parsed

-- What `UUID` and the CAST of the SELECT make of a text: a form that `UUID` refuses, one that only the
-- CAST refuses, which is a database error, or an id.
pub data SourceId : Type 0 where
  malformed : SourceId
  uncastable : SourceId
  named : ℕ → SourceId

-- What `json.loads` and `EventIn.model_validate` make of a body. In the last case an error is not caught:
-- the JSON is too deep, or has an integer of too many digits, or the key of a malformed event is nothing
-- that the log of the refusal can take.
pub data Decoded : Type 0 where
  not_json : Decoded
  not_an_object : Decoded
  malformed_event : Option String → Decoded
  event : EventIn → Decoded
  uncaught : Decoded

-- The functions of Python's library, and the request's schema. Bodies are texts here.
pub record Python : Type 0 where
  pub strip : String → String
  pub without_prefix : String → String
  pub uuid : String → SourceId
  pub timestamp : String → Parsed
  pub hmac_sha256 : String → String → String
  pub decode : String → Decoded

pub record Window : Type 0 where
  pub ingest_max_age_seconds : ℕ
  pub ingest_max_future_skew_seconds : ℕ

pub record Request : Type 0 where
  pub source_id_header : Option String
  pub signed_at_header : Option String
  pub signature_header : Option String
  pub body : String

-- A rejection carries the log that it leaves.
pub data Admission : Type 0 where
  admitted : Source → Admission
  rejected : Disposition → List Attempt → Admission
  raised : Admission

-- `compute_signature`
abbrev pub compute_signature : Python → String → String → String → String
compute_signature py secret signed_at body = py.hmac_sha256 secret (signed_at ++ ("." ++ body))

-- `signature_matches`; `none` is that `encode("ascii")` or `compare_digest` raises
unfoldable pub signature_matches : Python → String → String → String → String → Option Bool
signature_matches py secret signed_at body signature =
    let provided = py.strip (py.without_prefix signature) in
    if is_ascii signed_at && is_ascii provided
    then some (str_eq provided (compute_signature py secret signed_at body))
    else none

-- a stripped header, empty where there is none
abbrev pub header : Python → Option String → String
header py h = py.strip (coalesce h "")

-- `reject`
unfoldable pub reject : Disposition → List Attempt → Admission
reject disposition log =
    rejected disposition
      (record { disposition = disposition; event_id = none; dedupe_key = none } ∷ log)

-- the checks of the age; a time may lie before or after `now`
abbrev pub check_age : Window → ℕ → ℕ → Source → List Attempt → Admission
check_age w now signed_at source log =
    if ltb (signed_at + w.ingest_max_age_seconds) now
    then reject Disposition.stale_timestamp log
    else if ltb (now + w.ingest_max_future_skew_seconds) signed_at
    then reject Disposition.future_timestamp log
    else if is_some source.disabled_at
    then reject Disposition.source_disabled log
    else admitted source

abbrev pub check_match : Window → ℕ → ℕ → Source → Option Bool → List Attempt → Admission
check_match w now signed_at source none log = raised
check_match w now signed_at source (some false) log = reject Disposition.bad_signature log
check_match w now signed_at source (some true) log = check_age w now signed_at source log

-- the checks from the signature on; without a time there is no text of it either
abbrev pub check_signature :
    Python → Window → ℕ → Request → String → ℕ → Option Source → List Attempt → Admission
check_signature py w now r signature signed_at none log = reject Disposition.source_unknown log
check_signature py w now r signature signed_at (some source) log =
    check_match w now signed_at source
      (signature_matches py source.secret (header py r.signed_at_header) r.body signature) log

-- the checks of the headers, for the source and the time that were read
abbrev pub check_headers :
    Python → Window → ℕ → Request → Option ℕ → Option ℕ → List Source → List Attempt → Admission
check_headers py w now r none signed_at sources log = reject Disposition.source_unknown log
check_headers py w now r (some i) none sources log = reject Disposition.invalid_timestamp log
check_headers py w now r (some i) (some t) sources log =
    if str_eq (header py r.signature_header) ""
    then reject Disposition.bad_signature log
    else check_signature py w now r (header py r.signature_header) t
        (first (λ (s : Source). s.id == i) sources) log

-- `_parse_signed_at` raises before `reject` is defined: the attempt is not logged
abbrev pub check_time :
    Python → Window → ℕ → Request → Option ℕ → Parsed → List Source → List Attempt → Admission
check_time py w now r i (Parsed.time t) sources log =
    check_headers py w now r i (some t) sources log
check_time py w now r i Parsed.no_number sources log = rejected Disposition.invalid_timestamp log
check_time py w now r i Parsed.out_of_range sources log = raised

abbrev pub check_request :
    Python → Window → ℕ → Request → Option ℕ → List Source → List Attempt → Admission
check_request py w now r i sources log =
    if str_eq (header py r.signed_at_header) ""
    then check_headers py w now r i none sources log
    else check_time py w now r i (py.timestamp (header py r.signed_at_header)) sources log

-- the SELECT of the source comes before the checks
abbrev pub check_source :
    Python → Window → ℕ → Request → SourceId → List Source → List Attempt → Admission
check_source py w now r SourceId.malformed sources log = check_request py w now r none sources log
check_source py w now r SourceId.uncastable sources log = raised
check_source py w now r (SourceId.named i) sources log =
    check_request py w now r (some i) sources log

unfoldable pub authenticate : Python → Window → ℕ → Request → List Source → List Attempt → Admission
unfolding reject signature_matches
authenticate py w now r sources log =
    check_source py w now r (py.uuid (header py r.source_id_header)) sources log

-- What `handle` passes on to `store_event`.
pub data Handled : Type 0 where
  storing : Source → EventIn → Handled
  refused : Disposition → List Attempt → Handled
  failed : Handled

abbrev pub bad_body : Option String → List Attempt → Handled
bad_body key log =
    refused Disposition.invalid_body
      (record { disposition = Disposition.invalid_body; event_id = none; dedupe_key = key } ∷ log)

-- `parse_event_body` and the validation of the event
abbrev pub handle_body : Source → Decoded → List Attempt → Handled
handle_body source Decoded.not_json log = bad_body none log
handle_body source Decoded.not_an_object log = bad_body none log
handle_body source (Decoded.malformed_event key) log = bad_body key log
handle_body source (Decoded.event e) log = storing source e
handle_body source Decoded.uncaught log = failed

abbrev pub handle_admission : Python → Request → Admission → List Attempt → Handled
handle_admission py r (admitted source) log = handle_body source (py.decode r.body) log
handle_admission py r (rejected d log') log = refused d log'
handle_admission py r raised log = failed

-- `handle` of `create_event`, up to the call of `store_event`
unfoldable pub create_event : Python → Window → ℕ → Request → List Source → List Attempt → Handled
unfolding authenticate
create_event py w now r sources log =
    handle_admission py r (authenticate py w now r sources log) log
