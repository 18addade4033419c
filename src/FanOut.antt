-- ===== src/FanOut.antt =====
-- The copies that a new event gets: `fan_out_relay_event` of env/app/relay.py, `fan_out_gated_event` of
-- env/app/release.py, and the inserts of `store_event` in env/app/main.py.
pub mod Insert
pub mod Lined
pub mod Pairs
pub mod Linked
pub mod Events
pub mod Stations
use Prim.Native.String.{◌++◌}
use ccj.Prelude.{
  ℕ, suc, ◌+◌, String, Bool, true, false, Option, none, some, List, [], ◌∷◌, not, coalesce, ◌==◌,
  if◌then◌else◌,
}
use ccj.Models.{Delivery, Phase, ReleaseState}
use ccj.Models.Tables.{Db, Destination}
use ccj.Sql.{update}
use ccj.Worker.Claim.{is_confirmed}
use ccj.FanOut.Insert.{Posting, new_copy, insert_copy, any_address}

-- a row of `routed_subscribers`
pub record Subscriber : Type 0 where
  pub destination_id : ℕ
  pub observe_only : Bool
  pub filter_spec : Option String

-- the INSERT for an ordinary event
unfoldable pub plain_copy : Posting → Subscriber → ℕ → Destination → Delivery
unfolding new_copy
plain_copy p s id x = record (new_copy p id x) {
  observe_only = s.observe_only;
  filter_spec = s.filter_spec;
}

-- the loop of `store_event` over the subscribers of an ordinary event
unfoldable pub fan_out_plain : (List Delivery → ℕ) → Posting → List Subscriber → Db → Db
unfolding insert_copy
fan_out_plain fresh p [] db = db
fan_out_plain fresh p (s ∷ ss) db =
    fan_out_plain fresh p ss
      (insert_copy fresh s.destination_id (λ x. is_confirmed x.confirmation_state) (plain_copy p s)
        db).1

unfoldable pub station_copy : Posting → ℕ → ℕ → ℕ → Destination → Delivery
unfolding new_copy
station_copy p chain_id station_no id x = record (new_copy p id x) {
  relay_chain_id = some chain_id;
  relay_station_no = some station_no;
}

-- `fan_out_relay_event`: the loop over the stations, from this number on
unfoldable pub fan_out_relay_event : (List Delivery → ℕ) → Posting → ℕ → ℕ → List ℕ → Db → Db
unfolding insert_copy
fan_out_relay_event fresh p chain_id station_no [] db = db
fan_out_relay_event fresh p chain_id station_no (i ∷ is) db =
    fan_out_relay_event fresh p chain_id (station_no + 1) is
      (insert_copy fresh i any_address (station_copy p chain_id station_no) db).1

-- `preview_key`
abbrev pub preview_key : String → String
preview_key event_dedupe_key = "prev:" ++ event_dedupe_key

unfoldable pub preview_copy : Posting → ℕ → Subscriber → ℕ → Destination → Delivery
unfolding new_copy
preview_copy p window s id x = record (new_copy p id x) {
  dedupe_key = preview_key p.dedupe_key;
  payload = coalesce p.preview_payload "{}";
  observe_only = s.observe_only;
  filter_spec = s.filter_spec;
  phase = Phase.preview;
  release_state = none;
  consent_timeout_seconds = some window;
  body_delivery_id = some 0;
}

unfoldable pub body_copy : Posting → ℕ → Subscriber → ℕ → ℕ → Destination → Delivery
unfolding new_copy
body_copy p window s preview_id id x = record (new_copy p id x) {
  observe_only = s.observe_only;
  filter_spec = s.filter_spec;
  phase = Phase.body;
  release_state = some ReleaseState.held;
  consent_timeout_seconds = some window;
  preview_delivery_id = some preview_id;
}

-- the UPDATE that links the preview to its body
unfoldable pub link_row : ℕ → Delivery → Delivery
link_row body_id d = record d { body_delivery_id = some body_id }

abbrev pub linked_db : ℕ → ℕ → Db → Db
linked_db preview_id body_id db = record db {
  deliveries = update (λ d. d.id == preview_id) (link_row body_id) db.deliveries;
}

-- `.one()` raises where the INSERT gave no row
abbrev pub pair_body : Option ℕ → ℕ → Db → Option Db
pair_body none preview_id db = none
pair_body (some body_id) preview_id db = some (linked_db preview_id body_id db)

abbrev pub pair_preview : (List Delivery → ℕ) → Posting → ℕ → Subscriber → Option ℕ → Db → Option Db
pair_preview fresh p window s none db = none
pair_preview fresh p window s (some preview_id) db =
    let (body_id, db') =
      insert_copy fresh s.destination_id any_address (body_copy p window s preview_id) db in
    pair_body body_id preview_id db'

-- the preview and the body for one address
unfoldable pub fan_out_pair : (List Delivery → ℕ) → Posting → ℕ → Subscriber → Db → Option Db
unfolding insert_copy
fan_out_pair fresh p window s db =
    let (preview_id, db') =
      insert_copy fresh s.destination_id any_address (preview_copy p window s) db in
    pair_preview fresh p window s preview_id db'

-- `fan_out_gated_event`; a result `none` is that it raises
unfoldable pub fan_out_gated_event :
    (List Delivery → ℕ) → Posting → ℕ → List Subscriber → Db → Option Db
unfolding fan_out_pair
fan_out_gated_event fresh p window [] db = some db
fan_out_gated_event fresh p window (s ∷ ss) db = elim (fan_out_pair fresh p window s db) [
  | none ↦ none
  | some db' ↦ fan_out_gated_event fresh p window ss db'
]
