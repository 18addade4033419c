-- ===== src/FanOut/Insert.antt =====
-- `WITH bumped AS (UPDATE destinations ...) INSERT INTO deliveries ... SELECT ... FROM bumped`: one copy
-- for one address, with the address's next place.
use ccj.Prelude.{
  ℕ, ◌+◌, String, Bool, true, false, Option, none, some, List, [], ◌∷◌, ◌++◌, ◌&&◌, ◌==◌,
  if◌then◌else◌,
}
use ccj.Models.{Delivery, Status, Phase, ReconcileState}
use ccj.Models.Tables.{Db, Destination}
use ccj.Sql.{update, first}

-- what the INSERTs take from the event
pub record Posting : Type 0 where
  pub now : ℕ
  pub event_id : ℕ
  pub event_type : String
  pub dedupe_key : String
  pub payload : String
  pub preview_payload : Option String
  pub not_before : Option ℕ
  pub deliver_by : Option ℕ

-- the columns that all the INSERTs set, and the defaults of the rest
unfoldable pub new_copy : Posting → ℕ → Destination → Delivery
new_copy p id x = record {
  id = id;
  event_id = p.event_id;
  destination_id = x.id;
  event_type = p.event_type;
  dedupe_key = p.dedupe_key;
  payload = p.payload;
  destination_seq = x.next_event_seq;
  status = Status.pending;
  attempts = 0;
  claim_token = none;
  claimed_at = none;
  lease_until = none;
  next_attempt_at = p.now;
  not_before = p.not_before;
  deliver_by = p.deliver_by;
  last_error = none;
  created_at = p.now;
  updated_at = p.now;
  delivered_at = none;
  deliver_by_expired_at = none;
  reconcile_state = ReconcileState.unset;
  reconcile_deadline = none;
  reconciled_at = none;
  receipt_result = none;
  receipt_id = none;
  requeue_count = 0;
  consecutive_failures = 0;
  dead_letter_reason = none;
  dead_lettered_at = none;
  confirmation_generation = x.confirmation_generation;
  observe_only = false;
  filter_spec = none;
  phase = Phase.body;
  release_state = none;
  preview_delivery_id = none;
  body_delivery_id = none;
  consent_deadline = none;
  consent_timeout_seconds = none;
  released_at = none;
  voided_at = none;
  void_reason = none;
  relay_chain_id = none;
  relay_station_no = none;
  relay_skipped_at = none;
  relay_skip_reason = none;
  relay_stopped_by_delivery_id = none;
}

abbrev pub any_address : Destination → Bool
any_address x = true

-- the CTE `bumped`
unfoldable pub bump : Destination → Destination
bump x = record x { next_event_seq = x.next_event_seq + 1 }

abbrev pub is_address : ℕ → Destination → Bool
is_address i x = x.id == i

unfoldable pub insert_found :
    (List Delivery → ℕ)
    → ℕ
    → (Destination → Bool)
    → (ℕ → Destination → Delivery)
    → Option Destination
    → Db
    → Option ℕ × Db
unfolding bump
insert_found fresh i guard make none db = (none, db)
insert_found fresh i guard make (some x) db =
    let id = fresh db.deliveries in
    if guard x
    then (
      some id,
      record db {
        deliveries = db.deliveries ++ (make id (bump x) ∷ []);
        destinations = update (λ (y : Destination). y.id == i && guard y) bump db.destinations;
      },
    )
    else (none, db)

-- The address has at most one row, since `id` is the primary key. `fresh` is gen_random_uuid.
unfoldable pub insert_copy :
    (List Delivery → ℕ)
    → ℕ
    → (Destination → Bool)
    → (ℕ → Destination → Delivery)
    → Db
    → Option ℕ × Db
unfolding insert_found
insert_copy fresh i guard make db =
    insert_found fresh i guard make (first (is_address i) db.destinations) db
