-- ===== src/Examples.antt =====
-- Two events at one address, one of them gated and one on a relay, and the theorems applied to them.
mod Release
mod Queue
mod Failures
mod Late
mod Handshake
mod Standing
mod Filters
mod Posting
use ccj.Prelude.{ℕ, Bool, true, false, Option, none, some, List, [], ◌∷◌}
use ccj.Config.{Settings}
use ccj.Models.{Delivery, Status, Phase, ReleaseState, ReconcileState}
use ccj.Models.Tables.{Db, Destination, DestinationStatus, ConfirmationState, Event}

abbrev pub settings : Settings
settings = record {
  claim_lease_seconds = 30;
  retry_backoff_base_seconds = 2;
  retry_backoff_max_seconds = 60;
  failure_threshold = 5;
  quarantine_seconds = 60;
  max_delivery_attempts = 8;
  max_requeue_cycles = 3;
  receipt_timeout_seconds = 120;
  confirm_timeout_seconds = 300;
}

-- a queued copy of an ordinary event
abbrev pub copy : Delivery
copy = record {
  id = 1;
  event_id = 100;
  destination_id = 7;
  event_type = "order.paid";
  dedupe_key = "evt:100";
  payload = "{}";
  destination_seq = 1;
  status = Status.pending;
  attempts = 0;
  claim_token = none;
  claimed_at = none;
  lease_until = none;
  next_attempt_at = 10;
  not_before = none;
  deliver_by = none;
  last_error = none;
  created_at = 10;
  updated_at = 10;
  delivered_at = none;
  deliver_by_expired_at = none;
  reconcile_state = ReconcileState.unset;
  reconcile_deadline = none;
  reconciled_at = none;
  receipt_result = none;
  receipt_id = none;
  requeue_count = 0;
  consecutive_failures = 0;
  dead_letter_reason = none;
  dead_lettered_at = none;
  confirmation_generation = 1;
  observe_only = false;
  filter_spec = none;
  phase = Phase.body;
  release_state = none;
  preview_delivery_id = none;
  body_delivery_id = none;
  consent_deadline = none;
  consent_timeout_seconds = none;
  released_at = none;
  voided_at = none;
  void_reason = none;
  relay_chain_id = none;
  relay_station_no = none;
  relay_skipped_at = none;
  relay_skip_reason = none;
  relay_stopped_by_delivery_id = none;
}

abbrev pub address : Destination
address = record {
  id = 7;
  url = "https://example.org/hook";
  status = DestinationStatus.active;
  failure_count = 0;
  recoverable_at = none;
  next_event_seq = 4;
  confirmation_state = ConfirmationState.confirmed;
  challenge_token = none;
  challenge_expires_at = none;
  confirmed_at = some 5;
  confirmation_generation = 1;
  confirmation_round = 1;
  confirmation_attempt_count = 1;
  next_probe_at = 5;
  observe_only = false;
  paused_from = none;
  paused_until = none;
}

abbrev pub event : ℕ → Event
event i = record {
  id = i;
  event_type = "order.paid";
  dedupe_key = "evt";
  not_before = none;
  deliver_by = none;
  cancelled_at = none;
  corrects_event_id = none;
  required_ack_count = none;
}

-- a database with these copies
abbrev pub database : List Delivery → Db
database rows = record {
  deliveries = rows;
  destinations = address ∷ [];
  events = event 100 ∷ event 200 ∷ event 300 ∷ [];
  gate_decisions = [];
  receipts = [];
  attempts = [];
  confirmation_attempts = [];
}
