-- ===== src/Models/Checks.antt =====
-- The CHECK constraints of the table `deliveries`, and what the program keeps on top of them.
use ccj.Prelude.{ℕ, ◌≡◌, Option, none, some, is_null, is_some, true, false, Bool, ◌&&◌, leb, not}
use ccj.Models.{
  Status, Delivery, Phase, ReleaseState, is_relay_skipped, is_dead_lettered, is_delivered,
  is_awaiting, is_acknowledged,
}

-- phase = 'preview' has a body and no preview; phase = 'body' has no body.
abbrev pub linked : Phase → Option ℕ → Option ℕ → Bool
linked Phase.preview none (some b) = true
linked Phase.preview _ _ = false
linked Phase.body p none = true
linked Phase.body p (some b) = false

abbrev pub starts_at_one : Option ℕ → Bool
starts_at_one none = true
starts_at_one (some n) = leb 1 n

-- (a) = (b), for two conditions that are never NULL
abbrev pub same : Bool → Bool → Bool
same true b = b
same false b = not b

-- The constraints that relate columns. The ones that list a column's values are its data type.
unfoldable pub checks : Delivery → Bool
checks d =
    same (is_null d.relay_chain_id) (is_null d.relay_station_no)
    && (starts_at_one d.relay_station_no
        && (same (is_relay_skipped d.status) (is_some d.relay_skip_reason)
            && (linked d.phase d.preview_delivery_id d.body_delivery_id
                && same (is_dead_lettered d.status) (is_some d.dead_letter_reason))))

-- A closed gate is recorded in the status too. An open one belongs to a row that is not closed.
abbrev pub agrees : Option ReleaseState → Status → Bool
agrees none s = true
agrees (some ReleaseState.release_denied) Status.release_denied = true
agrees (some ReleaseState.release_denied) _ = false
agrees (some ReleaseState.release_expired) Status.release_expired = true
agrees (some ReleaseState.release_expired) _ = false
agrees (some ReleaseState.release_voided) Status.release_voided = true
agrees (some ReleaseState.release_voided) Status.cancelled = true
agrees (some ReleaseState.release_voided) _ = false
agrees (some ReleaseState.deadline_expired) Status.deadline_expired = true
agrees (some ReleaseState.deadline_expired) _ = false
agrees (some _) Status.release_denied = false
agrees (some _) Status.release_expired = false
agrees (some _) Status.release_voided = false
agrees (some _) Status.deadline_expired = false
agrees (some _) _ = true

pub record IsSound (d : Delivery) : Type 0 where
  pub checked : checks d ≡ true
  pub gate_agrees : agrees d.release_state d.status ≡ true
  pub awaits_receipt : is_awaiting d.reconcile_state ≡ true → is_delivered d.status ≡ true
  pub acknowledged : is_acknowledged d.reconcile_state ≡ true → is_delivered d.status ≡ true
  pub gated : is_some d.preview_delivery_id ≡ is_some d.release_state
