-- ===== src/Confirmation.antt =====
-- env/app/confirmation.py: the activation handshake of an address.
pub mod Laws
pub mod Answers
pub mod Moved
use ccj.Prelude.{
  ℕ, ◌+◌, String, Bool, true, false, Option, none, some, List, [], ◌∷◌, ◌++◌, ◌&&◌, map, before,
  coalesce, ltb, not, is_some, ◌==◌, if◌then◌else◌,
}
use text.Mathlib.Text.{◌==◌ as str_eq}
use ccj.Filters.Text.{is_ascii}
use ccj.Config.{Settings}
use ccj.Models.{Delivery, Status, VoidReason, is_pending, is_preview}
use ccj.Models.Tables.{
  Db, Destination, ConfirmationState, ConfirmationAttempt, AttemptKind, AttemptResult,
}
use ccj.Sql.{update, first, where_rows, order_by, limit_rows}
use ccj.Relay.Cascade.{cascade_superseded_destination}
use ccj.Release.Gate.{relocate_held_bodies, void_body_after_preview_failure, older_than}
use ccj.Worker.Claim.{generation_at, is_confirmed, supersede_row}

-- `log_confirmation_attempt`
unfoldable pub log_confirmation_attempt :
    ℕ → ℕ → AttemptKind → AttemptResult → Option String → Db → Db
log_confirmation_attempt destination_id confirmation_round kind result error db = record db {
  confirmation_attempts =
      db.confirmation_attempts
      ++ (record {
        destination_id = destination_id;
        confirmation_round = confirmation_round;
        kind = kind;
        result = result;
        error = error;
      }
          ∷ []);
}

-- the UPDATE of `arm_round`, with the token that `new_challenge_token` gives
unfoldable pub arm_row : Settings → ℕ → String → Bool → Destination → Destination
arm_row cfg now challenge bump_generation x = record x {
  confirmation_state = ConfirmationState.pending;
  challenge_token = some challenge;
  challenge_expires_at = some (now + cfg.confirm_timeout_seconds);
  confirmed_at = none;
  confirmation_round = x.confirmation_round + 1;
  confirmation_attempt_count = 0;
  next_probe_at = now;
  confirmation_generation = x.confirmation_generation + (if bump_generation then 1 else 0);
}

-- a queued copy for an older location of the address
unfoldable pub is_left_behind : ℕ → Option ℕ → Delivery → Bool
is_left_behind destination_id generation d =
    d.destination_id == destination_id && (older_than generation d && is_pending d.status)

-- the loop over the superseded previews
unfoldable pub void_all : ℕ → List ℕ → List Delivery → List Delivery
void_all now [] rows = rows
void_all now (i ∷ is) rows =
    void_all now is (void_body_after_preview_failure now i VoidReason.preview_superseded rows)

-- what `arm_round` does to the copies after a change of location
unfoldable pub abandon_queue : ℕ → ℕ → Db → List Delivery
abandon_queue now destination_id db =
    let generation = generation_at destination_id db.destinations in
    let left = is_left_behind destination_id generation in
    let gated = relocate_held_bodies now destination_id db in
    let previews = λ (d : Delivery). left d && is_preview d.phase in
    let moved = update left (supersede_row now) (update previews (supersede_row now) gated) in
    let cascaded = (cascade_superseded_destination now destination_id moved).1 in
    void_all now (map (λ (d : Delivery). d.id) (where_rows previews gated)) cascaded

unfoldable pub armed_db : Settings → ℕ → String → ℕ → Bool → Db → Db
armed_db cfg now challenge destination_id bump_generation db = record db {
  destinations =
      update (λ (x : Destination). x.id == destination_id)
        (arm_row cfg now challenge bump_generation) db.destinations;
}

-- The result is the address's row, `none` if there is none.
unfoldable pub arm_round : Settings → ℕ → String → ℕ → Bool → Db → Option Destination × Db
arm_round cfg now challenge destination_id bump_generation db =
    let armed = armed_db cfg now challenge destination_id bump_generation db in
    let row = first (λ (x : Destination). x.id == destination_id) armed.destinations in
    (
      row,
      if bump_generation && is_some row
          then record armed { deliveries = abandon_queue now destination_id armed }
          else armed,
    )

-- the dispositions of `apply_echo`
pub data Echo : Type 0 where
  not_found already_confirmed expired confirmed invalid raised : Echo

unfoldable pub confirm_row : ℕ → Destination → Destination
confirm_row now x = record x {
  confirmation_state = ConfirmationState.confirmed;
  confirmed_at = some now;
  challenge_token = none;
  challenge_expires_at = none;
  next_probe_at = now;
}

-- the round of the row that `arm_round` returns
abbrev pub round_of : Option Destination → ℕ
round_of none = 0
round_of (some x) = x.confirmation_round

-- the deadline of the round passed before the answer arrived
unfoldable pub rotate_round : Settings → ℕ → String → Destination → Db → Echo × Db
rotate_round cfg now fresh x db =
    let logged =
      log_confirmation_attempt x.id x.confirmation_round AttemptKind.expired AttemptResult.expired
        none db in
    let (armed, db') = arm_round cfg now fresh x.id false logged in
    (
      Echo.expired,
      log_confirmation_attempt x.id (round_of armed) AttemptKind.echo AttemptResult.invalid
          (some "echo arrived after the round expired; new round issued") db',
    )

-- `compare_digest` raises on a text that is not ASCII, and nothing is written
unfoldable pub match_echo : ℕ → String → Destination → Db → Echo × Db
unfolding is_ascii
match_echo now challenge x db =
    if not (is_ascii challenge && is_ascii (coalesce x.challenge_token ""))
    then (Echo.raised, db)
    else if str_eq challenge (coalesce x.challenge_token "")
    then (
      Echo.confirmed,
      log_confirmation_attempt x.id x.confirmation_round AttemptKind.echo AttemptResult.confirmed
          none
          (record db {
            destinations =
                update (λ (y : Destination). y.id == x.id) (confirm_row now) db.destinations;
          }),
    )
    else (
      Echo.invalid,
      log_confirmation_attempt x.id x.confirmation_round AttemptKind.echo AttemptResult.invalid
          (some "echo did not match the outstanding challenge") db,
    )

unfoldable pub echo_found : Settings → ℕ → String → String → Option Destination → Db → Echo × Db
echo_found cfg now fresh challenge none db = (Echo.not_found, db)
echo_found cfg now fresh challenge (some x) db =
    if is_confirmed x.confirmation_state
    then (
      Echo.already_confirmed,
      log_confirmation_attempt x.id x.confirmation_round AttemptKind.echo AttemptResult.confirmed
          none db,
    )
    else if before x.challenge_expires_at now
    then rotate_round cfg now fresh x db
    else match_echo now challenge x db

-- `fresh` is the token of a new round, if one is issued.
unfoldable pub apply_echo : Settings → ℕ → String → ℕ → String → Db → Echo × Db
apply_echo cfg now fresh destination_id challenge db =
    echo_found cfg now fresh challenge
      (first (λ (x : Destination). x.id == destination_id) db.destinations) db

-- the WHERE of `expire_due_rounds`
unfoldable pub round_over : ℕ → Destination → Bool
round_over now x = not (is_confirmed x.confirmation_state) && before x.challenge_expires_at now

abbrev by_expiry : Destination → Destination → Bool
by_expiry x y = ltb (coalesce x.challenge_expires_at 0) (coalesce y.challenge_expires_at 0)

-- the loop, with a fresh token for each address
unfoldable pub rotate_all : Settings → ℕ → (ℕ → String) → List Destination → Db → Db
rotate_all cfg now fresh [] db = db
rotate_all cfg now fresh (x ∷ xs) db =
    rotate_all cfg now fresh xs
      (arm_round cfg now (fresh x.id) x.id false (
        log_confirmation_attempt x.id x.confirmation_round AttemptKind.expired AttemptResult.expired
          none db)).1

-- `locked` are the address rows that other transactions hold.
unfoldable pub due_rounds : ℕ → ℕ → (ℕ → Bool) → List Destination → List Destination
due_rounds now limit locked destinations = limit_rows limit (
    where_rows (λ (x : Destination). not (locked x.id))
      (order_by by_expiry (where_rows (round_over now) destinations)))

unfoldable pub expire_due_rounds : Settings → ℕ → ℕ → (ℕ → Bool) → (ℕ → String) → Db → Db
expire_due_rounds cfg now limit locked fresh db =
    rotate_all cfg now fresh (due_rounds now limit locked db.destinations) db
