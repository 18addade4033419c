-- ===== src/Examples/Handshake.antt =====
-- An address that moves and answers its challenge, and an event that is cancelled.
use ccj.Prelude.{◌≡◌, refl, true, none, some, [], ◌∷◌}
use ccj.Models.Tables.{Db, Destination, ConfirmationState}
use ccj.Sql.{first, update, exists}
use ccj.Sql.Evolve.{All}
use ccj.Worker.Claim.{generation_at}
use ccj.Confirmation.{Echo, apply_echo, echo_found, match_echo, arm_round, armed_db, arm_row}
use ccj.Confirmation.Answers.{apply_echo-once}
use ccj.Confirmation.Moved.{IsMoved, arm_round-IsMoved}
use ccj.Operator.{
  Reply, cancel_event, cancel_found, event_has_irreversible_delivery, is_irreversible,
}
use ccj.Operator.Laws.{replied_db}
use ccj.Operator.Cancel.{IsCancelled, cancel_event-IsCancelled}
use ccj.Examples.{settings, copy, address, database}

abbrev challenged : Destination
challenged = record address {
  confirmation_state = ConfirmationState.pending;
  challenge_token = some "s3cret";
  challenge_expires_at = some 90;
  confirmed_at = none;
}

abbrev new_address : Db
new_address = record (database []) { destinations = challenged ∷ [] }

echo_confirms : (apply_echo settings 90 "fresh" 7 "s3cret" new_address).0 ≡ Echo.confirmed
unfolding apply_echo first echo_found match_echo
echo_confirms = refl

apply_echo-once_example :
    let db' = (apply_echo settings 90 "fresh" 7 "s3cret" new_address).1 in
    ((apply_echo settings 95 "newer" 7 "wrong" db').0 ≡ Echo.already_confirmed)
    × ((apply_echo settings 95 "newer" 7 "wrong" db').1.destinations ≡ db'.destinations)
apply_echo-once_example =
    apply_echo-once settings 90 95 7 "fresh" "newer" "s3cret" "wrong" new_address echo_confirms

abbrev queue : Db
queue = database (copy ∷ [])

abbrev moved : Destination
moved = record address {
  confirmation_state = ConfirmationState.pending;
  challenge_token = some "fresh";
  challenge_expires_at = some 350;
  confirmed_at = none;
  confirmation_round = 2;
  confirmation_attempt_count = 0;
  next_probe_at = 50;
  confirmation_generation = 2;
}

address_moved : (arm_round settings 50 "fresh" 7 true queue).0 ≡ some moved
unfolding arm_round first armed_db update arm_row
address_moved = refl

arm_round-IsMoved_example :
    let db' = (arm_round settings 50 "fresh" 7 true queue).1 in
    All (IsMoved 7 (generation_at 7 db'.destinations)) db'.deliveries
arm_round-IsMoved_example = arm_round-IsMoved settings 50 "fresh" 7 queue moved address_moved

cancelled : cancel_event 40 100 queue ≡ Reply.done (replied_db queue (cancel_event 40 100 queue))
unfolding cancel_event cancel_found first event_has_irreversible_delivery exists is_irreversible
cancelled = refl

cancel_event-IsCancelled_example :
    All (IsCancelled 100) (replied_db queue (cancel_event 40 100 queue)).deliveries
cancel_event-IsCancelled_example =
    cancel_event-IsCancelled 40 100 queue (replied_db queue (cancel_event 40 100 queue)) cancelled
