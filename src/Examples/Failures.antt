-- ===== src/Examples/Failures.antt =====
-- Calls of one address, and their results.
use ccj.Prelude.{◌≡◌, refl, true, false, none, some, [], ◌∷◌, arith, ◌==◌}
use ccj.Models.{Delivery, Status}
use ccj.Models.Tables.{Db, Destination}
use ccj.Sql.{first, exists}
use ccj.Deadlines.{misses_cutoff}
use ccj.Worker.Claim.{Claim}
use ccj.Worker.Record.{Times, record_result}
use ccj.Worker.Record.Rows.{Result, owns}
use ccj.Sql.Evolve.{Evolves}
use ccj.Worker.Record.Laws.{deliveries_after}
use ccj.Worker.Record.InTime.{record_result-Handed}
use ccj.Worker.Record.InTime.Steps.{Handed}
use ccj.Worker.Record.Isolation.{Requeued, IsStranded, destinations_after, record_result-strands}
use ccj.Examples.{settings, copy, address, database}

-- the second try of a copy, at an address that has failed four times
abbrev taken : Delivery
taken = record copy {
  status = Status.in_flight;
  attempts = 2;
  consecutive_failures = 1;
  claim_token = some 77;
  claimed_at = some 20;
  lease_until = some 50;
}

abbrev failing : Destination
failing = record address { failure_count = 4 }

abbrev before_call : Db
before_call = record (database (taken ∷ [])) { destinations = failing ∷ [] }

abbrev claim : Claim
claim = record {
  copy = taken;
  destination_url = "https://example.org/hook";
  recovered_destination = false;
  corrects_event_id = none;
}

abbrev times : Times
times = record { now = 30; next_attempt_at = 34; recoverable_at = 90 }

abbrev refused : Result
refused = record { success = false; finished_at = 30; error = some "HTTP 503" }

refused-Requeued : Requeued settings claim refused before_call 30
unfolding exists owns first misses_cutoff
refused-Requeued = record {
  owned = refl;
  failed = refl;
  at_home = refl;
  ordinary = refl;
  within = refl;
  alive = omega arith;
}

failing_found : first (λ (y : Destination). y.id == 7) before_call.destinations ≡ some failing
unfolding first
failing_found = refl

record_result-strands_example :
    (x' : Destination) × (first
        (λ (y : Destination). y.id == 7)
        (destinations_after before_call
          (record_result settings times claim refused false before_call))
      ≡ some x')
    × IsStranded x'
record_result-strands_example =
    record_result-strands settings times claim refused before_call failing refused-Requeued
      (omega arith) failing_found (omega arith)

abbrev accepted : Result
accepted = record { success = true; finished_at = 30; error = none }

record_result-Handed_example :
    Evolves
      (Handed 1 30)
      before_call.deliveries
      (deliveries_after before_call (record_result settings times claim accepted false before_call))
record_result-Handed_example = record_result-Handed settings times claim accepted false before_call
