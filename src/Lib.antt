-- ===== src/Lib.antt =====
-- The event delivery service of env/app, over its database.
--
-- A client posts an event. It is fanned out into one row of `deliveries` for each subscribed address,
-- with a place in that address's queue. A worker claims the head of a queue, calls the address and
-- records the result. The address then sends a receipt, which acknowledges the copy, and a reconciler
-- closes what has waited too long. An event of a gated type goes out as a preview and a body for each
-- address, and the body waits for the address's nod. An event of a relay type goes from station to
-- station, each waiting for the receipt of the one before. A cutoff can close a copy at any point
-- before it is handed over. All of this is kept in the columns of one row, which several statements in
-- several files write, and the model follows each statement.
--
-- The files and what they model:
--   Sql: an UPDATE, SELECT, ORDER BY and LIMIT over a table, which is a list of rows. Sql/Evolve relates
--     a table before a statement with the table after it, Sql/Select says what a SELECT finds.
--   Models: the rows and CHECK constraints of env/app/models.py. In Models/Checks, a row `IsSound` if it
--     satisfies the constraints and its gate agrees with its status. In Models/Progress, `Progress`
--     relates a row with what may become of it. Models/Keys has the primary key.
--   Config: the settings of env/app/config.py that the modelled code reads.
--   Relay: the gate of a relay station, in env/app/worker.py and env/app/deadlines.py, and
--     `cascade_after_stop` of env/app/relay.py. Relay/Run has `build_event_relay`, the view of a run.
--   Deadlines: env/app/deadlines.py, all of it.
--   Release: env/app/release.py. Release/Gate has the preview's arrival, the sweep of the gates and the
--     close of held bodies, Release/Decision has `ingest_decision`, Release/Void `void_gated_body`.
--   Receipts: `ingest_receipt` of env/app/receipts.py.
--   Reconciler: `sweep_once` of env/app/reconciler.py.
--   Confirmation: env/app/confirmation.py, the activation handshake of an address, all of it.
--   Operator: the calls of env/app/main.py that cancel, reschedule, requeue, revive and recover.
--     Operator/Bulk has those that requeue the copies of a whole event or address, Operator/Pause those
--     that pause and resume an address.
--   Standing: the counts of an event in env/app/main.py, and the status and the acknowledgement that
--     `event_response` reports from them.
--   Filters: env/app/subfilters.py, the conditions of subscriptions. Filters/Text and Filters/Json have
--     the values, Filters/Evaluate `evaluate`, Filters/Validate `validate_filter_spec`.
--     Filters/Condition has the tree that a stored condition stands for, and what it means.
--   Chains: `define_chain` and `delete_active_chain` of env/app/relay.py.
--   FanOut: the copies of a new event: `fan_out_relay_event` of env/app/relay.py, `fan_out_gated_event`
--     of env/app/release.py and the inserts of `store_event` in env/app/main.py.
--   Ingest: `store_event`, with the tables that an operator writes in Ingest/Setup and the choice of
--     subscribers in Ingest/Routing. Ingest/Admission has env/app/ingest_auth.py and `create_event`.
--   Worker: env/app/worker.py. Worker/Claim has `claim_next_event` with its statements, Worker/Record
--     has `record_result`, and Worker/Record/Rows the statements on one copy and its address.
--   System: the service between postings, as a sequence of committed transactions, with the claims that
--     workers hold. Postings, which add copies, are in Ingest.
--   Examples: a small database, to which the theorems are applied.
--
-- How state is modelled. `Db` has a list for each table. An operation takes the database and gives the
-- database after the commit; an operation that raises gives a constructor of its own, and nothing is
-- written. An identifier and a time are natural numbers, and a duration has the unit of times. A
-- nullable column is an `Option`, and a test on it is false on NULL, as in a WHERE. The clock (`now`),
-- fresh identifiers, tokens, jitter and the outcome of the HTTP call are arguments. Where a statement
-- passes over rows that other transactions hold (SKIP LOCKED), the set of those rows is an argument, so
-- that a theorem holds for each. Where `ingest_receipt` waits for the worker, the tables that it reads
-- are an argument, a list: the loop ends at the end of the list, which is the end of the grace period.
-- Loops are structural recursion on lists and on JSON values, and no fuel is needed. A text of a
-- condition is the list of its code points, a number is a sign and a ratio, or an infinity or NaN, and
-- what Python's tables say of a character is an argument (`Chars`). A commit is one step: transactions
-- that the database lets run at once are taken one after another.
--
-- Not modelled: postings among the transactions of System, the correction events, the other HTTP
-- endpoints of env/app/main.py, the lease heartbeat, logging, and the loops that call the modelled
-- functions again and again. The columns of an attempt that no modelled code reads are left out, as are
-- the indexes and migrations. The constraint UNIQUE (destination_id, dedupe_key) is not modelled as a
-- failure of the insert of a copy. The interpreter's limit on the depth of recursion is met only in the
-- decoding of a posted body (`Decoded`).
pub mod Prelude
pub mod Sql
pub mod Models
pub mod Relay
pub mod Deadlines
pub mod Release
pub mod Config
pub mod Receipts
pub mod Reconciler
pub mod Worker
pub mod Standing
pub mod Filters
pub mod FanOut
pub mod Ingest
pub mod Chains
pub mod System
pub mod Examples
pub mod Operator
pub mod Confirmation
