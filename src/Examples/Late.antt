-- ===== src/Examples/Late.antt =====
-- A late receipt for a copy that has been requeued as often as it may be.
use ccj.Prelude.{◌≡◌, refl, some, [], ◌∷◌}
use ccj.Models.{Delivery, Status, ReconcileState, ReceiptResult}
use ccj.Models.Tables.{Db}
use ccj.Sql.{first}
use ccj.Receipts.{Call, ingest_receipt, lock_delivery, wait_for_worker, is_copy}
use ccj.Receipts.Late.{IsLeftOut, ingest_receipt-IsLeftOut}
use ccj.Examples.{settings, copy, database}

abbrev overdue : Delivery
overdue = record copy {
  status = Status.delivered;
  delivered_at = some 30;
  reconcile_state = ReconcileState.awaiting;
  reconcile_deadline = some 150;
  requeue_count = 3;
}

abbrev overdue_db : Db
overdue_db = database (overdue ∷ [])

abbrev late : Call
late = record {
  now = 151;
  receipt_id = 900;
  destination_id = 7;
  dedupe_key = "evt:100";
  result = ReceiptResult.success;
}

overdue_found :
    lock_delivery 7 "evt:100" (wait_for_worker 7 "evt:100" [] overdue_db.deliveries) ≡ some overdue
unfolding lock_delivery wait_for_worker first is_copy
overdue_found = refl

ingest_receipt-IsLeftOut_example :
    IsLeftOut 7 "evt:100" (ingest_receipt settings late [] overdue_db).1.deliveries
ingest_receipt-IsLeftOut_example =
    ingest_receipt-IsLeftOut settings late [] overdue_db overdue overdue_found refl refl refl
