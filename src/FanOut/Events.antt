-- ===== src/FanOut/Events.antt =====
-- A fan-out leaves the events alone.
use ccj.Prelude.{
  ℕ, ◌+◌, ◌≡◌, refl, ◌∙◌, Bool, Option, none, some, List, [], ◌∷◌, arith, Bool-cases, Option-cases,
  inl, inr,
}
use ccj.Models.{Delivery}
use ccj.Models.Tables.{Db, Destination}
use ccj.Sql.{first}
use ccj.FanOut.Insert.{Posting, insert_copy, insert_found, is_address, any_address}
use ccj.FanOut.{
  Subscriber, fan_out_plain, plain_copy, fan_out_relay_event, station_copy, fan_out_gated_event,
  fan_out_pair, pair_preview, pair_body, preview_copy, body_copy,
}

found-events :
    (fresh : List Delivery → ℕ) (i : ℕ) (guard : Destination → Bool)
    (make : ℕ → Destination → Delivery) (o : Option Destination) (db : Db)
    → (insert_found fresh i guard make o db).1.events ≡ db.events
unfolding insert_found
found-events fresh i guard make none db = refl
found-events fresh i guard make (some x) db = elim (Bool-cases (guard x)) [
  | inl t ↦ rw t refl
  | inr f ↦ rw f refl
]

insert_copy-events :
    (fresh : List Delivery → ℕ) (i : ℕ) (guard : Destination → Bool)
    (make : ℕ → Destination → Delivery) (db : Db)
    → (insert_copy fresh i guard make db).1.events ≡ db.events
unfolding insert_copy
insert_copy-events fresh i guard make db =
    found-events fresh i guard make (first (is_address i) db.destinations) db

pub fan_out_plain-events :
    (fresh : List Delivery → ℕ) (p : Posting) (ss : List Subscriber) (db : Db)
    → (fan_out_plain fresh p ss db).events ≡ db.events
unfolding fan_out_plain
fan_out_plain-events fresh p [] db = refl
fan_out_plain-events fresh p (s ∷ ss) db =
    fan_out_plain-events fresh p ss _
    ∙ insert_copy-events fresh s.destination_id _ (plain_copy p s) db

pub fan_out_relay_event-events :
    (fresh : List Delivery → ℕ) (p : Posting) (chain n : ℕ) (is : List ℕ) (db : Db)
    → (fan_out_relay_event fresh p chain n is db).events ≡ db.events
unfolding fan_out_relay_event
fan_out_relay_event-events fresh p chain n [] db = refl
fan_out_relay_event-events fresh p chain n (i ∷ is) db =
    fan_out_relay_event-events fresh p chain (n + 1) is _
    ∙ insert_copy-events fresh i any_address (station_copy p chain n) db

body-events :
    (o : Option ℕ) (i : ℕ) (db db' : Db) → pair_body o i db ≡ some db' → db'.events ≡ db.events
body-events none i db db' e = absurd (cc)
body-events (some j) i db db' e = ground arith

preview-events :
    (fresh : List Delivery → ℕ) (p : Posting) (w : ℕ) (s : Subscriber) (o : Option ℕ) (db db' : Db)
    → pair_preview fresh p w s o db ≡ some db'
    → db'.events ≡ db.events
preview-events fresh p w s none db db' e = absurd (cc)
preview-events fresh p w s (some i) db db' e =
    body-events _ i _ db' e
    ∙ insert_copy-events fresh s.destination_id any_address (body_copy p w s i) db

pair-events :
    (fresh : List Delivery → ℕ) (p : Posting) (w : ℕ) (s : Subscriber) (db db' : Db)
    → fan_out_pair fresh p w s db ≡ some db'
    → db'.events ≡ db.events
unfolding fan_out_pair
pair-events fresh p w s db db' e =
    preview-events fresh p w s _ _ db' e
    ∙ insert_copy-events fresh s.destination_id any_address (preview_copy p w s) db

pub fan_out_gated_event-events :
    (fresh : List Delivery → ℕ) (p : Posting) (w : ℕ) (ss : List Subscriber) (db db' : Db)
    → fan_out_gated_event fresh p w ss db ≡ some db'
    → db'.events ≡ db.events
unfolding fan_out_gated_event
fan_out_gated_event-events fresh p w [] db db' e = ground arith
fan_out_gated_event-events fresh p w (s ∷ ss) db db' e =
    elim (Option-cases (fan_out_pair fresh p w s db)) [
      | inl n ↦ absurd (ground arith)
      | inr (db1, q) ↦
          fan_out_gated_event-events fresh p w ss db1 db' (rw (q, fan_out_gated_event) at e)
          ∙ pair-events fresh p w s db db1 q
    ]
