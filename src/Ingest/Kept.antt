-- ===== src/Ingest/Kept.antt =====
-- What storing an event keeps, and when it makes no copy.
use ccj.Prelude.{
  ℕ, ◌≡◌, refl, subst, Option, none, some, List, ◌&&◌, is_some, is_null, Bool-cases, inl, inr,
}
use ccj.Models.Tables.{Db}
use ccj.Sql.{exists}
use ccj.FanOut.{Subscriber, fan_out_plain}
use ccj.FanOut.Lined.{IsFresh, IsLined, fan_out_plain-IsLined, fan_out_relay_event-IsLined}
use ccj.FanOut.Linked.{fan_out_gated_event-IsLined}
use ccj.Ingest.Setup.{
  Catalog, Chain, EventIn, Store, Surroundings, active_chain_of, policy_of, stations_of_chain,
}
use ccj.Ingest.Routing.{Routed}
use ccj.Ingest.{
  Stored, store_event, finish, route, route_judged, finish_routed, copies, posting, log_attempt,
  has_key,
}

-- the tables after a call; one that raised is rolled back
abbrev pub stored_db : Store → Stored → Db
stored_db st (Stored.created d n st') = st'.db
stored_db st (Stored.duplicate st') = st'.db
stored_db st (Stored.rejected d st') = st'.db
stored_db st Stored.crashed = st.db

-- only the deliveries and the addresses matter
same-IsLined :
    (db db' : Db)
    → db'.deliveries ≡ db.deliveries
    → db'.destinations ≡ db.destinations
    → IsLined db
    → IsLined db'
same-IsLined db db' e q l = record {
  keyed = rw e l.keyed;
  sound = rw e l.sound;
  given_out = rw (e, q) l.given_out;
  apart = rw e l.apart;
}

routed-IsLined :
    (u : Surroundings) (cat : Catalog) (body : EventIn) (event_id confirmed : ℕ) (r : Routed)
    (st st0 : Store) (o : Option Db)
    → IsLined st0.db
    → ((db : Db) → o ≡ some db → IsLined db)
    → IsLined (stored_db st0 (finish_routed u cat body event_id confirmed r o st))
unfolding finish log_attempt
routed-IsLined u cat body event_id confirmed r st st0 none l k = l
routed-IsLined u cat body event_id confirmed r st st0 (some db) l k =
    same-IsLined db _ refl refl (k db refl)

copies-IsLined :
    (u : Surroundings) (body : EventIn) (now event_id : ℕ) (policy : Option ℕ)
    (ss : List Subscriber) (db db' : Db)
    → IsFresh u.fresh
    → IsLined db
    → copies u (posting now event_id body) policy ss db ≡ some db'
    → IsLined db'
copies-IsLined u body now event_id none ss db db' f l e =
    let same : fan_out_plain u.fresh (posting now event_id body) ss db ≡ db' = cc in
    subst IsLined same (fan_out_plain-IsLined u.fresh (posting now event_id body) ss db f l)
copies-IsLined u body now event_id (some w) ss db db' f l e =
    fan_out_gated_event-IsLined u.fresh (posting now event_id body) w ss db db' f l e

judged-IsLined :
    (u : Surroundings) (cat : Catalog) (now : ℕ) (body : EventIn) (event_id confirmed : ℕ)
    (o : Option Routed) (st st0 : Store)
    → IsFresh u.fresh
    → IsLined st0.db
    → IsLined st.db
    → IsLined (stored_db st0 (route_judged u cat now body event_id confirmed o st))
judged-IsLined u cat now body event_id confirmed none st st0 f l0 l = l0
judged-IsLined u cat now body event_id confirmed (some r) st st0 f l0 l =
    routed-IsLined u cat body event_id confirmed r st st0
      (copies u (posting now event_id body) (policy_of body.event_type cat) r.routed st.db) l0
      (λ db e.
        copies-IsLined u body now event_id (policy_of body.event_type cat) r.routed st.db db f l e)

route-IsLined :
    (u : Surroundings) (cat : Catalog) (now : ℕ) (body : EventIn) (event_id : ℕ) (o : Option Chain)
    (st st0 : Store)
    → IsFresh u.fresh
    → IsLined st0.db
    → IsLined st.db
    → IsLined (stored_db st0 (route u cat now body event_id o st))
unfolding finish log_attempt
route-IsLined u cat now body event_id (some chain) st st0 f l0 l = same-IsLined _ _ refl refl (
    fan_out_relay_event-IsLined u.fresh (posting now event_id body) chain.id 0
      (stations_of_chain chain.id cat) st.db f l)
route-IsLined u cat now body event_id none st st0 f l0 l =
    judged-IsLined u cat now body event_id _ _ st st0 f l0 l

-- Storing an event, on every path and whether it is gated, on a chain or ordinary, keeps ids unique,
-- rows sound and each row at a place of its address's queue that no other row has: the constraint
-- UNIQUE (destination_id, destination_seq) is never violated.
pub store_event-IsLined :
    (u : Surroundings) (cat : Catalog) (now : ℕ) (body : EventIn) (st : Store)
    → IsFresh u.fresh
    → IsLined st.db
    → IsLined (stored_db st (store_event u cat now body st))
unfolding store_event log_attempt
store_event-IsLined u cat now body st f l =
    elim (Bool-cases (is_null (policy_of body.event_type cat) && is_some body.preview_payload)) [
      | inl t ↦ rw t l
      | inr n ↦ elim (Bool-cases (exists (has_key body.dedupe_key) st.db.events)) [
        | inl t ↦ rw (n, t) l
        | inr m ↦
            rw (n, m)
              (route-IsLined u cat now body (u.fresh_event st.db.events)
                (active_chain_of body.event_type cat) _ st f l (same-IsLined st.db _ refl refl l))
      ]
    ]
