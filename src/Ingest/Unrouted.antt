-- ===== src/Ingest/Unrouted.antt =====
-- An event that is stored and goes nowhere.
use ccj.Prelude.{
  ℕ, ◌≡◌, refl, ◌∙◌, Bool, true, false, Option, none, some, List, [], ◌∷◌, ◌&&◌, is_some, is_null,
  length, arith, Bool-cases, inl, inr,
}
use ccj.Models.Tables.{Db}
use ccj.Sql.{exists, count_where}
use ccj.FanOut.{Subscriber, fan_out_plain, fan_out_gated_event}
use ccj.Ingest.Setup.{
  Catalog, Chain, EventIn, Disposition, Store, Surroundings, active_chain_of, policy_of,
  threshold_of,
}
use ccj.Ingest.Routing.{Routed, subscriber_count}
use ccj.Ingest.{
  Stored, store_event, finish, route, route_judged, finish_routed, copies, posting, log_attempt,
  has_key, outcome_of, required_of, real_pairs,
}

abbrev pub is_accepted : Disposition → Bool
is_accepted Disposition.accepted = true
is_accepted _ = false

-- What an answer says of the tables: only the disposition `accepted` comes with copies or with receipts
-- that are required, and an answer that creates no event changes nothing but the log.
abbrev pub IsHonest : Store → Stored → Type 0
IsHonest st (Stored.created d n st') =
    is_accepted d ≡ false → (st'.db.deliveries ≡ st.db.deliveries) × (n ≡ 0)
IsHonest st (Stored.duplicate st') = (st'.db ≡ st.db) × (st'.evaluations ≡ st.evaluations)
IsHonest st (Stored.rejected d st') = (st'.db ≡ st.db) × (st'.evaluations ≡ st.evaluations)
IsHonest st Stored.crashed = Unit

no_copies :
    (u : Surroundings) (p : ℕ) (body : EventIn) (event_id : ℕ) (policy : Option ℕ)
    (ss : List Subscriber) (db db' : Db)
    → length ss ≡ 0
    → copies u (posting p event_id body) policy ss db ≡ some db'
    → db'.deliveries ≡ db.deliveries
unfolding fan_out_plain fan_out_gated_event
no_copies u p body event_id none [] db db' z e = ground arith
no_copies u p body event_id (some w) [] db db' z e = ground arith
no_copies u p body event_id policy (s ∷ ss) db db' z e = absurd (omega arith)

no_pairs : (t : Option ℕ) (ss : List Subscriber) → length ss ≡ 0 → required_of t (real_pairs ss) ≡ 0
unfolding real_pairs count_where
no_pairs t [] z = ground arith
no_pairs t (s ∷ ss) z = absurd (omega arith)

not_routed :
    (routed confirmed total : ℕ)
    → is_accepted (outcome_of routed confirmed total) ≡ false
    → routed ≡ 0
not_routed routed confirmed total e = ground arith

routed-IsHonest :
    (u : Surroundings) (cat : Catalog) (body : EventIn) (event_id confirmed : ℕ) (r : Routed)
    (st st0 : Store) (o : Option Db)
    → ((db : Db) → o ≡ some db → length r.routed ≡ 0 → db.deliveries ≡ st0.db.deliveries)
    → IsHonest st0 (finish_routed u cat body event_id confirmed r o st)
unfolding finish log_attempt
routed-IsHonest u cat body event_id confirmed r st st0 none k = tt
routed-IsHonest u cat body event_id confirmed r st st0 (some db) k = λ e.
    let z : length r.routed ≡ 0 =
      not_routed (length r.routed) confirmed (subscriber_count body.event_type cat) e in
    (k db refl z, no_pairs (threshold_of body.event_type cat) r.routed z)

judged-IsHonest :
    (u : Surroundings) (cat : Catalog) (now : ℕ) (body : EventIn) (event_id confirmed : ℕ)
    (o : Option Routed) (st st0 : Store)
    → st.db.deliveries ≡ st0.db.deliveries
    → IsHonest st0 (route_judged u cat now body event_id confirmed o st)
judged-IsHonest u cat now body event_id confirmed none st st0 q = tt
judged-IsHonest u cat now body event_id confirmed (some r) st st0 q =
    routed-IsHonest u cat body event_id confirmed r st st0
      (copies u (posting now event_id body) (policy_of body.event_type cat) r.routed st.db)
      (λ db e z.
        no_copies u now body event_id (policy_of body.event_type cat) r.routed st.db db z e ∙ q)

route-IsHonest :
    (u : Surroundings) (cat : Catalog) (now : ℕ) (body : EventIn) (event_id : ℕ) (o : Option Chain)
    (st st0 : Store)
    → st.db.deliveries ≡ st0.db.deliveries
    → IsHonest st0 (route u cat now body event_id o st)
unfolding finish
route-IsHonest u cat now body event_id (some chain) st st0 q = λ e. absurd (cc)
route-IsHonest u cat now body event_id none st st0 q =
    judged-IsHonest u cat now body event_id _ _ st st0 q

-- An event that is answered as unrouted, waiting for confirmation or filtered has made no copy and
-- requires no receipt. An answer as a duplicate or a refusal leaves every table but the log as it was.
pub store_event-IsHonest :
    (u : Surroundings) (cat : Catalog) (now : ℕ) (body : EventIn) (st : Store)
    → IsHonest st (store_event u cat now body st)
unfolding store_event log_attempt
store_event-IsHonest u cat now body st =
    elim (Bool-cases (is_null (policy_of body.event_type cat) && is_some body.preview_payload)) [
      | inl t ↦ rw t (refl, refl)
      | inr n ↦ elim (Bool-cases (exists (has_key body.dedupe_key) st.db.events)) [
        | inl t ↦ rw (n, t) (refl, refl)
        | inr m ↦
            rw (n, m)
              (route-IsHonest u cat now body (u.fresh_event st.db.events)
                (active_chain_of body.event_type cat) _ st refl)
      ]
    ]
