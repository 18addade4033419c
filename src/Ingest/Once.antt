-- ===== src/Ingest/Once.antt =====
-- One event for each key, and no copy for an event that is not routed.
use text.Mathlib.TextPositions.{eq_refl}
use ccj.Prelude.{
  ℕ, ◌≡◌, refl, ◌∙◌, subst, String, Bool, true, false, Option, none, some, List, [], ◌∷◌, ◌++◌,
  ◌&&◌, is_some, is_null, ◌==◌, arith, Bool-cases, inl, inr,
}
use ccj.Models.Tables.{Db, Event}
use ccj.Sql.{exists, update}
use ccj.FanOut.{Subscriber, fan_out_plain, fan_out_relay_event}
use ccj.FanOut.Events.{fan_out_plain-events, fan_out_relay_event-events, fan_out_gated_event-events}
use ccj.Ingest.Setup.{
  Catalog, Chain, EventIn, Disposition, Store, Surroundings, active_chain_of, policy_of,
  stations_of_chain,
}
use ccj.Ingest.Routing.{Routed}
use ccj.Ingest.{
  Stored, store_event, finish, route, route_judged, finish_routed, copies, posting, log_attempt,
  new_event, has_key,
}

exists-snoc :
    (q : Event → Bool) (xs : List Event) (y : Event) → q y ≡ true → exists q (xs ++ (y ∷ [])) ≡ true
unfolding exists
exists-snoc q [] y e = rw e refl
exists-snoc q (x ∷ xs) y e = ground (arith, exists-snoc q xs y e)

exists-update :
    (q p : Event → Bool) (f : Event → Event) (xs : List Event)
    → ((x : Event) → q (f x) ≡ q x)
    → exists q (update p f xs) ≡ exists q xs
unfolding exists update
exists-update q p f [] k = refl
exists-update q p f (x ∷ xs) k = ground (arith, k x, exists-update q p f xs k)

-- an event with this key is stored
abbrev pub IsStored : String → Db → Type 0
IsStored key db = exists (has_key key) db.events ≡ true

-- the new event has the key of the request
abbrev pub IsNew : EventIn → Stored → Type 0
IsNew body (Stored.created d n st') = IsStored body.dedupe_key st'.db
IsNew body _ = Unit

has_key-required :
    (key : String) (n : ℕ) (e : Event)
    → has_key key (record e { required_ack_count = some n }) ≡ has_key key e
unfolding has_key
has_key-required key n e = refl

finish-IsNew :
    (d : Disposition) (n event_id : ℕ) (body : EventIn) (st : Store)
    → IsStored body.dedupe_key st.db
    → IsNew body (finish d n event_id body st)
unfolding finish log_attempt
finish-IsNew d n event_id body st h =
    exists-update (has_key body.dedupe_key) (λ (e : Event). e.id == event_id)
      (λ (e : Event). record e { required_ack_count = some n }) st.db.events
      (λ e. has_key-required body.dedupe_key n e)
    ∙ h

same-IsStored :
    (key : String) (db db' : Db) → db'.events ≡ db.events → IsStored key db → IsStored key db'
same-IsStored key db db' e h = rw e h

copies-events :
    (u : Surroundings) (body : EventIn) (now event_id : ℕ) (policy : Option ℕ)
    (ss : List Subscriber) (db db' : Db)
    → copies u (posting now event_id body) policy ss db ≡ some db'
    → db'.events ≡ db.events
copies-events u body now event_id none ss db db' e =
    let same : fan_out_plain u.fresh (posting now event_id body) ss db ≡ db' = cc in
    subst (λ (z : Db). z.events ≡ db.events) same
      (fan_out_plain-events u.fresh (posting now event_id body) ss db)
copies-events u body now event_id (some w) ss db db' e =
    fan_out_gated_event-events u.fresh (posting now event_id body) w ss db db' e

routed-IsNew :
    (u : Surroundings) (cat : Catalog) (body : EventIn) (event_id confirmed : ℕ) (r : Routed)
    (st : Store) (o : Option Db)
    → ((db : Db) → o ≡ some db → IsStored body.dedupe_key db)
    → IsNew body (finish_routed u cat body event_id confirmed r o st)
routed-IsNew u cat body event_id confirmed r st none k = tt
routed-IsNew u cat body event_id confirmed r st (some db) k =
    finish-IsNew _ _ event_id body _ (k db refl)

judged-IsNew :
    (u : Surroundings) (cat : Catalog) (now : ℕ) (body : EventIn) (event_id confirmed : ℕ)
    (o : Option Routed) (st : Store)
    → IsStored body.dedupe_key st.db
    → IsNew body (route_judged u cat now body event_id confirmed o st)
judged-IsNew u cat now body event_id confirmed none st h = tt
judged-IsNew u cat now body event_id confirmed (some r) st h =
    routed-IsNew u cat body event_id confirmed r st _ (λ db e.
      same-IsStored body.dedupe_key st.db db
        (copies-events u body now event_id (policy_of body.event_type cat) r.routed st.db db e) h)

route-IsNew :
    (u : Surroundings) (cat : Catalog) (now : ℕ) (body : EventIn) (event_id : ℕ) (o : Option Chain)
    (st : Store)
    → IsStored body.dedupe_key st.db
    → IsNew body (route u cat now body event_id o st)
route-IsNew u cat now body event_id (some chain) st h = finish-IsNew _ _ event_id body _ (
    same-IsStored body.dedupe_key st.db
      (fan_out_relay_event u.fresh (posting now event_id body) chain.id 1
        (stations_of_chain chain.id cat) st.db)
      (fan_out_relay_event-events u.fresh (posting now event_id body) chain.id 1
        (stations_of_chain chain.id cat) st.db)
      h)
route-IsNew u cat now body event_id none st h = judged-IsNew u cat now body event_id _ _ st h

store_event-IsNew :
    (u : Surroundings) (cat : Catalog) (now : ℕ) (body : EventIn) (st : Store)
    → IsNew body (store_event u cat now body st)
unfolding store_event
store_event-IsNew u cat now body st =
    elim (Bool-cases (is_null (policy_of body.event_type cat) && is_some body.preview_payload)) [
      | inl t ↦ rw t tt
      | inr n ↦ elim (Bool-cases (exists (has_key body.dedupe_key) st.db.events)) [
        | inl t ↦ rw (n, t) tt
        | inr m ↦
            rw (n, m)
              (route-IsNew u cat now body (u.fresh_event st.db.events)
                (active_chain_of body.event_type cat) _
                (exists-snoc (has_key body.dedupe_key) st.db.events
                  (new_event (u.fresh_event st.db.events) body)
                  (unfold has_key new_event in eq_refl body.dedupe_key)))
      ]
    ]

-- An event that was stored and is posted again under its key, at any later time and after any change
-- of the tables other than the events, makes no event and no copy: the answer is the duplicate, and
-- only the log grows. The condition is that its body is not refused for a preview of an ungated type.
pub store_event-once :
    (u u' : Surroundings) (cat cat' : Catalog) (now now' n : ℕ) (body : EventIn) (d : Disposition)
    (st st' later : Store)
    → store_event u cat now body st ≡ Stored.created d n st'
    → later.db.events ≡ st'.db.events
    → (is_null (policy_of body.event_type cat') && is_some body.preview_payload) ≡ false
    → store_event u' cat' now' body later
      ≡ Stored.duplicate (log_attempt Disposition.duplicate body none later)
unfolding store_event
store_event-once u u' cat cat' now now' n body d st st' later e same p =
    let kept : IsStored body.dedupe_key later.db =
      same-IsStored body.dedupe_key st'.db later.db same
        (subst (IsNew body) e (store_event-IsNew u cat now body st)) in
    rw (p, kept) refl
