-- ===== src/Relay/Cascade/Closed.antt =====
-- The stop rule: after a cascade no later station of the run waits, and the next one does nothing.
use ccj.Prelude.{
  ℕ, ◌≡◌, refl, false, Option, none, some, List, [], ◌∷◌, arith, ◌==◌, Option-cases, Bool-cases,
  true, is_some, ◌&&◌, ◌<◌, inl, inr, ◌∙◌, ap,
}
use ccj.Models.{Delivery, SkipReason, Status, ReconcileState}
use ccj.Models.Keys.{IsKeyed, IsOnly, first-IsOnly}
use ccj.Sql.{update, count_where, first}
use ccj.Sql.Evolve.{All, Evolves, All-update, All-updated, All-first, first-update, first_holds}
use ccj.Relay.Cascade.{
  is_later, skip, skip_later, is_trigger, reason_in, stop_reason, cascade_after_stop, cascade_all,
}

module _ (P : Delivery → Type 0) (now : ℕ)
    (keeps : (by : ℕ) (r : SkipReason) (d : Delivery) → P d → P (skip now by r d)) where
  skip_later-All :
      (by : ℕ) (t : Option Delivery) (r : Option SkipReason) (rows : List Delivery)
      → All P rows
      → All P (skip_later now by t r rows).1
  unfolding skip_later
  skip_later-All by none r rows h = h
  skip_later-All by (some t) none rows h = h
  skip_later-All by (some t) (some r) rows h =
      All-update P (is_later t) (skip now by r) rows (λ d e p. keeps by r d p) h

  pub cascade_all-All :
      (is : List ℕ) (rows : List Delivery) → All P rows → All P (cascade_all now is rows).1
  unfolding cascade_all cascade_after_stop
  cascade_all-All [] rows h = h
  cascade_all-All (i ∷ is) rows h = cascade_all-All is _ (
      skip_later-All i (first (is_trigger i) rows) (reason_in (first (λ d. d.id == i) rows)) rows h)

skip_not_later :
    (now by : ℕ) (r : SkipReason) (t d : Delivery) → is_later t (skip now by r d) ≡ false
unfolding is_later skip
skip_not_later now by r t d = ground arith

self_not_later : (t : Delivery) → is_later t t ≡ false
unfolding is_later
self_not_later t = ground arith

none_later :
    (t : Delivery) (rows : List Delivery)
    → All (λ d. is_later t d ≡ false) rows
    → (now by : ℕ) (r : SkipReason)
    → (count_where (is_later t) rows ≡ 0) × (update (is_later t) (skip now by r) rows ≡ rows)
unfolding count_where update
none_later t [] h now by r = (refl, refl)
none_later t (d ∷ ds) h now by r =
    let (n, u) = none_later t ds h.1 now by r in rw (h.0, n, u) (refl, refl)

skip_trigger :
    (now by i : ℕ) (r : SkipReason) (d : Delivery) → is_trigger i (skip now by r d) ≡ is_trigger i d
unfolding skip
skip_trigger now by i r d = refl

skip_id : (now by i : ℕ) (r : SkipReason) (d : Delivery) → ((skip now by r d).id == i) ≡ (d.id == i)
unfolding skip
skip_id now by i r d = refl

missing :
    (i : ℕ) (rows : List Delivery) (t : Delivery)
    → first (λ (d : Delivery). d.id == i) rows ≡ none
    → first (is_trigger i) rows ≡ some t
    → ⊥
unfolding first
missing i [] t n e = cc
missing i (d ∷ ds) t n e = ground (arith, missing i ds t)

-- the two reads of the trigger's row find the same row
trigger_row :
    (i : ℕ) (rows : List Delivery) (t : Delivery)
    → IsKeyed rows
    → first (is_trigger i) rows ≡ some t
    → first (λ (d : Delivery). d.id == i) rows ≡ some t
trigger_row i rows t k e = elim (Option-cases (first (λ (d : Delivery). d.id == i) rows)) [
  | inl n ↦ absurd (missing i rows t n e)
  | inr (x, f) ↦
      let only =
        All-first (IsOnly t) (λ (d : Delivery). d.id == i) rows x
          (first-IsOnly (is_trigger i) rows t k e) f in
      f
      ∙ ap some (
          only (
            ground (
              arith,
              first_holds (λ (d : Delivery). d.id == i) rows x f,
              first_holds (is_trigger i) rows t e,
            )))
]

module _ (now i : ℕ) (rows : List Delivery) (t : Delivery) (r : SkipReason)
    (e : first (is_trigger i) rows ≡ some t) where
  trigger_after : first (is_trigger i) (update (is_later t) (skip now i r) rows) ≡ some t
  trigger_after =
      first-update (is_trigger i) (is_later t) (skip now i r) rows t (skip_trigger now i i r) e
      ∙ rw (self_not_later t) refl

  row_after :
      first (λ (d : Delivery). d.id == i) rows ≡ some t
      → first (λ (d : Delivery). d.id == i) (update (is_later t) (skip now i r) rows) ≡ some t
  row_after f =
      first-update (λ (d : Delivery). d.id == i) (is_later t) (skip now i r) rows t
        (skip_id now i i r) f
      ∙ rw (self_not_later t) refl

again_stopped :
    (now now' i : ℕ) (rows : List Delivery) (t : Delivery) (r : SkipReason)
    → first (is_trigger i) rows ≡ some t
    → first (λ (d : Delivery). d.id == i) rows ≡ some t
    → stop_reason t ≡ some r
    → let rows' = update (is_later t) (skip now i r) rows in
      skip_later now' i
        (first (is_trigger i) rows')
        (reason_in (first (λ d. d.id == i) rows'))
        rows'
      ≡ (0, rows')
unfolding skip_later
again_stopped now now' i rows t r e f y =
    let rows' = update (is_later t) (skip now i r) rows in
    let closed : All (λ d. is_later t d ≡ false) rows' =
      All-updated (λ d. is_later t d ≡ false) (is_later t) (skip now i r) rows
        (λ d p. skip_not_later now i r t d) (λ d p. p) in
    let (n, u) = none_later t rows' closed now' i r in
    rw (trigger_after now i rows t r e, row_after now i rows t r e f, y) (λ j. (n j, u j))

again_at :
    (now now' i : ℕ) (rows : List Delivery)
    → IsKeyed rows
    → (o : Option Delivery) → first (is_trigger i) rows ≡ o
    → let rows' = (skip_later now i o (reason_in (first (λ d. d.id == i) rows)) rows).1 in
      skip_later now' i
        (first (is_trigger i) rows')
        (reason_in (first (λ d. d.id == i) rows'))
        rows'
      ≡ (0, rows')
unfolding skip_later
again_at now now' i rows k none e = rw e refl
again_at now now' i rows k (some t) e = elim (Option-cases (stop_reason t)) [
  | inl n ↦ rw (trigger_row i rows t k e, n) (rw (e, trigger_row i rows t k e, n) refl)
  | inr (r, y) ↦
      rw (trigger_row i rows t k e, y)
        (again_stopped now now' i rows t r e (trigger_row i rows t k e) y)
]

-- The stops of a station, by the reason that its run is given.
abbrev pub StopsFor : Delivery → SkipReason → Type 0
StopsFor t (SkipReason.dead_letter r) =
    (t.status ≡ Status.dead_lettered) × (t.dead_letter_reason ≡ some r)
StopsFor t SkipReason.superseded = t.status ≡ Status.superseded
StopsFor t SkipReason.deliver_by_expired = t.status ≡ Status.deadline_expired
StopsFor t SkipReason.receipt_failed =
    (t.status ≡ Status.delivered) × (t.reconcile_state ≡ ReconcileState.receipt_failed)
StopsFor t SkipReason.receipt_timeout =
    (t.status ≡ Status.delivered) × (t.reconcile_state ≡ ReconcileState.timed_out)

-- a queued copy at a later station than `t`, in the same event and chain
pub record WaitsBehind (t d : Delivery) : Type 0 where
  pub chain : ℕ
  pub own_no : ℕ
  pub later_no : ℕ
  pub same_event : d.event_id ≡ t.event_id
  pub same_chain : (t.relay_chain_id ≡ some chain) × (d.relay_chain_id ≡ some chain)
  pub numbers : (t.relay_station_no ≡ some own_no) × (d.relay_station_no ≡ some later_no)
  pub later : own_no < later_no
  pub queued : d.status ≡ Status.pending

-- the copy is closed for the stop of the station `i`
pub record IsSkipped (now i : ℕ) (r : SkipReason) (d d' : Delivery) : Type 0 where
  pub closed : d'.status ≡ Status.relay_skipped
  pub at : d'.relay_skipped_at ≡ some now
  pub reason : d'.relay_skip_reason ≡ some r
  pub stopped_by : d'.relay_stopped_by_delivery_id ≡ some i
  pub same_copy :
      (d'.id ≡ d.id)
      × (d'.event_id ≡ d.event_id)
      × (d'.destination_id ≡ d.destination_id)
      × (d'.destination_seq ≡ d.destination_seq)

-- what a stop does to a row
pub record Stopped (now i : ℕ) (t : Delivery) (r : SkipReason) (d d' : Delivery) : Type 0 where
  pub behind : WaitsBehind t d → IsSkipped now i r d d'
  pub others : ¬ (WaitsBehind t d) → d' ≡ d

stop_reason_lem : (t : Delivery) (r : SkipReason) → StopsFor t r → stop_reason t ≡ some r
unfolding stop_reason
stop_reason_lem t (SkipReason.dead_letter r) h = rw (h.0, h.1) refl
stop_reason_lem t SkipReason.superseded h = rw h refl
stop_reason_lem t SkipReason.deliver_by_expired h = rw h refl
stop_reason_lem t SkipReason.receipt_failed h = rw (h.0, h.1) refl
stop_reason_lem t SkipReason.receipt_timeout h = rw (h.0, h.1) refl

behind_later : (t d : Delivery) → WaitsBehind t d → is_later t d ≡ true
unfolding is_later
behind_later t d w =
    rw (w.same_event, w.same_chain.0, w.same_chain.1, w.numbers.0, w.numbers.1, w.queued)
      (let l = w.later in ground arith)

later_behind : (t d : Delivery) → is_later t d ≡ true → WaitsBehind t d
unfolding is_later
later_behind t d h = elim (Option-cases t.relay_chain_id) [
  | inl a ↦ absurd (ground arith)
  | inr (c, a) ↦ elim (Option-cases t.relay_station_no) [
    | inl b ↦ absurd (ground arith)
    | inr (n, b) ↦ elim (Option-cases d.relay_station_no) [
      | inl f ↦ absurd (ground arith)
      | inr (m, f) ↦ record {
        chain = c;
        own_no = n;
        later_no = m;
        same_event = ground arith;
        same_chain = (a, ground arith);
        numbers = (b, f);
        later = ground arith;
        queued = ground arith;
      }
    ]
  ]
]

skip-Stopped :
    (now i : ℕ) (t : Delivery) (r : SkipReason) (d : Delivery)
    → is_later t d ≡ true
    → Stopped now i t r d (skip now i r d)
unfolding skip
skip-Stopped now i t r d h = record {
  behind = λ w. record {
    closed = refl;
    at = refl;
    reason = refl;
    stopped_by = refl;
    same_copy = (refl, refl, refl, refl);
  };
  others = λ n. absurd (n (later_behind t d h));
}

stay-Stopped :
    (now i : ℕ) (t : Delivery) (r : SkipReason) (d : Delivery)
    → is_later t d ≡ false
    → Stopped now i t r d d
stay-Stopped now i t r d h = record {
  behind = λ w. let l = behind_later t d w in absurd (cc (l, h));
  others = λ n. refl;
}

update-Stopped :
    (now i : ℕ) (t : Delivery) (r : SkipReason) (rows : List Delivery)
    → Evolves (Stopped now i t r) rows (update (is_later t) (skip now i r) rows)
unfolding update
update-Stopped now i t r [] = tt
update-Stopped now i t r (d ∷ ds) = elim (Bool-cases (is_later t d)) [
  | inl h ↦ rw h (skip-Stopped now i t r d h, update-Stopped now i t r ds)
  | inr h ↦ rw h (stay-Stopped now i t r d h, update-Stopped now i t r ds)
]

-- On a table with unique keys, when a station has stopped, because it is dead-lettered, superseded or past
-- its cutoff or its receipt failed or timed out, a cascade from it closes each queued copy at a later
-- station of the same event and chain, with that reason and that station, and changes no other copy.
pub cascade_after_stop-Stopped :
    (now i : ℕ) (rows : List Delivery) (t : Delivery) (r : SkipReason)
    → IsKeyed rows
    → first (λ d. d.id == i && is_some d.relay_chain_id) rows ≡ some t
    → StopsFor t r
    → Evolves (Stopped now i t r) rows (cascade_after_stop now i rows).1
unfolding cascade_after_stop skip_later
cascade_after_stop-Stopped now i rows t r k e h =
    rw (e, trigger_row i rows t k e, stop_reason_lem t r h) (update-Stopped now i t r rows)

-- On a table with unique keys, a second cascade from the same station closes nothing and changes
-- nothing.
pub cascade_after_stop-again :
    (now now' i : ℕ) (rows : List Delivery)
    → IsKeyed rows
    → let rows' = (cascade_after_stop now i rows).1 in cascade_after_stop now' i rows' ≡ (0, rows')
unfolding cascade_after_stop
cascade_after_stop-again now now' i rows k =
    again_at now now' i rows k (first (is_trigger i) rows) refl
