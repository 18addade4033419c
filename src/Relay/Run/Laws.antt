-- ===== src/Relay/Run/Laws.antt =====
-- The run view of env/app/relay.py beside the cascade that stops the run, and beside the counts of
-- env/app/main.py.
use ccj.Prelude.{
  ℕ, suc, ◌+◌, ◌≤◌, ◌≡◌, refl, sym, ap, ◌∙◌, Bool, true, false, Option, none, some, is_some, List,
  [], ◌∷◌, ◌&&◌, ◌||◌, ◌==◌, ltb, length, if◌then◌else◌, arith, Bool-cases, inl, inr,
}
use ccj.Models.{Delivery, SkipReason, is_acknowledged}
use ccj.Models.Checks.{checks}
use ccj.Sql.{count_where, first, place, order_by, where_rows}
use ccj.Sql.Select.{All-order_by}
use ccj.Models.Tables.{Destination}
use ccj.Sql.Evolve.{All}
use ccj.Standing.{is_stopped, is_real, Evaluation, event_counts, mark_relay_halt}
use ccj.Relay.Cascade.{stop_reason}
use ccj.Relay.Run.{
  is_station_of, stations_of, by_station_no, reason_of, Walk, start, visit, walk, view_of,
}

-- For a row that satisfies the table's constraints, the reason that the run view shows is the reason
-- that the cascade writes, and there is one exactly when the station is in a stop state.
pub reason_of-stop_reason :
    (d : Delivery)
    → checks d ≡ true
    → (reason_of d ≡ stop_reason d) × (is_some (reason_of d) ≡ is_stopped d)
unfolding reason_of stop_reason checks
reason_of-stop_reason d c = (ground arith, ground arith)

walk-acknowledged :
    (rows : List Delivery) (w : Walk)
    → (walk rows w).acknowledged
      ≡ w.acknowledged + count_where (λ d. is_acknowledged d.reconcile_state) rows
unfolding walk visit count_where
walk-acknowledged [] w = omega arith
walk-acknowledged (d ∷ rows) w = ground (arith, walk-acknowledged rows (visit d w))

-- a row of a chain has its place in it
abbrev pub IsPlaced : Delivery → Type 0
IsPlaced d = (is_some d.relay_station_no ≡ true) × (checks d ≡ true)

walk-stop :
    (rows : List Delivery) (w : Walk)
    → All IsPlaced rows
    → is_some (walk rows w).stop_station
      ≡ (is_some w.stop_station || ltb 0 (count_where is_stopped rows))
unfolding walk visit count_where
walk-stop [] w h = ground arith
walk-stop (d ∷ rows) w h = ground (arith, walk-stop rows (visit d w) h.1, h.0.0)

-- where the walk says that the run stopped, and why
abbrev pub stop_at : Option Delivery → Option ℕ
stop_at none = none
stop_at (some d) = d.relay_station_no

abbrev pub stop_why : Option Delivery → Option SkipReason
stop_why none = none
stop_why (some d) = stop_reason d

walk_on :
    (rows : List Delivery) (w : Walk)
    → is_some w.stop_station ≡ true
    → ((walk rows w).stop_station ≡ w.stop_station) × ((walk rows w).stop_reason ≡ w.stop_reason)
unfolding walk visit
walk_on [] w e = (refl, refl)
walk_on (d ∷ rows) w e =
    let (a, b) = walk_on rows (visit d w) (ground arith) in (ground (arith, a), ground (arith, b))

walk-first :
    (rows : List Delivery) (w : Walk)
    → All IsPlaced rows
    → w.stop_station ≡ none
    → w.stop_reason ≡ none
    → ((walk rows w).stop_station ≡ stop_at (first is_stopped rows))
      × ((walk rows w).stop_reason ≡ stop_why (first is_stopped rows))
unfolding walk visit first
walk-first [] w h e q = (e, q)
walk-first (d ∷ rows) w h e q = elim (Bool-cases (is_stopped d)) [
  | inl t ↦
      let (a, b) = walk_on rows (visit d w) (ground (arith, h.0.0)) in
      (ground (arith, a), ground (arith, b, (reason_of-stop_reason d h.0.1).0))
  | inr f ↦
      let (a, b) = walk-first rows (visit d w) h.1 (ground arith) (ground arith) in
      (ground (arith, a), ground (arith, b))
]

count-le-length : (p : Delivery → Bool) (rows : List Delivery) → count_where p rows ≤ length rows
unfolding count_where
count-le-length p [] = omega arith
count-le-length p (d ∷ rows) = ground (arith, count-le-length p rows)

-- The run view of stations that are in order: a run is shown as stopped exactly when a station is in
-- a stop state and not all are acknowledged. It is then shown at the first such station, with the
-- reason that the cascade writes for it.
pub view_of-first_stop :
    (rows : List Delivery)
    → All IsPlaced rows
    → let v = view_of rows in
      (v.stopped ≡ (
        ltb 0 (count_where is_stopped rows)
        && ltb (count_where (λ d. is_acknowledged d.reconcile_state) rows) (length rows)))
      × (v.stopped_at_station_no ≡ (if v.stopped then stop_at (first is_stopped rows) else none))
      × (v.stop_reason ≡ (if v.stopped then stop_why (first is_stopped rows) else none))
unfolding view_of
view_of-first_stop rows h =
    let (a, b) = walk-first rows start h refl refl in
    (
      ground (
        arith,
        walk-stop rows start h,
        walk-acknowledged rows start,
        count-le-length is_stopped rows,
      ),
      ground (arith, a),
      ground (arith, b),
    )

count_cons :
    (p : Delivery → Bool) (d : Delivery) (xs ys : List Delivery)
    → count_where p xs ≡ count_where p ys
    → count_where p (d ∷ xs) ≡ count_where p (d ∷ ys)
unfolding count_where
count_cons p d xs ys e = ground arith

count-place :
    (p : Delivery → Bool) (b : Delivery → Delivery → Bool) (d : Delivery) (rows : List Delivery)
    → count_where p (place b d rows) ≡ count_where p (d ∷ rows)
unfolding place count_where
count-place p b d [] = refl
count-place p b d (x ∷ rows) = ground (arith, count-place p b d rows)

count-order_by :
    (p : Delivery → Bool) (b : Delivery → Delivery → Bool) (rows : List Delivery)
    → count_where p (order_by b rows) ≡ count_where p rows
unfolding order_by
count-order_by p b [] = refl
count-order_by p b (d ∷ rows) =
    count-place p b d (order_by b rows)
    ∙ count_cons p d (order_by b rows) rows (count-order_by p b rows)

-- every copy of the event is a station of its run, and goes to its address in earnest
abbrev pub IsRun : ℕ → List Destination → Delivery → Type 0
IsRun e destinations d =
    d.event_id ≡ e → (is_station_of e destinations d ≡ true) × (d.observe_only ≡ false) × IsPlaced d

count_run :
    (e : ℕ) (destinations : List Destination) (p q : Delivery → Bool) (rows : List Delivery)
    → ((d : Delivery) → IsRun e destinations d → p d ≡ (is_station_of e destinations d && q d))
    → All (IsRun e destinations) rows
    → count_where p rows ≡ count_where q (where_rows (is_station_of e destinations) rows)
unfolding count_where where_rows
count_run e ds p q [] k h = refl
count_run e ds p q (d ∷ rows) k h = ground (arith, k d h.0, count_run e ds p q rows k h.1)

count-stations :
    (e : ℕ) (destinations : List Destination) (p q : Delivery → Bool) (rows : List Delivery)
    → ((d : Delivery) → IsRun e destinations d → p d ≡ (is_station_of e destinations d && q d))
    → All (IsRun e destinations) rows
    → count_where p rows ≡ count_where q (stations_of e destinations rows)
unfolding stations_of
count-stations e ds p q rows k h =
    count_run e ds p q rows k h
    ∙ sym (count-order_by q by_station_no (where_rows (is_station_of e ds) rows))

length-count : (rows : List Delivery) → count_where (λ d. true) rows ≡ length rows
unfolding count_where
length-count [] = refl
length-count (d ∷ rows) = ap suc (length-count rows)

stations-IsPlaced :
    (e : ℕ) (destinations : List Destination) (rows : List Delivery)
    → All (IsRun e destinations) rows
    → All IsPlaced (where_rows (is_station_of e destinations) rows)
unfolding where_rows
stations-IsPlaced e ds [] h = tt
stations-IsPlaced e ds (d ∷ rows) h = elim (Bool-cases (is_station_of e ds d)) [
  | inl t ↦ rw t ((h.0 (unfold is_station_of in ground arith)).2, stations-IsPlaced e ds rows h.1)
  | inr f ↦ rw f (stations-IsPlaced e ds rows h.1)
]

-- For an event whose copies are all stations of one run, the flag that `_mark_relay_halt` computes from
-- the counts is what the run view computes from the stations.
pub mark_relay_halt-stopped :
    (e : ℕ) (es : Option (List Evaluation)) (destinations : List Destination) (rows : List Delivery)
    → All (IsRun e destinations) rows
    → mark_relay_halt (event_counts e es rows) ≡ (view_of (stations_of e destinations rows)).stopped
unfolding mark_relay_halt event_counts
mark_relay_halt-stopped e es ds rows h =
    let stations = stations_of e ds rows in
    let placed : All IsPlaced stations =
      unfold stations_of in All-order_by IsPlaced by_station_no _ (stations-IsPlaced e ds rows h) in
    let shown = (view_of-first_stop stations placed).0 in
    ground (
      arith,
      shown,
      count-stations e ds (is_real e) (λ d. true) rows
          (λ d k. unfold is_station_of in ground (arith, k)) h,
      length-count stations,
      count-stations e ds (λ d. is_real e d && is_acknowledged d.reconcile_state)
          (λ d. is_acknowledged d.reconcile_state) rows
          (λ d k. unfold is_station_of in ground (arith, k)) h,
      count-stations e ds (λ d. d.event_id == e && (is_some d.relay_chain_id && is_stopped d))
          is_stopped rows (λ d k. unfold is_station_of in ground (arith, k)) h,
    )
