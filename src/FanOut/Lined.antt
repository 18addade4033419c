-- ===== src/FanOut/Lined.antt =====
-- What the inserts of a fan-out keep: keys, constraints, and the order of each address's queue.
use ccj.Prelude.{
  ℕ, ◌+◌, ◌≤◌, ◌<◌, ◌≡◌, ◌≢◌, refl, sym, subst, ◌∙◌, Bool, true, Option, none, some, List, [], ◌∷◌,
  ◌++◌, arith, ◌==◌, ==_iff, ◌&&◌, Bool-cases, Option-cases, inl, inr, if◌then◌else◌,
}
use ccj.Models.{Delivery}
use ccj.Models.Tables.{Db, Destination}
use ccj.Models.Checks.{IsSound, checks}
use ccj.Models.Keys.{IsKeyed}
use ccj.Sql.{update, first}
use ccj.Sql.Evolve.{All, first-update, first-update-none, first_holds, All-both}
use ccj.FanOut.Insert.{Posting, new_copy, insert_copy, insert_found, bump, is_address, any_address}
use ccj.FanOut.{
  Subscriber, fan_out_plain, plain_copy, fan_out_relay_event, station_copy, preview_copy, body_copy,
}

-- the documented behaviour of gen_random_uuid: an id that no row has
abbrev pub IsFresh : (List Delivery → ℕ) → Type 0
IsFresh fresh = (rows : List Delivery) → All (λ (d : Delivery). d.id ≢ fresh rows) rows

-- the place is one that the address has given out
abbrev pub GivenOut : Delivery → Option Destination → Type 0
GivenOut d none = Unit
GivenOut d (some x) = d.destination_seq ≤ x.next_event_seq

-- another place, if it is in the same queue
abbrev pub Apart : Delivery → Delivery → Type 0
Apart d e = e.destination_id ≡ d.destination_id → e.destination_seq ≢ d.destination_seq

-- UNIQUE (destination_id, destination_seq)
abbrev pub AllApart : List Delivery → Type 0
AllApart [] = Unit
AllApart (x ∷ xs) = All (Apart x) xs × AllApart xs

-- Ids are unique, the rows are sound, each row has a place that its address has given out, and no two
-- rows of one address have the same place.
pub record IsLined (db : Db) : Type 0 where
  pub keyed : IsKeyed db.deliveries
  pub sound : All IsSound db.deliveries
  pub given_out :
      All
        (λ (d : Delivery). GivenOut d (first (is_address d.destination_id) db.destinations))
        db.deliveries
  pub apart : AllApart db.deliveries

module _ {ℓ} {A : Type ℓ} where
  pub All-snoc : (P : A → Type 0) (xs : List A) (y : A) → All P xs → P y → All P (xs ++ (y ∷ []))
  All-snoc P [] y h p = (p, tt)
  All-snoc P (x ∷ xs) y h p = (h.0, All-snoc P xs y h.1 p)

IsKeyed-snoc :
    (xs : List Delivery) (y : Delivery)
    → IsKeyed xs
    → All (λ (x : Delivery). x.id ≢ y.id) xs
    → IsKeyed (xs ++ (y ∷ []))
IsKeyed-snoc [] y k h = (tt, tt)
IsKeyed-snoc (x ∷ xs) y k h =
    (All-snoc (λ z. z.id ≢ x.id) xs y k.0 (λ e. h.0 (sym e)), IsKeyed-snoc xs y k.1 h.1)

AllApart-snoc :
    (xs : List Delivery) (y : Delivery)
    → AllApart xs
    → All (λ (x : Delivery). Apart x y) xs
    → AllApart (xs ++ (y ∷ []))
AllApart-snoc [] y k h = (tt, tt)
AllApart-snoc (x ∷ xs) y k h = (All-snoc (Apart x) xs y k.0 h.0, AllApart-snoc xs y k.1 h.1)

-- a bump gives out no fewer places
bumped :
    (d : Delivery) (x : Destination) (b : Bool)
    → d.destination_seq ≤ x.next_event_seq
    → GivenOut d (some (if b then bump x else x))
unfolding bump
bumped d x b h = ground arith

GivenOut-bump :
    (d : Delivery) (j i : ℕ) (guard : Destination → Bool) (xs : List Destination)
    → GivenOut d (first (is_address j) xs)
    → GivenOut d (first (is_address j) (update (λ (y : Destination). y.id == i && guard y) bump xs))
unfolding bump
GivenOut-bump d j i guard xs h = elim (Option-cases (first (is_address j) xs)) [
  | inl e ↦
      rw
        (first-update-none (is_address j) (λ (y : Destination). y.id == i && guard y) bump xs
          (λ x. refl) e)
        tt
  | inr (x, e) ↦
      let h' : d.destination_seq ≤ x.next_event_seq = rw e at h in
      rw
        (first-update (is_address j) (λ (y : Destination). y.id == i && guard y) bump xs x
          (λ x. refl) e)
        (bumped d x (x.id == i && guard x) h')
]

-- what the callers put into a row
pub record IsCopy (x : Destination) (id : ℕ) (d : Delivery) : Type 0 where
  pub has_id : d.id ≡ id
  pub goes_to : d.destination_id ≡ x.id
  pub takes_place : d.destination_seq ≡ x.next_event_seq
  pub sound : IsSound d

-- the new row stands behind the others of its address
pub last_place :
    (x : Destination) (d : Delivery) (rows : List Delivery) (xs : List Destination)
    → first (is_address d.destination_id) xs ≡ some x
    → d.destination_seq ≡ x.next_event_seq + 1
    → All (λ (e : Delivery). GivenOut e (first (is_address e.destination_id) xs)) rows
    → All
        (λ (e : Delivery).
          e.destination_id ≡ d.destination_id → e.destination_seq < d.destination_seq)
        rows
last_place x d [] xs e q h = tt
last_place x d (r ∷ rows) xs e q h = (
  λ same.
      let h' : GivenOut r (some x) =
        subst (GivenOut r) e (subst (λ j. GivenOut r (first (is_address j) xs)) same h.0) in
      omega arith,
  last_place x d rows xs e q h.1,
)

own_place :
    (d : Delivery) (x : Destination) (i : ℕ) (guard : Destination → Bool)
    → x.id ≡ i
    → guard x ≡ true
    → d.destination_seq ≡ x.next_event_seq + 1
    → GivenOut d (some (if x.id == i && guard x then bump x else x))
unfolding bump
own_place d x i guard e t q = ground arith

placed :
    (fresh : List Delivery → ℕ) (i : ℕ) (guard : Destination → Bool)
    (make : ℕ → Destination → Delivery) (db : Db)
    → IsFresh fresh
    → ((id : ℕ) (x : Destination) → IsCopy x id (make id x))
    → IsLined db
    → (x : Destination) → first (is_address i) db.destinations ≡ some x
    → guard x ≡ true
    → IsLined (record db {
      deliveries = db.deliveries ++ (make (fresh db.deliveries) (bump x) ∷ []);
      destinations = update (λ (y : Destination). y.id == i && guard y) bump db.destinations;
    })
unfolding bump
placed fresh i guard make db f c l x e t =
    let d = make (fresh db.deliveries) (bump x) in
    let made = c (fresh db.deliveries) (bump x) in
    let at_home : x.id ≡ i = (==_iff x.id i).0 (first_holds (is_address i) db.destinations x e) in
    let mine : first (is_address d.destination_id) db.destinations ≡ some x =
      subst (λ j. first (is_address j) db.destinations ≡ some x) (sym (made.goes_to ∙ at_home)) e in
    record {
      keyed = IsKeyed-snoc db.deliveries d l.keyed (
          subst (λ j. All (λ (z : Delivery). z.id ≢ j) db.deliveries) (sym made.has_id)
            (f db.deliveries));
      sound = All-snoc IsSound db.deliveries d l.sound made.sound;
      given_out =
          All-snoc _ db.deliveries d
            (All-both _ _ _ db.deliveries
              (λ r h g. GivenOut-bump r r.destination_id i guard db.destinations h) l.given_out
              l.given_out)
            (rw
              (first-update (is_address d.destination_id)
                (λ (y : Destination). y.id == i && guard y) bump db.destinations x (λ x. refl) mine)
              (own_place d x i guard at_home t made.takes_place));
      apart = AllApart-snoc db.deliveries d l.apart (
          All-both _ _ _ db.deliveries (λ r h g same. omega (arith, h (sym same)))
            (last_place x d db.deliveries db.destinations mine made.takes_place l.given_out)
            l.given_out);
    }

found-IsLined :
    (fresh : List Delivery → ℕ) (i : ℕ) (guard : Destination → Bool)
    (make : ℕ → Destination → Delivery) (db : Db)
    → IsFresh fresh
    → ((id : ℕ) (x : Destination) → IsCopy x id (make id x))
    → IsLined db
    → (o : Option Destination) → first (is_address i) db.destinations ≡ o
    → IsLined (insert_found fresh i guard make o db).1
unfolding insert_found
found-IsLined fresh i guard make db f c l none e = l
found-IsLined fresh i guard make db f c l (some x) e = elim (Bool-cases (guard x)) [
  | inl t ↦ rw t (placed fresh i guard make db f c l x e t)
  | inr n ↦ rw n l
]

pub insert_copy-IsLined :
    (fresh : List Delivery → ℕ) (i : ℕ) (guard : Destination → Bool)
    (make : ℕ → Destination → Delivery) (db : Db)
    → IsFresh fresh
    → ((id : ℕ) (x : Destination) → IsCopy x id (make id x))
    → IsLined db
    → IsLined (insert_copy fresh i guard make db).1
unfolding insert_copy
insert_copy-IsLined fresh i guard make db f c l =
    found-IsLined fresh i guard make db f c l (first (is_address i) db.destinations) refl

new_copy-IsSound : (p : Posting) (id : ℕ) (x : Destination) → IsSound (new_copy p id x)
unfolding new_copy checks
new_copy-IsSound p id x = ground arith

plain-IsCopy :
    (p : Posting) (s : Subscriber) (id : ℕ) (x : Destination) → IsCopy x id (plain_copy p s id x)
unfolding plain_copy new_copy checks
plain-IsCopy p s id x = record {
  has_id = refl;
  goes_to = refl;
  takes_place = refl;
  sound = ground arith;
}

station-IsCopy :
    (p : Posting) (chain no : ℕ) (id : ℕ) (x : Destination)
    → IsCopy x id (station_copy p chain (no + 1) id x)
unfolding station_copy new_copy checks
station-IsCopy p chain n id x = record {
  has_id = refl;
  goes_to = refl;
  takes_place = refl;
  sound = ground arith;
}

pub preview-IsCopy :
    (p : Posting) (w : ℕ) (s : Subscriber) (id : ℕ) (x : Destination)
    → IsCopy x id (preview_copy p w s id x)
unfolding preview_copy new_copy checks
preview-IsCopy p w s id x = record {
  has_id = refl;
  goes_to = refl;
  takes_place = refl;
  sound = ground arith;
}

pub body-IsCopy :
    (p : Posting) (w : ℕ) (s : Subscriber) (i id : ℕ) (x : Destination)
    → IsCopy x id (body_copy p w s i id x)
unfolding body_copy new_copy checks
body-IsCopy p w s i id x = record {
  has_id = refl;
  goes_to = refl;
  takes_place = refl;
  sound = ground arith;
}

pub fan_out_plain-IsLined :
    (fresh : List Delivery → ℕ) (p : Posting) (ss : List Subscriber) (db : Db)
    → IsFresh fresh
    → IsLined db
    → IsLined (fan_out_plain fresh p ss db)
unfolding fan_out_plain
fan_out_plain-IsLined fresh p [] db f l = l
fan_out_plain-IsLined fresh p (s ∷ ss) db f l =
    fan_out_plain-IsLined fresh p ss _ f
      (insert_copy-IsLined fresh s.destination_id _ (plain_copy p s) db f (plain-IsCopy p s) l)

pub fan_out_relay_event-IsLined :
    (fresh : List Delivery → ℕ) (p : Posting) (chain no : ℕ) (is : List ℕ) (db : Db)
    → IsFresh fresh
    → IsLined db
    → IsLined (fan_out_relay_event fresh p chain (no + 1) is db)
unfolding fan_out_relay_event
fan_out_relay_event-IsLined fresh p chain n [] db f l = l
fan_out_relay_event-IsLined fresh p chain n (i ∷ is) db f l =
    fan_out_relay_event-IsLined fresh p chain (n + 1) is _ f (
      insert_copy-IsLined fresh i any_address (station_copy p chain (n + 1)) db f
        (station-IsCopy p chain n) l)
