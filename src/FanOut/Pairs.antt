-- ===== src/FanOut/Pairs.antt =====
-- The preview and the body that `fan_out_gated_event` of env/app/release.py makes for each address.
use ccj.Prelude.{
  ℕ, ◌+◌, ◌≡◌, ◌≢◌, ◌<◌, coalesce, refl, sym, ap, ◌∙◌, true, Option, none, some, List, [], ◌∷◌,
  ◌++◌, arith, ◌==◌, ◌&&◌,
}
use ccj.Models.{Delivery, Phase, Status, ReleaseState}
use ccj.Models.Tables.{Db, Destination}
use ccj.Sql.{update, first}
use ccj.Sql.Evolve.{All, All-both, first-update, first_holds}
use ccj.FanOut.Insert.{Posting, new_copy, insert_copy, insert_found, bump, is_address, any_address}
use ccj.FanOut.{Subscriber, fan_out_pair, preview_copy, body_copy, preview_key, link_row, linked_db}
use ccj.FanOut.Lined.{IsFresh, GivenOut, last_place}

-- the database after an insert that found the address `x`
abbrev pub placed_db :
    (List Delivery → ℕ) → ℕ → (ℕ → Destination → Delivery) → Destination → Db → Db
placed_db fresh i make x db = record db {
  deliveries = db.deliveries ++ (make (fresh db.deliveries) (bump x) ∷ []);
  destinations = update (λ (y : Destination). y.id == i && true) bump db.destinations;
}

pub insert_at :
    (fresh : List Delivery → ℕ) (i : ℕ) (make : ℕ → Destination → Delivery) (x : Destination)
    (db : Db)
    → first (is_address i) db.destinations ≡ some x
    → insert_copy fresh i any_address make db
      ≡ (some (fresh db.deliveries), placed_db fresh i make x db)
unfolding insert_copy insert_found
insert_at fresh i make x db e = rw e refl

pub bumped_at :
    (i : ℕ) (x : Destination) (xs : List Destination)
    → first (is_address i) xs ≡ some x
    → first (is_address i) (update (λ (y : Destination). y.id == i && true) bump xs) ≡ some (bump x)
unfolding bump
bumped_at i x xs e =
    rw
      (first-update (is_address i) (λ (y : Destination). y.id == i && true) bump xs x (λ x. refl) e)
      (ground (arith, first_holds (is_address i) xs x e))

snoc_two : (xs : List Delivery) (a b : Delivery) → (xs ++ (a ∷ [])) ++ (b ∷ []) ≡ xs ++ (a ∷ b ∷ [])
snoc_two [] a b = refl
snoc_two (x ∷ xs) a b = ap (λ (ys : List Delivery). x ∷ ys) (snoc_two xs a b)

update_last_two :
    (i : ℕ) (f : Delivery → Delivery) (xs : List Delivery) (a b : Delivery)
    → All (λ (d : Delivery). d.id ≢ i) xs
    → a.id ≡ i
    → b.id ≢ i
    → update (λ (d : Delivery). d.id == i) f (xs ++ (a ∷ b ∷ [])) ≡ xs ++ (f a ∷ b ∷ [])
unfolding update
update_last_two i f [] a b h p q = ground arith
update_last_two i f (x ∷ xs) a b h p q = ground (arith, h.0, update_last_two i f xs a b h.1 p q)

All-last :
    (P : Delivery → Type 0) (xs : List Delivery) (y : Delivery) → All P (xs ++ (y ∷ [])) → P y
All-last P [] y h = h.0
All-last P (x ∷ xs) y h = All-last P xs y h.1

-- What the two copies of a gated event are for one address, `x`: the notice, and behind it the held
-- content.
pub record IsPair (p : Posting) (w : ℕ) (s : Subscriber) (x : Destination)
    (notice content : Delivery) : Type 0 where
  pub notice_phase : notice.phase ≡ Phase.preview
  pub content_phase : content.phase ≡ Phase.body
  pub same_event : (notice.event_id ≡ p.event_id) × (content.event_id ≡ p.event_id)
  pub to_address :
      (notice.destination_id ≡ s.destination_id) × (content.destination_id ≡ s.destination_id)
  pub location :
      (notice.confirmation_generation ≡ x.confirmation_generation)
      × (content.confirmation_generation ≡ x.confirmation_generation)
  pub notice_place : notice.destination_seq ≡ x.next_event_seq + 1
  pub content_place : content.destination_seq ≡ x.next_event_seq + 2
  pub notice_payload : notice.payload ≡ coalesce p.preview_payload "{}"
  pub content_payload : content.payload ≡ p.payload
  pub apart : notice.id ≢ content.id
  pub forward : notice.body_delivery_id ≡ some content.id
  pub back : content.preview_delivery_id ≡ some notice.id
  pub held : (notice.release_state ≡ none) × (content.release_state ≡ some ReleaseState.held)
  pub window : (content.consent_timeout_seconds ≡ some w) × (content.consent_deadline ≡ none)
  pub notice_key : notice.dedupe_key ≡ preview_key p.dedupe_key
  pub content_key : content.dedupe_key ≡ p.dedupe_key
  pub both_wait : (notice.status ≡ Status.pending) × (content.status ≡ Status.pending)
  pub same_mode : (notice.observe_only ≡ s.observe_only) × (content.observe_only ≡ s.observe_only)

-- what the pair adds to the database
pub record AddsPair (p : Posting) (w : ℕ) (s : Subscriber) (x : Destination) (db : Db)
    (r : Option Db) : Type 0 where
  pub after : Db
  pub notice : Delivery
  pub content : Delivery
  pub returns : r ≡ some after
  pub appended : after.deliveries ≡ db.deliveries ++ (notice ∷ content ∷ [])
  pub is_pair : IsPair p w s x notice content
  pub new_ids : All (λ (d : Delivery). (d.id ≢ notice.id) × (d.id ≢ content.id)) db.deliveries
  pub behind :
      All
        (λ (d : Delivery).
          d.destination_id ≡ s.destination_id → d.destination_seq < notice.destination_seq)
        db.deliveries
  pub two_places : first (is_address s.destination_id) after.destinations ≡ some (bump (bump x))

module _ (fresh : List Delivery → ℕ) (p : Posting) (w : ℕ) (s : Subscriber) (x : Destination)
    (db : Db) where
  abbrev pub notice_db : Db
  notice_db = placed_db fresh s.destination_id (preview_copy p w s) x db

  abbrev pub pair_db : Db
  pair_db =
      placed_db fresh s.destination_id (body_copy p w s (fresh db.deliveries)) (bump x) notice_db

  pub pair_steps :
      first (is_address s.destination_id) db.destinations ≡ some x
      → fan_out_pair fresh p w s db
        ≡ some (linked_db (fresh db.deliveries) (fresh notice_db.deliveries) pair_db)
  unfolding fan_out_pair
  pair_steps e = rw (insert_at fresh s.destination_id (preview_copy p w s) x db e) (
      rw
        (insert_at fresh s.destination_id (body_copy p w s (fresh db.deliveries)) (bump x) notice_db
          (bumped_at s.destination_id x db.destinations e))
        refl)

  pub pair_apart : IsFresh fresh → fresh notice_db.deliveries ≢ fresh db.deliveries
  unfolding preview_copy new_copy
  pair_apart f e =
      All-last (λ (d : Delivery). d.id ≢ fresh notice_db.deliveries) db.deliveries
        (preview_copy p w s (fresh db.deliveries) (bump x)) (f notice_db.deliveries) (sym e)

  pair_rows :
      IsFresh fresh
      → (linked_db (fresh db.deliveries) (fresh notice_db.deliveries) pair_db).deliveries
        ≡ db.deliveries
          ++ (link_row
                (fresh notice_db.deliveries)
                (preview_copy p w s (fresh db.deliveries) (bump x))
              ∷ body_copy p w s (fresh db.deliveries) (fresh notice_db.deliveries) (bump (bump x))
              ∷ [])
  pair_rows f =
      ap
        (update (λ (d : Delivery). d.id == fresh db.deliveries)
          (link_row (fresh notice_db.deliveries)))
        (snoc_two db.deliveries (preview_copy p w s (fresh db.deliveries) (bump x))
          (body_copy p w s (fresh db.deliveries) (fresh notice_db.deliveries) (bump (bump x))))
      ∙ update_last_two (fresh db.deliveries) (link_row (fresh notice_db.deliveries)) db.deliveries
          (preview_copy p w s (fresh db.deliveries) (bump x))
          (body_copy p w s (fresh db.deliveries) (fresh notice_db.deliveries) (bump (bump x)))
          (f db.deliveries) (unfold preview_copy new_copy in refl)
          (unfold body_copy new_copy in pair_apart f)

  made-IsPair :
      (i j : ℕ)
      → i ≢ j
      → x.id ≡ s.destination_id
      → IsPair p w s x
          (link_row j (preview_copy p w s i (bump x)))
          (body_copy p w s i j (bump (bump x)))
  unfolding preview_copy body_copy new_copy link_row bump
  made-IsPair i j n e = ground arith

  pair_behind :
      first (is_address s.destination_id) db.destinations ≡ some x
      → All
          (λ (d : Delivery). GivenOut d (first (is_address d.destination_id) db.destinations))
          db.deliveries
      → All
          (λ (d : Delivery).
            d.destination_id ≡ s.destination_id → d.destination_seq < x.next_event_seq + 1)
          db.deliveries
  pair_behind e h =
      last_place x
        (record (preview_copy p w s 0 x) {
          destination_id = s.destination_id;
          destination_seq = x.next_event_seq + 1;
        })
        db.deliveries db.destinations e refl h

All-but_last :
    (P : Delivery → Type 0) (xs : List Delivery) (y : Delivery) → All P (xs ++ (y ∷ [])) → All P xs
All-but_last P [] y h = tt
All-but_last P (x ∷ xs) y h = (h.0, All-but_last P xs y h.1)

-- On a table in which each copy has a place that its address has given out, and where ids are fresh: for a
-- gated event, an address that is there gets two copies with new ids, at the next two places of its queue,
-- behind all its other copies: the notice with the preview's payload, and the content with the event's,
-- held behind it, each linked to the other. No window is open, and no copy that was there is changed.
pub fan_out_pair-AddsPair :
    (fresh : List Delivery → ℕ) (p : Posting) (w : ℕ) (s : Subscriber) (x : Destination) (db : Db)
    → IsFresh fresh
    → All
        (λ (d : Delivery). GivenOut d (first (is_address d.destination_id) db.destinations))
        db.deliveries
    → first (is_address s.destination_id) db.destinations ≡ some x
    → AddsPair p w s x db (fan_out_pair fresh p w s db)
fan_out_pair-AddsPair fresh p w s x db f g e = record {
  after =
      linked_db (fresh db.deliveries) (fresh (notice_db fresh p w s x db).deliveries)
        (pair_db fresh p w s x db);
  notice =
      link_row (fresh (notice_db fresh p w s x db).deliveries)
        (preview_copy p w s (fresh db.deliveries) (bump x));
  content =
      body_copy p w s (fresh db.deliveries) (fresh (notice_db fresh p w s x db).deliveries)
        (bump (bump x));
  returns = pair_steps fresh p w s x db e;
  appended = pair_rows fresh p w s x db f;
  is_pair =
      made-IsPair fresh p w s x db (fresh db.deliveries)
        (fresh (notice_db fresh p w s x db).deliveries) (λ q. pair_apart fresh p w s x db f (sym q))
        (ground (arith, first_holds (is_address s.destination_id) db.destinations x e));
  new_ids =
      unfold link_row preview_copy body_copy new_copy in
      All-both _ _ _ db.deliveries (λ d a b. (a, b)) (f db.deliveries)
        (All-but_last _ db.deliveries _ (f (notice_db fresh p w s x db).deliveries));
  behind = unfold link_row preview_copy new_copy bump in pair_behind fresh p w s x db e g;
  two_places =
      bumped_at s.destination_id (bump x) (notice_db fresh p w s x db).destinations
        (bumped_at s.destination_id x db.destinations e);
}
