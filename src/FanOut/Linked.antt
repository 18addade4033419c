-- ===== src/FanOut/Linked.antt =====
-- Linking a preview to its body, and the whole of `fan_out_gated_event` of env/app/release.py.
use ccj.Prelude.{
  ℕ, ◌≡◌, refl, sym, subst, ◌∙◌, true, Option, none, some, List, [], ◌∷◌, arith, ◌==◌, ==_iff,
  Option-cases, inl, inr,
}
use ccj.Models.{Delivery, is_preview}
use ccj.Models.Tables.{Db, Destination}
use ccj.Models.Checks.{IsSound, checks}
use ccj.Models.Keys.{Evolves-IsKeyed}
use ccj.Sql.{first}
use ccj.Sql.Evolve.{All, Evolves, Evolves-update, All-update, All-both}
use ccj.FanOut.Insert.{Posting, new_copy, insert_copy, insert_found, bump, is_address, any_address}
use ccj.FanOut.{
  Subscriber, fan_out_gated_event, fan_out_pair, preview_copy, body_copy, link_row, linked_db,
}
use ccj.FanOut.Lined.{
  IsFresh, IsLined, GivenOut, Apart, AllApart, All-snoc, insert_copy-IsLined, preview-IsCopy,
  body-IsCopy,
}
use ccj.FanOut.Pairs.{placed_db, insert_at, bumped_at, notice_db, pair_db, pair_steps, pair_apart}

-- the link keeps ids, addresses and places
abbrev Kept : Delivery → Delivery → Type 0
Kept d e =
    (e.id ≡ d.id) × (e.destination_id ≡ d.destination_id) × (e.destination_seq ≡ d.destination_seq)

same-GivenOut :
    (d e : Delivery) (o : Option Destination)
    → e.destination_seq ≡ d.destination_seq
    → GivenOut d o
    → GivenOut e o
same-GivenOut d e none q h = tt
same-GivenOut d e (some x) q h = omega arith

Kept-GivenOut :
    (xs : List Destination) (rows rows' : List Delivery)
    → Evolves Kept rows rows'
    → All (λ (d : Delivery). GivenOut d (first (is_address d.destination_id) xs)) rows
    → All (λ (d : Delivery). GivenOut d (first (is_address d.destination_id) xs)) rows'
Kept-GivenOut xs [] [] e h = tt
Kept-GivenOut xs [] (y ∷ ys) e h = absurd e
Kept-GivenOut xs (z ∷ zs) [] e h = absurd e
Kept-GivenOut xs (z ∷ zs) (y ∷ ys) e h = (
  subst (λ j. GivenOut y (first (is_address j) xs)) (sym e.0.1)
      (same-GivenOut z y (first (is_address z.destination_id) xs) e.0.2 h.0),
  Kept-GivenOut xs zs ys e.1 h.1,
)

Kept-Apart :
    (z y : Delivery) (rows rows' : List Delivery)
    → Kept z y
    → Evolves Kept rows rows'
    → All (Apart z) rows
    → All (Apart y) rows'
Kept-Apart z y [] [] k e h = tt
Kept-Apart z y [] (b ∷ bs) k e h = absurd e
Kept-Apart z y (a ∷ as_) [] k e h = absurd e
Kept-Apart z y (a ∷ as_) (b ∷ bs) k e h = (
  λ q r. h.0 (omega (arith, e.0.1, k.1)) (omega (arith, e.0.2, k.2)),
  Kept-Apart z y as_ bs k e.1 h.1,
)

Kept-AllApart :
    (rows rows' : List Delivery) → Evolves Kept rows rows' → AllApart rows → AllApart rows'
Kept-AllApart [] [] e h = tt
Kept-AllApart [] (y ∷ ys) e h = absurd e
Kept-AllApart (z ∷ zs) [] e h = absurd e
Kept-AllApart (z ∷ zs) (y ∷ ys) e h =
    (Kept-Apart z y zs ys e.0 e.1 h.0, Kept-AllApart zs ys e.1 h.1)

link-IsSound :
    (i b : ℕ) (d : Delivery)
    → d.id ≡ i
    → IsSound d × (d.id ≡ i → is_preview d.phase ≡ true)
    → IsSound (link_row b d) × ((link_row b d).id ≡ i → is_preview (link_row b d).phase ≡ true)
unfolding link_row checks
link-IsSound i b d e h = ground (arith, h.0.checked, h.1)

link-Kept : (b : ℕ) (d : Delivery) → Kept d (link_row b d)
unfolding link_row
link-Kept b d = (refl, refl, refl)

first_of_both : (P Q : Delivery → Type 0) (xs : List Delivery) → All (λ d. P d × Q d) xs → All P xs
first_of_both P Q [] h = tt
first_of_both P Q (x ∷ xs) h = (h.0.0, first_of_both P Q xs h.1)

linked-IsLined :
    (i b : ℕ) (db : Db)
    → All (λ (d : Delivery). d.id ≡ i → is_preview d.phase ≡ true) db.deliveries
    → IsLined db
    → IsLined (linked_db i b db)
linked-IsLined i b db h l =
    let goes : Evolves Kept db.deliveries (linked_db i b db).deliveries =
      Evolves-update Kept (λ (d : Delivery). d.id == i) (link_row b) db.deliveries
        (λ d. (refl, refl, refl)) (λ d e. link-Kept b d) in
    record {
      keyed = Evolves-IsKeyed Kept db.deliveries _ (λ d e k. k.0) goes l.keyed;
      sound =
          first_of_both IsSound (λ d. d.id ≡ i → is_preview d.phase ≡ true) _
            (All-update (λ d. IsSound d × (d.id ≡ i → is_preview d.phase ≡ true))
              (λ (d : Delivery). d.id == i) (link_row b) db.deliveries
              (λ d e k. link-IsSound i b d ((==_iff d.id i).0 e) k)
              (All-both IsSound (λ d. d.id ≡ i → is_preview d.phase ≡ true) _ db.deliveries
                (λ d a c. (a, c)) l.sound h));
      given_out = Kept-GivenOut db.destinations db.deliveries _ goes l.given_out;
      apart = Kept-AllApart db.deliveries _ goes l.apart;
    }

insert-IsLined :
    (fresh : List Delivery → ℕ) (i : ℕ) (make : ℕ → Destination → Delivery) (x : Destination)
    (db : Db)
    → first (is_address i) db.destinations ≡ some x
    → IsLined (insert_copy fresh i any_address make db).1
    → IsLined (placed_db fresh i make x db)
insert-IsLined fresh i make x db e l =
    subst (λ (r : Option ℕ × Db). IsLined r.1) (insert_at fresh i make x db e) l

-- only the notice has its id
notice_only :
    (fresh : List Delivery → ℕ) (p : Posting) (w : ℕ) (s : Subscriber) (x : Destination) (db : Db)
    → IsFresh fresh
    → All
        (λ (d : Delivery). d.id ≡ fresh db.deliveries → is_preview d.phase ≡ true)
        (pair_db fresh p w s x db).deliveries
unfolding preview_copy body_copy new_copy
notice_only fresh p w s x db f =
    All-snoc _ (notice_db fresh p w s x db).deliveries _
      (All-snoc _ db.deliveries _
        (All-both _ _ _ db.deliveries (λ d h g e. absurd (h e)) (f db.deliveries) (f db.deliveries))
        (λ e. refl))
      (λ e. absurd (pair_apart fresh p w s x db f e))

made-IsLined :
    (fresh : List Delivery → ℕ) (p : Posting) (w : ℕ) (s : Subscriber) (x : Destination) (db : Db)
    → IsFresh fresh
    → IsLined db
    → first (is_address s.destination_id) db.destinations ≡ some x
    → IsLined (
        linked_db
          (fresh db.deliveries)
          (fresh (notice_db fresh p w s x db).deliveries)
          (pair_db fresh p w s x db))
made-IsLined fresh p w s x db f l e =
    let noticed : IsLined (notice_db fresh p w s x db) =
      insert-IsLined fresh s.destination_id (preview_copy p w s) x db e (
        insert_copy-IsLined fresh s.destination_id any_address (preview_copy p w s) db f
          (preview-IsCopy p w s) l) in
    let paired : IsLined (pair_db fresh p w s x db) =
      insert-IsLined fresh s.destination_id (body_copy p w s (fresh db.deliveries)) (bump x)
        (notice_db fresh p w s x db) (bumped_at s.destination_id x db.destinations e)
        (insert_copy-IsLined fresh s.destination_id any_address
          (body_copy p w s (fresh db.deliveries)) (notice_db fresh p w s x db) f
          (body-IsCopy p w s (fresh db.deliveries)) noticed) in
    linked-IsLined (fresh db.deliveries) (fresh (notice_db fresh p w s x db).deliveries)
      (pair_db fresh p w s x db) (notice_only fresh p w s x db f) paired

no_address :
    (fresh : List Delivery → ℕ) (p : Posting) (w : ℕ) (s : Subscriber) (db : Db)
    → first (is_address s.destination_id) db.destinations ≡ none
    → fan_out_pair fresh p w s db ≡ none
unfolding fan_out_pair insert_copy insert_found
no_address fresh p w s db e = rw e refl

pair-IsLined :
    (fresh : List Delivery → ℕ) (p : Posting) (w : ℕ) (s : Subscriber) (db db' : Db)
    → IsFresh fresh
    → IsLined db
    → fan_out_pair fresh p w s db ≡ some db'
    → IsLined db'
pair-IsLined fresh p w s db db' f l e =
    elim (Option-cases (first (is_address s.destination_id) db.destinations)) [
      | inl n ↦
          let q : ◌≡◌ {A = Option Db} none (some db') = sym (no_address fresh p w s db n) ∙ e in
          absurd (cc)
      | inr (x, found) ↦
          let q = sym (pair_steps fresh p w s x db found) ∙ e in
          let same : linked_db (fresh db.deliveries) (fresh (notice_db fresh p w s x db).deliveries)
                (pair_db fresh p w s x db)
              ≡ db' =
            cc in
          subst IsLined same (made-IsLined fresh p w s x db f l found)
    ]

pub fan_out_gated_event-IsLined :
    (fresh : List Delivery → ℕ) (p : Posting) (w : ℕ) (ss : List Subscriber) (db db' : Db)
    → IsFresh fresh
    → IsLined db
    → fan_out_gated_event fresh p w ss db ≡ some db'
    → IsLined db'
unfolding fan_out_gated_event
fan_out_gated_event-IsLined fresh p w [] db db' f l e =
    let same : db ≡ db' = cc in subst IsLined same l
fan_out_gated_event-IsLined fresh p w (s ∷ ss) db db' f l e =
    elim (Option-cases (fan_out_pair fresh p w s db)) [
      | inl n ↦ absurd (ground arith)
      | inr (db1, q) ↦
          fan_out_gated_event-IsLined fresh p w ss db1 db' f (pair-IsLined fresh p w s db db1 f l q)
            (rw (q, fan_out_gated_event) at e)
    ]
