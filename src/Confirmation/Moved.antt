-- ===== src/Confirmation/Moved.antt =====
-- What a change of location leaves in the queue of an address (`arm_round` of env/app/confirmation.py).
use ccj.Prelude.{ℕ, String, ◌≡◌, true, false, Option, some, List, [], ◌∷◌, arith, ◌&&◌, map, holds}
use ccj.Config.{Settings}
use ccj.Models.{Delivery, SkipReason, VoidReason, is_preview, is_pending, is_held, is_body}
use ccj.Models.Tables.{Db, Destination}
use ccj.Sql.{update, where_rows}
use ccj.Sql.Evolve.{All, All-update, All-updated}
use ccj.Relay.Cascade.{skip, cascade_superseded_destination}
use ccj.Relay.Cascade.Closed.{cascade_all-All}
use ccj.Release.Gate.{
  relocate_held_bodies, void_held, void_held_bodies, void_body_after_preview_failure,
}
use ccj.Worker.Claim.{generation_at, supersede_row}
use ccj.Confirmation.{is_left_behind, void_all, abandon_queue, armed_db, arm_round}

-- not queued for an older location
abbrev pub IsMoved : ℕ → Option ℕ → Delivery → Type 0
IsMoved i g d = is_left_behind i g d ≡ false

superseded-IsMoved : (now i : ℕ) (g : Option ℕ) (d : Delivery) → IsMoved i g (supersede_row now d)
unfolding is_left_behind supersede_row
superseded-IsMoved now i g d = ground arith

skip-IsMoved :
    (now i by : ℕ) (g : Option ℕ) (r : SkipReason) (d : Delivery) → IsMoved i g (skip now by r d)
unfolding is_left_behind skip
skip-IsMoved now i by g r d = ground arith

voided-IsMoved :
    (now i : ℕ) (g : Option ℕ) (r : VoidReason) (d : Delivery) → IsMoved i g (void_held now r d)
unfolding is_left_behind void_held
voided-IsMoved now i g r d = ground arith

void_body-IsMoved :
    (now i j : ℕ) (g : Option ℕ) (r : VoidReason) (rows : List Delivery)
    → All (IsMoved i g) rows
    → All (IsMoved i g) (void_body_after_preview_failure now j r rows)
unfolding void_body_after_preview_failure void_held_bodies
void_body-IsMoved now i j g r rows h =
    All-update (IsMoved i g)
      (λ d.
        is_pending d.status
        && (is_held d.release_state && (is_body d.phase && holds d.preview_delivery_id j)))
      (void_held now r) rows (λ d e p. voided-IsMoved now i g r d) h

void_all-IsMoved :
    (now i : ℕ) (g : Option ℕ) (is : List ℕ) (rows : List Delivery)
    → All (IsMoved i g) rows
    → All (IsMoved i g) (void_all now is rows)
unfolding void_all
void_all-IsMoved now i g [] rows h = h
void_all-IsMoved now i g (j ∷ is) rows h =
    void_all-IsMoved now i g is _ (void_body-IsMoved now i j g VoidReason.preview_superseded rows h)

abandoned-IsMoved :
    (now i : ℕ) (db : Db)
    → All (IsMoved i (generation_at i db.destinations)) (abandon_queue now i db)
unfolding abandon_queue cascade_superseded_destination
abandoned-IsMoved now i db =
    let g = generation_at i db.destinations in
    let gated = relocate_held_bodies now i db in
    let previews = λ (d : Delivery). is_left_behind i g d && is_preview d.phase in
    let fewer = update previews (supersede_row now) gated in
    void_all-IsMoved now i g (map (λ (d : Delivery). d.id) (where_rows previews gated)) _ (
      cascade_all-All (IsMoved i g) now (λ by r d p. skip-IsMoved now i by g r d) _ _
        (All-updated (IsMoved i g) (is_left_behind i g) (supersede_row now) fewer
          (λ d e. superseded-IsMoved now i g d) (λ d e. e)))

-- After a new round for an address that is there and has moved, no copy made for an older location of it is
-- queued.
pub arm_round-IsMoved :
    (cfg : Settings) (now : ℕ) (challenge : String) (i : ℕ) (db : Db) (x : Destination)
    → (arm_round cfg now challenge i true db).0 ≡ some x
    → let db' = (arm_round cfg now challenge i true db).1 in
      All (IsMoved i (generation_at i db'.destinations)) db'.deliveries
unfolding arm_round
arm_round-IsMoved cfg now challenge i db x e =
    rw e (abandoned-IsMoved now i (armed_db cfg now challenge i true db))
