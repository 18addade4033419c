-- ===== src/Confirmation/Laws.antt =====
-- A new round of the handshake keeps the table sound.
use ccj.Prelude.{
  ℕ, String, ◌≡◌, Bool, true, false, Option, none, some, List, [], ◌∷◌, arith, ◌&&◌, is_some, ◌==◌,
  map, before, Bool-cases, inl, inr, coalesce,
}
use text.Mathlib.Text.{◌==◌ as str_eq}
use ccj.Filters.Text.{is_ascii}
use ccj.Config.{Settings}
use ccj.Models.{Delivery, VoidReason, is_preview}
use ccj.Models.Tables.{Db, Destination}
use ccj.Models.Checks.{checks}
use ccj.Models.Progress.{Step, Step-refl, Step-trans}
use ccj.Sql.{update, first, where_rows}
use ccj.Sql.Evolve.{Evolves, Evolves-refl, Evolves-trans, Evolves-update}
use ccj.Relay.Cascade.{cascade_superseded_destination}
use ccj.Relay.Cascade.Laws.{cascade_all-Evolves}
use ccj.Release.Gate.{relocate_held_bodies, void_body_after_preview_failure}
use ccj.Release.Gate.Laws.{relocate_held_bodies-Evolves, void_body_after_preview_failure-Evolves}
use ccj.Worker.Claim.{generation_at, supersede_row, is_confirmed}
use ccj.Confirmation.{
  is_left_behind, void_all, abandon_queue, armed_db, arm_round, log_confirmation_attempt,
  rotate_round, match_echo, echo_found, apply_echo, rotate_all, expire_due_rounds, due_rounds,
}

behind-Step :
    (now i : ℕ) (g : Option ℕ) (d : Delivery)
    → is_left_behind i g d ≡ true
    → Step d (supersede_row now d)
unfolding is_left_behind supersede_row checks
behind-Step now i g d e s = ground arith

cascade_superseded_destination-Evolves :
    (now i : ℕ) (rows : List Delivery)
    → Evolves Step rows (cascade_superseded_destination now i rows).1
unfolding cascade_superseded_destination
cascade_superseded_destination-Evolves now i rows = cascade_all-Evolves now _ rows

void_all-Evolves :
    (now : ℕ) (is : List ℕ) (rows : List Delivery) → Evolves Step rows (void_all now is rows)
unfolding void_all
void_all-Evolves now [] rows = Evolves-refl Step rows Step-refl
void_all-Evolves now (i ∷ is) rows =
    Evolves-trans Step rows
      (void_body_after_preview_failure now i VoidReason.preview_superseded rows) _ Step-trans
      (void_body_after_preview_failure-Evolves now i VoidReason.preview_superseded rows)
      (void_all-Evolves now is _)

abandon_queue-Evolves : (now i : ℕ) (db : Db) → Evolves Step db.deliveries (abandon_queue now i db)
unfolding abandon_queue
abandon_queue-Evolves now i db =
    let g = generation_at i db.destinations in
    let left = is_left_behind i g in
    let gated = relocate_held_bodies now i db in
    let previews = λ (d : Delivery). left d && is_preview d.phase in
    let fewer = update previews (supersede_row now) gated in
    let moved = update left (supersede_row now) fewer in
    let cascaded = (cascade_superseded_destination now i moved).1 in
    Evolves-trans Step db.deliveries gated _ Step-trans (relocate_held_bodies-Evolves now i db) (
      Evolves-trans Step gated fewer _ Step-trans
        (Evolves-update Step previews (supersede_row now) gated Step-refl
          (λ d e. behind-Step now i g d (ground arith)))
        (Evolves-trans Step fewer moved _ Step-trans
          (Evolves-update Step left (supersede_row now) fewer Step-refl (behind-Step now i g))
          (Evolves-trans Step moved cascaded _ Step-trans
            (cascade_superseded_destination-Evolves now i moved)
            (void_all-Evolves now (map (λ (d : Delivery). d.id) (where_rows previews gated))
              cascaded))))

pub arm_round-Evolves :
    (cfg : Settings) (now : ℕ) (t : String) (i : ℕ) (bump : Bool) (db : Db)
    → Evolves Step db.deliveries (arm_round cfg now t i bump db).1.deliveries
unfolding arm_round armed_db
arm_round-Evolves cfg now t i bump db =
    let armed = armed_db cfg now t i bump db in
    elim (Bool-cases
      (bump && is_some (first (λ (x : Destination). x.id == i) armed.destinations))) [
        | inl e ↦ rw e (abandon_queue-Evolves now i armed)
        | inr e ↦ rw e (Evolves-refl Step db.deliveries Step-refl)
      ]

rotate-Evolves :
    (cfg : Settings) (now : ℕ) (fresh : String) (x : Destination) (db : Db)
    → Evolves Step db.deliveries (rotate_round cfg now fresh x db).1.deliveries
unfolding rotate_round log_confirmation_attempt
rotate-Evolves cfg now fresh x db = arm_round-Evolves cfg now fresh x.id false _

match-Evolves :
    (now : ℕ) (t : String) (x : Destination) (db : Db)
    → Evolves Step db.deliveries (match_echo now t x db).1.deliveries
unfolding match_echo log_confirmation_attempt
match-Evolves now t x db =
    elim (Bool-cases (is_ascii t && is_ascii (coalesce x.challenge_token ""))) [
      | inr a ↦ rw a (Evolves-refl Step db.deliveries Step-refl)
      | inl a ↦ elim (Bool-cases (str_eq t (coalesce x.challenge_token ""))) [
        | inl e ↦ rw (a, e) (Evolves-refl Step db.deliveries Step-refl)
        | inr e ↦ rw (a, e) (Evolves-refl Step db.deliveries Step-refl)
      ]
    ]

echo-Evolves :
    (cfg : Settings) (now : ℕ) (fresh t : String) (o : Option Destination) (db : Db)
    → Evolves Step db.deliveries (echo_found cfg now fresh t o db).1.deliveries
unfolding echo_found log_confirmation_attempt
echo-Evolves cfg now fresh t none db = Evolves-refl Step db.deliveries Step-refl
echo-Evolves cfg now fresh t (some x) db = elim (Bool-cases (is_confirmed x.confirmation_state)) [
  | inl e ↦ rw e (Evolves-refl Step db.deliveries Step-refl)
  | inr e ↦ rw e (elim (Bool-cases (before x.challenge_expires_at now)) [
    | inl b ↦ rw b (rotate-Evolves cfg now fresh x db)
    | inr b ↦ rw b (match-Evolves now t x db)
  ])
]

pub apply_echo-Evolves :
    (cfg : Settings) (now : ℕ) (fresh : String) (i : ℕ) (t : String) (db : Db)
    → Evolves Step db.deliveries (apply_echo cfg now fresh i t db).1.deliveries
unfolding apply_echo
apply_echo-Evolves cfg now fresh i t db =
    echo-Evolves cfg now fresh t (first (λ (x : Destination). x.id == i) db.destinations) db

rotate_all-Evolves :
    (cfg : Settings) (now : ℕ) (fresh : ℕ → String) (xs : List Destination) (db : Db)
    → Evolves Step db.deliveries (rotate_all cfg now fresh xs db).deliveries
unfolding rotate_all log_confirmation_attempt
rotate_all-Evolves cfg now fresh [] db = Evolves-refl Step db.deliveries Step-refl
rotate_all-Evolves cfg now fresh (x ∷ xs) db =
    Evolves-trans Step db.deliveries _ _ Step-trans
      (arm_round-Evolves cfg now (fresh x.id) x.id false _) (rotate_all-Evolves cfg now fresh xs _)

pub expire_due_rounds-Evolves :
    (cfg : Settings) (now limit : ℕ) (locked : ℕ → Bool) (fresh : ℕ → String) (db : Db)
    → Evolves Step db.deliveries (expire_due_rounds cfg now limit locked fresh db).deliveries
unfolding expire_due_rounds
expire_due_rounds-Evolves cfg now limit locked fresh db =
    rotate_all-Evolves cfg now fresh (due_rounds now limit locked db.destinations) db
