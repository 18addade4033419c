-- ===== src/Confirmation/Answers.antt =====
-- Which answer confirms an address (`apply_echo` of env/app/confirmation.py).
use ccj.Prelude.{
  ℕ, String, ◌≡◌, ◌↔◌, refl, true, false, Option, none, some, arith, before, coalesce, ◌&&◌, ◌==◌,
  ◌∙◌,
}
use text.Mathlib.Text.{◌==◌ as str_eq}
use ccj.Filters.Text.{is_ascii}
use ccj.Config.{Settings}
use ccj.Models.Tables.{Db, Destination}
use ccj.Sql.{first}
use ccj.Sql.Evolve.{first-update}
use ccj.Worker.Claim.{is_confirmed}
use ccj.Confirmation.{
  Echo, confirm_row, log_confirmation_attempt, rotate_round, match_echo, echo_found, apply_echo,
}

-- The answer is to the open round of an address that is there, in time, and the right one.
pub record Confirms (now i : ℕ) (challenge : String) (db : Db) : Type 0 where
  pub address : Destination
  pub address_found : first (λ (x : Destination). x.id == i) db.destinations ≡ some address
  pub unconfirmed : is_confirmed address.confirmation_state ≡ false
  pub in_time : before address.challenge_expires_at now ≡ false
  pub in_ascii : (is_ascii challenge && is_ascii (coalesce address.challenge_token "")) ≡ true
  pub matches : str_eq challenge (coalesce address.challenge_token "") ≡ true

found_parts :
    (cfg : Settings) (now i : ℕ) (fresh challenge : String) (o : Option Destination) (db : Db)
    → first (λ (x : Destination). x.id == i) db.destinations ≡ o
    → (echo_found cfg now fresh challenge o db).0 ≡ Echo.confirmed
    → Confirms now i challenge db
unfolding echo_found rotate_round match_echo
found_parts cfg now i fresh challenge none db e h = absurd (cc)
found_parts cfg now i fresh challenge (some x) db e h = record {
  address = x;
  address_found = e;
  unconfirmed = ground arith;
  in_time = ground arith;
  in_ascii = ground arith;
  matches = ground arith;
}

pub apply_echo-Confirms_iff :
    (cfg : Settings) (now i : ℕ) (fresh challenge : String) (db : Db)
    → ((apply_echo cfg now fresh i challenge db).0 ≡ Echo.confirmed) ↔ Confirms now i challenge db
unfolding apply_echo echo_found match_echo
apply_echo-Confirms_iff cfg now i fresh challenge db = (
  found_parts cfg now i fresh challenge (first (λ (x : Destination). x.id == i) db.destinations) db
      refl,
  λ c. rw (c.address_found, c.unconfirmed, c.in_time, c.in_ascii, c.matches) refl,
)

confirmed_id : (now i : ℕ) (x : Destination) → (confirm_row now x).id == i ≡ x.id == i
unfolding confirm_row
confirmed_id now i x = refl

confirmed_row :
    (cfg : Settings) (now i : ℕ) (fresh challenge : String) (db : Db)
    (c : Confirms now i challenge db)
    → first
        (λ (x : Destination). x.id == i)
        (apply_echo cfg now fresh i challenge db).1.destinations
      ≡ some (confirm_row now c.address)
unfolding apply_echo echo_found match_echo log_confirmation_attempt
confirmed_row cfg now i fresh challenge db c =
    rw (c.address_found, c.unconfirmed, c.in_time, c.in_ascii, c.matches)
      (first-update (λ (x : Destination). x.id == i) (λ (x : Destination). x.id == c.address.id)
          (confirm_row now) db.destinations c.address (confirmed_id now i) c.address_found
        ∙ ground arith)

confirmed_again :
    (cfg : Settings) (now i : ℕ) (fresh challenge : String) (db : Db) (x : Destination)
    → first (λ (x : Destination). x.id == i) db.destinations ≡ some x
    → is_confirmed x.confirmation_state ≡ true
    → ((apply_echo cfg now fresh i challenge db).0 ≡ Echo.already_confirmed)
      × ((apply_echo cfg now fresh i challenge db).1.destinations ≡ db.destinations)
unfolding apply_echo echo_found log_confirmation_attempt
confirmed_again cfg now i fresh challenge db x e s = rw (e, s) (refl, refl)

-- After an answer has confirmed an address, every further answer finds it confirmed and leaves every
-- address as it is.
pub apply_echo-once :
    (cfg : Settings) (now now' i : ℕ) (fresh fresh' challenge challenge' : String) (db : Db)
    → (apply_echo cfg now fresh i challenge db).0 ≡ Echo.confirmed
    → let db' = (apply_echo cfg now fresh i challenge db).1 in
      ((apply_echo cfg now' fresh' i challenge' db').0 ≡ Echo.already_confirmed)
      × ((apply_echo cfg now' fresh' i challenge' db').1.destinations ≡ db'.destinations)
unfolding confirm_row
apply_echo-once cfg now now' i fresh fresh' challenge challenge' db h =
    let c = (apply_echo-Confirms_iff cfg now i fresh challenge db).0 h in
    confirmed_again cfg now' i fresh' challenge' _ (confirm_row now c.address)
      (confirmed_row cfg now i fresh challenge db c) refl
