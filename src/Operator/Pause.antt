-- ===== src/Operator/Pause.antt =====
-- `pause_destination` and `resume_destination` of env/app/main.py.
pub mod Quiet
use ccj.Prelude.{ℕ, Option, none, some, ◌||◌, is_some, coalesce, ◌==◌, if◌then◌else◌}
use ccj.Models.Tables.{Db, Destination}
use ccj.Sql.{update, first}
use ccj.Worker.Claim.{at_most}
use ccj.Operator.{Reply}

-- DestinationPauseIn: a field that the body does not name is not in model_fields_set
pub record DestinationPauseIn : Type 0 where
  pub paused_from : Option (Option ℕ)
  pub paused_until : Option (Option ℕ)

pub data Paused : Type 0 where
  done : Db → Paused
  not_found : Paused
  bad_window : Paused

abbrev pub flat : Option (Option ℕ) → Option ℕ
flat none = none
flat (some o) = o

abbrev pub set_window : Option ℕ → Option ℕ → Destination → Destination
set_window from until x = record x { paused_from = from; paused_until = until }

unfoldable pub pause_found : ℕ → ℕ → Option ℕ → Option Destination → Db → Paused
pause_found now from until none db = Paused.not_found
pause_found now from until (some x) db =
    if at_most until from || at_most until now
    then Paused.bad_window
    else Paused.done (record db {
      destinations =
          update (λ (y : Destination). y.id == x.id) (set_window (some from) until) db.destinations;
    })

unfoldable pub pause_destination : ℕ → ℕ → DestinationPauseIn → Db → Paused
unfolding pause_found
pause_destination now i w db =
    if is_some w.paused_from || is_some w.paused_until
    then pause_found now (coalesce (flat w.paused_from) now) (flat w.paused_until)
        (first (λ (x : Destination). x.id == i) db.destinations) db
    else Paused.bad_window

unfoldable pub resume_found : Option Destination → Db → Reply
resume_found none db = Reply.not_found
resume_found (some x) db =
    if is_some x.paused_from
    then Reply.done (record db {
      destinations =
          update (λ (y : Destination). y.id == x.id) (set_window none none) db.destinations;
    })
    else Reply.unchanged

unfoldable pub resume_destination : ℕ → Db → Reply
unfolding resume_found
resume_destination i db = resume_found (first (λ (x : Destination). x.id == i) db.destinations) db
