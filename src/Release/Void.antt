-- ===== src/Release/Void.antt =====
-- `void_gated_body` of env/app/release.py: an operator closes a body that has not gone out.
pub mod Laws
use ccj.Prelude.{
  ℕ, Bool, true, false, Option, none, some, List, ◌&&◌, ◌||◌, ◌==◌, is_null, not, if◌then◌else◌,
}
use ccj.Models.{
  Delivery, Phase, Status, ReleaseState, VoidReason, is_preview, is_in_flight, is_delivered,
}
use ccj.Models.Checks.{checks}
use ccj.Models.Progress.{is_closed}
use ccj.Sql.{update, first}

-- The answers of the call, its two kinds of `ConsentError` 409 and the 404, and the refusal of the
-- UPDATE by a CHECK constraint, which nobody catches.
pub data Voiding : Type 0 where
  voided : ℕ → List Delivery → Voiding
  already_closed : ℕ → Status → Option ReleaseState → Voiding
  delivery_not_found : Voiding
  not_a_gated_body : Voiding
  already_gone_out : Status → Voiding
  check_violated : Voiding

unfoldable pub void_row : ℕ → Delivery → Delivery
void_row now d = record d {
  release_state = some ReleaseState.release_voided;
  status = Status.release_voided;
  void_reason = some VoidReason.manual;
  voided_at = some now;
  updated_at = now;
}

-- the UPDATE, which the table's constraints can refuse
unfoldable pub write_void : ℕ → Delivery → List Delivery → Voiding
write_void now body rows =
    if checks (void_row now body)
    then voided body.id (update (λ d. d.id == body.id) (void_row now) rows)
    else check_violated

unfoldable pub void_found : ℕ → Option Delivery → List Delivery → Voiding
unfolding write_void
void_found now none rows = delivery_not_found
void_found now (some body) rows =
    if is_preview body.phase || is_null body.release_state
    then not_a_gated_body
    else if is_in_flight body.status || is_delivered body.status
    then already_gone_out body.status
    else if is_closed body.status
    then already_closed body.id body.status body.release_state
    else write_void now body rows

unfoldable pub void_gated_body : ℕ → ℕ → List Delivery → Voiding
unfolding void_found
void_gated_body now delivery_id rows =
    void_found now (first (λ (d : Delivery). d.id == delivery_id) rows) rows
