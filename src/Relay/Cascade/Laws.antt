-- ===== src/Relay/Cascade/Laws.antt =====
-- The relay stop rule: what a cascade closes, what it leaves, and that it is done once.
use ccj.Prelude.{ℕ, ◌≡◌, refl, true, false, Option, none, some, List, [], ◌∷◌, arith, ◌==◌}
use ccj.Models.{Delivery, SkipReason, is_pending}
use ccj.Models.Checks.{checks}
use ccj.Models.Progress.{Step, Step-refl, Step-trans}
use ccj.Sql.{first}
use ccj.Sql.Evolve.{Evolves, Evolves-update, Evolves-refl, Evolves-trans}
use ccj.Relay.Cascade.{
  is_later, skip, skip_later, is_trigger, reason_in, cascade_after_stop, cascade_all,
}

skip-Step :
    (now by : ℕ) (r : SkipReason) (t d : Delivery) → is_later t d ≡ true → Step d (skip now by r d)
unfolding is_later skip checks
skip-Step now by r t d e s = ground arith

skip_later-Evolves :
    (now by : ℕ) (t : Option Delivery) (r : Option SkipReason) (rows : List Delivery)
    → Evolves Step rows (skip_later now by t r rows).1
unfolding skip_later
skip_later-Evolves now by none r rows = Evolves-refl Step rows Step-refl
skip_later-Evolves now by (some t) none rows = Evolves-refl Step rows Step-refl
skip_later-Evolves now by (some t) (some r) rows =
    Evolves-update Step (is_later t) (skip now by r) rows Step-refl (skip-Step now by r t)

pub cascade_after_stop-Evolves :
    (now i : ℕ) (rows : List Delivery) → Evolves Step rows (cascade_after_stop now i rows).1
unfolding cascade_after_stop
cascade_after_stop-Evolves now i rows =
    skip_later-Evolves now i (first (is_trigger i) rows) (reason_in (first (λ d. d.id == i) rows))
      rows

pub cascade_all-Evolves :
    (now : ℕ) (is : List ℕ) (rows : List Delivery) → Evolves Step rows (cascade_all now is rows).1
unfolding cascade_all
cascade_all-Evolves now [] rows = Evolves-refl Step rows Step-refl
cascade_all-Evolves now (i ∷ is) rows =
    Evolves-trans Step rows (cascade_after_stop now i rows).1 _ Step-trans
      (cascade_after_stop-Evolves now i rows)
      (cascade_all-Evolves now is (cascade_after_stop now i rows).1)

-- what a cascade leaves alone in every row
abbrev pub IsUntouched : Delivery → Delivery → Type 0
IsUntouched d d' =
    (d'.reconcile_state ≡ d.reconcile_state)
    × (d'.destination_id ≡ d.destination_id)
    × (d'.dedupe_key ≡ d.dedupe_key)
    × (is_pending d.status ≡ false → d' ≡ d)

pub IsUntouched-refl : (d : Delivery) → IsUntouched d d
IsUntouched-refl d = (refl, refl, refl, λ e. refl)

skip-IsUntouched :
    (now by : ℕ) (r : SkipReason) (t d : Delivery)
    → is_later t d ≡ true
    → IsUntouched d (skip now by r d)
unfolding is_later skip
skip-IsUntouched now by r t d e = (refl, refl, refl, λ p. absurd (ground arith))

skip_later-IsUntouched :
    (now by : ℕ) (t : Option Delivery) (r : Option SkipReason) (rows : List Delivery)
    → Evolves IsUntouched rows (skip_later now by t r rows).1
unfolding skip_later
skip_later-IsUntouched now by none r rows = Evolves-refl IsUntouched rows IsUntouched-refl
skip_later-IsUntouched now by (some t) none rows = Evolves-refl IsUntouched rows IsUntouched-refl
skip_later-IsUntouched now by (some t) (some r) rows =
    Evolves-update IsUntouched (is_later t) (skip now by r) rows IsUntouched-refl
      (skip-IsUntouched now by r t)

pub cascade_after_stop-IsUntouched :
    (now i : ℕ) (rows : List Delivery) → Evolves IsUntouched rows (cascade_after_stop now i rows).1
unfolding cascade_after_stop
cascade_after_stop-IsUntouched now i rows =
    skip_later-IsUntouched now i (first (is_trigger i) rows)
      (reason_in (first (λ d. d.id == i) rows)) rows
