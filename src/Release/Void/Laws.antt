-- ===== src/Release/Void/Laws.antt =====
-- What the operator's void does, and where the constraints refuse it.
use ccj.Prelude.{
  ℕ, ◌≡◌, ◌↔◌, refl, Bool, true, false, Option, none, some, List, arith, is_some, ◌==◌, Bool-cases,
  inl, inr, ◌||◌, is_null,
}
use ccj.Models.{
  Delivery, Status, is_body, is_preview, is_dead_lettered, is_in_flight, is_delivered,
  is_relay_skipped,
}
use ccj.Models.Checks.{IsSound, checks}
use ccj.Models.Keys.{IsKeyed, first-IsOnly, Evolves-update_only}
use ccj.Models.Progress.{Step, Step-refl, is_closed}
use ccj.Sql.{first}
use ccj.Sql.Evolve.{All, All-first, Evolves, Evolves-refl}
use ccj.Release.Void.{
  Voiding, voided, check_violated, already_closed, void_row, write_void, void_found,
  void_gated_body,
}

abbrev pub rows_after : List Delivery → Voiding → List Delivery
rows_after rows (voided i rows') = rows'
rows_after rows _ = rows

void_row-Step :
    (now : ℕ) (d : Delivery)
    → is_some d.release_state ≡ true
    → (is_in_flight d.status || is_delivered d.status) ≡ false
    → is_closed d.status ≡ false
    → checks (void_row now d) ≡ true
    → Step d (void_row now d)
unfolding void_row checks
void_row-Step now d g o c k s = ground arith

written-Evolves :
    (now : ℕ) (q : Delivery → Bool) (body : Delivery) (rows : List Delivery)
    → first q rows ≡ some body
    → IsKeyed rows
    → is_some body.release_state ≡ true
    → (is_in_flight body.status || is_delivered body.status) ≡ false
    → is_closed body.status ≡ false
    → Evolves Step rows (rows_after rows (write_void now body rows))
unfolding write_void
written-Evolves now q body rows e k g o c = elim (Bool-cases (checks (void_row now body))) [
  | inl t ↦ rw t (
      Evolves-update_only Step body (void_row now) rows Step-refl (void_row-Step now body g o c t)
        (first-IsOnly q rows body k e))
  | inr f ↦ rw f (Evolves-refl Step rows Step-refl)
]

dead_row :
    (now : ℕ) (d : Delivery) (rows : List Delivery)
    → IsSound d
    → is_body d.phase ≡ true
    → is_some d.release_state ≡ true
    → d.status ≡ Status.dead_lettered
    → void_found now (some d) rows ≡ check_violated
unfolding void_found void_row checks
dead_row now d rows s b g e = ground arith

found-Evolves :
    (now : ℕ) (o : Option Delivery) (q : Delivery → Bool) (rows : List Delivery)
    → first q rows ≡ o
    → IsKeyed rows
    → Evolves Step rows (rows_after rows (void_found now o rows))
unfolding void_found
found-Evolves now none q rows e k = Evolves-refl Step rows Step-refl
found-Evolves now (some body) q rows e k =
    elim (Bool-cases (is_preview body.phase || is_null body.release_state)) [
      | inl t₁ ↦ rw t₁ (Evolves-refl Step rows Step-refl)
      | inr f₁ ↦ rw f₁ (elim (Bool-cases (is_in_flight body.status || is_delivered body.status)) [
        | inl t₂ ↦ rw t₂ (Evolves-refl Step rows Step-refl)
        | inr f₂ ↦ rw f₂ (elim (Bool-cases (is_closed body.status)) [
          | inl t₃ ↦ rw t₃ (Evolves-refl Step rows Step-refl)
          | inr f₃ ↦ rw f₃ (written-Evolves now q body rows e k (ground arith) f₂ f₃)
        ])
      ])
    ]

pub void_gated_body-Evolves :
    (now i : ℕ) (rows : List Delivery)
    → IsKeyed rows
    → Evolves Step rows (rows_after rows (void_gated_body now i rows))
unfolding void_gated_body
void_gated_body-Evolves now i rows k =
    found-Evolves now (first (λ (d : Delivery). d.id == i) rows) (λ d. d.id == i) rows refl k

-- what the call reports of a gated body
abbrev pub verdict : Voiding → Option Bool
verdict (voided i rows) = some true
verdict (already_closed i s r) = some false
verdict _ = none

-- the bodies for which the call and the table's constraints let the UPDATE through
abbrev pub IsVoidable : Delivery → Type 0
IsVoidable d =
    (is_body d.phase ≡ true)
    × (is_some d.release_state ≡ true)
    × ((is_in_flight d.status || is_delivered d.status) ≡ false)
    × (is_closed d.status ≡ false)
    × (is_dead_lettered d.status ≡ false)
    × (is_relay_skipped d.status ≡ false)

row-IsVoidable :
    (now : ℕ) (d : Delivery) (rows : List Delivery)
    → IsSound d
    → (verdict (void_found now (some d) rows) ≡ some true) ↔ IsVoidable d
unfolding void_found void_row checks
row-IsVoidable now d rows s = (λ h. ground arith, λ h. ground arith)

-- On a table of sound rows, a void by hand of a row goes through just if it is a gated body that is
-- neither under way, nor delivered, nor closed, nor parked in the dead-letter area, nor skipped by a
-- relay.
pub void_gated_body-voids_iff :
    (now i : ℕ) (rows : List Delivery) (body : Delivery)
    → All IsSound rows
    → first (λ (d : Delivery). d.id == i) rows ≡ some body
    → (verdict (void_gated_body now i rows) ≡ some true) ↔ IsVoidable body
unfolding void_gated_body
void_gated_body-voids_iff now i rows body s e =
    rw e
      (row-IsVoidable now body rows (All-first IsSound (λ (d : Delivery). d.id == i) rows body s e))

-- On a table of sound rows, a void by hand of a gated body that is parked in the dead-letter area is
-- refused by a constraint of the table.
pub void_gated_body-dead_lettered :
    (now i : ℕ) (rows : List Delivery) (body : Delivery)
    → All IsSound rows
    → first (λ (d : Delivery). d.id == i) rows ≡ some body
    → is_body body.phase ≡ true
    → is_some body.release_state ≡ true
    → body.status ≡ Status.dead_lettered
    → void_gated_body now i rows ≡ check_violated
unfolding void_gated_body
void_gated_body-dead_lettered now i rows body s e b g d =
    rw e
      (dead_row now body rows (All-first IsSound (λ (d : Delivery). d.id == i) rows body s e) b g d)
