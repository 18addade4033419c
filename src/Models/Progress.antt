-- ===== src/Models/Progress.antt =====
-- How a row of `deliveries` (env/app/models.py) may go on.
use ccj.Prelude.{
  ◌≤◌, ◌≡◌, ◌∙◌, Option, none, some, is_some, true, false, Bool, arith, List, [], ◌∷◌,
}
use ccj.Models.{Delivery, Status, ReleaseState, is_acknowledged}
use ccj.Models.Checks.{IsSound}
use ccj.Sql.Evolve.{Evolves, All}

-- The moves of a gate: a held body can end in every way, a released one can still be closed by
-- hand or by its cutoff, and a closed one stays as it is.
abbrev pub gate_le : Option ReleaseState → Option ReleaseState → Bool
gate_le none none = true
gate_le none (some b) = false
gate_le (some a) none = false
gate_le (some ReleaseState.held) (some b) = true
gate_le (some ReleaseState.released) (some ReleaseState.released) = true
gate_le (some ReleaseState.released) (some ReleaseState.release_voided) = true
gate_le (some ReleaseState.released) (some ReleaseState.deadline_expired) = true
gate_le (some ReleaseState.released) (some _) = false
gate_le (some ReleaseState.release_denied) (some ReleaseState.release_denied) = true
gate_le (some ReleaseState.release_denied) (some _) = false
gate_le (some ReleaseState.release_expired) (some ReleaseState.release_expired) = true
gate_le (some ReleaseState.release_expired) (some _) = false
gate_le (some ReleaseState.release_voided) (some ReleaseState.release_voided) = true
gate_le (some ReleaseState.release_voided) (some _) = false
gate_le (some ReleaseState.deadline_expired) (some ReleaseState.deadline_expired) = true
gate_le (some ReleaseState.deadline_expired) (some _) = false

-- BODY_VOID_STATUSES of env/app/release.py
abbrev pub is_closed : Status → Bool
is_closed Status.release_denied = true
is_closed Status.release_expired = true
is_closed Status.release_voided = true
is_closed Status.deadline_expired = true
is_closed _ = false

-- the statuses that EVENT_WITH_COUNTS_SQL of env/app/main.py sets apart: the copy never went out
abbrev pub is_withdrawn : Status → Bool
is_withdrawn Status.superseded = true
is_withdrawn Status.release_denied = true
is_withdrawn Status.release_expired = true
is_withdrawn Status.release_voided = true
is_withdrawn Status.relay_skipped = true
is_withdrawn Status.deadline_expired = true
is_withdrawn _ = false

pub record Progress (d d' : Delivery) : Type 0 where
  pub same_id : d'.id ≡ d.id
  pub same_event : d'.event_id ≡ d.event_id
  pub same_destination : d'.destination_id ≡ d.destination_id
  pub same_key : d'.dedupe_key ≡ d.dedupe_key
  pub same_payload : d'.payload ≡ d.payload
  pub same_seq : d'.destination_seq ≡ d.destination_seq
  pub same_generation : d'.confirmation_generation ≡ d.confirmation_generation
  pub same_filter : d'.filter_spec ≡ d.filter_spec
  pub same_phase : d'.phase ≡ d.phase
  pub same_preview : d'.preview_delivery_id ≡ d.preview_delivery_id
  pub same_body : d'.body_delivery_id ≡ d.body_delivery_id
  pub same_chain : d'.relay_chain_id ≡ d.relay_chain_id
  pub same_station : d'.relay_station_no ≡ d.relay_station_no
  pub same_mode : d'.observe_only ≡ d.observe_only
  pub attempts_grow : d.attempts ≤ d'.attempts
  pub gate_moves : gate_le d.release_state d'.release_state ≡ true
  pub closed_stays : is_closed d.status ≡ true → d'.status ≡ d.status
  pub withdrawn_stays : is_withdrawn d.status ≡ true → is_withdrawn d'.status ≡ true
  pub sent_stays : is_some d.delivered_at ≡ true → is_some d'.delivered_at ≡ true
  pub ack_stays :
      is_acknowledged d.reconcile_state ≡ true → is_acknowledged d'.reconcile_state ≡ true

-- a sound row becomes a sound row that went on from it
abbrev pub Step : Delivery → Delivery → Type 0
Step d d' = IsSound d → IsSound d' × Progress d d'

gate_le_refl : (a : Option ReleaseState) → gate_le a a ≡ true
gate_le_refl a = ground arith

gate_le_trans :
    (a b c : Option ReleaseState) → gate_le a b ≡ true → gate_le b c ≡ true → gate_le a c ≡ true
gate_le_trans a b c h k = ground arith

pub Progress-refl : (d : Delivery) → Progress d d
Progress-refl d = ground (arith, gate_le_refl d.release_state)

pub Progress-trans : {a b c : Delivery} → Progress a b → Progress b c → Progress a c
Progress-trans {a} {b} {c} h k = record {
  same_id = k.same_id ∙ h.same_id;
  same_event = k.same_event ∙ h.same_event;
  same_destination = k.same_destination ∙ h.same_destination;
  same_key = k.same_key ∙ h.same_key;
  same_payload = k.same_payload ∙ h.same_payload;
  same_seq = k.same_seq ∙ h.same_seq;
  same_generation = k.same_generation ∙ h.same_generation;
  same_filter = k.same_filter ∙ h.same_filter;
  same_phase = k.same_phase ∙ h.same_phase;
  same_preview = k.same_preview ∙ h.same_preview;
  same_body = k.same_body ∙ h.same_body;
  same_chain = k.same_chain ∙ h.same_chain;
  same_station = k.same_station ∙ h.same_station;
  same_mode = k.same_mode ∙ h.same_mode;
  attempts_grow = omega (arith, h.attempts_grow, k.attempts_grow);
  gate_moves = gate_le_trans _ b.release_state _ h.gate_moves k.gate_moves;
  closed_stays = λ e. ground (arith, h.closed_stays e, k.closed_stays);
  withdrawn_stays = λ e. k.withdrawn_stays (h.withdrawn_stays e);
  sent_stays = λ e. k.sent_stays (h.sent_stays e);
  ack_stays = λ e. k.ack_stays (h.ack_stays e);
}

pub Step-refl : (d : Delivery) → Step d d
Step-refl d s = (s, Progress-refl d)

pub Step-trans : (a b c : Delivery) → Step a b → Step b c → Step a c
Step-trans a b c h k s = let (t, p) = h s in let (u, q) = k t in (u, Progress-trans p q)

-- what a transaction does to the rows that were sound before it
pub Evolves-IsSound :
    (xs ys : List Delivery)
    → Evolves Step xs ys
    → All IsSound xs
    → All IsSound ys × Evolves Progress xs ys
Evolves-IsSound [] [] h s = (tt, tt)
Evolves-IsSound [] (y ∷ ys) h s = absurd h
Evolves-IsSound (x ∷ xs) [] h s = absurd h
Evolves-IsSound (x ∷ xs) (y ∷ ys) h s =
    let (sound, goes) = h.0 s.0 in
    let (sounds, all_go) = Evolves-IsSound xs ys h.1 s.1 in ((sound, sounds), (goes, all_go))
