-- ===== src/Ingest/Admission/Laws.antt =====
-- Whose events are stored, and which refusals are logged.
use text.Mathlib.Text.{◌==◌ as str_eq}
use ccj.Prelude.{
  ℕ, ◌+◌, ◌≡◌, ◌≤◌, ◌↔◌, refl, subst, Bool, true, false, Option, none, some, List, ◌==◌, arith,
  is_null, Bool-cases, inl, inr,
}
use ccj.Sql.{first}
use ccj.Ingest.Setup.{Source, Attempt}
use ccj.Ingest.Admission.{
  Python, Window, Request, Parsed, admitted, signature_matches, header, reject, check_age, SourceId,
  check_match, check_source, check_signature, check_headers, check_time, authenticate,
}

-- The request is signed with the secret of an enabled source that it names, over its own time and body,
-- and its time is inside the window.
pub record IsSigned (py : Python) (w : Window) (now : ℕ) (r : Request) (sources : List Source)
    (source : Source) : Type 0 where
  pub source_id : ℕ
  pub signed_at : ℕ
  pub names_source : py.uuid (header py r.source_id_header) ≡ SourceId.named source_id
  pub registered : first (λ (s : Source). s.id == source_id) sources ≡ some source
  pub has_time : py.timestamp (header py r.signed_at_header) ≡ Parsed.time signed_at
  pub time_given : str_eq (header py r.signed_at_header) "" ≡ false
  pub signature_given : str_eq (header py r.signature_header) "" ≡ false
  pub signature :
      signature_matches py source.secret
        (header py r.signed_at_header)
        r.body
        (header py r.signature_header)
      ≡ some true
  pub not_stale : now ≤ signed_at + w.ingest_max_age_seconds
  pub not_ahead : signed_at ≤ now + w.ingest_max_future_skew_seconds
  pub enabled : is_null source.disabled_at ≡ true

age_parts :
    (w : Window) (now t : ℕ) (s source : Source) (log : List Attempt)
    → check_age w now t s log ≡ admitted source
    → (now ≤ t + w.ingest_max_age_seconds)
      × (t ≤ now + w.ingest_max_future_skew_seconds)
      × (is_null s.disabled_at ≡ true)
      × (s ≡ source)
unfolding reject
age_parts w now t s source log e = ground arith

match_parts :
    (w : Window) (now t : ℕ) (s source : Source) (m : Option Bool) (log : List Attempt)
    → check_match w now t s m log ≡ admitted source
    → (m ≡ some true)
      × (now ≤ t + w.ingest_max_age_seconds)
      × (t ≤ now + w.ingest_max_future_skew_seconds)
      × (is_null s.disabled_at ≡ true)
      × (s ≡ source)
unfolding reject
match_parts w now t s source none log e = absurd (cc)
match_parts w now t s source (some false) log e = absurd (cc)
match_parts w now t s source (some true) log e =
    let (a, b, c, d) = age_parts w now t s source log e in (refl, a, b, c, d)

source-IsSigned :
    (py : Python) (w : Window) (now : ℕ) (r : Request) (source : Source) (sources : List Source)
    (log : List Attempt) (i t : ℕ) (o : Option Source)
    → py.uuid (header py r.source_id_header) ≡ SourceId.named i
    → py.timestamp (header py r.signed_at_header) ≡ Parsed.time t
    → str_eq (header py r.signed_at_header) "" ≡ false
    → str_eq (header py r.signature_header) "" ≡ false
    → first (λ (s : Source). s.id == i) sources ≡ o
    → check_signature py w now r (header py r.signature_header) t o log ≡ admitted source
    → IsSigned py w now r sources source
unfolding reject
source-IsSigned py w now r source sources log i t none a b h g f e = absurd (cc)
source-IsSigned py w now r source sources log i t (some x) a b h g f e =
    let (q, old, ahead, enabled, same) = match_parts w now t x source _ log e in
    subst (IsSigned py w now r sources) same (record {
      source_id = i;
      signed_at = t;
      names_source = a;
      registered = f;
      has_time = b;
      time_given = h;
      signature_given = g;
      signature = q;
      not_stale = old;
      not_ahead = ahead;
      enabled = enabled;
    })

headers-IsSigned :
    (py : Python) (w : Window) (now t : ℕ) (r : Request) (source : Source) (sources : List Source)
    (log : List Attempt) (i : ℕ)
    → py.uuid (header py r.source_id_header) ≡ SourceId.named i
    → py.timestamp (header py r.signed_at_header) ≡ Parsed.time t
    → str_eq (header py r.signed_at_header) "" ≡ false
    → check_headers py w now r (some i) (some t) sources log ≡ admitted source
    → IsSigned py w now r sources source
unfolding reject
headers-IsSigned py w now t r source sources log i a b h e =
    elim (Bool-cases (str_eq (header py r.signature_header) "")) [
      | inl q ↦ absurd (ground arith)
      | inr q ↦ source-IsSigned py w now r source sources log i t _ a b h q refl (rw q at e)
    ]

time-IsSigned :
    (py : Python) (w : Window) (now : ℕ) (r : Request) (source : Source) (sources : List Source)
    (log : List Attempt) (i : ℕ) (p : Parsed)
    → py.uuid (header py r.source_id_header) ≡ SourceId.named i
    → py.timestamp (header py r.signed_at_header) ≡ p
    → str_eq (header py r.signed_at_header) "" ≡ false
    → check_time py w now r (some i) p sources log ≡ admitted source
    → IsSigned py w now r sources source
time-IsSigned py w now r source sources log i (Parsed.time t) a b h e =
    headers-IsSigned py w now t r source sources log i a b h e
time-IsSigned py w now r source sources log i Parsed.no_number a b h e = absurd (cc)
time-IsSigned py w now r source sources log i Parsed.out_of_range a b h e = absurd (cc)

no_time :
    (py : Python) (w : Window) (now : ℕ) (r : Request) (source : Source) (sources : List Source)
    (log : List Attempt) (i : Option ℕ)
    → check_headers py w now r i none sources log ≡ admitted source
    → ⊥
unfolding reject
no_time py w now r source sources log none e = absurd (cc)
no_time py w now r source sources log (some i) e = absurd (cc)

no_source :
    (py : Python) (w : Window) (now : ℕ) (r : Request) (source : Source) (sources : List Source)
    (log : List Attempt) (p : Parsed)
    → check_time py w now r none p sources log ≡ admitted source
    → ⊥
unfolding reject
no_source py w now r source sources log (Parsed.time t) e = absurd (cc)
no_source py w now r source sources log Parsed.no_number e = absurd (cc)
no_source py w now r source sources log Parsed.out_of_range e = absurd (cc)

named-IsSigned :
    (py : Python) (w : Window) (now : ℕ) (r : Request) (source : Source) (sources : List Source)
    (log : List Attempt) (i : SourceId)
    → py.uuid (header py r.source_id_header) ≡ i
    → check_source py w now r i sources log ≡ admitted source
    → IsSigned py w now r sources source
named-IsSigned py w now r source sources log SourceId.uncastable a e = absurd (cc)
named-IsSigned py w now r source sources log SourceId.malformed a e =
    elim (Bool-cases (str_eq (header py r.signed_at_header) "")) [
      | inl q ↦ absurd (no_time py w now r source sources log none (rw q at e))
      | inr q ↦ absurd (no_source py w now r source sources log _ (rw q at e))
    ]
named-IsSigned py w now r source sources log (SourceId.named i) a e =
    elim (Bool-cases (str_eq (header py r.signed_at_header) "")) [
      | inl q ↦ absurd (no_time py w now r source sources log (some i) (rw q at e))
      | inr q ↦ time-IsSigned py w now r source sources log i _ a refl q (rw q at e)
    ]

fresh_passes :
    (w : Window) (now t : ℕ) (source : Source) (log : List Attempt)
    → now ≤ t + w.ingest_max_age_seconds
    → t ≤ now + w.ingest_max_future_skew_seconds
    → is_null source.disabled_at ≡ true
    → check_age w now t source log ≡ admitted source
unfolding reject
fresh_passes w now t source log a b c = ground arith

signed_passes :
    (py : Python) (w : Window) (now : ℕ) (r : Request) (sources : List Source) (log : List Attempt)
    (source : Source)
    → IsSigned py w now r sources source
    → authenticate py w now r sources log ≡ admitted source
unfolding authenticate
signed_passes py w now r sources log source s =
    rw (s.names_source, s.time_given, s.has_time, s.signature_given, s.registered, s.signature)
      (fresh_passes w now s.signed_at source log s.not_stale s.not_ahead s.enabled)

-- A sender is admitted, as a source, exactly if the request is signed with that source's secret, over
-- its own send time and raw body, at a time inside the window, and the source is enabled.
pub authenticate-IsSigned_iff :
    (py : Python) (w : Window) (now : ℕ) (r : Request) (sources : List Source) (log : List Attempt)
    (source : Source)
    → (authenticate py w now r sources log ≡ admitted source) ↔ IsSigned py w now r sources source
unfolding authenticate
authenticate-IsSigned_iff py w now r sources log source = (
  named-IsSigned py w now r source sources log _ refl,
  signed_passes py w now r sources log source,
)
