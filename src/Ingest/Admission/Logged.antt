-- ===== src/Ingest/Admission/Logged.antt =====
-- What a posted request comes to before `store_event` of env/app/main.py.
use text.Mathlib.Text.{◌==◌ as str_eq}
use ccj.Prelude.{
  ℕ, ◌+◌, ◌≡◌, ◌⊎◌, refl, String, Bool, true, false, ◌&&◌, Option, none, some, List, ◌∷◌, ltb,
  is_some, Bool-cases, inl, inr,
}
use ccj.Filters.Text.{is_ascii}
use ccj.Ingest.Setup.{Source, Disposition, Attempt}
use ccj.Ingest.Admission.{
  Python, Window, Request, Parsed, Decoded, Admission, admitted, rejected, raised, SourceId,
  check_match, check_source, check_request, signature_matches, header, reject, check_age,
  check_signature, check_headers, check_time, authenticate, Handled, storing, refused, failed,
  create_event, handle_body, handle_admission,
}
use ccj.Ingest.Admission.Laws.{IsSigned, authenticate-IsSigned_iff}

-- one attempt more, with this disposition
abbrev pub OneMore : Disposition → List Attempt → List Attempt → Type 0
OneMore d log log' = (a : Attempt) × (log' ≡ a ∷ log) × (a.disposition ≡ d)

-- a rejection that is logged, or the one that is not
abbrev pub IsAccounted : Parsed → List Attempt → Disposition → List Attempt → Type 0
IsAccounted p log d log' =
    OneMore d log log'
    ⊎ ((log' ≡ log) × (d ≡ Disposition.invalid_timestamp) × (p ≡ Parsed.no_number))

-- Why a request can end without an answer: an id that only the database refuses, a time that is out of
-- the range of a date, or a time or signature with a character outside ASCII.
abbrev pub Raises : Python → Request → Type 0
Raises py r =
    (py.uuid (header py r.source_id_header) ≡ SourceId.uncastable)
    ⊎ ((py.timestamp (header py r.signed_at_header) ≡ Parsed.out_of_range)
        ⊎ ((is_ascii (header py r.signed_at_header)
              && is_ascii (py.strip (py.without_prefix (header py r.signature_header))))
            ≡ false))

abbrev Accounted : Python → Request → List Attempt → Admission → Type 0
Accounted py r log (admitted s) = Unit
Accounted py r log (rejected d log') =
    IsAccounted (py.timestamp (header py r.signed_at_header)) log d log'
Accounted py r log raised = Raises py r

reject-Accounted :
    (py : Python) (r : Request) (log : List Attempt) (d : Disposition)
    → Accounted py r log (reject d log)
unfolding reject
reject-Accounted py r log d = inl (_, refl, refl)

age-Accounted :
    (py : Python) (r : Request) (w : Window) (now t : ℕ) (s : Source) (log : List Attempt)
    → Accounted py r log (check_age w now t s log)
age-Accounted py r w now t s log = elim (Bool-cases (ltb (t + w.ingest_max_age_seconds) now)) [
  | inl a ↦ rw a (reject-Accounted py r log _)
  | inr a ↦ elim (Bool-cases (ltb (now + w.ingest_max_future_skew_seconds) t)) [
    | inl b ↦ rw (a, b) (reject-Accounted py r log _)
    | inr b ↦ elim (Bool-cases (is_some s.disabled_at)) [
      | inl c ↦ rw (a, b, c) (reject-Accounted py r log _)
      | inr c ↦ rw (a, b, c) tt
    ]
  ]
]

match-Accounted :
    (py : Python) (w : Window) (now t : ℕ) (r : Request) (s : Source) (m : Option Bool)
    (log : List Attempt)
    → (m ≡ none → Raises py r)
    → Accounted py r log (check_match w now t s m log)
match-Accounted py w now t r s none log h = h refl
match-Accounted py w now t r s (some false) log h = reject-Accounted py r log _
match-Accounted py w now t r s (some true) log h = age-Accounted py r w now t s log

match-Raises :
    (py : Python) (r : Request) (secret : String)
    → signature_matches py secret
        (header py r.signed_at_header)
        r.body
        (header py r.signature_header)
      ≡ none
    → Raises py r
unfolding signature_matches
match-Raises py r secret h = inr (
    inr
      (elim (Bool-cases (
        is_ascii (header py r.signed_at_header)
        && is_ascii (py.strip (py.without_prefix (header py r.signature_header))))) [
          | inl a ↦ absurd (cc (rw a at h))
          | inr a ↦ a
        ]))

signature-Accounted :
    (py : Python) (w : Window) (now t : ℕ) (r : Request) (o : Option Source) (log : List Attempt)
    → Accounted py r log (check_signature py w now r (header py r.signature_header) t o log)
signature-Accounted py w now t r none log = reject-Accounted py r log _
signature-Accounted py w now t r (some s) log =
    match-Accounted py w now t r s _ log (match-Raises py r s.secret)

headers-Accounted :
    (py : Python) (w : Window) (now : ℕ) (r : Request) (i t : Option ℕ) (sources : List Source)
    (log : List Attempt)
    → Accounted py r log (check_headers py w now r i t sources log)
headers-Accounted py w now r none t sources log = reject-Accounted py r log _
headers-Accounted py w now r (some i) none sources log = reject-Accounted py r log _
headers-Accounted py w now r (some i) (some t) sources log =
    elim (Bool-cases (str_eq (header py r.signature_header) "")) [
      | inl a ↦ rw a (reject-Accounted py r log _)
      | inr a ↦ rw a (signature-Accounted py w now t r _ log)
    ]

time-Accounted :
    (py : Python) (w : Window) (now : ℕ) (r : Request) (i : Option ℕ) (p : Parsed)
    (sources : List Source) (log : List Attempt)
    → py.timestamp (header py r.signed_at_header) ≡ p
    → Accounted py r log (check_time py w now r i p sources log)
time-Accounted py w now r i (Parsed.time t) sources log e =
    headers-Accounted py w now r i (some t) sources log
time-Accounted py w now r i Parsed.no_number sources log e = inr (refl, refl, e)
time-Accounted py w now r i Parsed.out_of_range sources log e = inr (inl e)

request-Accounted :
    (py : Python) (w : Window) (now : ℕ) (r : Request) (i : Option ℕ) (sources : List Source)
    (log : List Attempt)
    → Accounted py r log (check_request py w now r i sources log)
request-Accounted py w now r i sources log =
    elim (Bool-cases (str_eq (header py r.signed_at_header) "")) [
      | inl a ↦ rw a (headers-Accounted py w now r i none sources log)
      | inr a ↦ rw a (time-Accounted py w now r i _ sources log refl)
    ]

source-Accounted :
    (py : Python) (w : Window) (now : ℕ) (r : Request) (i : SourceId) (sources : List Source)
    (log : List Attempt)
    → py.uuid (header py r.source_id_header) ≡ i
    → Accounted py r log (check_source py w now r i sources log)
source-Accounted py w now r SourceId.malformed sources log e =
    request-Accounted py w now r none sources log
source-Accounted py w now r SourceId.uncastable sources log e = inl e
source-Accounted py w now r (SourceId.named i) sources log e =
    request-Accounted py w now r (some i) sources log

authenticate-Accounted :
    (py : Python) (w : Window) (now : ℕ) (r : Request) (sources : List Source) (log : List Attempt)
    → Accounted py r log (authenticate py w now r sources log)
unfolding authenticate
authenticate-Accounted py w now r sources log = source-Accounted py w now r _ sources log refl

-- what a request comes to
abbrev pub IsHandled : Python → Window → ℕ → Request → List Source → List Attempt → Handled → Type 0
IsHandled py w now r sources log (storing source e) =
    IsSigned py w now r sources source × (py.decode r.body ≡ Decoded.event e)
IsHandled py w now r sources log (refused d log') =
    IsAccounted (py.timestamp (header py r.signed_at_header)) log d log'
IsHandled py w now r sources log failed = Raises py r ⊎ (py.decode r.body ≡ Decoded.uncaught)

body-IsHandled :
    (py : Python) (w : Window) (now : ℕ) (r : Request) (sources : List Source) (log : List Attempt)
    (source : Source) (d : Decoded)
    → py.decode r.body ≡ d
    → IsSigned py w now r sources source
    → IsHandled py w now r sources log (handle_body source d log)
body-IsHandled py w now r sources log source Decoded.not_json q s = inl (_, refl, refl)
body-IsHandled py w now r sources log source Decoded.not_an_object q s = inl (_, refl, refl)
body-IsHandled py w now r sources log source (Decoded.malformed_event k) q s = inl (_, refl, refl)
body-IsHandled py w now r sources log source (Decoded.event e) q s = (s, q)
body-IsHandled py w now r sources log source Decoded.uncaught q s = inr q

admission-IsHandled :
    (py : Python) (w : Window) (now : ℕ) (r : Request) (sources : List Source) (log : List Attempt)
    (a : Admission)
    → authenticate py w now r sources log ≡ a
    → Accounted py r log a
    → IsHandled py w now r sources log (handle_admission py r a log)
admission-IsHandled py w now r sources log (admitted source) e h =
    body-IsHandled py w now r sources log source _ refl
      ((authenticate-IsSigned_iff py w now r sources log source).0 e)
admission-IsHandled py w now r sources log (rejected d log') e h = h
admission-IsHandled py w now r sources log raised e h = inl h

-- A posted event goes on to be stored only for a signed request of an enabled source whose body is a
-- well-formed event. Each refusal adds one attempt with its disposition to the log, but for one: a
-- send time that `float` refuses is answered as invalid and leaves no attempt. A call that raises, and
-- so leaves no attempt either, has a source id that `UUID` takes and the database refuses, a send time
-- out of the range of a date, a send time or signature with a character outside ASCII, or a body whose
-- decoding or refusal ends in an error that is not caught.
pub create_event-IsHandled :
    (py : Python) (w : Window) (now : ℕ) (r : Request) (sources : List Source) (log : List Attempt)
    → IsHandled py w now r sources log (create_event py w now r sources log)
unfolding create_event
create_event-IsHandled py w now r sources log =
    admission-IsHandled py w now r sources log (authenticate py w now r sources log) refl
      (authenticate-Accounted py w now r sources log)
