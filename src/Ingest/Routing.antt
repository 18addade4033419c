-- ===== src/Ingest/Routing.antt =====
-- Which subscribers get a copy: the SELECT and the loop of `store_event` in env/app/main.py.
use text.Mathlib.Text.{◌==◌ as str_eq}
use mathlib.Core.Option
use ccj.Prelude.{
  ℕ, ◌+◌, String, Bool, true, false, Option, none, some, List, [], ◌∷◌, leb, ◌==◌, if◌then◌else◌,
}
use ccj.Models.Tables.{Db, Destination}
use ccj.Sql.{first, where_rows, order_by, count_where}
use ccj.Filters.Json.{Json}
use ccj.Filters.Evaluate.{evaluate}
use ccj.Standing.{Evaluation}
use ccj.Worker.Claim.{is_confirmed}
use ccj.FanOut.{Subscriber}
use ccj.Ingest.Setup.{Catalog, Subscription, EventIn, Surroundings}

-- a row of `subscribers`
pub record Candidate : Type 0 where
  pub destination_id : ℕ
  pub observe_only : Bool
  pub filter_spec : Option Json

abbrev joined : Subscription → Option Destination → List Candidate → List Candidate
joined s none rest = rest
joined s (some x) rest =
    if is_confirmed x.confirmation_state
    then record {
      destination_id = s.destination_id;
      observe_only = x.observe_only;
      filter_spec = s.filter_spec;
    }
      ∷ rest
    else rest

unfoldable pub join_addresses : List Destination → List Subscription → List Candidate
join_addresses xs [] = []
join_addresses xs (s ∷ ss) =
    joined s (first (λ (x : Destination). x.id == s.destination_id) xs) (join_addresses xs ss)

unfoldable pub of_type : String → Subscription → Bool
of_type type s = str_eq s.event_type type

-- the SELECT of confirmed subscribers, ordered by address
unfoldable pub subscribers_of : String → Catalog → Db → List Candidate
unfolding join_addresses of_type
subscribers_of type cat db =
    order_by (λ (a b : Candidate). leb a.destination_id b.destination_id)
      (join_addresses db.destinations (where_rows (of_type type) cat.subscriptions))

-- `total_subscribers`
unfoldable pub subscriber_count : String → Catalog → ℕ
unfolding of_type
subscriber_count type cat = count_where (of_type type) cat.subscriptions

-- the variables of the loop
pub record Routed : Type 0 where
  pub routed : List Subscriber
  pub filtered_real : ℕ
  pub filtered_shadow : ℕ
  pub evaluations : List Evaluation

abbrev pub add_subscriber : Subscriber → Routed → Routed
add_subscriber s r = record r { routed = s ∷ r.routed }

abbrev pub add_withheld : Bool → Routed → Routed
add_withheld shadow r = record r {
  filtered_real = if shadow then r.filtered_real else r.filtered_real + 1;
  filtered_shadow = if shadow then r.filtered_shadow + 1 else r.filtered_shadow;
}

abbrev pub subscriber : (Json → String) → Candidate → Subscriber
subscriber dumps c = record {
  destination_id = c.destination_id;
  observe_only = c.observe_only;
  filter_spec = Option.map dumps c.filter_spec;
}

-- the body of the loop; the rest of the rows is judged with what this one leaves
abbrev pub judged : (Json → String) → Candidate → Option Bool → Option Routed → Option Routed
judged dumps c none r = none
judged dumps c (some b) none = none
judged dumps c (some true) (some r) = some (add_subscriber (subscriber dumps c) r)
judged dumps c (some false) (some r) = some (add_withheld c.observe_only r)

abbrev pub judgement : Bool → Candidate → ℕ → Evaluation
judgement b c event_id = record { event_id = event_id; observe_only = c.observe_only; matched = b }

-- the INSERT of a judgement, which a raised condition does not reach
abbrev pub with_judgement : Option Bool → Candidate → ℕ → List Evaluation → List Evaluation
with_judgement none c event_id es = es
with_judgement (some b) c event_id es = judgement b c event_id ∷ es

abbrev pub unjudged : Candidate → Surroundings → EventIn → Option Json → Option Bool
unjudged c u body none = some true
unjudged c u body (some spec) = evaluate u.chars spec body.content

abbrev pub log_judgement :
    Option Json → Option Bool → Candidate → ℕ → List Evaluation → List Evaluation
log_judgement none v c event_id es = es
log_judgement (some spec) v c event_id es = with_judgement v c event_id es

-- The loop over the confirmed subscribers. A copy is routed where there is no condition, or it holds.
unfoldable pub judge_all :
    Surroundings → EventIn → ℕ → List Candidate → List Evaluation → Option Routed
unfolding evaluate
judge_all u body event_id [] es =
    some (record { routed = []; filtered_real = 0; filtered_shadow = 0; evaluations = es })
judge_all u body event_id (c ∷ cs) es =
    let verdict = unjudged c u body c.filter_spec in
    judged u.dumps c verdict
      (judge_all u body event_id cs (log_judgement c.filter_spec verdict c event_id es))
