-- ===== src/Chains.antt =====
-- `define_chain` and `delete_active_chain` of env/app/relay.py.
pub mod Laws
use text.Mathlib.Text.{◌==◌ as str_eq}
use ccj.Prelude.{
  ℕ, ◌+◌, String, Bool, true, false, Option, none, some, List, [], ◌∷◌, ◌++◌, ◌&&◌, ◌||◌, not,
  is_some, leb, ◌==◌, if◌then◌else◌,
}
use ccj.Models.Tables.{Destination}
use ccj.Sql.{update, exists}
use ccj.Ingest.Setup.{Catalog, Chain, ChainStation, policy_of}

-- RelayConfigError, by its status code
pub data RelayConfigError : Type 0 where
  no_station : RelayConfigError
  repeated_station : RelayConfigError
  unknown_station : RelayConfigError
  gated_type : RelayConfigError

pub data Definition : Type 0 where
  defined : Chain → Catalog → Definition
  refused : RelayConfigError → Definition

abbrev pub is_member : ℕ → List ℕ → Bool
is_member i [] = false
is_member i (j ∷ js) = i == j || is_member i js

-- len(set(ids)) != len(ids)
unfoldable pub has_repeats : List ℕ → Bool
has_repeats [] = false
has_repeats (i ∷ is) = is_member i is || has_repeats is

-- some id is no address
unfoldable pub has_unknown : List Destination → List ℕ → Bool
has_unknown xs [] = false
has_unknown xs (i ∷ is) = not (exists (λ (x : Destination). x.id == i) xs) || has_unknown xs is

abbrev pub is_none : List ℕ → Bool
is_none [] = true
is_none (i ∷ is) = false

abbrev pub later : ℕ → ℕ → ℕ
later a b = if leb a b then b else a

-- COALESCE(MAX(version), 0) of the chains of the type
unfoldable pub last_version : String → List Chain → ℕ
last_version type [] = 0
last_version type (c ∷ cs) =
    let rest = last_version type cs in
    if str_eq c.event_type type then later c.version rest else rest

abbrev pub is_active_of : String → Chain → Bool
is_active_of type c = str_eq c.event_type type && c.active

unfoldable pub retire : Chain → Chain
retire c = record c { active = false }

-- the rows of unnest(ids, numbers), from this number on
unfoldable pub numbered : ℕ → ℕ → List ℕ → List ChainStation
numbered chain_id n [] = []
numbered chain_id n (i ∷ is) =
    record { chain_id = chain_id; station_no = n; destination_id = i }
    ∷ numbered chain_id (n + 1) is

unfoldable pub new_chain : ℕ → String → List Chain → Chain
unfolding last_version
new_chain id type cs = record {
  id = id;
  event_type = type;
  version = last_version type cs + 1;
  active = true;
}

-- the statements after the checks
unfoldable pub defined_chain : ℕ → String → List ℕ → Catalog → Definition
unfolding new_chain numbered retire
defined_chain id type ids cat =
    let retired = update (is_active_of type) retire cat.chains in
    Definition.defined (new_chain id type retired) (record cat {
      chains = retired ++ (new_chain id type retired ∷ []);
      stations = cat.stations ++ numbered id 1 ids;
    })

-- `id` is the id that the INSERT INTO relay_chains gives
unfoldable pub define_chain : ℕ → String → List ℕ → List Destination → Catalog → Definition
unfolding defined_chain has_repeats has_unknown
define_chain id type ids destinations cat =
    if is_none ids
    then Definition.refused RelayConfigError.no_station
    else if has_repeats ids
    then Definition.refused RelayConfigError.repeated_station
    else if has_unknown destinations ids
    then Definition.refused RelayConfigError.unknown_station
    else if is_some (policy_of type cat)
    then Definition.refused RelayConfigError.gated_type
    else defined_chain id type ids cat

-- with the answer that there was an active version
unfoldable pub delete_active_chain : String → Catalog → Bool × Catalog
unfolding retire
delete_active_chain type cat = (
  exists (is_active_of type) cat.chains,
  record cat { chains = update (is_active_of type) retire cat.chains },
)
