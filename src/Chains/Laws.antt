-- ===== src/Chains/Laws.antt =====
-- What a defined chain is for the events that come after it.
use text.Mathlib.TextPositions.{eq_refl}
use ccj.Prelude.{
  ℕ, ◌+◌, ◌≡◌, ◌≢◌, refl, ap, ◌∙◌, String, true, false, some, List, [], ◌∷◌, ◌++◌, leb, ◌==◌,
  is_some, arith, map, Bool-cases, inl, inr,
}
use ccj.Models.Tables.{Destination}
use ccj.Sql.{update, first, where_rows, order_by, place}
use ccj.Sql.Evolve.{All}
use ccj.Ingest.Setup.{Catalog, Chain, ChainStation, active_chain_of, stations_of_chain, policy_of}
use ccj.Chains.{
  Definition, define_chain, defined_chain, new_chain, numbered, retire, is_active_of, last_version,
  has_repeats, has_unknown, is_none,
}

-- the first of the active chains is the new one
first_new :
    (type : String) (cs : List Chain) (c : Chain)
    → is_active_of type c ≡ true
    → first (is_active_of type) (update (is_active_of type) retire cs ++ (c ∷ [])) ≡ some c
unfolding first update retire
first_new type [] c e = rw e refl
first_new type (x ∷ xs) c e = elim (Bool-cases (is_active_of type x)) [
  | inl t ↦ ground (arith, first_new type xs c e)
  | inr f ↦ ground (arith, first_new type xs c e)
]

where_none :
    (id : ℕ) (ss ts : List ChainStation)
    → All (λ (s : ChainStation). s.chain_id ≢ id) ss
    → where_rows (λ (s : ChainStation). s.chain_id == id) (ss ++ ts)
      ≡ where_rows (λ (s : ChainStation). s.chain_id == id) ts
unfolding where_rows
where_none id [] ts h = refl
where_none id (s ∷ ss) ts h = ground (arith, h.0, where_none id ss ts h.1)

where_all :
    (id n : ℕ) (is : List ℕ)
    → where_rows (λ (s : ChainStation). s.chain_id == id) (numbered id n is) ≡ numbered id n is
unfolding where_rows numbered
where_all id n [] = refl
where_all id n (i ∷ is) = ground (arith, where_all id (n + 1) is)

placed_first :
    (id n i : ℕ) (is : List ℕ)
    → let s : ChainStation = record { chain_id = id; station_no = n; destination_id = i } in
      place (λ (s t : ChainStation). leb s.station_no t.station_no) s (numbered id (n + 1) is)
      ≡ s ∷ numbered id (n + 1) is
unfolding place numbered
placed_first id n i [] = refl
placed_first id n i (j ∷ is) = ground arith

-- rows that are numbered upwards are in order
in_order :
    (id n : ℕ) (is : List ℕ)
    → order_by (λ (s t : ChainStation). leb s.station_no t.station_no) (numbered id n is)
      ≡ numbered id n is
unfolding order_by numbered
in_order id n [] = refl
in_order id n (i ∷ is) = rw (in_order id (n + 1) is) (placed_first id n i is)

addresses :
    (id n : ℕ) (is : List ℕ) → map (λ (s : ChainStation). s.destination_id) (numbered id n is) ≡ is
unfolding numbered
addresses id n [] = refl
addresses id n (i ∷ is) = ap (λ (js : List ℕ). i ∷ js) (addresses id (n + 1) is)

-- What a definition leaves.
pub record IsActive (type : String) (ids : List ℕ) (before : Catalog) (c : Chain) (cat : Catalog)
    : Type 0 where
  pub is_read : active_chain_of type cat ≡ some c
  pub stations : stations_of_chain c.id cat ≡ ids
  pub next_version : c.version ≡ last_version type before.chains + 1

-- the checks of the definition
abbrev pub MayDefine : String → List ℕ → List Destination → Catalog → Type 0
MayDefine type ids destinations cat =
    (is_none ids ≡ false)
    × (has_repeats ids ≡ false)
    × (has_unknown destinations ids ≡ false)
    × (is_some (policy_of type cat) ≡ false)

abbrev pub WhenDefined : String → List ℕ → List Destination → Catalog → Definition → Type 0
WhenDefined type ids destinations before (Definition.defined c cat) =
    MayDefine type ids destinations before × IsActive type ids before c cat
WhenDefined type ids destinations before (Definition.refused e) = Unit

retired_version :
    (type : String) (cs : List Chain)
    → last_version type (update (is_active_of type) retire cs) ≡ last_version type cs
unfolding last_version update retire
retired_version type [] = refl
retired_version type (c ∷ cs) = elim (Bool-cases (is_active_of type c)) [
  | inl t ↦ rw (t, retired_version type cs) refl
  | inr f ↦ rw (f, retired_version type cs) refl
]

defined-IsActive :
    (id : ℕ) (type : String) (ids : List ℕ) (destinations : List Destination) (cat : Catalog)
    → All (λ (s : ChainStation). s.chain_id ≢ id) cat.stations
    → MayDefine type ids destinations cat
    → WhenDefined type ids destinations cat (defined_chain id type ids cat)
unfolding defined_chain active_chain_of stations_of_chain new_chain
defined-IsActive id type ids destinations cat h may = (
  may,
  record {
    is_read = first_new type cat.chains _ (rw (eq_refl type) refl);
    stations =
        ap
          (λ (ss : List ChainStation).
            map (λ (s : ChainStation). s.destination_id)
              (order_by (λ (s t : ChainStation). leb s.station_no t.station_no) ss))
          (where_none id cat.stations (numbered id 1 ids) h ∙ where_all id 1 ids)
        ∙ (ap (map (λ (s : ChainStation). s.destination_id)) (in_order id 1 ids)
            ∙ addresses id 1 ids);
    next_version = ap (λ (n : ℕ). n + 1) (retired_version type cat.chains);
  },
)

-- A chain is defined only with stations that are known and distinct, at least one, and for a type that
-- is not gated. The id of the chain is one that no station has. Then the active chain that the posting of an
-- event reads is the new version, with the stations in the order of the call, and its version follows
-- the last one of the type.
pub define_chain-IsActive :
    (id : ℕ) (type : String) (ids : List ℕ) (destinations : List Destination) (cat : Catalog)
    → All (λ (s : ChainStation). s.chain_id ≢ id) cat.stations
    → WhenDefined type ids destinations cat (define_chain id type ids destinations cat)
unfolding define_chain
define_chain-IsActive id type ids destinations cat h = elim (Bool-cases (is_none ids)) [
  | inl a ↦ rw a tt
  | inr a ↦ elim (Bool-cases (has_repeats ids)) [
    | inl b ↦ rw (a, b) tt
    | inr b ↦ elim (Bool-cases (has_unknown destinations ids)) [
      | inl c ↦ rw (a, b, c) tt
      | inr c ↦ elim (Bool-cases (is_some (policy_of type cat))) [
        | inl d ↦ rw (a, b, c, d) tt
        | inr d ↦ rw (a, b, c, d) (defined-IsActive id type ids destinations cat h (a, b, c, d))
      ]
    ]
  ]
]
