-- ===== src/Auditor/Opa/Matching.antt =====
-- auditor/opa-auditor/opa-auditor.go: matchEntity and getConstraints.
-- A range over a Go map visits the entries in any order: the order of the association list, which
-- the statements leave free.
use magalix_agent.Prelude.{
  ◌≡◌, ◌↔◌, ◌⊎◌, inl, inr, refl, Bool-cases, Option-cases, String, Bool, true, false, not, ◌&&◌,
  ◌||◌, Option, none, some, List, [], ◌∷◌, str_eq, eq_iff, if◌then◌else◌, arith, Any,
}
use magalix_agent.Prelude.Dict
use magalix_agent.Prelude.Dict.{Dict, lookup-insert, HasUniqueKeys, insert-HasUniqueKeys}
use magalix_agent.Agent.Governance.{Match}
use magalix_agent.Kuber.Object.{Unstructured}
use magalix_agent.Auditor.Opa.{Constraint}

-- `for _, kind := range match.Kinds { if resourceKind == kind { …; break } }`
pub contains : String → List String → Bool
contains s [] = false
contains s (x ∷ xs) = if str_eq s x then true else contains s xs

-- The inner loop over the key and the value of one label selector.
match_selector : Dict String → Dict String → Bool
match_selector labels [] = false
match_selector labels ((key, val) ∷ obj) =
    let rest = match_selector labels obj in
    elim (Dict.lookup key labels) [
      | none ↦ rest
      | some entity_val ↦ if not (str_eq val "*") && not (str_eq val entity_val) then rest else true
    ]

match_selectors : Dict String → List (Dict String) → Bool
unfolding match_selector
match_selectors labels [] = false
match_selectors labels (obj ∷ objs) =
    let rest = match_selectors labels objs in if match_selector labels obj then true else rest

abbrev pub is_nil {ℓ} : {A : Type ℓ} → List A → Bool
is_nil [] = true
is_nil (x ∷ xs) = false

unfoldable pub match_entity : Unstructured → Match → Bool
unfolding contains match_selectors
match_entity resource m =
    let match_kind = if is_nil m.kinds then true else contains resource.kind m.kinds in
    let match_namespace =
      if is_nil m.namespaces then true else contains resource.namespace m.namespaces in
    let match_label = if is_nil m.labels then true else match_selectors resource.labels m.labels in
    match_kind && match_namespace && match_label

-- The constraints of the ids that are known.
select_constraints : List String → Dict Constraint → Dict Constraint → Dict Constraint
select_constraints [] cached constraints = constraints
select_constraints (id ∷ ids) cached constraints =
    select_constraints ids cached
      (elim (Dict.lookup id cached) [ none ↦ constraints | some c ↦ Dict.insert id c constraints ])

unfoldable pub get_constraints : List String → Dict Constraint → Dict Constraint
unfolding select_constraints
get_constraints [] cached = cached
get_constraints (id ∷ ids) cached = select_constraints (id ∷ ids) cached []

-- A selector's pair fits an entity that has the label, with that value unless the pair says `*`.
abbrev pub Fits : Dict String → String × String → Type 0
Fits labels (key, val) =
    (entity_val : String) × (Dict.lookup key labels ≡ some entity_val)
    × ((val ≡ "*") ⊎ (val ≡ entity_val))

pub record IsMatch (resource : Unstructured) (m : Match) : Type 0 where
  pub kind : (m.kinds ≡ []) ⊎ Any (λ k. resource.kind ≡ k) m.kinds
  pub namespace : (m.namespaces ≡ []) ⊎ Any (λ n. resource.namespace ≡ n) m.namespaces
  pub label : (m.labels ≡ []) ⊎ Any (λ obj. Any (Fits resource.labels) obj) m.labels

contains_iff : (s : String) (xs : List String) → (contains s xs ≡ true) ↔ Any (λ x. s ≡ x) xs
unfolding contains
contains_iff s [] = (λ e. cc e, λ h. absurd h)
contains_iff s (x ∷ xs) =
    let (sound, complete) = contains_iff s xs in
    elim (Bool-cases (str_eq s x)) [
      | inl same ↦ (λ e. inl ((eq_iff s x).0 same), λ h. rw same)
      | inr other ↦ (
        λ e. inr (sound (rw other at e)),
        λ h.
            rw other
              (elim h [ inl same ↦ cc ((eq_iff s x).1 same, other) | inr later ↦ complete later ]),
      )
    ]

-- One pair of a selector, at what the entity has for its key.
fits_value : Option String → String → Bool
fits_value none val = false
fits_value (some entity_val) val = str_eq val "*" || str_eq val entity_val

fits_value_iff :
    (o : Option String) (val : String)
    → (fits_value o val ≡ true)
      ↔ ((entity_val : String) × (o ≡ some entity_val) × ((val ≡ "*") ⊎ (val ≡ entity_val)))
unfolding fits_value
fits_value_iff none val = (λ e. cc e, λ h. cc h.1)
fits_value_iff (some entity_val) val = (
  λ h. (
    entity_val,
    refl,
    elim (Bool-cases (str_eq val "*")) [
      | inl star ↦ inl ((eq_iff val "*").0 star)
      | inr other ↦ inr ((eq_iff val entity_val).0 (rw other at h))
    ],
  ),
  λ h. elim h.2 [
    | inl star ↦ ground (arith, eq_iff val "*")
    | inr same ↦ ground (arith, eq_iff val entity_val, h.1)
  ],
)

match_selector-cons :
    (labels : Dict String) (key val : String) (obj : Dict String)
    → match_selector labels ((key, val) ∷ obj)
      ≡ (if fits_value (Dict.lookup key labels) val then true else match_selector labels obj)
unfolding match_selector fits_value
match_selector-cons labels key val obj = ground arith

match_selector_iff :
    (labels obj : Dict String) → (match_selector labels obj ≡ true) ↔ Any (Fits labels) obj
match_selector_iff labels [] = unfold match_selector in (λ e. cc e, λ h. absurd h)
match_selector_iff labels ((key, val) ∷ obj) =
    let here = fits_value_iff (Dict.lookup key labels) val in
    let (sound, complete) = match_selector_iff labels obj in
    rw match_selector-cons (elim (Bool-cases (fits_value (Dict.lookup key labels) val)) [
      | inl fits ↦ (λ e. inl (here.0 fits), λ h. rw fits)
      | inr fails ↦ (
        λ e. inr (sound (rw fails at e)),
        λ h. rw fails (elim h [ inl fits ↦ cc (here.1 fits, fails) | inr later ↦ complete later ]),
      )
    ])

match_selectors_iff :
    (labels : Dict String) (objs : List (Dict String))
    → (match_selectors labels objs ≡ true) ↔ Any (λ obj. Any (Fits labels) obj) objs
unfolding match_selectors
match_selectors_iff labels [] = (λ e. cc e, λ h. absurd h)
match_selectors_iff labels (obj ∷ objs) =
    let here = match_selector_iff labels obj in
    let (sound, complete) = match_selectors_iff labels objs in
    elim (Bool-cases (match_selector labels obj)) [
      | inl fits ↦ (λ e. inl (here.0 fits), λ h. rw fits)
      | inr fails ↦ (
        λ e. inr (sound (rw fails at e)),
        λ h. rw fails (elim h [ inl fits ↦ cc (here.1 fits, fails) | inr later ↦ complete later ]),
      )
    ]

-- A list that is empty matches all.
unless_empty {ℓ} :
    {A : Type ℓ} {Q : Type 0} (xs : List A) (b : Bool)
    → (b ≡ true) ↔ Q
    → ((if is_nil xs then true else b) ≡ true) ↔ ((xs ≡ []) ⊎ Q)
unless_empty [] b h = (λ e. inl refl, λ q. refl)
unless_empty (x ∷ xs) b h = (λ e. inr (h.0 e), λ q. elim q [ inl e ↦ cc e | inr q' ↦ h.1 q' ])

all_three : (a b c : Bool) → ((a && b && c) ≡ true) ↔ ((a ≡ true) × (b ≡ true) × (c ≡ true))
all_three a b c = (λ e. ground arith, λ h. ground arith)

-- matchEntity accepts exactly the resources whose kind and whose namespace are listed and of which
-- some pair of some label selector fits, where an empty list asks for nothing.
pub match_entity_iff :
    (resource : Unstructured) (m : Match) → (match_entity resource m ≡ true) ↔ IsMatch resource m
unfolding match_entity
match_entity_iff resource m =
    let kind = unless_empty m.kinds _ (contains_iff resource.kind m.kinds) in
    let namespace = unless_empty m.namespaces _ (contains_iff resource.namespace m.namespaces) in
    let label = unless_empty m.labels _ (match_selectors_iff resource.labels m.labels) in
    let all = all_three _ _ _ in
    (
      λ e.
          let (k, n, l) = all.0 e in
          record { kind = kind.0 k; namespace = namespace.0 n; label = label.0 l },
      λ h. all.1 (kind.1 h.kind, namespace.1 h.namespace, label.1 h.label),
    )

abbrev or_else {ℓ} : {A : Type ℓ} → Option A → Option A → Option A
or_else none o = o
or_else (some a) o = some a

lookup-select_constraints :
    (k : String) (ids : List String) (cached constraints : Dict Constraint)
    → Dict.lookup k (select_constraints ids cached constraints) ≡ (
        if contains k ids
        then or_else (Dict.lookup k cached) (Dict.lookup k constraints)
        else Dict.lookup k constraints)
unfolding select_constraints contains
lookup-select_constraints k [] cached constraints = refl
lookup-select_constraints k (id ∷ ids) cached constraints =
    elim (Option-cases (Dict.lookup id cached)) [
      | inl missing ↦
          rw missing (
            ground
              (arith, lookup-select_constraints k ids cached constraints, eq_iff k id, missing))
      | inr (c, found) ↦ rw found (
          ground (
            arith,
            lookup-select_constraints k ids cached (Dict.insert id c constraints),
            lookup-insert id k c constraints,
            eq_iff k id,
            eq_iff id k,
            found,
          ))
    ]

-- getConstraints with ids gives the known constraints of just those ids; with none, all of them.
pub lookup-get_constraints :
    (k : String) (ids : List String) (cached : Dict Constraint)
    → Dict.lookup k (get_constraints ids cached)
      ≡ (if is_nil ids || contains k ids then Dict.lookup k cached else none)
unfolding get_constraints Dict.lookup
lookup-get_constraints k [] cached = refl
lookup-get_constraints k (id ∷ ids) cached =
    ground (arith, lookup-select_constraints k (id ∷ ids) cached [])

select_constraints-HasUniqueKeys :
    (ids : List String) (cached constraints : Dict Constraint)
    → HasUniqueKeys constraints
    → HasUniqueKeys (select_constraints ids cached constraints)
unfolding select_constraints
select_constraints-HasUniqueKeys [] cached constraints h = h
select_constraints-HasUniqueKeys (id ∷ ids) cached constraints h =
    elim (Option-cases (Dict.lookup id cached)) [
      | inl missing ↦ rw missing (select_constraints-HasUniqueKeys ids cached constraints h)
      | inr (c, found) ↦ rw found (
          select_constraints-HasUniqueKeys ids cached (Dict.insert id c constraints)
            (insert-HasUniqueKeys id c constraints h))
    ]

pub get_constraints-HasUniqueKeys :
    (ids : List String) (cached : Dict Constraint)
    → HasUniqueKeys cached
    → HasUniqueKeys (get_constraints ids cached)
unfolding get_constraints
get_constraints-HasUniqueKeys [] cached h = h
get_constraints-HasUniqueKeys (id ∷ ids) cached h =
    select_constraints-HasUniqueKeys (id ∷ ids) cached [] tt

pub get_constraints-known :
    (k : String) (ids : List String) (cached : Dict Constraint) (c : Constraint)
    → Dict.lookup k (get_constraints ids cached) ≡ some c
    → Dict.lookup k cached ≡ some c
get_constraints-known k ids cached c e = ground (arith, lookup-get_constraints k ids cached)
