-- ===== src/Auditor/Opa/Tests.antt =====
-- The theorems at an auditor with one constraint and its template.
use magalix_agent.Prelude.{
  String, ◌≡◌, ◌↔◌, ◌⊎◌, ◌||◌, refl, inl, true, none, some, [], ◌∷◌, ok, panic, Returns, arith,
  str_eq, if◌then◌else◌,
}
use magalix_agent.Prelude.Dict
use magalix_agent.Prelude.Dict.{Dict}
use magalix_agent.Value
use magalix_agent.Value.{text, Fields, end, field}
use magalix_agent.Agent.Governance as Agent
use magalix_agent.Agent.Governance.{Match}
use magalix_agent.Kuber.Object.{Unstructured}
use magalix_agent.Auditor.Cache.{new_audit_results_cache}
use magalix_agent.Auditor.Opa.{
  Template, Constraint, OpaAuditor, Parsed, parsed, unparsed, refused, new, describe_error,
  store_constraint, remove_constraint, update_constraint, update_constraints,
}
use magalix_agent.Auditor.Opa.Counts.{uses, IsCounted}
use magalix_agent.Auditor.Opa.Usage.{
  Removed, remove_constraint-Removed, Updated, update_constraint-Updated,
}
use magalix_agent.Auditor.Opa.Batch.{
  IsBatch, update_constraints-IsBatch, update_constraint-unparsed,
}
use magalix_agent.Auditor.Opa.Matching.{
  match_entity, IsMatch, match_entity_iff, get_constraints, lookup-get_constraints, is_nil,
  contains,
}
use magalix_agent.Auditor.Opa.Audit.{Evaluation, violates, details_map, has_parent, audit}
use magalix_agent.Auditor.Opa.Audit.Results.{Audited, audit-Audited}

abbrev pods : Match
pods = record { namespaces = []; kinds = "Deployment" ∷ []; labels = (("app", "*") ∷ []) ∷ [] }

abbrev limits : Agent.Constraint
limits = record {
  id = "c1";
  template_id = "t1";
  account_id = "a";
  cluster_id = "k";
  name = "limits";
  template_name = "resource limits";
  parameters = end;
  matches = pods;
  code = "package limits";
  description = "Containers have limits";
  how_to_solve = "Set them";
  updated_at = 1;
  category_id = "performance";
  severity = "high";
  controls = [];
  standards = [];
  deleted_at = none;
}

abbrev newer : Agent.Constraint
newer = record limits { updated_at = 2 }

-- A policy is its code, and code that is empty does not parse.
abbrev parse : String → String → Parsed String
parse code query = if str_eq code "" then unparsed "empty" else parsed code

abbrev template : Template String
template = record {
  id = "t1";
  name = "resource limits";
  policy = "package limits";
  description = "Containers have limits";
  how_to_solve = "Set them";
  usage_count = 1;
}

abbrev kept_limits : Constraint
kept_limits = record {
  id = "c1";
  template_id = "t1";
  name = "limits";
  parameters = end;
  matches = pods;
  updated_at = 1;
  category_id = "performance";
  severity = "high";
  controls = [];
  standards = [];
}

abbrev one : OpaAuditor String
one = record {
  templates = ("t1", template) ∷ [];
  constraints = ("c1", kept_limits) ∷ [];
  cache = new_audit_results_cache;
}

one-IsCounted : IsCounted one
unfolding uses Dict.lookup
one-IsCounted = record {
  unique = (refl, tt);
  counted = λ t. ground arith;
  positive = λ t x e. ground arith;
}

one_known :
    (old : Constraint) → Dict.lookup "c1" one.constraints ≡ some old → old.template_id ≡ "t1"
unfolding Dict.lookup
one_known old e = cc e

remove_constraint-Removed_example : Returns (Removed one "c1") (remove_constraint one "c1")
remove_constraint-Removed_example = remove_constraint-Removed one "c1" one-IsCounted

update_constraint-Updated_example :
    Returns (Updated parse one newer) (update_constraint parse one newer)
update_constraint-Updated_example =
    update_constraint-Updated parse one newer "package limits" one-IsCounted one_known refl

abbrev template_of : String → String
template_of id = "t1"

one-IsStable :
    (k : String) (c : Constraint)
    → Dict.lookup k one.constraints ≡ some c
    → c.template_id ≡ template_of k
unfolding Dict.lookup
one-IsStable k c e = ground arith

update_constraints-IsBatch_example :
    Returns (IsBatch parse template_of) (update_constraints parse one (newer ∷ []))
update_constraints-IsBatch_example =
    update_constraints-IsBatch parse template_of one (newer ∷ []) one-IsCounted one-IsStable
      (record { policy = "package limits"; parses = refl; stable = refl }, tt)

abbrev broken : Agent.Constraint
broken = record limits { code = "" }

update_constraint-unparsed_example :
    (update_constraint parse new broken
      ≡ ok (refused (describe_error broken "empty") (store_constraint new broken)))
    × (remove_constraint {Policy = String} (store_constraint new broken) "c1" ≡ panic)
    × (update_constraint parse (store_constraint new broken) newer ≡ panic)
unfolding new Dict.lookup
update_constraint-unparsed_example =
    update_constraint-unparsed parse new broken newer "empty" "package limits" refl refl refl refl
      refl (omega arith) refl

abbrev deployment : Unstructured
deployment = record {
  namespace = "default";
  kind = "Deployment";
  name = "web";
  api_version = "apps/v1";
  resource_version = "1";
  labels = ("app", "web") ∷ [];
  owner_references = [];
  object = end;
}

match_entity_iff_example : (match_entity deployment pods ≡ true) ↔ IsMatch deployment pods
match_entity_iff_example = match_entity_iff deployment pods

lookup-get_constraints_example :
    Dict.lookup "c1" (get_constraints ("c1" ∷ "c2" ∷ []) one.constraints) ≡ (
      if is_nil {A = String} ("c1" ∷ "c2" ∷ []) || contains "c1" ("c1" ∷ "c2" ∷ [])
      then Dict.lookup "c1" one.constraints
      else none)
lookup-get_constraints_example = lookup-get_constraints "c1" ("c1" ∷ "c2" ∷ []) one.constraints

-- Every policy finds a violation, with details that are a text.
abbrev eval : String → Fields → Fields → String → Evaluation
eval policy object parameters query = violates (text "no limits")

texts :
    (p : String) (o ps : Fields)
    → (Value.lookup "msg" (details_map (text "no limits")) ≡ none)
      ⊎ ((s : String) × (Value.lookup "msg" (details_map (text "no limits")) ≡ some (text s)))
unfolding Value.lookup details_map
texts p o ps = inl refl

audit-Audited_example :
    Returns
      (λ r. Audited eval one.templates deployment (get_constraints [] one.constraints) r.0)
      (audit eval (λ namespace kind name. none) (λ id. id) one deployment [] "periodic")
unfolding has_parent
audit-Audited_example =
    audit-Audited eval (λ namespace kind name. none) (λ id. id) one one-IsCounted deployment []
      "periodic" texts refl refl
