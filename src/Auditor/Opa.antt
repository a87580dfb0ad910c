-- ===== src/Auditor/Opa.antt =====
-- auditor/opa-auditor/opa-auditor.go: the templates and constraints that the auditor keeps.
-- A `map[string]*Template` holds the only pointers to its templates, so `t.UsageCount++` is a write
-- into the map. What is done through a nil template panics.
pub mod Counts
pub mod Usage
pub mod Batch
pub mod Matching
pub mod Audit
mod Tests
use magalix_agent.Prelude.{
  ℕ, zero, suc, ◌+◌, ◌-◌, String, Bool, true, false, Option, none, some, List, [], ◌∷◌, ◌++◌, Run,
  ok, panic, ◌>>=◌, deref, ltb, if◌then◌else◌,
}
use magalix_agent.Prelude.Dict
use magalix_agent.Prelude.Dict.{Dict}
use magalix_agent.Value.{Fields}
use magalix_agent.Agent.Governance as Agent
use magalix_agent.Agent.Governance.{Match}
use magalix_agent.Auditor.Cache
use magalix_agent.Auditor.Cache.{AuditResultsCache, new_audit_results_cache}

pub record Template (Policy : Type 0) : Type 0 where
  pub id : String
  pub name : String
  pub policy : Policy
  pub description : String
  pub how_to_solve : String
  pub usage_count : ℕ

pub record Constraint : Type 0 where
  pub id : String
  pub template_id : String
  pub name : String
  pub parameters : Fields
  pub matches : Match
  pub updated_at : ℕ
  pub category_id : String
  pub severity : String
  pub controls : List String
  pub standards : List String

pub record OpaAuditor (Policy : Type 0) : Type 0 where
  pub templates : Dict (Template Policy)
  pub constraints : Dict Constraint
  pub cache : AuditResultsCache

-- An error of opa.Parse, with what the message says of the template and the constraint.
pub data ParseError : Type 0 where
  parse_error : String → String → String → String → String → ParseError

-- What opa.Parse returns.
pub data Parsed (Policy : Type 0) : Type 0 where
  parsed : Policy → Parsed Policy
  unparsed : String → Parsed Policy

pub policy_query : String
policy_query = "violation"

-- The constraint as it is kept.
pub keep : Agent.Constraint → Constraint
keep c = record {
  id = c.id;
  template_id = c.template_id;
  name = c.name;
  parameters = c.parameters;
  matches = c.matches;
  updated_at = c.updated_at;
  category_id = c.category_id;
  severity = c.severity;
  controls = c.controls;
  standards = c.standards;
}

-- The template of a constraint, with the policy that its code parses to.
make_template : {Policy : Type 0} → Agent.Constraint → Policy → ℕ → Template Policy
make_template c policy usage = record {
  id = c.template_id;
  name = c.template_name;
  policy = policy;
  description = c.description;
  how_to_solve = c.how_to_solve;
  usage_count = usage;
}

pub describe_error : Agent.Constraint → String → ParseError
describe_error c e = parse_error e c.template_name c.template_id c.name c.id

-- What UpdateConstraint returns, with the state that it leaves.
pub data Update (Policy : Type 0) : Type 0 where
  updated : Bool → OpaAuditor Policy → Update Policy
  refused : ParseError → OpaAuditor Policy → Update Policy

-- The state of the loop of UpdateConstraints.
pub record Updates (Policy : Type 0) : Type 0 where
  pub auditor : OpaAuditor Policy
  pub ids : List String
  pub errors : Dict ParseError

module _ {Policy : Type 0} where
  pub new : OpaAuditor Policy
  new = record { templates = []; constraints = []; cache = new_audit_results_cache }

  -- `delete(a.templates, …)` or `t.UsageCount--`
  release_template : Dict (Template Policy) → String → Template Policy → Dict (Template Policy)
  release_template templates template_id t =
      if ltb 1 t.usage_count
      then Dict.insert template_id (record t { usage_count = t.usage_count - 1 }) templates
      else Dict.remove template_id templates

  remove_known : OpaAuditor Policy → String → Constraint → Run (OpaAuditor Policy)
  unfolding release_template
  remove_known a id c = deref (Dict.lookup c.template_id a.templates) >>= λ t. ok (record {
    templates = release_template a.templates c.template_id t;
    constraints = Dict.remove id a.constraints;
    cache = Cache.remove_constraint a.cache id;
  })

  pub remove_constraint : OpaAuditor Policy → String → Run (OpaAuditor Policy)
  unfolding remove_known
  remove_constraint a id = elim (Dict.lookup id a.constraints) [
    | none ↦ ok a
    | some c ↦ remove_known a id c
  ]

  pub store_constraint : OpaAuditor Policy → Agent.Constraint → OpaAuditor Policy
  unfolding keep
  store_constraint a c = record a { constraints = Dict.insert c.id (keep c) a.constraints }

  module _ (parse : String → String → Parsed Policy) where
    -- The branch for a constraint that is not known: its template is parsed only if it is new too.
    add_template : OpaAuditor Policy → Agent.Constraint → Parsed Policy → Update Policy
    add_template a c (unparsed e) = refused (describe_error c e) a
    add_template a c (parsed policy) =
        updated true (record a {
          templates = Dict.insert c.template_id (make_template c policy 1) a.templates;
        })

    use_template : OpaAuditor Policy → Agent.Constraint → Option (Template Policy) → Update Policy
    unfolding add_template
    use_template a c none = add_template a c (parse c.code policy_query)
    use_template a c (some t) = updated true (record a {
      templates =
          Dict.insert c.template_id (record t { usage_count = t.usage_count + 1 }) a.templates;
    })

    -- The branch for a newer version of a known constraint: its template is parsed again, and the
    -- usage count is read through the pointer that the template's id gave.
    replace_template :
        OpaAuditor Policy → Agent.Constraint → Option (Template Policy) → Run (Update Policy)
    replace_template a c t = elim (parse c.code policy_query) [
      | unparsed e ↦ ok (refused (describe_error c e) a)
      | parsed policy ↦ deref t >>= λ t'. ok (
          updated true (record a {
            templates =
                Dict.insert c.template_id (make_template c policy t'.usage_count) a.templates;
          }))
    ]

    update_known : OpaAuditor Policy → Agent.Constraint → Constraint → Run (Update Policy)
    unfolding replace_template store_constraint
    update_known a c old =
        if ltb old.updated_at c.updated_at
        then replace_template (store_constraint a c) c (Dict.lookup c.template_id a.templates)
        else ok (updated false a)

    pub update_constraint : OpaAuditor Policy → Agent.Constraint → Run (Update Policy)
    unfolding update_known use_template
    update_constraint a c = elim (Dict.lookup c.id a.constraints) [
      | none ↦ ok (use_template (store_constraint a c) c (Dict.lookup c.template_id a.templates))
      | some old ↦ update_known a c old
    ]

    collect : Updates Policy → String → Update Policy → Updates Policy
    collect u id (refused e a) = record {
      auditor = a;
      ids = u.ids;
      errors = Dict.insert id e u.errors;
    }
    collect u id (updated true a) = record {
      auditor = record a { cache = Cache.remove_constraint a.cache id };
      ids = u.ids ++ id ∷ [];
      errors = u.errors;
    }
    collect u id (updated false a) = record u { auditor = a }

    update_one : Updates Policy → Agent.Constraint → Run (Updates Policy)
    unfolding collect
    update_one u c = elim c.deleted_at [
      | some _ ↦ remove_constraint u.auditor c.id >>= λ a. ok (record u { auditor = a })
      | none ↦ update_constraint u.auditor c >>= λ r. ok (collect u c.id r)
    ]

    update_all : Updates Policy → List Agent.Constraint → Run (Updates Policy)
    unfolding update_one
    update_all u [] = ok u
    update_all u (c ∷ cs) = update_one u c >>= λ u'. update_all u' cs

    pub update_constraints : OpaAuditor Policy → List Agent.Constraint → Run (Updates Policy)
    unfolding update_all
    update_constraints a cs = update_all (record { auditor = a; ids = []; errors = [] }) cs
