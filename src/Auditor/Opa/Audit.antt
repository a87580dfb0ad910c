-- ===== src/Auditor/Opa/Audit.antt =====
-- auditor/opa-auditor/opa-auditor.go: Audit, UpdateCache, CheckResourceStatusWithConstraint and
-- RemoveResource. EvalGateKeeperCompliant of opa-core, the parents store and the random ids of the
-- results are arguments.
pub mod Results
pub mod Named
use Prim.Native.String.{◌++◌ as append}
use magalix_agent.Prelude.{
  ℕ, ◌≡◌, refl, String, Bool, true, false, not, ◌&&◌, ◌||◌, Option, none, some, List, [], ◌∷◌, ◌++◌,
  Run, ok, panic, ◌>>=◌, deref, str_eq, ltb, length, if◌then◌else◌,
}
use magalix_agent.Prelude.Dict
use magalix_agent.Prelude.Dict.{Dict}
use magalix_agent.Value.{Value, text, obj, Fields, field, end}
use magalix_agent.Value
use magalix_agent.Agent.Governance.{Status, violating, compliant, no_status, AuditResult}
use magalix_agent.Kuber.Keys.{get_entity_key}
use magalix_agent.Kuber.Object.{Unstructured}
use magalix_agent.Kuber.Parents.{ParentController, nil, controller, root_parent}
use magalix_agent.Auditor.Cache
use magalix_agent.Auditor.Opa.{Template, Constraint, OpaAuditor, policy_query}
use magalix_agent.Auditor.Opa.Matching.{match_entity, get_constraints}

-- How the evaluation of a policy ends: it complies, an OPAError with its details, another error.
pub data Evaluation : Type 0 where
  complies : Evaluation
  violates : Value → Evaluation
  fails : String → Evaluation

-- The message of an evaluation that failed: the template, the constraint and the error.
pub data EvalError : Type 0 where
  eval_error : String → String → String → EvalError

-- `details` of an OPAError, as a map.
unfoldable pub details_map : Value → Fields
details_map (obj fields) = fields
details_map v = field "issue" v end

-- `msg.(string)` panics on anything that is no string.
as_string : Value → Run String
as_string (text s) = ok s
as_string v = panic

title_of : Fields → String → Run String
unfolding as_string
title_of details name = elim (Value.lookup "msg" details) [
  | none ↦ ok name
  | some msg ↦ as_string msg
]

-- fmt.Sprintf("%s in %s %s", title, kind, name)
pub describe : String → String → String → String
describe title kind name = append title (append " in " (append kind (append " " name)))

-- parent.Kind and parent.Name of the root of the parents, when there are parents.
name_of : ParentController → String
name_of nil = ""
name_of (controller kind name api_version watched above) = name

kind_of : ParentController → String
kind_of nil = ""
kind_of (controller kind name api_version watched above) = kind

unfoldable pub has_parent : Option ParentController → Bool
has_parent none = false
has_parent (some nil) = false
has_parent (some (controller kind name api_version watched above)) = true

top_parent : Option ParentController → ParentController
top_parent none = nil
top_parent (some p) = root_parent p

-- The status of the result, and the error that is collected if the policy could not be evaluated.
finish_result :
    Constraint → Unstructured → AuditResult → Evaluation → Run (AuditResult × List EvalError)
unfolding title_of details_map describe
finish_result c resource res complies = ok (record res { status = compliant }, [])
finish_result c resource res (violates details) = title_of (details_map details) c.name >>= λ title.
    ok (
      record res { status = violating; msg = some (describe title resource.kind resource.name) },
      [],
    )
finish_result c resource res (fails e) = ok (res, eval_error c.template_id c.id e ∷ [])

-- The loop of UpdateCache; `*result.ConstraintID` panics on nil.
text_of : Option String → String
text_of none = ""
text_of (some s) = s

pub result_key : AuditResult → String
unfolding text_of
result_key r =
    get_entity_key (text_of r.namespace_name) (text_of r.entity_kind) (text_of r.entity_name)

put_results : Cache.AuditResultsCache → List AuditResult → Run Cache.AuditResultsCache
unfolding result_key
put_results cache [] = ok cache
put_results cache (r ∷ rs) =
    deref r.constraint_id >>= λ id. put_results (Cache.put cache id (result_key r) r.status) rs

pub get_resource_key : Unstructured → String
get_resource_key r = get_entity_key r.namespace r.kind r.name

-- Whether the status differs from the one that is cached.
is_changed : Option Status → Status → Bool
is_changed none current = true
is_changed (some old) current = not (str_eq old current)

module _ {Policy : Type 0} where
  -- The result before the evaluation.
  start_result :
      Constraint
      → Template Policy
      → Unstructured
      → Option ParentController
      → String
      → String
      → AuditResult
  unfolding name_of kind_of top_parent
  start_result c t resource parent trigger id = record {
    id = id;
    template_id = some c.template_id;
    constraint_id = some c.id;
    category_id = some c.category_id;
    severity = some c.severity;
    controls = c.controls;
    standards = c.standards;
    description = t.description;
    how_to_solve = t.how_to_solve;
    status = no_status;
    msg = none;
    entity_name = some resource.name;
    entity_kind = some resource.kind;
    namespace_name = some resource.namespace;
    parent_name = some (name_of (top_parent parent));
    parent_kind = some (kind_of (top_parent parent));
    entity_spec = resource.object;
    trigger = trigger;
  }

  module _ (eval : Policy → Fields → Fields → String → Evaluation) (uuid : String → String)
      (templates : Dict (Template Policy)) (resource : Unstructured)
      (parent : Option ParentController) (trigger : String) where
    audit_constraint : Constraint → Run (AuditResult × List EvalError)
    unfolding start_result finish_result
    audit_constraint c = deref (Dict.lookup c.template_id templates) >>= λ t.
        finish_result c resource (start_result c t resource parent trigger (uuid c.id))
          (eval t.policy resource.object c.parameters policy_query)

    -- The loop over the constraints, with the results and the errors appended so far.
    audit_loop :
        Dict Constraint
        → List AuditResult
        → List EvalError
        → Run (List AuditResult × List EvalError)
    unfolding audit_constraint
    audit_loop [] results errs = ok (results, errs)
    audit_loop ((id, c) ∷ m) results errs =
        let rest = audit_constraint c >>= λ r. audit_loop m (results ++ r.0 ∷ []) (errs ++ r.1) in
        let skip = audit_loop m results errs in
        if match_entity resource c.matches then rest else skip

  module _ (eval : Policy → Fields → Fields → String → Evaluation)
      (get_parents : String → String → String → Option ParentController)
      (uuid : String → String) where
    pub audit :
        OpaAuditor Policy
        → Unstructured
        → List String
        → String
        → Run (List AuditResult × List EvalError)
    unfolding audit_loop has_parent
    audit a resource constraint_ids trigger =
        let parent = get_parents resource.namespace resource.kind resource.name in
        let constraints = get_constraints constraint_ids a.constraints in
        if ltb 0 (length resource.owner_references)
        then ok ([], [])
        else if has_parent parent
            && (str_eq resource.kind "Pod" || str_eq resource.kind "ReplicaSet")
        then ok ([], [])
        else audit_loop eval uuid a.templates resource parent trigger constraints [] []

  pub update_cache : OpaAuditor Policy → List AuditResult → Run (OpaAuditor Policy)
  unfolding put_results
  update_cache a results = put_results a.cache results >>= λ cache. ok (record a { cache = cache })

  pub remove_resource : OpaAuditor Policy → Unstructured → OpaAuditor Policy
  unfolding get_resource_key
  remove_resource a r = record a { cache = Cache.remove_resource a.cache (get_resource_key r) }

  pub check_resource_status_with_constraint :
      OpaAuditor Policy → String → Unstructured → Status → Bool
  unfolding get_resource_key is_changed
  check_resource_status_with_constraint a id resource current =
      is_changed (Cache.get a.cache id (get_resource_key resource)) current
