-- ===== src/Auditor/Cache.antt =====
-- auditor/opa-auditor/audit-results-cache.go: the status that the last audit gave to each pair of
-- a constraint and a resource. The inner maps are reachable from the outer map alone, so a write
-- to one is a write into the outer map.
mod Operations
mod Tests
use magalix_agent.Prelude.{
  String, ◌≡◌, refl, Option, none, some, List, [], ◌∷◌, arith, str_eq, eq_iff, eq_refl,
  if◌then◌else◌, ◌||◌, map,
}
use magalix_agent.Prelude.Dict
use magalix_agent.Prelude.Dict.{Dict, lookup-insert, lookup-remove}
use magalix_agent.Agent.Governance.{Status}

pub record AuditResultsCache : Type 0 where
  pub cache : Dict (Dict Status)

pub new_audit_results_cache : AuditResultsCache
new_audit_results_cache = record { cache = [] }

-- `if !found { constraint = make(…) }`
abbrev or_make : Option (Dict Status) → Dict Status
or_make none = []
or_make (some constraint) = constraint

unfoldable pub put : AuditResultsCache → String → String → Status → AuditResultsCache
put c constraint_id resource_id status =
    let constraint = or_make (Dict.lookup constraint_id c.cache) in
    record { cache = Dict.insert constraint_id (Dict.insert resource_id status constraint) c.cache }

abbrev get_status : Option (Dict Status) → String → Option Status
get_status none resource_id = none
get_status (some constraint) resource_id = Dict.lookup resource_id constraint

unfoldable pub get : AuditResultsCache → String → String → Option Status
get c constraint_id resource_id = get_status (Dict.lookup constraint_id c.cache) resource_id

unfoldable pub remove_constraint : AuditResultsCache → String → AuditResultsCache
remove_constraint c constraint_id = record { cache = Dict.remove constraint_id c.cache }

-- `for _, constraint := range c.cache { delete(constraint, resourceId) }`
remove_from_all : String → Dict (Dict Status) → Dict (Dict Status)
remove_from_all resource_id [] = []
remove_from_all resource_id ((k, constraint) ∷ m) =
    (k, Dict.remove resource_id constraint) ∷ remove_from_all resource_id m

unfoldable pub remove_resource : AuditResultsCache → String → AuditResultsCache
unfolding remove_from_all
remove_resource c resource_id = record { cache = remove_from_all resource_id c.cache }

module _ (c : AuditResultsCache) where
  -- After Put, Get returns the status that was put at that pair of ids, and what it returned
  -- before at every other pair.
  pub get-put :
      (constraint_id resource_id : String) (status : Status) (cid rid : String)
      → get (put c constraint_id resource_id status) cid rid ≡ (
          if str_eq constraint_id cid
          then (if str_eq resource_id rid then some status else get c cid rid)
          else get c cid rid)
  unfolding get put Dict.lookup
  get-put constraint_id resource_id status cid rid = simp lookup-insert (
      ground (
        arith,
        eq_iff constraint_id cid,
        lookup-insert resource_id rid status (or_make (Dict.lookup constraint_id c.cache)),
      ))

  -- After RemoveConstraint, Get finds nothing for the constraint, and what it found before for the
  -- others.
  pub get-remove_constraint :
      (constraint_id cid rid : String)
      → get (remove_constraint c constraint_id) cid rid
        ≡ (if str_eq constraint_id cid then none else get c cid rid)
  unfolding get remove_constraint
  get-remove_constraint constraint_id cid rid = simp lookup-remove (ground arith)

lookup-remove_from_all :
    (resource_id cid rid : String) (m : Dict (Dict Status))
    → get_status (Dict.lookup cid (remove_from_all resource_id m)) rid
      ≡ (if str_eq resource_id rid then none else get_status (Dict.lookup cid m) rid)
unfolding remove_from_all Dict.lookup
lookup-remove_from_all resource_id cid rid [] = ground arith
lookup-remove_from_all resource_id cid rid ((k, constraint) ∷ m) =
    ground (
      arith,
      lookup-remove resource_id rid constraint,
      lookup-remove_from_all resource_id cid rid m,
    )

-- After RemoveResource, Get finds nothing for the resource under any constraint, and what it found
-- before for the others.
pub get-remove_resource :
    (c : AuditResultsCache) (resource_id cid rid : String)
    → get (remove_resource c resource_id) cid rid
      ≡ (if str_eq resource_id rid then none else get c cid rid)
unfolding get remove_resource
get-remove_resource c resource_id cid rid = lookup-remove_from_all resource_id cid rid c.cache

pub ruleset cache_laws = (get-put, get-remove_constraint, get-remove_resource)
