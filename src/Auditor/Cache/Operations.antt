-- ===== src/Auditor/Cache/Operations.antt =====
-- Sequences of calls of the cache, against the status that the last of them left for a pair of ids.
use magalix_agent.Prelude.{
  String, ◌≡◌, refl, ◌∙◌, ap, ◌&&◌, Option, none, some, List, [], ◌∷◌, arith, str_eq, if◌then◌else◌,
}
use magalix_agent.Agent.Governance.{Status}
use magalix_agent.Auditor.Cache.{
  AuditResultsCache, put, get, remove_constraint, remove_resource, get-put, get-remove_constraint,
  get-remove_resource,
}

pub data Operation : Type 0 where
  puts : String → String → Status → Operation
  removes_constraint : String → Operation
  removes_resource : String → Operation

unfoldable pub operate : Operation → AuditResultsCache → AuditResultsCache
operate (puts constraint_id resource_id status) c = put c constraint_id resource_id status
operate (removes_constraint constraint_id) c = remove_constraint c constraint_id
operate (removes_resource resource_id) c = remove_resource c resource_id

unfoldable pub operate_all : List Operation → AuditResultsCache → AuditResultsCache
operate_all [] c = c
operate_all (o ∷ later) c = operate_all later (operate o c)

-- What a single call leaves of a status, with no cache.
abbrev pub status_after : Operation → String → String → Option Status → Option Status
status_after (puts constraint_id resource_id status) cid rid before =
    if str_eq constraint_id cid && str_eq resource_id rid then some status else before
status_after (removes_constraint constraint_id) cid rid before =
    if str_eq constraint_id cid then none else before
status_after (removes_resource resource_id) cid rid before =
    if str_eq resource_id rid then none else before

abbrev pub last_status : List Operation → String → String → Option Status → Option Status
last_status [] cid rid before = before
last_status (o ∷ later) cid rid before = last_status later cid rid (status_after o cid rid before)

get-operate :
    (o : Operation) (c : AuditResultsCache) (cid rid : String)
    → get (operate o c) cid rid ≡ status_after o cid rid (get c cid rid)
unfolding operate
get-operate (puts constraint_id resource_id status) c cid rid =
    ground (arith, get-put c constraint_id resource_id status cid rid)
get-operate (removes_constraint constraint_id) c cid rid =
    get-remove_constraint c constraint_id cid rid
get-operate (removes_resource resource_id) c cid rid = get-remove_resource c resource_id cid rid

-- After any sequence of calls of Put, RemoveConstraint and RemoveResource, Get at a pair of ids gives what the
-- last of the calls that concern the pair left there: the status that was put, nothing after a removal of the constraint or
-- of the resource, and what Get gave before if no call concerns the pair.
pub get-operate_all :
    (operations : List Operation) (c : AuditResultsCache) (cid rid : String)
    → get (operate_all operations c) cid rid ≡ last_status operations cid rid (get c cid rid)
unfolding operate_all
get-operate_all [] c cid rid = refl
get-operate_all (o ∷ later) c cid rid =
    get-operate_all later (operate o c) cid rid
    ∙ ap (last_status later cid rid) (get-operate o c cid rid)
