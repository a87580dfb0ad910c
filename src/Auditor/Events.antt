-- ===== src/Auditor/Events.antt =====
-- auditor/auditor.go: the events that the handlers send to the audit worker, and what the worker does
-- with each. A handler that waits to send on the unbuffered channel has its event among `pending`, and
-- the worker takes any of them. What the cluster holds when the worker reads it is a `World`.
-- `sent` collects what went to the handler of audit results; its errors and those of an audit are only
-- logged.
pub mod Safety
pub mod Runs
mod Tests
use magalix_agent.Prelude.{
  ℕ, zero, suc, String, Bool, true, false, Option, none, some, List, [], ◌∷◌, ◌++◌, Run, ok, panic,
  ◌>>=◌, deref, ltb, ◌==◌, ◌||◌, length, get_elem?, take, drop, ◌+◌, str_eq, if◌then◌else◌,
}
use magalix_agent.Prelude.Dict.{Dict}
use magalix_agent.Value.{Fields}
use magalix_agent.Agent.Governance as Agent
use magalix_agent.Agent.Governance.{AuditResult}
use magalix_agent.Kuber.Object.{Unstructured}
use magalix_agent.Kuber.Parents.{ParentController}
use magalix_agent.Auditor.Opa.{OpaAuditor, Parsed, ParseError, update_constraints, new}
use magalix_agent.Auditor.Opa.Audit.{
  Evaluation, EvalError, audit, update_cache, remove_resource,
  check_resource_status_with_constraint,
}

abbrev pub command : String
command = "command"

abbrev pub policy_change : String
policy_change = "policy-change"

abbrev pub entity_change : String
entity_change = "entity-change"

abbrev pub entity_delete : String
entity_delete = "entity-delete"

abbrev pub entities_sync : String
entities_sync = "entities-sync"

abbrev pub periodic : String
periodic = "periodic-audit"

abbrev pub initial : String
initial = "initial-audit"

-- The values that the field Data takes.
pub data EventData : Type 0 where
  no_data : EventData
  resource_data : Unstructured → EventData
  ids_data : List String → EventData

pub record AuditEvent : Type 0 where
  pub event_type : String
  pub event_data : EventData

pub record Auditor (Policy : Type 0) : Type 0 where
  pub opa : OpaAuditor Policy
  pub pending : List AuditEvent
  pub entities_synced : Bool
  pub sent : List (List AuditResult)

-- What the entities watcher answers.
pub record World : Type 0 where
  pub entities : List (List Unstructured)
  pub get_parents : String → String → String → Option ParentController

-- `e.Data.(*unstructured.Unstructured)`
as_resource : EventData → Run Unstructured
as_resource no_data = panic
as_resource (resource_data r) = ok r
as_resource (ids_data ids) = panic

-- `e.Data.([]string)`
as_ids : EventData → Run (List String)
as_ids no_data = panic
as_ids (resource_data r) = panic
as_ids (ids_data ids) = ok ids

first_error : List EvalError → Option EvalError
first_error [] = none
first_error (e ∷ es) = some e

module _ {Policy : Type 0} where
  pub new_auditor : Auditor Policy
  new_auditor = record { opa = new; pending = []; entities_synced = false; sent = [] }

  pub fire : Auditor Policy → AuditEvent → Auditor Policy
  fire a e = record a { pending = a.pending ++ e ∷ [] }

  pub on_resource_add : Auditor Policy → Unstructured → Auditor Policy
  unfolding fire
  on_resource_add a r = fire a (record { event_type = entity_change; event_data = resource_data r })

  pub on_resource_update : Auditor Policy → Unstructured → Unstructured → Auditor Policy
  unfolding fire
  on_resource_update a old r =
      fire a (record { event_type = entity_change; event_data = resource_data r })

  pub on_resource_delete : Auditor Policy → Unstructured → Auditor Policy
  unfolding fire
  on_resource_delete a r =
      fire a (record { event_type = entity_delete; event_data = resource_data r })

  pub on_cache_sync : Auditor Policy → Auditor Policy
  unfolding fire
  on_cache_sync a = fire a (record { event_type = entities_sync; event_data = no_data })

  -- HandleAuditCommand, with the goroutine that it starts.
  pub handle_audit_command : Auditor Policy → Auditor Policy
  unfolding fire
  handle_audit_command a = fire a (record { event_type = command; event_data = no_data })

  pub handle_constraints :
      (String → String → Parsed Policy)
      → Auditor Policy
      → List Agent.Constraint
      → Run (Dict ParseError × Auditor Policy)
  unfolding fire
  handle_constraints parse a cs =
      let name = if length a.opa.constraints == 0 then initial else policy_change in
      update_constraints parse a.opa cs >>= λ u.
      let a' : Auditor Policy = record a { opa = u.auditor } in
      let event : AuditEvent = record { event_type = name; event_data = ids_data u.ids } in
      ok (u.errors, if ltb 0 (length u.ids) then fire a' event else a')

  send : Auditor Policy → OpaAuditor Policy → List AuditResult → Auditor Policy
  send a opa results = record a { opa = opa; sent = a.sent ++ results ∷ [] }

  -- The results whose status is not the cached one.
  keep_changed : OpaAuditor Policy → Unstructured → List AuditResult → Run (List AuditResult)
  keep_changed opa resource [] = ok []
  keep_changed opa resource (r ∷ rs) = deref r.constraint_id >>= λ id.
      keep_changed opa resource rs >>= λ kept.
      ok (if check_resource_status_with_constraint opa id resource r.status then r ∷ kept else kept)

  module _ (eval : Policy → Fields → Fields → String → Evaluation) (uuid : String → String)
      (w : World) where
    audit_resource :
        Auditor Policy
        → Unstructured
        → List String
        → String
        → Run (List AuditResult × Option EvalError)
    unfolding first_error
    audit_resource a resource ids trigger =
        audit eval w.get_parents uuid a.opa resource ids trigger >>= λ r. ok (r.0, first_error r.1)

    -- The inner loop of auditAllResourcesAndSendData.
    audit_resources :
        Auditor Policy → List String → String → List Unstructured → Run (Auditor Policy)
    unfolding audit_resource send
    audit_resources a ids trigger [] = ok a
    audit_resources a ids trigger (resource ∷ resources) =
        audit_resource a resource ids trigger >>= λ r.
        update_cache a.opa r.0 >>= λ opa. audit_resources (send a opa r.0) ids trigger resources

    audit_groups :
        Auditor Policy → List String → String → List (List Unstructured) → Run (Auditor Policy)
    unfolding audit_resources
    audit_groups a ids trigger [] = ok a
    audit_groups a ids trigger (resources ∷ groups) =
        audit_resources a ids trigger resources >>= λ a'. audit_groups a' ids trigger groups

    pub audit_all_resources_and_send_data :
        Auditor Policy → List String → String → Run (Auditor Policy)
    unfolding audit_groups
    audit_all_resources_and_send_data a ids trigger = audit_groups a ids trigger w.entities

    handle_change : Auditor Policy → AuditEvent → Run (Auditor Policy)
    unfolding audit_resource as_resource keep_changed send
    handle_change a e =
        let change = as_resource e.event_data >>= λ resource.
        audit_resource a resource [] e.event_type >>= λ r.
        keep_changed a.opa resource r.0 >>= λ results.
        update_cache a.opa results >>= λ opa. ok (send a opa results) in
        if a.entities_synced then change else ok a

    -- The switch of the worker.
    pub handle_event : Auditor Policy → AuditEvent → Run (Auditor Policy)
    unfolding handle_change as_ids as_resource
    handle_event a e =
        let removed =
          as_resource e.event_data >>= λ r. ok (record a { opa = remove_resource a.opa r }) in
        let updated =
          as_ids e.event_data >>= λ ids. audit_all_resources_and_send_data a ids e.event_type in
        if str_eq e.event_type entity_change
        then handle_change a e
        else if str_eq e.event_type entity_delete
        then removed
        else if str_eq e.event_type policy_change || str_eq e.event_type initial
        then updated
        else if str_eq e.event_type entities_sync
        then audit_all_resources_and_send_data (record a { entities_synced = true }) [] e.event_type
        else if str_eq e.event_type command
        then audit_all_resources_and_send_data a [] e.event_type
        else ok a

    -- The worker takes the event at a position of those that wait.
    pub receive : Auditor Policy → ℕ → Run (Auditor Policy)
    receive a i = elim (get_elem? a.pending i) [
      | none ↦ ok a
      | some e ↦ handle_event (record a { pending = take i a.pending ++ drop (suc i) a.pending }) e
    ]

    pub tick : Auditor Policy → Run (Auditor Policy)
    tick a = audit_all_resources_and_send_data a [] periodic

-- What may happen next: a handler is called, the worker takes an event, or the ticker fires.
pub data Action : Type 0 where
  add delete : Unstructured → Action
  update : Unstructured → Unstructured → Action
  sync audit_command : Action
  constraints : List Agent.Constraint → Action
  worker : World → ℕ → Action
  ticker : World → Action

module _ {Policy : Type 0} (parse : String → String → Parsed Policy)
    (eval : Policy → Fields → Fields → String → Evaluation) (uuid : String → String) where
  unfoldable pub act : Auditor Policy → Action → Run (Auditor Policy)
  act a (add r) = ok (on_resource_add a r)
  act a (update old r) = ok (on_resource_update a old r)
  act a (delete r) = ok (on_resource_delete a r)
  act a sync = ok (on_cache_sync a)
  act a audit_command = ok (handle_audit_command a)
  act a (constraints cs) = handle_constraints parse a cs >>= λ r. ok r.1
  act a (worker w i) = receive eval uuid w a i
  act a (ticker w) = tick eval uuid w a

  unfoldable pub run : Auditor Policy → List Action → Run (Auditor Policy)
  run a [] = ok a
  run a (x ∷ xs) = act a x >>= λ a'. run a' xs
