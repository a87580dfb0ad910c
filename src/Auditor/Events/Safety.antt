-- ===== src/Auditor/Events/Safety.antt =====
-- What the handlers of the auditor and its worker keep.
use magalix_agent.Prelude.{
  ◌≡◌, refl, String, Bool, true, false, ◌==◌, ltb, List, [], ◌∷◌, ◌++◌, ok, ◌>>=◌, Returns,
  Returns-bind, All, All-append, length, if◌then◌else◌, inl, inr, Bool-cases,
}
use magalix_agent.Value.{Fields}
use magalix_agent.Agent.Governance as Agent
use magalix_agent.Agent.Governance.{AuditResult}
use magalix_agent.Kuber.Object.{Unstructured}
use magalix_agent.Auditor.Opa.{OpaAuditor, Parsed, policy_query, update_constraints}
use magalix_agent.Auditor.Opa.Counts.{IsCounted, IsCounted-same, new-IsCounted, lookup-new}
use magalix_agent.Auditor.Opa.Batch.{IsStable, IsAcceptable, IsBatch, update_constraints-IsBatch}
use magalix_agent.Auditor.Opa.Audit.{
  Evaluation, audit, update_cache, remove_resource, check_resource_status_with_constraint,
}
use magalix_agent.Auditor.Opa.Audit.Results.{HasTextMessage}
use magalix_agent.Auditor.Opa.Audit.Named.{
  IsNamed, audit-IsNamed, update_cache-Returns, remove_resource-keeps,
}
use magalix_agent.Auditor.Events.{
  command, policy_change, entity_change, entity_delete, entities_sync, initial, no_data,
  resource_data, ids_data, AuditEvent, Auditor, World, as_resource, as_ids, new_auditor, fire,
  handle_constraints, send, keep_changed, audit_resource, audit_resources, audit_groups,
  audit_all_resources_and_send_data, handle_change, handle_event,
}

-- The data of the event is what the worker asserts for the event's type.
pub data IsWellTyped : AuditEvent → Type 0 where
  changed :
      (r : Unstructured)
      → IsWellTyped (record { event_type = entity_change; event_data = resource_data r })
  deleted :
      (r : Unstructured)
      → IsWellTyped (record { event_type = entity_delete; event_data = resource_data r })
  first_policies :
      (ids : List String) → IsWellTyped (record { event_type = initial; event_data = ids_data ids })
  policies :
      (ids : List String)
      → IsWellTyped (record { event_type = policy_change; event_data = ids_data ids })
  synced : IsWellTyped (record { event_type = entities_sync; event_data = no_data })
  commanded : IsWellTyped (record { event_type = command; event_data = no_data })

module _ {Policy : Type 0} (parse : String → String → Parsed Policy)
    (template_of : String → String) where
  pub record IsSafe (a : Auditor Policy) : Type 0 where
    pub counted : IsCounted a.opa
    pub stable : IsStable parse template_of a.opa
    pub pending : All IsWellTyped a.pending

  pub new_auditor-IsSafe : IsSafe new_auditor
  unfolding new_auditor
  new_auditor-IsSafe = record {
    counted = new-IsCounted;
    stable = λ k c e. cc (e, lookup-new Policy k);
    pending = tt;
  }

  pub fire-IsSafe :
      (a : Auditor Policy) (e : AuditEvent) → IsSafe a → IsWellTyped e → IsSafe (fire a e)
  unfolding fire
  fire-IsSafe a e s t = record {
    counted = s.counted;
    stable = s.stable;
    pending = All-append IsWellTyped a.pending (e ∷ []) s.pending (t, tt);
  }

  same_opa :
      (a : Auditor Policy) (opa : OpaAuditor Policy) (sent : List (List AuditResult)) (b : Bool)
      → IsSafe a
      → opa.templates ≡ a.opa.templates
      → opa.constraints ≡ a.opa.constraints
      → IsSafe (record a { opa = opa; sent = sent; entities_synced = b })
  same_opa a opa sent b s e f = record {
    counted = IsCounted-same a.opa opa s.counted e f;
    stable = rw f s.stable;
    pending = s.pending;
  }

  pub handle_constraints-IsSafe :
      (a : Auditor Policy) (cs : List Agent.Constraint)
      → IsSafe a
      → All (IsAcceptable parse template_of) cs
      → Returns (λ r. IsSafe r.1) (handle_constraints parse a cs)
  unfolding handle_constraints fire
  handle_constraints-IsSafe a cs s h =
      Returns-bind {P = IsBatch parse template_of} _ (update_constraints parse a.opa cs) _
        (update_constraints-IsBatch parse template_of a.opa cs s.counted s.stable h)
        λ u b.
          let a' : Auditor Policy = record a { opa = u.auditor } in
          let quiet : IsSafe a' = record {
            counted = b.counted;
            stable = b.stable;
            pending = s.pending;
          } in
          let typed : IsWellTyped (record {
            event_type = if length a.opa.constraints == 0 then initial else policy_change;
            event_data = ids_data u.ids;
          }) =
            elim (Bool-cases (length a.opa.constraints == 0)) [
              | inl empty ↦ rw empty (first_policies u.ids)
              | inr some_known ↦ rw some_known (policies u.ids)
            ] in
          elim (Bool-cases (ltb 0 (length u.ids))) [
            | inl fires ↦ rw fires (fire-IsSafe a' _ quiet typed)
            | inr silent ↦ rw silent quiet
          ]

  module _ (eval : Policy → Fields → Fields → String → Evaluation) (uuid : String → String)
      (w : World)
      (texts : (p : Policy) (o ps : Fields) → HasTextMessage (eval p o ps policy_query)) where
    audit_resource-IsNamed :
        (a : Auditor Policy) (r : Unstructured) (ids : List String) (trigger : String)
        → IsSafe a
        → Returns (λ x. All IsNamed x.0) (audit_resource eval uuid w a r ids trigger)
    unfolding audit_resource
    audit_resource-IsNamed a r ids trigger s =
        Returns-bind {P = λ x. All IsNamed x.0} _
          (audit eval w.get_parents uuid a.opa r ids trigger) _
          (audit-IsNamed eval w.get_parents uuid a.opa r ids trigger s.counted texts) λ x h. h

    -- What follows an audit: the results go to the cache and are sent.
    update_and_send-IsSafe :
        (a : Auditor Policy) (rs : List AuditResult)
        → IsSafe a
        → All IsNamed rs
        → Returns IsSafe (update_cache a.opa rs >>= λ opa. ok (send a opa rs))
    unfolding send
    update_and_send-IsSafe a rs s h =
        Returns-bind
          {P = λ b. (b.templates ≡ a.opa.templates) × (b.constraints ≡ a.opa.constraints)} _
          (update_cache a.opa rs) _ (update_cache-Returns a.opa rs h)
          λ opa (e, f). same_opa a opa (a.sent ++ rs ∷ []) a.entities_synced s e f

    audit_resources-IsSafe :
        (a : Auditor Policy) (ids : List String) (trigger : String) (rs : List Unstructured)
        → IsSafe a
        → Returns IsSafe (audit_resources eval uuid w a ids trigger rs)
    unfolding audit_resources send
    audit_resources-IsSafe a ids trigger [] s = s
    audit_resources-IsSafe a ids trigger (r ∷ rs) s =
        Returns-bind {P = λ x. All IsNamed x.0} _ (audit_resource eval uuid w a r ids trigger) _
          (audit_resource-IsNamed a r ids trigger s)
          λ x h.
            Returns-bind
              {P = λ b. (b.templates ≡ a.opa.templates) × (b.constraints ≡ a.opa.constraints)} _
              (update_cache a.opa x.0) _ (update_cache-Returns a.opa x.0 h)
              λ opa (e, f).
                audit_resources-IsSafe (send a opa x.0) ids trigger rs
                  (same_opa a opa (a.sent ++ x.0 ∷ []) a.entities_synced s e f)

    audit_groups-IsSafe :
        (a : Auditor Policy) (ids : List String) (trigger : String)
        (groups : List (List Unstructured))
        → IsSafe a
        → Returns IsSafe (audit_groups eval uuid w a ids trigger groups)
    unfolding audit_groups
    audit_groups-IsSafe a ids trigger [] s = s
    audit_groups-IsSafe a ids trigger (rs ∷ groups) s =
        Returns-bind {P = IsSafe} _ (audit_resources eval uuid w a ids trigger rs) _
          (audit_resources-IsSafe a ids trigger rs s)
          λ a' s'. audit_groups-IsSafe a' ids trigger groups s'

    pub audit_all-IsSafe :
        (a : Auditor Policy) (ids : List String) (trigger : String)
        → IsSafe a
        → Returns IsSafe (audit_all_resources_and_send_data eval uuid w a ids trigger)
    unfolding audit_all_resources_and_send_data
    audit_all-IsSafe a ids trigger s = audit_groups-IsSafe a ids trigger w.entities s

    keep_changed-IsNamed :
        (opa : OpaAuditor Policy) (r : Unstructured) (rs : List AuditResult)
        → All IsNamed rs
        → Returns (All IsNamed) (keep_changed opa r rs)
    unfolding keep_changed
    keep_changed-IsNamed opa r [] h = tt
    keep_changed-IsNamed opa r (x ∷ rs) ((id, e), h) = rw e (
        Returns-bind {P = All IsNamed} (All IsNamed) (keep_changed opa r rs) _
          (keep_changed-IsNamed opa r rs h)
          λ kept k. elim (Bool-cases (check_resource_status_with_constraint opa id r x.status)) [
            | inl differs ↦ rw differs ((id, refl), k)
            | inr same ↦ rw same k
          ])

    handle_change-IsSafe :
        (a : Auditor Policy) (r : Unstructured)
        → IsSafe a
        → Returns IsSafe (
            handle_change eval uuid w a
              (record { event_type = entity_change; event_data = resource_data r }))
    unfolding handle_change as_resource
    handle_change-IsSafe a r s = elim (Bool-cases a.entities_synced) [
      | inr early ↦
          let s' : IsSafe (record a { entities_synced = false }) = record {
            counted = s.counted;
            stable = s.stable;
            pending = s.pending;
          } in
          rw early s'
      | inl ready ↦
          let a' : Auditor Policy = record a { entities_synced = true } in
          let s' : IsSafe a' = record {
            counted = s.counted;
            stable = s.stable;
            pending = s.pending;
          } in
          rw ready (
            Returns-bind {P = λ x. All IsNamed x.0} _
              (audit_resource eval uuid w a r [] entity_change) _
              (audit_resource-IsNamed a r [] entity_change s)
              λ x h.
                Returns-bind {P = All IsNamed} _ (keep_changed a.opa r x.0) _
                  (keep_changed-IsNamed a.opa r x.0 h) λ rs k. update_and_send-IsSafe a' rs s' k)
    ]

    -- Every event that is well typed is handled.
    pub handle_event-IsSafe :
        (a : Auditor Policy) (e : AuditEvent)
        → IsSafe a
        → IsWellTyped e
        → Returns IsSafe (handle_event eval uuid w a e)
    unfolding handle_event as_resource as_ids
    handle_event-IsSafe a _ s (changed r) = handle_change-IsSafe a r s
    handle_event-IsSafe a _ s (deleted r) =
        let (e, f) = remove_resource-keeps a.opa r in
        same_opa a (remove_resource a.opa r) a.sent a.entities_synced s e f
    handle_event-IsSafe a _ s (first_policies ids) = audit_all-IsSafe a ids initial s
    handle_event-IsSafe a _ s (policies ids) = audit_all-IsSafe a ids policy_change s
    handle_event-IsSafe a _ s synced =
        audit_all-IsSafe (record a { entities_synced = true }) [] entities_sync
          (same_opa a a.opa a.sent true s refl refl)
    handle_event-IsSafe a _ s commanded = audit_all-IsSafe a [] command s
