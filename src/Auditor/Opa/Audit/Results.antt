-- ===== src/Auditor/Opa/Audit/Results.antt =====
-- What Audit returns: one result for each matching constraint, with the status of its evaluation.
use mathlib.Core.List.{append-nil, append_assoc}
use magalix_agent.Prelude.{
  ◌≡◌, ◌⊎◌, inl, inr, refl, sym, ap, ◌∙◌, String, false, ◌&&◌, ◌||◌, Option, none, some, List, [],
  ◌∷◌, ◌++◌, Returns, Returns-bind, Returns-map, All, str_eq, Bool-cases,
}
use magalix_agent.Prelude.Dict
use magalix_agent.Prelude.Dict.{Dict, All-lookup}
use magalix_agent.Value.{Value, text, Fields}
use magalix_agent.Value
use magalix_agent.Agent.Governance.{Status, violating, compliant, no_status, AuditResult}
use magalix_agent.Kuber.Object.{Unstructured}
use magalix_agent.Kuber.Parents.{ParentController}
use magalix_agent.Auditor.Opa.{Template, Constraint, OpaAuditor, policy_query}
use magalix_agent.Auditor.Opa.Counts.{IsCounted, template_exists}
use magalix_agent.Auditor.Opa.Matching.{
  get_constraints-HasUniqueKeys, get_constraints-known, match_entity, get_constraints,
  match_entity_iff, IsMatch,
}
use magalix_agent.Auditor.Opa.Audit.{
  Evaluation, complies, violates, fails, EvalError, details_map, title_of, start_result,
  finish_result, audit_constraint, audit_loop, has_parent, audit,
}

-- The status that an evaluation gives.
abbrev pub status_of : Evaluation → Status
status_of complies = compliant
status_of (violates details) = violating
status_of (fails e) = no_status

-- The details of a violation name their message by a text, if they name one.
abbrev pub HasTextMessage : Evaluation → Type 0
HasTextMessage complies = Unit
HasTextMessage (violates details) =
    (Value.lookup "msg" (details_map details) ≡ none)
    ⊎ ((s : String) × (Value.lookup "msg" (details_map details) ≡ some (text s)))
HasTextMessage (fails e) = Unit

-- Each constraint of the map has its template.
abbrev HasTemplates {ℓ} : {P : Type ℓ} → Dict P → Dict Constraint → Type ℓ
HasTemplates {P = P} templates m =
    All (λ kc. (t : P) × (Dict.lookup (kc.1).template_id templates ≡ some t)) m

title_of-Returns :
    (name : String) (details : Value)
    → HasTextMessage (violates details)
    → Returns (λ title. Unit) (title_of (details_map details) name)
unfolding title_of
title_of-Returns name details (inl absent) = rw (absent, title_of) tt
title_of-Returns name details (inr (s, present)) = rw (present, title_of) tt

module _ {Policy : Type 0} (eval : Policy → Fields → Fields → String → Evaluation)
    (templates : Dict (Template Policy)) (resource : Unstructured) where
  -- `r` is the result of the constraint: it names it and the resource, and its status is what the
  -- policy of the template of the constraint says of the resource.
  pub record IsResultOf (c : Constraint) (r : AuditResult) : Type 0 where
    pub template : Template Policy
    pub has_template : Dict.lookup c.template_id templates ≡ some template
    pub constraint_id : r.constraint_id ≡ some c.id
    pub template_id : r.template_id ≡ some c.template_id
    pub entity_name : r.entity_name ≡ some resource.name
    pub entity_kind : r.entity_kind ≡ some resource.kind
    pub namespace_name : r.namespace_name ≡ some resource.namespace
    pub status :
        r.status ≡ status_of (eval template.policy resource.object c.parameters policy_query)

  -- The results of a map of constraints: one for each constraint that matches, in order.
  pub data Audited : Dict Constraint → List AuditResult → Type 0 where
    done : Audited [] []
    skip :
        (id : String) (c : Constraint) (m : Dict Constraint) (rs : List AuditResult)
        → ¬ IsMatch resource c.matches
        → Audited m rs
        → Audited ((id, c) ∷ m) rs
    take :
        (id : String) (c : Constraint) (m : Dict Constraint) (r : AuditResult)
        (rs : List AuditResult)
        → IsMatch resource c.matches
        → IsResultOf c r
        → Audited m rs
        → Audited ((id, c) ∷ m) (r ∷ rs)

  module _ (uuid : String → String) (parent : Option ParentController) (trigger : String) where
    -- The result keeps what the constraint and the resource gave it, whatever status it gets.
    IsResultOf-with :
        (c : Constraint) (t : Template Policy) (s : Status) (msg : Option String)
        → Dict.lookup c.template_id templates ≡ some t
        → s ≡ status_of (eval t.policy resource.object c.parameters policy_query)
        → IsResultOf c (record (start_result c t resource parent trigger (uuid c.id)) {
          status = s;
          msg = msg;
        })
    unfolding start_result
    IsResultOf-with c t s msg found e = record {
      template = t;
      has_template = found;
      constraint_id = refl;
      template_id = refl;
      entity_name = refl;
      entity_kind = refl;
      namespace_name = refl;
      status = e;
    }

    finish_result-IsResultOf :
        (c : Constraint) (t : Template Policy) (e : Evaluation)
        → Dict.lookup c.template_id templates ≡ some t
        → eval t.policy resource.object c.parameters policy_query ≡ e
        → HasTextMessage e
        → Returns
            (λ r. IsResultOf c r.0)
            (finish_result c resource (start_result c t resource parent trigger (uuid c.id)) e)
    unfolding finish_result start_result
    finish_result-IsResultOf c t complies found ev h =
        IsResultOf-with c t compliant none found (sym (ap status_of ev))
    finish_result-IsResultOf c t (violates details) found ev h =
        Returns-bind (λ r. IsResultOf c r.0) (title_of (details_map details) c.name) _
          (title_of-Returns c.name details h)
          λ title _. IsResultOf-with c t violating _ found (sym (ap status_of ev))
    finish_result-IsResultOf c t (fails e) found ev h =
        IsResultOf-with c t no_status none found (sym (ap status_of ev))

    module _
        (texts : (p : Policy) (o ps : Fields) → HasTextMessage (eval p o ps policy_query)) where
      audit_constraint-IsResultOf :
          (c : Constraint) (t : Template Policy)
          → Dict.lookup c.template_id templates ≡ some t
          → Returns
              (λ r. IsResultOf c r.0)
              (audit_constraint eval uuid templates resource parent trigger c)
      unfolding audit_constraint
      audit_constraint-IsResultOf c t found =
          rw found (
            finish_result-IsResultOf c t _ found refl (texts t.policy resource.object c.parameters))

      -- What the loop appends.
      abbrev Appended :
          Dict Constraint → List AuditResult → List AuditResult × List EvalError → Type 0
      Appended m results r = (rs : List AuditResult) × (r.0 ≡ results ++ rs) × Audited m rs

      audit_loop-Audited :
          (m : Dict Constraint) (results : List AuditResult) (errs : List EvalError)
          → HasTemplates templates m
          → Returns
              (Appended m results)
              (audit_loop eval uuid templates resource parent trigger m results errs)
      unfolding audit_loop
      audit_loop-Audited [] results errs h = ([], sym (append-nil results), done)
      audit_loop-Audited ((id, c) ∷ m) results errs h =
          let (sound, complete) = match_entity_iff resource c.matches in
          elim (Bool-cases (match_entity resource c.matches)) [
            | inl yes_match ↦ rw yes_match (
                Returns-bind (Appended ((id, c) ∷ m) results)
                  (audit_constraint eval uuid templates resource parent trigger c) _
                  (audit_constraint-IsResultOf c _ (h.0).1)
                  λ r is_result.
                    Returns-map (Appended ((id, c) ∷ m) results) _
                      (audit_loop-Audited m (results ++ r.0 ∷ []) (errs ++ r.1) h.1)
                      λ o (rs, e, rest). (
                        r.0 ∷ rs,
                        e ∙ append_assoc results (r.0 ∷ []) rs,
                        take id c m r.0 rs (sound yes_match) is_result rest,
                      ))
            | inr no_match ↦ rw no_match (
                Returns-map (Appended ((id, c) ∷ m) results) _
                  (audit_loop-Audited m results errs h.1)
                  λ o (rs, e, rest).
                    (rs, e, skip id c m rs (λ is_match. cc (complete is_match, no_match)) rest))
          ]

module _ {Policy : Type 0} (eval : Policy → Fields → Fields → String → Evaluation)
    (get_parents : String → String → String → Option ParentController) (uuid : String → String)
    (a : OpaAuditor Policy) (counted : IsCounted a) where
  selected_HasTemplates :
      (ids : List String) → HasTemplates a.templates (get_constraints ids a.constraints)
  selected_HasTemplates ids =
      All-lookup _ (get_constraints ids a.constraints)
        (get_constraints-HasUniqueKeys ids a.constraints counted.unique)
        λ k c e. template_exists a k c counted (get_constraints-known k ids a.constraints c e)

  -- In an auditor with right usage counts, and with policies whose violations name their message by a
  -- text, the audit of an object without owners, which is no pod and no replica set with parents,
  -- panics nowhere: it returns one result for each selected constraint that matches and none for the
  -- others, each with the ids of the constraint, the identity of the object, and the status that the
  -- policy of the template of the constraint gives.
  pub audit-Audited :
      (resource : Unstructured) (ids : List String) (trigger : String)
      → ((p : Policy) (o ps : Fields) → HasTextMessage (eval p o ps policy_query))
      → resource.owner_references ≡ []
      → (has_parent (get_parents resource.namespace resource.kind resource.name)
          && (str_eq resource.kind "Pod" || str_eq resource.kind "ReplicaSet"))
        ≡ false
      → Returns
          (λ r. Audited eval a.templates resource (get_constraints ids a.constraints) r.0)
          (audit eval get_parents uuid a resource ids trigger)
  unfolding audit
  audit-Audited resource ids trigger texts unowned unskipped =
      let parent = get_parents resource.namespace resource.kind resource.name in
      let m = get_constraints ids a.constraints in
      simp (unowned, unskipped)
        (Returns-map {P = Appended eval a.templates resource uuid parent trigger texts m []} _ _
          (audit_loop-Audited eval a.templates resource uuid parent trigger texts m [] []
            (selected_HasTemplates ids))
          λ o (rs, e, rest). rw e rest)
