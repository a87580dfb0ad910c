-- ===== src/Auditor/Opa/Audit/Named.antt =====
-- Every result of Audit names its constraint, so UpdateCache follows no nil pointer with them; it
-- writes the cache alone.
use magalix_agent.Prelude.{
  ◌≡◌, ◌⊎◌, refl, String, Option, true, ◌&&◌, ◌||◌, some, List, [], ◌∷◌, ltb, length, Returns,
  Returns-map, Returns-bind, All, str_eq, arith, inl, inr, Bool-cases,
}
use magalix_agent.Prelude.Dict.{Dict}
use magalix_agent.Value.{Fields}
use magalix_agent.Agent.Governance.{AuditResult}
use magalix_agent.Kuber.Object.{Unstructured}
use magalix_agent.Kuber.Parents.{ParentController}
use magalix_agent.Auditor.Cache
use magalix_agent.Auditor.Opa.{Template, Constraint, OpaAuditor, policy_query}
use magalix_agent.Auditor.Opa.Counts.{IsCounted}
use magalix_agent.Auditor.Opa.Matching.{get_constraints}
use magalix_agent.Auditor.Opa.Audit.{
  Evaluation, audit, put_results, update_cache, result_key, has_parent, remove_resource,
}
use magalix_agent.Auditor.Opa.Audit.Results.{
  HasTextMessage, Audited, done, skip, take, audit-Audited,
}

abbrev pub IsNamed : AuditResult → Type 0
IsNamed r = (id : String) × (r.constraint_id ≡ some id)

empty_cases : {A : Type 0} (xs : List A) → (xs ≡ []) ⊎ (ltb 0 (length xs) ≡ true)
empty_cases [] = inl refl
empty_cases (x ∷ xs) = inr (ground arith)

module _ {Policy : Type 0} (eval : Policy → Fields → Fields → String → Evaluation) where
  Audited-IsNamed :
      (templates : Dict (Template Policy)) (resource : Unstructured) (m : Dict Constraint)
      (rs : List AuditResult)
      → Audited eval templates resource m rs
      → All IsNamed rs
  Audited-IsNamed templates resource [] [] done = tt
  Audited-IsNamed templates resource [] (r ∷ rs) h = elim h [ ]
  Audited-IsNamed templates resource ((id, c) ∷ m) rs (skip _ _ _ _ no_match rest) =
      Audited-IsNamed templates resource m rs rest
  Audited-IsNamed templates resource ((id, c) ∷ m) (r ∷ rs)
        (take _ _ _ _ _ is_match is_result rest) =
      ((c.id, is_result.constraint_id), Audited-IsNamed templates resource m rs rest)

  -- Where policies name their messages by texts, Audit panics nowhere.
  pub audit-IsNamed :
      (get_parents : String → String → String → Option ParentController) (uuid : String → String)
      (a : OpaAuditor Policy) (resource : Unstructured) (ids : List String) (trigger : String)
      → IsCounted a
      → ((p : Policy) (o ps : Fields) → HasTextMessage (eval p o ps policy_query))
      → Returns (λ r. All IsNamed r.0) (audit eval get_parents uuid a resource ids trigger)
  unfolding audit
  audit-IsNamed get_parents uuid a resource ids trigger counted texts =
      let skipped =
        has_parent (get_parents resource.namespace resource.kind resource.name)
        && (str_eq resource.kind "Pod" || str_eq resource.kind "ReplicaSet") in
      elim (empty_cases resource.owner_references) [
        | inr owned ↦ rw owned tt
        | inl unowned ↦ elim (Bool-cases skipped) [
          | inl skips ↦ simp (unowned, skips) tt
          | inr audits ↦
              Returns-map
                {P = λ r. Audited eval a.templates resource (get_constraints ids a.constraints) r.0}
                _ (audit eval get_parents uuid a resource ids trigger)
                (audit-Audited eval get_parents uuid a counted resource ids trigger texts unowned
                  audits)
                λ r h. Audited-IsNamed a.templates resource _ r.0 h
        ]
      ]

put_results-Returns :
    (cache : Cache.AuditResultsCache) (rs : List AuditResult)
    → All IsNamed rs
    → Returns (λ c. Unit) (put_results cache rs)
unfolding put_results
put_results-Returns cache [] h = tt
put_results-Returns cache (r ∷ rs) ((id, e), h) =
    rw e (put_results-Returns (Cache.put cache id (result_key r) r.status) rs h)

-- UpdateCache with results that name their constraints keeps the templates and the constraints.
pub update_cache-Returns :
    {Policy : Type 0} (a : OpaAuditor Policy) (rs : List AuditResult)
    → All IsNamed rs
    → Returns
        (λ b. (b.templates ≡ a.templates) × (b.constraints ≡ a.constraints))
        (update_cache a rs)
unfolding update_cache
update_cache-Returns a rs h =
    Returns-bind {P = λ c. Unit} _ (put_results a.cache rs) _ (put_results-Returns a.cache rs h)
      λ c _. (refl, refl)

pub remove_resource-keeps :
    {Policy : Type 0} (a : OpaAuditor Policy) (r : Unstructured)
    → ((remove_resource a r).templates ≡ a.templates)
      × ((remove_resource a r).constraints ≡ a.constraints)
unfolding remove_resource
remove_resource-keeps a r = (refl, refl)
