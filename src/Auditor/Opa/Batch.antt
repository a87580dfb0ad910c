-- ===== src/Auditor/Opa/Batch.antt =====
-- UpdateConstraints over a whole message, and what a template that does not parse leads to.
use magalix_agent.Prelude.{
  ◌<◌, ◌≡◌, refl, sym, ◌∙◌, String, true, false, none, some, List, [], ◌∷◌, ok, panic, ◌>>=◌,
  Returns, Returns-bind, All, All-append, eq_iff, eq_refl, arith, Option-cases, inl, inr,
}
use magalix_agent.Prelude.Dict
use magalix_agent.Prelude.Dict.{Dict, lookup-insert}
use magalix_agent.Agent.Governance as Agent
use magalix_agent.Auditor.Cache
use magalix_agent.Auditor.Cache.{AuditResultsCache, get-remove_constraint}
use magalix_agent.Auditor.Opa.{
  Constraint, OpaAuditor, Parsed, parsed, unparsed, Update, updated, refused, Updates, policy_query,
  keep, describe_error, remove_known, remove_constraint, add_template, use_template,
  replace_template, store_constraint, update_known, update_constraint, collect, update_one,
  update_all, update_constraints,
}
use magalix_agent.Auditor.Opa.Counts.{IsCounted}
use magalix_agent.Auditor.Opa.Usage.{
  remove_constraint-Removed, Updated, state, update_constraint-Updated,
}

module _ {Policy : Type 0} (parse : String → String → Parsed Policy) where
  module _ (template_of : String → String) where
    -- No constraint changes its template, in the auditor and in a message.
    abbrev pub IsStable : OpaAuditor Policy → Type 0
    IsStable a =
        (k : String) (c : Constraint)
        → Dict.lookup k a.constraints ≡ some c
        → c.template_id ≡ template_of k

    pub record IsAcceptable (c : Agent.Constraint) : Type 0 where
      pub policy : Policy
      pub parses : parse c.code policy_query ≡ parsed policy
      pub stable : c.template_id ≡ template_of c.id

    abbrev HasNoResults : AuditResultsCache → String → Type 0
    HasNoResults cache id = (resource_id : String) → Cache.get cache id resource_id ≡ none

    -- What holds after each round: nothing failed, and no result of a constraint that was updated
    -- is still in the cache.
    pub record IsBatch (u : Updates Policy) : Type 0 where
      pub counted : IsCounted u.auditor
      pub stable : IsStable u.auditor
      pub no_errors : u.errors ≡ []
      pub stale : All (HasNoResults u.auditor.cache) u.ids

    HasNoResults-mono :
        (m m' : AuditResultsCache) (ids : List String)
        → ((id : String) → HasNoResults m id → HasNoResults m' id)
        → All (HasNoResults m) ids
        → All (HasNoResults m') ids
    HasNoResults-mono m m' [] keeps h = tt
    HasNoResults-mono m m' (id ∷ ids) keeps h = (keeps id h.0, HasNoResults-mono m m' ids keeps h.1)

    remove_one :
        (u : Updates Policy) (id : String)
        → IsBatch u
        → Returns IsBatch (remove_constraint u.auditor id >>= λ a. ok (record u { auditor = a }))
    remove_one u id b =
        Returns-bind IsBatch (remove_constraint u.auditor id) _
          (remove_constraint-Removed u.auditor id b.counted)
          λ a r. record {
            counted = r.counted;
            stable = λ k c e. ground (arith, b.stable k c, r.gone k);
            no_errors = b.no_errors;
            stale =
                HasNoResults-mono u.auditor.cache a.cache u.ids (λ i h x. r.uncached i x (h x))
                  b.stale;
          }

    Updated-IsStable :
        (a : OpaAuditor Policy) (c : Agent.Constraint) (r : Update Policy)
        → IsStable a
        → c.template_id ≡ template_of c.id
        → Updated parse a c r
        → IsStable (state parse r)
    unfolding keep
    Updated-IsStable a c r b t h = λ k c' e. ground (arith, h.kept k, b k c', eq_iff c.id k)

    collect-IsBatch :
        (u : Updates Policy) (c : Agent.Constraint) (r : Update Policy)
        → IsBatch u
        → c.template_id ≡ template_of c.id
        → Updated parse u.auditor c r
        → IsBatch (collect parse u c.id r)
    unfolding collect
    collect-IsBatch u c (refused e a) b t h = cc h.reported
    collect-IsBatch u c (updated false a) b t h = record {
      counted = h.counted;
      stable = Updated-IsStable u.auditor c _ b.stable t h;
      no_errors = b.no_errors;
      stale = rw h.same_cache b.stale;
    }
    collect-IsBatch u c (updated true a) b t h = record {
      counted = record {
        unique = h.counted.unique;
        counted = h.counted.counted;
        positive = h.counted.positive;
      };
      stable = Updated-IsStable u.auditor c _ b.stable t h;
      no_errors = b.no_errors;
      stale =
          let m = Cache.remove_constraint a.cache c.id in
          All-append (HasNoResults m) u.ids (c.id ∷ [])
            (HasNoResults-mono u.auditor.cache m u.ids
              (λ i k x. ground (arith, get-remove_constraint a.cache c.id i x, k x, h.same_cache))
              b.stale)
            ((λ x. simp (get-remove_constraint, eq_refl)), tt);
    }

    update_one-IsBatch :
        (u : Updates Policy) (c : Agent.Constraint)
        → IsBatch u
        → IsAcceptable c
        → Returns IsBatch (update_one parse u c)
    unfolding update_one
    update_one-IsBatch u c b ok_c = elim (Option-cases c.deleted_at) [
      | inr (d, deleted) ↦ rw (deleted, update_one) (remove_one u c.id b)
      | inl kept ↦
          rw (kept, update_one)
            (Returns-bind IsBatch (update_constraint parse u.auditor c) _
              (update_constraint-Updated parse u.auditor c ok_c.policy b.counted
                (λ old e. b.stable c.id old e ∙ sym ok_c.stable) ok_c.parses)
              λ r h. collect-IsBatch u c r b ok_c.stable h)
    ]

    update_all-IsBatch :
        (u : Updates Policy) (cs : List Agent.Constraint)
        → IsBatch u
        → All IsAcceptable cs
        → Returns IsBatch (update_all parse u cs)
    unfolding update_all
    update_all-IsBatch u [] b h = b
    update_all-IsBatch u (c ∷ cs) b h =
        Returns-bind IsBatch (update_one parse u c) _ (update_one-IsBatch u c b h.0)
          λ u' b'. update_all-IsBatch u' cs b' h.1

    -- In an auditor with right usage counts, a message whose constraints keep their templates and
    -- whose code parses is handled with no panic and no error: the counts stay right, constraints keep
    -- their templates, and the cache holds no result of a constraint that is reported as updated.
    pub update_constraints-IsBatch :
        (a : OpaAuditor Policy) (cs : List Agent.Constraint)
        → IsCounted a
        → IsStable a
        → All IsAcceptable cs
        → Returns IsBatch (update_constraints parse a cs)
    unfolding update_constraints
    update_constraints-IsBatch a cs v t h =
        update_all-IsBatch _ cs (record { counted = v; stable = t; no_errors = refl; stale = tt }) h

  -- A constraint that is new, of a template that is not known, and whose code does not parse is refused, and yet stored: in the
  -- state that UpdateConstraint leaves, RemoveConstraint of it panics, and so does UpdateConstraint with
  -- a newer version of it that names the same template and whose code parses.
  pub update_constraint-unparsed :
      (a : OpaAuditor Policy) (c c' : Agent.Constraint) (e : String) (policy : Policy)
      → Dict.lookup c.id a.constraints ≡ none
      → Dict.lookup c.template_id a.templates ≡ none
      → parse c.code policy_query ≡ unparsed e
      → c'.id ≡ c.id
      → c'.template_id ≡ c.template_id
      → c.updated_at < c'.updated_at
      → parse c'.code policy_query ≡ parsed policy
      → let a' = store_constraint a c in
        (update_constraint parse a c ≡ ok (refused (describe_error c e) a'))
        × (remove_constraint a' c.id ≡ panic)
        × (update_constraint parse a' c' ≡ panic)
  unfolding update_constraint use_template add_template store_constraint update_known
      replace_template remove_constraint remove_known keep
  update_constraint-unparsed a c c' e policy new no_template fails same_id same_template newer
        parses =
      let stored : Dict.lookup c.id (Dict.insert c.id (keep c) a.constraints) ≡ some (keep c) =
        simp (lookup-insert, eq_refl) in
      let stored' : Dict.lookup c'.id (Dict.insert c.id (keep c) a.constraints) ≡ some (keep c) =
        cc (stored, same_id) in
      let missing : Dict.lookup c'.template_id a.templates ≡ none =
        cc (no_template, same_template) in
      (ground arith, ground (arith, stored), ground (arith, stored', missing))
