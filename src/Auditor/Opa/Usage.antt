-- ===== src/Auditor/Opa/Usage.antt =====
-- What UpdateConstraint and RemoveConstraint do while the usage counts are right.
use magalix_agent.Prelude.{
  ◌+◌, ◌-◌, ◌<◌, ◌≡◌, refl, inl, inr, String, Bool, true, ◌&&◌, none, some, Returns, ltb, str_eq,
  eq_iff, eq_refl, if◌then◌else◌, arith, Option-cases, Bool-cases,
}
use magalix_agent.Prelude.Dict
use magalix_agent.Prelude.Dict.{
  Dict, HasUniqueKeys, lookup-insert, lookup-remove, insert-HasUniqueKeys, remove-HasUniqueKeys,
}
use magalix_agent.Agent.Governance as Agent
use magalix_agent.Auditor.Cache
use magalix_agent.Auditor.Cache.{get-remove_constraint}
use magalix_agent.Auditor.Opa.{
  Template, Constraint, OpaAuditor, Parsed, parsed, Update, updated, refused, policy_query,
  remove_known, remove_constraint, keep, make_template, new, add_template, use_template,
  replace_template, store_constraint, update_known, update_constraint,
}
use magalix_agent.Auditor.Opa.Counts.{
  uses, uses-insert_new, uses-insert_old, uses-remove, IsCounted, template_exists,
}

module _ {Policy : Type 0} where
  pub record Removed (a : OpaAuditor Policy) (id : String) (a' : OpaAuditor Policy) : Type 0 where
    pub counted : IsCounted a'
    pub gone :
        (k : String)
        → Dict.lookup k a'.constraints ≡ (if str_eq id k then none else Dict.lookup k a.constraints)
    pub forgotten :
        (c : Constraint) (resource_id : String)
        → Dict.lookup id a.constraints ≡ some c
        → Cache.get a'.cache id resource_id ≡ none
    pub uncached :
        (constraint_id resource_id : String)
        → Cache.get a.cache constraint_id resource_id ≡ none
        → Cache.get a'.cache constraint_id resource_id ≡ none

  remove_known-Removed :
      (a : OpaAuditor Policy) (k : String) (c : Constraint) (x : Template Policy)
      → IsCounted a
      → Dict.lookup k a.constraints ≡ some c
      → Dict.lookup c.template_id a.templates ≡ some x
      → Returns (Removed a k) (remove_known a k c)
  unfolding remove_known
  remove_known-Removed a k c x v h e =
      let less = record x { usage_count = x.usage_count - 1 } in
      let put = λ (t : String). lookup-insert c.template_id t less a.templates in
      let drop = λ (t : String). lookup-remove c.template_id t a.templates in
      rw e (record {
        counted = record {
          unique = remove-HasUniqueKeys k a.constraints v.unique;
          counted = λ t. ground (
            arith,
            v.counted t,
            v.positive c.template_id x e,
            uses-remove t k c a.constraints v.unique h,
            put t,
            drop t,
            eq_iff c.template_id t,
          );
          positive = λ t y p. ground (arith, v.positive t y, put t, drop t);
        };
        gone = λ j. lookup-remove k j a.constraints;
        forgotten = λ _ r _. simp (get-remove_constraint, eq_refl);
        uncached = λ j r e'. ground (arith, get-remove_constraint a.cache k j r);
      })

  -- With right counts RemoveConstraint follows no nil template and keeps the counts right; it
  -- forgets the constraint and no other, and the cached results of a constraint that it knew.
  pub remove_constraint-Removed :
      (a : OpaAuditor Policy) (id : String)
      → IsCounted a
      → Returns (Removed a id) (remove_constraint a id)
  unfolding remove_constraint
  remove_constraint-Removed a id v = elim (Option-cases (Dict.lookup id a.constraints)) [
    | inl missing ↦
        rw (missing, remove_constraint)
          (record {
            counted = v;
            gone = λ k. ground (arith, eq_iff id k);
            forgotten = λ c r h. cc (missing, h);
            uncached = λ j r e'. e';
          })
    | inr (c, h) ↦
        let (x, e) = template_exists a id c v h in
        rw (h, remove_constraint) (remove_known-Removed a id c x v h e)
  ]

  -- A constraint is news if it is not known, or known in an older version.
  unfoldable pub is_news : OpaAuditor Policy → Agent.Constraint → Bool
  is_news a c = elim (Dict.lookup c.id a.constraints) [
    | none ↦ true
    | some old ↦ ltb old.updated_at c.updated_at
  ]

  is_news_new :
      (a : OpaAuditor Policy) (c : Agent.Constraint)
      → Dict.lookup c.id a.constraints ≡ none
      → is_news a c ≡ true
  unfolding is_news
  is_news_new a c h = rw (h, is_news)

  is_news_known :
      (a : OpaAuditor Policy) (c : Agent.Constraint) (old : Constraint)
      → Dict.lookup c.id a.constraints ≡ some old
      → is_news a c ≡ ltb old.updated_at c.updated_at
  unfolding is_news
  is_news_known a c old h = rw (h, is_news)

  module _ (parse : String → String → Parsed Policy) where
    -- The state that UpdateConstraint leaves.
    abbrev pub state : Update Policy → OpaAuditor Policy
    state (updated changed a) = a
    state (refused e a) = a

    pub record Updated (a : OpaAuditor Policy) (c : Agent.Constraint) (u : Update Policy)
        : Type 0 where
      pub counted : IsCounted (state u)
      pub same_cache : (state u).cache ≡ a.cache
      pub reported : u ≡ updated (is_news a c) (state u)
      pub kept :
          (k : String)
          → Dict.lookup k (state u).constraints
            ≡ (if is_news a c && str_eq c.id k then some (keep c) else Dict.lookup k a.constraints)

    module _ (a : OpaAuditor Policy) (c : Agent.Constraint) (policy : Policy)
        (v : IsCounted a) where
      -- The auditor with the constraint stored and a template in place of what its id had.
      abbrev with_template : Template Policy → OpaAuditor Policy
      with_template x = record a {
        templates = Dict.insert c.template_id x a.templates;
        constraints = Dict.insert c.id (keep c) a.constraints;
      }

      with_template-IsCounted :
          (x : Template Policy)
          → 0 < x.usage_count
          → ((t : String)
              → (if str_eq c.template_id t then x.usage_count else uses t a.constraints)
                ≡ uses t (Dict.insert c.id (keep c) a.constraints))
          → IsCounted (with_template x)
      with_template-IsCounted x pos counts =
          let put = λ (t : String). lookup-insert c.template_id t x a.templates in
          record {
            unique = insert-HasUniqueKeys c.id (keep c) a.constraints v.unique;
            counted = λ t. ground (arith, v.counted t, counts t, put t);
            positive = λ t y p. ground (arith, v.positive t y, put t);
          }

      use_template-Updated :
          Dict.lookup c.id a.constraints ≡ none
          → parse c.code policy_query ≡ parsed policy
          → Updated a c
              (use_template parse (store_constraint a c) c (Dict.lookup c.template_id a.templates))
      unfolding use_template add_template store_constraint make_template keep
      use_template-Updated new parses =
          let news = is_news_new a c new in
          let stored = λ (k : String). lookup-insert c.id k (keep c) a.constraints in
          let uses' = λ (t : String). uses-insert_new t c.id (keep c) a.constraints new in
          elim (Option-cases (Dict.lookup c.template_id a.templates)) [
            | inl missing ↦
                rw (missing, parses, use_template)
                  (record {
                    counted =
                        with_template-IsCounted (make_template c policy 1) (omega arith)
                          λ t. ground (arith, v.counted t, uses' t, eq_iff c.template_id t);
                    same_cache = refl;
                    reported = rw news;
                    kept = λ k. rw news (stored k);
                  })
            | inr (x, found) ↦
                rw (found, use_template)
                  (record {
                    counted =
                        with_template-IsCounted (record x { usage_count = x.usage_count + 1 })
                          (omega arith)
                          λ t. ground (arith, v.counted t, uses' t, eq_iff c.template_id t);
                    same_cache = refl;
                    reported = rw news;
                    kept = λ k. rw news (stored k);
                  })
          ]

      update_known-Updated :
          (old : Constraint)
          → Dict.lookup c.id a.constraints ≡ some old
          → old.template_id ≡ c.template_id
          → parse c.code policy_query ≡ parsed policy
          → Returns (Updated a c) (update_known parse a c old)
      unfolding update_known replace_template store_constraint make_template keep
      update_known-Updated old known same parses =
          let (x, e) = template_exists a c.id old v known in
          let found : Dict.lookup c.template_id a.templates ≡ some x = cc (e, same) in
          let news = is_news_known a c old known in
          let stored = λ (k : String). lookup-insert c.id k (keep c) a.constraints in
          let uses' = λ (t : String). uses-insert_old t c.id (keep c) old a.constraints known in
          elim (Bool-cases (ltb old.updated_at c.updated_at)) [
            | inr not_newer ↦ rw not_newer (record {
              counted = v;
              same_cache = refl;
              reported = rw (news, not_newer);
              kept = λ k. rw (news, not_newer);
            })
            | inl newer ↦
                rw (newer, parses, found, replace_template)
                  (record {
                    counted =
                        with_template-IsCounted (make_template c policy x.usage_count)
                          (v.positive _ x found)
                          λ t. ground (arith, v.counted t, uses' t, eq_iff c.template_id t);
                    same_cache = refl;
                    reported = rw (news, newer);
                    kept = λ k. rw (news, newer) (stored k);
                  })
          ]

      -- With right counts, a constraint that keeps its template and whose code parses is handled with
      -- no panic and no error: UpdateConstraint stores it exactly if it is unknown or newer than the
      -- known version, reports just that, touches no other constraint and keeps the counts right.
      pub update_constraint-Updated :
          ((old : Constraint)
            → Dict.lookup c.id a.constraints ≡ some old
            → old.template_id ≡ c.template_id)
          → parse c.code policy_query ≡ parsed policy
          → Returns (Updated a c) (update_constraint parse a c)
      unfolding update_constraint
      update_constraint-Updated same parses = elim (Option-cases (Dict.lookup c.id a.constraints)) [
        | inl new ↦ rw (new, update_constraint) (use_template-Updated new parses)
        | inr (old, known) ↦
            rw (known, update_constraint) (update_known-Updated old known (same old known) parses)
      ]
