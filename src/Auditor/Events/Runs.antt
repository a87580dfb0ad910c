-- ===== src/Auditor/Events/Runs.antt =====
-- The runs of the auditor: its handlers, its worker and its ticker in any order.
use magalix_agent.Prelude.{
  ℕ, zero, suc, ◌≡◌, String, some, List, [], ◌∷◌, ◌++◌, Returns, Returns-bind, All, get_elem?, take,
  drop, inl, inr, Option-cases,
}
use magalix_agent.Value.{Fields}
use magalix_agent.Auditor.Opa.{Parsed, policy_query}
use magalix_agent.Auditor.Opa.Batch.{IsAcceptable}
use magalix_agent.Auditor.Opa.Audit.{Evaluation}
use magalix_agent.Auditor.Opa.Audit.Results.{HasTextMessage}
use magalix_agent.Auditor.Events.{
  periodic, Auditor, World, new_auditor, on_resource_add, on_resource_update, on_resource_delete,
  on_cache_sync, handle_audit_command, handle_constraints, receive, tick, Action, add, delete,
  update, sync, audit_command, constraints, worker, ticker, act, run,
}
use magalix_agent.Auditor.Events.Safety.{
  IsWellTyped, changed, deleted, synced, commanded, IsSafe, new_auditor-IsSafe, fire-IsSafe,
  handle_constraints-IsSafe, audit_all-IsSafe, handle_event-IsSafe,
}

-- An item of a list and the others.
All-split :
    {A : Type 0} (P : A → Type 0) (xs : List A) (i : ℕ) (x : A)
    → All P xs
    → get_elem? xs i ≡ some x
    → P x × All P (take i xs ++ drop (suc i) xs)
All-split P [] i x h e = cc e
All-split P (y ∷ ys) zero x (now, later) e = let same : y ≡ x = cc e in (rw same at now, later)
All-split P (y ∷ ys) (suc i) x (now, later) e =
    let (here, others) = All-split P ys i x later e in (here, (now, others))

module _ {Policy : Type 0} (parse : String → String → Parsed Policy)
    (template_of : String → String) where
  module _ (eval : Policy → Fields → Fields → String → Evaluation) (uuid : String → String)
      (w : World)
      (texts : (p : Policy) (o ps : Fields) → HasTextMessage (eval p o ps policy_query)) where
    receive-IsSafe :
        (a : Auditor Policy) (i : ℕ)
        → IsSafe parse template_of a
        → Returns (IsSafe parse template_of) (receive eval uuid w a i)
    unfolding receive
    receive-IsSafe a i s = elim (Option-cases (get_elem? a.pending i)) [
      | inl absent ↦ rw (absent, receive) s
      | inr (e, present) ↦
          let rest : Auditor Policy = record a {
            pending = take i a.pending ++ drop (suc i) a.pending;
          } in
          let (typed, others) = All-split IsWellTyped a.pending i e s.pending present in
          rw (present, receive)
            (handle_event-IsSafe parse template_of eval uuid w texts rest e
              (record { counted = s.counted; stable = s.stable; pending = others }) typed)
    ]

  module _ (eval : Policy → Fields → Fields → String → Evaluation) (uuid : String → String)
      (texts : (p : Policy) (o ps : Fields) → HasTextMessage (eval p o ps policy_query)) where
    -- A message of constraints keeps their templates and has code that parses.
    abbrev pub IsAllowed : Action → Type 0
    IsAllowed (constraints cs) = All (IsAcceptable parse template_of) cs
    IsAllowed (add r) = Unit
    IsAllowed (update old r) = Unit
    IsAllowed (delete r) = Unit
    IsAllowed sync = Unit
    IsAllowed audit_command = Unit
    IsAllowed (worker w i) = Unit
    IsAllowed (ticker w) = Unit

    act-IsSafe :
        (a : Auditor Policy) (x : Action)
        → IsSafe parse template_of a
        → IsAllowed x
        → Returns (IsSafe parse template_of) (act parse eval uuid a x)
    unfolding act on_resource_add on_resource_update on_resource_delete on_cache_sync
        handle_audit_command tick
    act-IsSafe a (add r) s h = fire-IsSafe parse template_of a _ s (changed r)
    act-IsSafe a (update old r) s h = fire-IsSafe parse template_of a _ s (changed r)
    act-IsSafe a (delete r) s h = fire-IsSafe parse template_of a _ s (deleted r)
    act-IsSafe a sync s h = fire-IsSafe parse template_of a _ s synced
    act-IsSafe a audit_command s h = fire-IsSafe parse template_of a _ s commanded
    act-IsSafe a (constraints cs) s h =
        Returns-bind {P = λ r. IsSafe parse template_of r.1} (IsSafe parse template_of)
          (handle_constraints parse a cs) _ (handle_constraints-IsSafe parse template_of a cs s h)
          λ r k. k
    act-IsSafe a (worker w i) s h = receive-IsSafe eval uuid w texts a i s
    act-IsSafe a (ticker w) s h =
        audit_all-IsSafe parse template_of eval uuid w texts a [] periodic s

    run_from-IsSafe :
        (a : Auditor Policy) (xs : List Action)
        → IsSafe parse template_of a
        → All IsAllowed xs
        → Returns (IsSafe parse template_of) (run parse eval uuid a xs)
    unfolding run
    run_from-IsSafe a [] s h = s
    run_from-IsSafe a (x ∷ xs) s (allowed, h) =
        Returns-bind {P = IsSafe parse template_of} (IsSafe parse template_of)
          (act parse eval uuid a x) _ (act-IsSafe a x s allowed) λ a' s'. run_from-IsSafe a' xs s' h

    -- From a new auditor, with policies whose violations name their message by a text, and with
    -- messages whose constraints keep their templates and have code that parses, no interleaving of
    -- the handlers, the worker and the ticker, each of them atomic, panics, whatever the cluster holds: the usage counts are
    -- right, the constraints keep their templates, and each event that waits has the data of its type.
    pub run-IsSafe :
        (xs : List Action)
        → All IsAllowed xs
        → Returns (IsSafe parse template_of) (run parse eval uuid new_auditor xs)
    run-IsSafe xs h = run_from-IsSafe new_auditor xs (new_auditor-IsSafe parse template_of) h
