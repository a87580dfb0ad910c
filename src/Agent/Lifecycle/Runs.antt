-- ===== src/Agent/Lifecycle/Runs.antt =====
-- Every interleaving in which a restart arrives once at most.
use magalix_agent.Prelude.{
  ℕ, zero, suc, ◌+◌, ◌≤◌, ◌≡◌, refl, Option, none, some, List, [], ◌∷◌, ◌++◌, All-append, arith,
  length, get_elem?, Returns, Returns-bind, Returns-map, length-append, ok,
}
use magalix_agent.Agent.Lifecycle.{
  Agent, Restart, tests_sources, handle_restart, Action, restarts, goes_on, stops, authorizes, ends,
  joins, go_on, act_running, act, run,
}
use magalix_agent.Agent.Lifecycle.Ordered.{
  IsPlace, IsOrdered, stop-IsOrdered, wait_group-IsOrdered, wait_authorization-IsOrdered,
  end_member-IsOrdered,
}
use magalix_agent.Agent.Lifecycle.Restarted.{handle_restart-IsOrdered}

go_on-IsOrdered :
    (a : Agent) (rs : List Restart) (i : ℕ)
    → IsOrdered a rs
    → length rs ≤ 1
    → Returns (λ s. IsOrdered s.0 s.1 × (length s.1 ≡ length rs)) (go_on a rs i (get_elem? rs i))
unfolding go_on
go_on-IsOrdered a [] i o h = (o, refl)
go_on-IsOrdered a (r ∷ []) (suc i) o h = (o, refl)
go_on-IsOrdered a (r ∷ []) zero o h =
    Returns-bind {P = λ n. IsOrdered n.0 (n.1 ∷ [])} _ (handle_restart a r) _
      (handle_restart-IsOrdered a r o) λ n p. (p, refl)
go_on-IsOrdered a (r ∷ r' ∷ rs) i o h = absurd (omega (arith, h))

abbrev pub arrivals : List Action → ℕ
arrivals [] = 0
arrivals (restarts ∷ later) = suc (arrivals later)
arrivals (goes_on i ∷ later) = arrivals later
arrivals (stops ∷ later) = arrivals later
arrivals (authorizes failed ∷ later) = arrivals later
arrivals (ends m ∷ later) = arrivals later
arrivals (joins ∷ later) = arrivals later

-- The state is in order, and no more restarts are there than have arrived.
abbrev IsAfter : ℕ → Agent × List Restart → Type 0
IsAfter n (a, rs) = IsOrdered a rs × (length rs ≤ n)

pub arrived-IsOrdered :
    (a : Agent) (rs : List Restart) → IsOrdered a rs → IsOrdered a (rs ++ tests_sources ∷ [])
arrived-IsOrdered a rs o = record {
  sources_cleared = o.sources_cleared;
  sinks_cleared = o.sinks_cleared;
  sources_first = o.sources_first;
  places = All-append (IsPlace a) rs (tests_sources ∷ []) o.places (tt, tt);
  stopped = o.stopped;
  refused = o.refused;
  without_gateway = o.without_gateway;
  without_entities = o.without_entities;
  without_auditor = o.without_auditor;
}

module _ (a : Agent) (rs : List Restart) (o : IsOrdered a rs) where
  act_running-IsAfter :
      (t : Action)
      → length rs + arrivals (t ∷ []) ≤ 1
      → a.exit_code ≡ none
      → Returns (IsAfter (length rs + arrivals (t ∷ []))) (act_running t a rs)
  unfolding act_running
  act_running-IsAfter restarts h e =
      (arrived-IsOrdered a rs o, omega (arith, length-append rs (tests_sources ∷ [])))
  act_running-IsAfter (goes_on i) h e =
      Returns-map {P = λ s. IsOrdered s.0 s.1 × (length s.1 ≡ length rs)} _
        (go_on a rs i (get_elem? rs i)) (go_on-IsOrdered a rs i o (omega (arith, h)))
        λ s (p, q). (p, omega (arith, q))
  act_running-IsAfter stops h e = (stop-IsOrdered a rs o, omega arith)
  act_running-IsAfter (authorizes failed) h e =
      (wait_authorization-IsOrdered a rs o e failed, omega arith)
  act_running-IsAfter (ends m) h e = (end_member-IsOrdered a rs o e m, omega arith)
  act_running-IsAfter joins h e = (wait_group-IsOrdered a rs o, omega arith)

  act-IsAfter :
      (t : Action)
      → length rs + arrivals (t ∷ []) ≤ 1
      → Returns (IsAfter (length rs + arrivals (t ∷ []))) (act t (a, rs))
  unfolding act
  act-IsAfter t h = by_exit a.exit_code refl
    where
      by_exit :
          (code : Option ℕ)
          → a.exit_code ≡ code
          → Returns
              (IsAfter (length rs + arrivals (t ∷ [])))
              (elim code [ some n ↦ ok (a, rs) | none ↦ act_running t a rs ])
      by_exit none e = act_running-IsAfter t h e
      by_exit (some n) e = (o, omega arith)

pub arrivals-cons :
    (t : Action) (later : List Action) → arrivals (t ∷ later) ≡ arrivals (t ∷ []) + arrivals later
arrivals-cons restarts later = omega arith
arrivals-cons (goes_on i) later = omega arith
arrivals-cons stops later = omega arith
arrivals-cons (authorizes failed) later = omega arith
arrivals-cons (ends m) later = omega arith
arrivals-cons joins later = omega arith

-- From an agent in order, every interleaving in which one restart arrives at most, one that is under way
-- included, returns (no cancel function is nil when it is called) and leaves the agent in order: the context of the sinks
-- is cancelled only after that of the sources, the process exits with 0 only when both contexts are done and with
-- 1 only when it was not authorized, and a member of the group has returned only when its context is done.
pub run-IsOrdered :
    (actions : List Action) (a : Agent) (rs : List Restart)
    → IsOrdered a rs
    → length rs + arrivals actions ≤ 1
    → Returns (λ s. IsOrdered s.0 s.1) (run actions (a, rs))
unfolding run
run-IsOrdered [] a rs o h = o
run-IsOrdered (t ∷ later) a rs o h =
    let split = arrivals-cons t later in
    Returns-bind {P = IsAfter (length rs + arrivals (t ∷ []))} _ (act t (a, rs)) (run later)
      (act-IsAfter a rs o t (omega (arith, h, split)))
      λ s (o', fewer). run-IsOrdered later s.0 s.1 o' (omega (arith, h, split, fewer))
