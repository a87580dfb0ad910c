-- ===== src/Agent/Lifecycle/Exits.antt =====
-- A restart comes to its end whatever the others do in between.
use magalix_agent.Prelude.{
  ℕ, zero, suc, ◌+◌, ◌≤◌, ◌<◌, ◌≡◌, ◌⊎◌, inl, inr, refl, Option, none, some, List, [], ◌∷◌, arith,
  ok, Returns, Returns-eq, Returns-bind, ◌>>=◌, sym, ap, ◌∙◌, subst, Option-cases,
}
use magalix_agent.Agent.Lifecycle.{
  Agent, Restart, tests_sources, calls_sources, clears_sources, tests_sinks, calls_sinks,
  clears_sinks, sleeps, handle_restart, Action, restarts, goes_on, stops, authorizes, ends, joins,
  go_on, act_running, act, run,
}
use magalix_agent.Agent.Lifecycle.Ordered.{
  IsOrdered, either, stop-IsOrdered, wait_group-IsOrdered, wait_authorization-IsOrdered,
  end_member-IsOrdered,
}
use magalix_agent.Agent.Lifecycle.Restarted.{handle_restart-IsOrdered}
use magalix_agent.Agent.Lifecycle.Runs.{arrivals, arrivals-cons}

-- The actions before the sleep of a restart, at most.
abbrev pub rank : Restart → ℕ
rank tests_sources = 6
rank calls_sources = 5
rank clears_sources = 4
rank tests_sinks = 3
rank calls_sinks = 2
rank clears_sinks = 1
rank sleeps = 0

abbrev pub turn : Action → ℕ
turn restarts = 0
turn (goes_on zero) = 1
turn (goes_on (suc i)) = 0
turn stops = 0
turn (authorizes failed) = 0
turn (ends m) = 0
turn joins = 0

abbrev pub turns : List Action → ℕ
turns [] = 0
turns (t ∷ later) = turn t + turns later

abbrev pub HasExited : Agent → Type 0
HasExited a = (code : ℕ) × (a.exit_code ≡ some code)

abbrev IsCloser : ℕ → Agent × Restart → Type 0
IsCloser n (a, r) = HasExited a ⊎ (rank r < n)

handle_restart-IsCloser :
    (a : Agent) (r : Restart)
    → IsOrdered a (r ∷ [])
    → Returns (IsCloser (rank r)) (handle_restart a r)
unfolding handle_restart
handle_restart-IsCloser a tests_sources o =
    inr (either (λ r. rank r < 6) a.cancel_sources _ _ (λ e. omega arith) λ e. omega arith)
handle_restart-IsCloser a calls_sources o =
    either (Returns (IsCloser 5)) a.cancel_sources _ _ (λ e. inr (omega arith))
      λ e. absurd (cc (e, o.places.0))
handle_restart-IsCloser a clears_sources o = inr (omega arith)
handle_restart-IsCloser a tests_sinks o =
    inr (either (λ r. rank r < 3) a.cancel_sinks _ _ (λ e. omega arith) λ e. omega arith)
handle_restart-IsCloser a calls_sinks o =
    either (Returns (IsCloser 2)) a.cancel_sinks _ _ (λ e. inr (omega arith))
      λ e. absurd (cc (e, o.places.0.1))
handle_restart-IsCloser a clears_sinks o = inr (omega arith)
handle_restart-IsCloser a sleeps o = inl (0, refl)

-- The state after an action that takes so many turns, with the one restart that is there.
abbrev IsNearer : ℕ → ℕ → Agent × List Restart → Type 0
IsNearer n taken (a, rs) =
    (r : Restart) × (rs ≡ r ∷ []) × IsOrdered a (r ∷ []) × (HasExited a ⊎ (rank r + taken ≤ n))

module _ (a : Agent) (r : Restart) (o : IsOrdered a (r ∷ [])) where
  act_running-IsNearer :
      (t : Action)
      → arrivals (t ∷ []) ≡ 0
      → a.exit_code ≡ none
      → Returns (IsNearer (rank r) (turn t)) (act_running t a (r ∷ []))
  unfolding act_running go_on
  act_running-IsNearer restarts h e = absurd (omega (arith, h))
  act_running-IsNearer (goes_on (suc i)) h e = (r, refl, o, inr (omega arith))
  act_running-IsNearer (goes_on zero) h e =
      let (n, same, closer) = Returns-eq (handle_restart a r) (handle_restart-IsCloser a r o) in
      let ordered : IsOrdered n.0 (n.1 ∷ []) = rw same at (handle_restart-IsOrdered a r o) in
      rw same (
        n.1,
        refl,
        ordered,
        elim closer [ inl exited ↦ inl exited | inr less ↦ inr (omega (arith, less)) ],
      )
  act_running-IsNearer stops h e = (r, refl, stop-IsOrdered a _ o, inr (omega arith))
  act_running-IsNearer (authorizes failed) h e =
      (r, refl, wait_authorization-IsOrdered a _ o e failed, inr (omega arith))
  act_running-IsNearer (ends m) h e = (r, refl, end_member-IsOrdered a _ o e m, inr (omega arith))
  act_running-IsNearer joins h e = (r, refl, wait_group-IsOrdered a _ o, inr (omega arith))

module _ (t : Action) (later : List Action) (a : Agent) (rs : List Restart) where
  run_one :
      (code : Option ℕ)
      → a.exit_code ≡ code
      → run (t ∷ later) (a, rs)
        ≡ (elim code [ some n ↦ ok (a, rs) | none ↦ act_running t a rs ] >>= run later)
  unfolding run act
  run_one code e =
      ap (λ c. elim c [ some n ↦ ok (a, rs) | none ↦ act_running t a rs ] >>= run later) e

run_exited :
    (actions : List Action) (a : Agent) (rs : List Restart) (code : ℕ)
    → a.exit_code ≡ some code
    → run actions (a, rs) ≡ ok (a, rs)
unfolding run
run_exited [] a rs code e = refl
run_exited (t ∷ later) a rs code e =
    run_one t later a rs (some code) e ∙ run_exited later a rs code e

abbrev pub HasStopped : Agent × List Restart → Type 0
HasStopped (a, rs) = HasExited a × ((r : Restart) × (rs ≡ r ∷ []) × IsOrdered a (r ∷ []))

-- From an agent in order with one restart, every interleaving that gives the goroutine of the restart more
-- turns than it has actions before its sleep, and in which no other restart arrives, returns and ends with the
-- process exited and the agent in order.
pub run-HasStopped :
    (actions : List Action) (a : Agent) (r : Restart)
    → IsOrdered a (r ∷ [])
    → arrivals actions ≡ 0
    → rank r < turns actions
    → Returns HasStopped (run actions (a, r ∷ []))
unfolding run
run-HasStopped [] a r o h k = absurd (omega (arith, k))
run-HasStopped (t ∷ later) a r o h k = elim (Option-cases a.exit_code) [
  | inr (code, e) ↦
      subst (Returns HasStopped) (sym (run_exited (t ∷ later) a (r ∷ []) code e))
        ((code, e), (r, refl, o))
  | inl running ↦ subst (Returns HasStopped) (sym (run_one t later a (r ∷ []) none running)) (
      Returns-bind {P = IsNearer (rank r) (turn t)} _ (act_running t a (r ∷ [])) (run later)
        (act_running-IsNearer a r o t (omega (arith, h, arrivals-cons t later)) running)
        λ s (r', same, o', reached).
          subst (λ rs. Returns HasStopped (run later (s.0, rs))) (sym same)
            (elim reached [
              | inl (code, e) ↦
                  subst (Returns HasStopped) (sym (run_exited later s.0 (r' ∷ []) code e))
                    ((code, e), (r', refl, o'))
              | inr near ↦
                  run-HasStopped later s.0 r' o' (omega (arith, h, arrivals-cons t later))
                    (omega (arith, k, near))
            ]))
]
