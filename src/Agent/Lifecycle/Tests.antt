-- ===== src/Agent/Lifecycle/Tests.antt =====
-- The theorems at a restart that meets the end of Start, and what two restarts do.
use magalix_agent.Prelude.{◌≡◌, refl, true, false, List, [], ◌∷◌, panic, Returns, arith}
use magalix_agent.Agent.Lifecycle.{
  start, tests_sources, gateway, entities, auditor, Action, restarts, goes_on, stops, authorizes,
  ends, joins, run,
}
use magalix_agent.Agent.Lifecycle.Ordered.{IsOrdered, start-IsOrdered}
use magalix_agent.Agent.Lifecycle.Runs.{run-IsOrdered, arrived-IsOrdered}
use magalix_agent.Agent.Lifecycle.Exits.{HasStopped, run-HasStopped}

-- The actions of the restart before its sleep, and the returns of the group.
abbrev actions : List Action
actions =
    authorizes false
    ∷ restarts
    ∷ goes_on 0
    ∷ goes_on 0
    ∷ goes_on 0
    ∷ ends entities
    ∷ goes_on 0
    ∷ goes_on 0
    ∷ goes_on 0
    ∷ ends gateway
    ∷ ends auditor
    ∷ joins
    ∷ []

run-IsOrdered_example : Returns (λ s. IsOrdered s.0 s.1) (run actions (start, []))
run-IsOrdered_example = run-IsOrdered actions start [] start-IsOrdered (omega arith)

-- The same in another order, with a call of Stop and a failure to authorize that comes too late.
abbrev turns_and_others : List Action
turns_and_others =
    goes_on 0
    ∷ authorizes false
    ∷ goes_on 0
    ∷ goes_on 0
    ∷ authorizes true
    ∷ goes_on 0
    ∷ stops
    ∷ goes_on 0
    ∷ goes_on 0
    ∷ goes_on 0
    ∷ joins
    ∷ []

run-HasStopped_example : Returns HasStopped (run turns_and_others (start, tests_sources ∷ []))
run-HasStopped_example =
    run-HasStopped turns_and_others start tests_sources (arrived-IsOrdered start [] start-IsOrdered)
      refl (omega arith)

-- Two restarts that both find the cancel function call it, one after the other has cleared it.
two_restarts :
    run
      (restarts ∷ restarts ∷ goes_on 0 ∷ goes_on 1 ∷ goes_on 0 ∷ goes_on 0 ∷ goes_on 1 ∷ [])
      (start, [])
    ≡ panic
unfolding run
two_restarts = refl
