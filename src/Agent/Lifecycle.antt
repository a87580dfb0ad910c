-- ===== src/Agent/Lifecycle.antt =====
-- agent/agent.go, handleRestart of agent/handlers.go, and what main of main.go does with the result
-- of Start. A sequence of actions is an interleaving of Start, the members of its group and the goroutines
-- of restarts. Two goroutines share the cancel functions without a lock, so each test, call and
-- assignment of them by a restart is an action of its own. Stop, which nothing in the repository calls, is one action.
mod Ordered
mod Restarted
mod Runs
mod Exits
mod Tests
use magalix_agent.Prelude.{
  ℕ, Bool, true, false, ◌&&◌, ◌||◌, not, Option, none, some, List, [], ◌∷◌, ◌++◌, Run, ok, panic,
  ◌>>=◌, get_elem?, set, if◌then◌else◌,
}

-- `cancel_all`, `cancel_sources` and `cancel_sinks` tell which cancel functions are not nil, and the next
-- three fields which were called. `authorized` is true from the end of WaitAuthorization, when the
-- sources are started, and the fields on ends tell which members of the group have returned.
pub record Agent : Type 0 where
  pub cancel_all : Bool
  pub cancel_sources : Bool
  pub cancel_sinks : Bool
  pub all_done : Bool
  pub sources_done : Bool
  pub sinks_done : Bool
  pub authorized : Bool
  pub gateway_ended : Bool
  pub entities_ended : Bool
  pub auditor_ended : Bool
  pub exit_code : Option ℕ

-- Start, to the call of WaitAuthorization.
abbrev pub start : Agent
start = record {
  cancel_all = true;
  cancel_sources = true;
  cancel_sinks = true;
  all_done = false;
  sources_done = false;
  sinks_done = false;
  authorized = false;
  gateway_ended = false;
  entities_ended = false;
  auditor_ended = false;
  exit_code = none;
}

-- A context is done when it was cancelled or its parent was.
abbrev pub sources_context_done : Agent → Bool
sources_context_done a = a.all_done || a.sources_done

abbrev pub sinks_context_done : Agent → Bool
sinks_context_done a = a.all_done || a.sinks_done

-- What the goroutine of a restart does next.
pub data Restart : Type 0 where
  tests_sources : Restart
  calls_sources : Restart
  clears_sources : Restart
  tests_sinks : Restart
  calls_sinks : Restart
  clears_sinks : Restart
  sleeps : Restart

-- stopSources, stopSinks, the sleep and Exit. A call of a nil function panics.
unfoldable pub handle_restart : Agent → Restart → Run (Agent × Restart)
handle_restart a tests_sources = ok (a, if a.cancel_sources then calls_sources else tests_sinks)
handle_restart a calls_sources =
    if a.cancel_sources then ok (record a { sources_done = true }, clears_sources) else panic
handle_restart a clears_sources = ok (record a { cancel_sources = false }, tests_sinks)
handle_restart a tests_sinks = ok (a, if a.cancel_sinks then calls_sinks else sleeps)
handle_restart a calls_sinks =
    if a.cancel_sinks then ok (record a { sinks_done = true }, clears_sinks) else panic
handle_restart a clears_sinks = ok (record a { cancel_sinks = false }, sleeps)
handle_restart a sleeps = ok (record a { exit_code = some 0 }, sleeps)

unfoldable pub stop : Agent → Agent
stop a = if a.cancel_all then record a { all_done = true; cancel_all = false } else a

-- The end of WaitAuthorization. On an error Start returns it, and main exits.
unfoldable pub wait_authorization : Agent → Bool → Agent
wait_authorization a failed =
    if a.authorized
    then a
    else if failed
    then record a { all_done = true; exit_code = some 1 }
    else record a { authorized = true }

pub data Member : Type 0 where
  gateway : Member
  entities : Member
  auditor : Member

-- A member of the group may return when its context is done. That of the gateway also waits for a library, which
-- listens for signals.
unfoldable pub end_member : Agent → Member → Agent
end_member a gateway = if sinks_context_done a then record a { gateway_ended = true } else a
end_member a entities =
    if a.authorized && sources_context_done a then record a { entities_ended = true } else a
end_member a auditor =
    if a.authorized && sources_context_done a then record a { auditor_ended = true } else a

-- The end of Wait, with the deferred call of cancelAll. Start returns nil, and then main returns.
unfoldable pub wait_group : Agent → Agent
wait_group a =
    if a.gateway_ended && (a.entities_ended && a.auditor_ended)
    then record a { all_done = true; exit_code = some 0 }
    else a

-- `restarts` is the arrival of a restart packet, and `goes_on` the next action of the goroutine at the index.
pub data Action : Type 0 where
  restarts : Action
  goes_on : ℕ → Action
  stops : Action
  authorizes : Bool → Action
  ends : Member → Action
  joins : Action

pub go_on : Agent → List Restart → ℕ → Option Restart → Run (Agent × List Restart)
unfolding handle_restart
go_on a rs i none = ok (a, rs)
go_on a rs i (some r) = handle_restart a r >>= λ n. ok (n.0, set rs i n.1)

pub act_running : Action → Agent → List Restart → Run (Agent × List Restart)
unfolding go_on stop wait_authorization end_member wait_group
act_running restarts a rs = ok (a, rs ++ tests_sources ∷ [])
act_running (goes_on i) a rs = go_on a rs i (get_elem? rs i)
act_running stops a rs = ok (stop a, rs)
act_running (authorizes failed) a rs = ok (wait_authorization a failed, rs)
act_running (ends m) a rs = ok (end_member a m, rs)
act_running joins a rs = ok (wait_group a, rs)

-- Nothing runs once the process has exited.
pub act : Action → Agent × List Restart → Run (Agent × List Restart)
unfolding act_running
act t (a, rs) = elim a.exit_code [ some code ↦ ok (a, rs) | none ↦ act_running t a rs ]

pub run : List Action → Agent × List Restart → Run (Agent × List Restart)
unfolding act
run [] s = ok s
run (t ∷ later) s = act t s >>= run later
