-- ===== src/Client/Pipe/Tests.antt =====
-- The theorems at a pipe with one worker, and with two.
use magalix_agent.Prelude.{◌<◌, refl, true, some, List, [], ◌∷◌, Returns, arith, length}
use magalix_agent.Value.{null}
use magalix_agent.Client.Queue.{Package, Memory}
use magalix_agent.Client.Queue.Swap.{In}
use magalix_agent.Client.PipeStore.{is_expired, new_default_pipe_store}
use magalix_agent.Client.Pipe.{
  new_pipe, start, Action, sends_package, broadcasts_once, pops, waits, finishes, act, run,
}
use magalix_agent.Client.Pipe.Sound.{IsSound, new_pipe-IsSound}
use magalix_agent.Client.Pipe.Rounds.{run-IsSound}
use magalix_agent.Client.Pipe.Wake.{IsAwake, act-IsAwake}
use magalix_agent.Client.Pipe.Lost.{IsStuck, lost_wakeup}

abbrev pack : Package
pack = record {
  kind = "events";
  expiry_time = some 90;
  expiry_count = 1;
  priority = 2;
  retry_limit = 4;
  retries = 0;
  index = some 0;
  time = 0;
  content = null;
}

abbrev mem : Memory
mem = λ p. pack

-- Two packages of one kind, of which the second drives out the first; a sending that fails.
abbrev actions : List Action
actions =
    sends_package pack 10 11 12
    ∷ broadcasts_once
    ∷ sends_package pack 20 21 22
    ∷ pops 0 30
    ∷ pops 1 31
    ∷ finishes 0 true 40 41
    ∷ waits 1
    ∷ broadcasts_once
    ∷ []

run-IsSound_example : Returns IsSound (run actions (new_pipe mem 2))
run-IsSound_example = run-IsSound actions (new_pipe mem 2) (new_pipe-IsSound mem 2)

empty_pipe-IsAwake : IsAwake (new_pipe mem 1)
unfolding IsAwake new_pipe new_default_pipe_store
empty_pipe-IsAwake h = absurd (omega arith)

one_worker : 0 < length (new_pipe mem 1).workers
unfolding new_pipe start
one_worker = omega arith

act-IsAwake_example : Returns IsAwake (act (sends_package pack 10 11 12) (new_pipe mem 1))
act-IsAwake_example =
    act-IsAwake (sends_package pack 10 11 12) (new_pipe mem 1) (new_pipe-IsSound mem 1) one_worker
      (λ e. absurd (cc e)) empty_pipe-IsAwake

lost_wakeup_example :
    Returns
      (λ s'. In 0 s'.storage.pq × IsStuck s')
      (run
        (pops 0 12 ∷ sends_package pack 10 11 12 ∷ broadcasts_once ∷ waits 0 ∷ [])
        (new_pipe mem 1))
unfolding new_pipe start is_expired new_default_pipe_store
lost_wakeup_example =
    lost_wakeup (new_pipe mem 1) (new_pipe-IsSound mem 1) refl refl refl pack 10 11 12 refl
