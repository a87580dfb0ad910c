-- ===== src/Client/Pipe.antt =====
-- client/pipe.go: a Pipe, its senders and its workers. Each action is what one goroutine does without
-- a pause that the others can see: the lock of the store makes Add and Pop atomic, and a worker holds
-- the lock of the condition from its Pop to its Wait. A sequence of actions is an interleaving; an action
-- whose goroutine cannot take it changes nothing. Whether PipeSender.Send fails is a part of the action.
mod Workers
pub mod Sound
mod Rounds
mod Wake
mod Lost
mod Tests
use magalix_agent.Prelude.{
  ℕ, zero, suc, ◌+◌, ◌-◌, Bool, true, false, ◌||◌, Option, none, some, List, [], ◌∷◌, Run, ok,
  ◌>>=◌, get_elem?, set, map, if◌then◌else◌, ltb,
}
use magalix_agent.Client.Queue.{Package, Address, Memory, write}
use magalix_agent.Client.PipeStore.{DefaultPipeStore, new_default_pipe_store, add, pop}

-- Where a worker stands: before its Pop, between a Pop that gave nothing and the Wait, in the Wait, or sending a
-- package.
pub data Worker : Type 0 where
  ready : Worker
  empty_handed : Worker
  waiting : Worker
  sending : Address → Worker

-- `next` is an address that no package has. `broadcasts` counts the calls of Send that are yet to
-- broadcast. Of the other counts, which the program does not keep, `sends` is the number of calls of Send,
-- `delivered` that of the packages sent without an error, and `dropped` the sum of what Add returned.
pub record Pipe : Type 0 where
  pub storage : DefaultPipeStore
  pub workers : List Worker
  pub next : Address
  pub broadcasts : ℕ
  pub sends : ℕ
  pub delivered : ℕ
  pub dropped : ℕ

unfoldable pub start : ℕ → List Worker
start zero = []
start (suc n) = ready ∷ start n

-- NewPipe, and then Start.
unfoldable pub new_pipe : Memory → ℕ → Pipe
unfolding start
new_pipe mem workers = record {
  storage = new_default_pipe_store mem;
  workers = start workers;
  next = 0;
  broadcasts = 0;
  sends = 0;
  delivered = 0;
  dropped = 0;
}

-- The first two lines of Send, with the three readings of the clock. The parameter is a copy of its own.
pub send : Pipe → Package → ℕ → ℕ → ℕ → Run Pipe
send s pack time created now =
    let mem = write s.storage.pq.mem s.next (record pack { time = time }) in
    let entry = record s.storage { pq = record s.storage.pq { mem = mem } } in
    add entry s.next created now >>= λ r. ok (record s {
      storage = r.1;
      next = s.next + 1;
      broadcasts = s.broadcasts + 1;
      sends = s.sends + 1;
      dropped = s.dropped + r.0;
    })

-- Broadcast wakes the workers that wait.
unfoldable pub wake : Worker → Worker
wake ready = ready
wake empty_handed = empty_handed
wake waiting = ready
wake (sending p) = sending p

unfoldable pub broadcast : Pipe → Pipe
broadcast s =
    if ltb 0 s.broadcasts
    then record s { workers = map wake s.workers; broadcasts = s.broadcasts - 1 }
    else s

-- A worker holds the lock of the condition.
unfoldable pub is_locked : List Worker → Bool
is_locked [] = false
is_locked (empty_handed ∷ ws) = true
is_locked (ready ∷ ws) = is_locked ws
is_locked (waiting ∷ ws) = is_locked ws
is_locked (sending p ∷ ws) = is_locked ws

pub popped : Pipe → ℕ → Option Address × DefaultPipeStore → Pipe
popped s i (none, storage) = record s { storage = storage; workers = set s.workers i empty_handed }
popped s i (some p, storage) = record s { storage = storage; workers = set s.workers i (sending p) }

-- The start of a round of the loop of a worker, to the test of the package.
pub pop_round : Pipe → ℕ → ℕ → Option Worker → Run Pipe
unfolding popped
pop_round s i now (some ready) =
    let round = pop s.storage now >>= λ r. ok (popped s i r) in
    if is_locked s.workers then ok s else round
pop_round s i now (some empty_handed) = ok s
pop_round s i now (some waiting) = ok s
pop_round s i now (some (sending p)) = ok s
pop_round s i now none = ok s

-- `p.cond.Wait()`, which lets go of the lock.
pub wait_round : Pipe → ℕ → Option Worker → Pipe
wait_round s i (some empty_handed) = record s { workers = set s.workers i waiting }
wait_round s i (some ready) = s
wait_round s i (some waiting) = s
wait_round s i (some (sending p)) = s
wait_round s i none = s

-- The end of a round: a package whose sending failed is added again.
pub send_round : Pipe → ℕ → Bool → ℕ → ℕ → Option Worker → Run Pipe
send_round s i failed created now (some (sending p)) =
    let again = add s.storage p created now >>= λ r.
    ok (record s { storage = r.1; workers = set s.workers i ready; dropped = s.dropped + r.0 }) in
    let done = record s { workers = set s.workers i ready; delivered = s.delivered + 1 } in
    if failed then again else ok done
send_round s i failed created now (some ready) = ok s
send_round s i failed created now (some empty_handed) = ok s
send_round s i failed created now (some waiting) = ok s
send_round s i failed created now none = ok s

pub data Action : Type 0 where
  sends_package : Package → ℕ → ℕ → ℕ → Action
  broadcasts_once : Action
  pops : ℕ → ℕ → Action
  waits : ℕ → Action
  finishes : ℕ → Bool → ℕ → ℕ → Action

unfoldable pub act : Action → Pipe → Run Pipe
unfolding send broadcast pop_round wait_round send_round
act (sends_package pack time created now) s = send s pack time created now
act broadcasts_once s = ok (broadcast s)
act (pops i now) s = pop_round s i now (get_elem? s.workers i)
act (waits i) s = ok (wait_round s i (get_elem? s.workers i))
act (finishes i failed created now) s = send_round s i failed created now (get_elem? s.workers i)

unfoldable pub run : List Action → Pipe → Run Pipe
unfolding act
run [] s = ok s
run (a ∷ later) s = act a s >>= run later
