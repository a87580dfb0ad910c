-- ===== src/Client/Connection.antt =====
-- client/client.go and client/connect.go: WithBackoffLimit, and how the client connects, in one call of onConnect
-- while no other runs. A disconnection shows at the start of a try, where the try authorizes the client, and where onConnect tests
-- whether the client is authorized: onDisconnect waits while the blocked threads are told, and elsewhere nothing reads what it writes.
pub mod Retries
pub mod Admitted
mod Settled
pub mod Tries
pub mod Authorized
mod Short
mod Tests
use magalix_agent.Prelude.{
  Run, ok, deref, ◌>>=◌, ℕ, zero, suc, ◌+◌, ◌-◌, ◌*◌, ◌%◌, String, Bool, true, false, ◌||◌, not,
  Option, none, some, List, [], ◌∷◌, ◌++◌, ltb, ◌==◌, length, if◌then◌else◌,
}
use magalix_agent.Proto.Connect.{
  Bytes, hello_kind, authorization_request_kind, authorization_answer_kind, ping_kind, PacketHello,
  PacketAuthorizationRequest, PacketAuthorizationQuestion, PacketAuthorizationAnswer, Request,
  hello_request, authorization_request, authorization_answer, ping_request,
}
use magalix_agent.Client.Session.{
  Error, protocol_error, other_error, Result, done, fails, Waiter, receives, has_left, leaves,
  Gateway, Timeouts, Client, new_client, init_client, send, hello, get_authorization_token,
  answer_question, check_question, authorize, ping,
}

-- How a call of the function under WithBackoffLimit ends; it may also never return, or panic.
pub data Attempt (S : Type 0) : Type 0 where
  succeeded : S → Attempt S
  failed : Error → S → Attempt S
  suspended : S → Attempt S
  panicked : S → Attempt S

-- How WithBackoffLimit ends: with its error, the state, and the times it slept.
pub data Backoff (S : Type 0) : Type 0 where
  ended : Option Error → S → List ℕ → Backoff S
  hung : S → Backoff S
  broken : S → Backoff S

module _ {S : Type 0} (fn : S → Attempt S) (backoff limit : ℕ) where
  -- The loop, with as many rounds left as tries.
  pub backoff_loop : ℕ → ℕ → Option Error → S → List ℕ → Backoff S
  backoff_loop zero try err s slept = ended err s slept
  backoff_loop (suc rounds) try err s slept = elim (fn s) [
    | succeeded s' ↦ ended none s' slept
    | suspended s' ↦ hung s'
    | panicked s' ↦ broken s'
    | failed e s' ↦
        backoff_loop rounds (try + 1) (some e) s'
          (if ltb (try + 1) limit then slept ++ (backoff * (try % 10 + 1)) ∷ [] else slept)
  ]

  unfoldable pub with_backoff_limit : S → Backoff S
  unfolding backoff_loop
  with_backoff_limit s = backoff_loop limit 0 none s []

pub on_disconnect : Client → Client
on_disconnect c = record c { is_connected = false; is_authorized = false }

pub drop_if : Bool → Client → Client
unfolding on_disconnect
drop_if b c = if b then on_disconnect c else c

-- The sends to the channels of the threads: which are told, and whether a send panics. A thread that leaves makes
-- it panic, at once or when it closes its channel.
pub tell : (ℕ → Waiter) → List ℕ → List ℕ × Bool
tell waiter [] = ([], false)
tell waiter (k ∷ ks) =
    let rest = tell waiter ks in
    elim (waiter k) [ receives ↦ (k ∷ rest.0, rest.1) | has_left ↦ rest | leaves ↦ ([], true) ]

-- The end of a try that is authorized.
pub announce : Gateway → Client → Attempt Client
unfolding tell drop_if
announce gw c =
    let sent = tell gw.waiter c.blocked in
    let told : Client = record c {
      is_authorized = true;
      readers = c.readers - 1;
      announced = c.announced + 1;
      woken = c.woken ++ sent.0;
    } in
    let lost = gw.is_dropped_after c.calls in
    if sent.1
    then panicked (drop_if lost told)
    else succeeded (drop_if lost (record told { blocked = [] }))

-- What a try does with an error of authorize.
pub refused : Error → Client → Attempt Client
refused (protocol_error code text) c =
    if code == 404
    then suspended c
    else if code == 403 || code == 401
    then failed (protocol_error code text) (record c { paused = c.paused + 2 })
    else failed (protocol_error code text) c
refused (other_error text) c = failed (other_error text) c

-- The second half of a try, with what authorize gave. `connected <- true` waits for a reader.
pub settle : Gateway → Result Unit × Client → Attempt Client
unfolding announce refused drop_if
settle gw (done u, c) =
    let d = drop_if (gw.is_dropped_before c.calls) c in
    if ltb 0 d.readers
    then announce gw d
    else suspended (drop_if (gw.is_dropped_after c.calls) (record d { is_authorized = true }))
settle gw (fails e, c) = refused e c

-- A try from the answer to hello on. `return nil` ends the tries, whether or not the client is authorized.
pub greet : Gateway → ℕ → Result PacketHello × Client → Attempt Client
unfolding authorize settle
greet gw expire (done server, c) = settle gw (authorize gw c)
greet gw expire (fails e, c) =
    if ltb expire (gw.clock c.calls) || gw.is_unsupported e then succeeded c else failed e c

-- A try of onConnect, from its first test on.
pub start_try : Gateway → ℕ → Client → Attempt Client
unfolding hello greet
start_try gw expire c =
    if c.is_connected
    then greet gw expire (hello gw c)
    else succeeded (record c { calls = c.calls + 1 })

-- A try of onConnect, which sees whether the connection has been lost meanwhile.
pub attempt : Gateway → ℕ → Client → Attempt Client
unfolding start_try drop_if
attempt gw expire c = start_try gw expire (drop_if (gw.is_dropped c.calls) c)

-- How onConnect ends: it returns nil, it exits the process, it sleeps for ever, or it panics.
pub data Connected : Type 0 where
  connected_to : Client → Connected
  exits : ℕ → Client → Connected
  hangs : Client → Connected
  panics : Client → Connected

pub finish : Backoff Client → Connected
finish (ended err c slept) = if c.is_authorized then connected_to c else exits 122 c
finish (hung c) = hangs c
finish (broken c) = panics c

-- Ten minutes from now, and a hundred tries.
pub on_connect : Gateway → Client → Connected
unfolding attempt finish
on_connect gw c = finish (
    with_backoff_limit (attempt gw (gw.clock c.calls + 600)) c.timeouts.proto_backoff 100
      (record c { is_connected = true }))
