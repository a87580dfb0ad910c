-- ===== src/Client/Connection/Short.antt =====
-- A gateway whose question has a short token authorizes the client without an answer.
use magalix_agent.Prelude.{
  ℕ, suc, ◌+◌, ◌<◌, ◌≡◌, ◌≢◌, ◌-◌, ◌++◌, ◌∷◌, Bool, List, All, refl, ap, ◌∙◌, true, false, none, [],
  arith, length, ltb, if◌then◌else◌,
}
use magalix_agent.Proto.Connect.{
  authorization_request_kind, PacketHello, PacketAuthorizationQuestion, authorization_request,
}
use magalix_agent.Client.Session.{
  Result, done, fails, Waiter, receives, has_left, leaves, Gateway, Client, send, hello, authorize,
  check_question,
}
use magalix_agent.Client.Connection.{
  Attempt, succeeded, suspended, panicked, ended, backoff_loop, with_backoff_limit, drop_if, tell,
  announce, settle, greet, start_try, attempt, connected_to, finish, on_connect,
}
use magalix_agent.Client.Session.Sent.{send-after}

module _ (gw : Gateway) where
  greet-done :
      (expire : ℕ) (r : Result PacketHello × Client) (v : PacketHello)
      → r.0 ≡ done v
      → greet gw expire r ≡ settle gw (authorize gw r.1)
  unfolding greet
  greet-done expire (done server, c) v h = refl
  greet-done expire (fails e, c) v h = absurd (cc h)

  check_question-short :
      (r : Result PacketAuthorizationQuestion × Client) (q : PacketAuthorizationQuestion)
      → r.0 ≡ done q
      → length q.token < 1024
      → check_question gw r ≡ (done tt, r.1)
  unfolding check_question
  check_question-short (done p, c) q h short =
      let same : p ≡ q = cc h in
      let b : ltb (length p.token) 1024 ≡ true = rw same (ground (arith, short)) in rw b refl
  check_question-short (fails e, c) q h short = absurd (cc h)

  loop_once :
      (fn : Client → Attempt Client) (backoff limit rounds : ℕ) (c d : Client)
      → fn c ≡ succeeded d
      → backoff_loop fn backoff limit (suc rounds) 0 none c [] ≡ ended none d []
  unfolding backoff_loop
  loop_once fn backoff limit rounds c d e = rw (backoff_loop, e) refl

  first_try :
      (fn : Client → Attempt Client) (backoff : ℕ) (c d : Client)
      → fn c ≡ succeeded d
      → with_backoff_limit fn backoff 100 c ≡ ended none d []
  unfolding with_backoff_limit
  first_try fn backoff c d e = loop_once fn backoff 100 99 c d e

  tell-whole : (ks : List ℕ) → All (λ k. gw.waiter k ≢ leaves) ks → (tell gw.waiter ks).1 ≡ false
  unfolding tell
  tell-whole [] h = refl
  tell-whole (k ∷ ks) h = by_waiter (gw.waiter k) h.0 (tell-whole ks h.1)
    where
      by_waiter :
          (w : Waiter)
          → w ≢ leaves
          → (tell gw.waiter ks).1 ≡ false
          → (elim w as (λ _. List ℕ × Bool) [
            | receives ↦ (k ∷ (tell gw.waiter ks).0, (tell gw.waiter ks).1)
            | has_left ↦ tell gw.waiter ks
            | leaves ↦ ([], true)
          ]).1
            ≡ false
      by_waiter receives n whole = whole
      by_waiter has_left n whole = whole
      by_waiter leaves n whole = absurd (n refl)

  -- The client once it is authorized and nothing comes in between.
  abbrev admitted : Client → Client
  admitted d = record d {
    is_authorized = true;
    readers = d.readers - 1;
    announced = d.announced + 1;
    woken = d.woken ++ (tell gw.waiter d.blocked).0;
    blocked = [];
  }

  announce-quiet :
      (d : Client)
      → gw.is_dropped_after d.calls ≡ false
      → (tell gw.waiter d.blocked).1 ≡ false
      → announce gw d ≡ succeeded (admitted d)
  unfolding announce drop_if
  announce-quiet d kept whole =
      let sent : Client = record (admitted d) { blocked = d.blocked } in
      ap
        (λ b.
          if b
          then panicked (drop_if (gw.is_dropped_after d.calls) sent)
          else succeeded (drop_if (gw.is_dropped_after d.calls) (admitted d)))
        whole
      ∙ ap (λ b. succeeded (drop_if b (admitted d))) kept

  settle-quiet :
      (d : Client)
      → gw.is_dropped_before d.calls ≡ false
      → gw.is_dropped_after d.calls ≡ false
      → (tell gw.waiter d.blocked).1 ≡ false
      → ltb 0 d.readers ≡ true
      → settle gw (done tt, d) ≡ succeeded (admitted d)
  unfolding settle drop_if
  settle-quiet d kept kept' whole read =
      let unread = λ (x : Client).
        suspended (drop_if (gw.is_dropped_after d.calls) (record x { is_authorized = true })) in
      ap
        (λ b.
          if ltb 0 (drop_if b d).readers then announce gw (drop_if b d) else unread (drop_if b d))
        kept
      ∙ ap (λ b. if b then announce gw d else unread d) read
      ∙ announce-quiet d kept' whole

  module _ (c : Client) (kept : gw.is_dropped c.calls ≡ false)
      (kept_before : gw.is_dropped_before (c.calls + 2) ≡ false)
      (kept_after : gw.is_dropped_after (c.calls + 2) ≡ false)
      (stay : All (λ k. gw.waiter k ≢ leaves) c.blocked) (server : PacketHello)
      (greeted : (hello gw (record c { is_connected = true })).0 ≡ done server)
      (question : PacketAuthorizationQuestion) (reader : 0 < c.readers) where
    abbrev called : Client
    called = (hello gw (record c { is_connected = true })).1

    abbrev asked : Result PacketAuthorizationQuestion × Client
    asked =
        send gw authorization_request_kind
          (authorization_request
            (record { account_id = called.account_id; cluster_id = called.cluster_id }))
          gw.decode_question called

    -- When somebody waits to read that the client is connected, no disconnection comes, no thread that waits leaves as it is told, and the gateway says
    -- hello and then asks a question whose token is shorter than 1024 bytes, onConnect
    -- returns an authorized client: it has sent hello and the request, and no answer to the question.
    pub short_token :
        asked.0 ≡ done question
        → length question.token < 1024
        → (d : Client) × (on_connect gw c ≡ connected_to d)
          × (d.is_authorized ≡ true)
          × (d.calls ≡ c.calls + 2)
    unfolding on_connect attempt start_try finish authorize hello drop_if
    short_token h short =
        let expire = gw.clock c.calls + 600 in
        let c' : Client = record c { is_connected = true } in
        let (t, e) = send-after gw _ _ gw.decode_hello c' in
        let (t', e') = send-after gw _ _ gw.decode_question called in
        let first : called.readers ≡ c.readers = ap (λ d. d.readers) e in
        let second : asked.1.readers ≡ called.readers = ap (λ d. d.readers) e' in
        let read : ltb 0 asked.1.readers ≡ true = ground (arith, reader, first, second) in
        let calls : called.calls ≡ c.calls + 1 = ap (λ d. d.calls) e in
        let calls' : asked.1.calls ≡ called.calls + 1 = ap (λ d. d.calls) e' in
        let at_two : asked.1.calls ≡ c.calls + 2 = omega (arith, calls, calls') in
        let whole : (tell gw.waiter asked.1.blocked).1 ≡ false =
          ap (λ d. (tell gw.waiter d.blocked).1) e'
          ∙ ap (λ d. (tell gw.waiter d.blocked).1) e
          ∙ tell-whole c.blocked stay in
        let tried : attempt gw expire c' ≡ succeeded (admitted asked.1) =
          ap (λ x. start_try gw expire (drop_if x c')) kept
          ∙ greet-done expire (hello gw c') server greeted
          ∙ ap (settle gw) (check_question-short asked question h short)
          ∙ settle-quiet asked.1 (ap gw.is_dropped_before at_two ∙ kept_before)
              (ap gw.is_dropped_after at_two ∙ kept_after) whole read in
        (
          admitted asked.1,
          ap finish
              (first_try (attempt gw expire) c.timeouts.proto_backoff c' (admitted asked.1) tried),
          refl,
          at_two,
        )
