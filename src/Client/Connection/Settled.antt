-- ===== src/Client/Connection/Settled.antt =====
-- What the end of a try of onConnect leaves, once the gateway has accepted the client.
use magalix_agent.Prelude.{
  arith, if◌then◌else◌, Bool, ltb, suc, ◌-◌, ap, ℕ, ◌+◌, ◌≡◌, inl, inr, refl, sym, ◌∙◌, true, false,
  List, [], ◌++◌, Bool-cases,
}
use magalix_agent.Client.Session.{Result, done, fails, Gateway, Client}
use magalix_agent.Client.Connection.{
  succeeded, suspended, panicked, on_disconnect, drop_if, tell, announce, settle,
}
use magalix_agent.Client.Connection.Admitted.{
  IsAnswered, IsUnauthorized, IsAdmitted, IsUnread, IsBroken, IsTry, IsTelling, tells_all,
  breaks_off, tell-IsTelling, drop_if-IsUnauthorized, refused-IsTry,
}

module _ (gw : Gateway) (c : Client) (call : ℕ) where
  lost-IsUnread :
      (lost : Bool) (d : Client)
      → gw.is_dropped_after call ≡ lost
      → IsUnread gw c d
      → IsUnread gw c (drop_if lost d)
  unfolding drop_if on_disconnect
  lost-IsUnread false d e u = u
  lost-IsUnread true d e u = record {
    authorized = inr (refl, (call, e));
    blocked = u.blocked;
    woken = u.woken;
    unread = u.unread;
    answered = u.answered;
  }

  lost-IsAdmitted :
      (lost : Bool) (d : Client)
      → gw.is_dropped_after call ≡ lost
      → IsAdmitted gw c d
      → IsAdmitted gw c (drop_if lost d)
  unfolding drop_if on_disconnect
  lost-IsAdmitted false d e a = a
  lost-IsAdmitted true d e a = record {
    authorized = inr (refl, (call, e));
    blocked = a.blocked;
    told = a.told;
    all_told = a.all_told;
    woken = a.woken;
    announced = a.announced;
    read = a.read;
    answered = a.answered;
  }

  lost-IsBroken : (lost : Bool) (d : Client) → IsBroken gw c d → IsBroken gw c (drop_if lost d)
  unfolding drop_if on_disconnect
  lost-IsBroken false d b = b
  lost-IsBroken true d b = record {
    front = b.front;
    thread = b.thread;
    back = b.back;
    split = b.split;
    leaving = b.leaving;
    told = b.told;
    front_told = b.front_told;
    woken = b.woken;
    announced = b.announced;
    read = b.read;
    answered = b.answered;
  }

module _ (gw : Gateway) (c d : Client) (u : IsUnauthorized c d)
    (answered : IsAnswered gw c.secret) where
  announce-IsTry : c.readers ≡ suc (d.readers - 1) → IsTry gw c (announce gw d)
  unfolding announce IsTry
  announce-IsTry read = by_telling (tell gw.waiter d.blocked) (tell-IsTelling gw d.blocked)
    where
      by_telling :
          (r : List ℕ × Bool)
          → IsTelling gw d.blocked r
          → IsTry gw c (
              if r.1
              then panicked (
                  drop_if (gw.is_dropped_after d.calls) (record d {
                    is_authorized = true;
                    readers = d.readers - 1;
                    announced = d.announced + 1;
                    woken = d.woken ++ r.0;
                  }))
              else succeeded (
                  drop_if (gw.is_dropped_after d.calls) (record d {
                    is_authorized = true;
                    readers = d.readers - 1;
                    announced = d.announced + 1;
                    woken = d.woken ++ r.0;
                    blocked = [];
                  })))
      by_telling _ (tells_all told h) = inr (
          lost-IsAdmitted gw c d.calls (gw.is_dropped_after d.calls) _ refl (record {
            authorized = inl refl;
            blocked = refl;
            told = told;
            all_told = rw u.blocked at h;
            woken = ap (λ l. l ++ told) u.woken;
            announced = ap (λ n. n + 1) u.announced;
            read = read;
            answered = answered;
          }))
      by_telling _ (breaks_off front back told k split leaving h) =
          lost-IsBroken gw c d.calls (gw.is_dropped_after d.calls) _ (record {
            front = front;
            thread = k;
            back = back;
            split = sym u.blocked ∙ split;
            leaving = leaving;
            told = told;
            front_told = h;
            woken = ap (λ l. l ++ told) u.woken;
            announced = ap (λ n. n + 1) u.announced;
            read = read;
            answered = answered;
          })

  settled-IsTry :
      (call : ℕ)
      → IsTry gw c (
          if ltb 0 d.readers
          then announce gw d
          else suspended (drop_if (gw.is_dropped_after call) (record d { is_authorized = true })))
  unfolding IsTry
  settled-IsTry call = elim (Bool-cases (ltb 0 d.readers)) [
    | inl reader ↦ rw reader (announce-IsTry (ground (arith, reader, u.readers)))
    | inr no_reader ↦
        let unread : c.readers ≡ 0 = ground (arith, no_reader, u.readers) in
        rw no_reader (
          inr (
            lost-IsUnread gw c call (gw.is_dropped_after call) _ refl (record {
              authorized = inl refl;
              blocked = u.blocked;
              woken = u.woken;
              unread = unread;
              answered = answered;
            })))
  ]

pub settle-IsTry :
    (gw : Gateway) (c : Client) (r : Result Unit × Client)
    → IsUnauthorized c r.1
    → (r.0 ≡ done tt → IsAnswered gw c.secret)
    → IsTry gw c (settle gw r)
unfolding settle
settle-IsTry gw c (fails e, d) k h = refused-IsTry gw e c d k
settle-IsTry gw c (done u, d) k h =
    let lost = gw.is_dropped_before d.calls in
    settled-IsTry gw c (drop_if lost d) (drop_if-IsUnauthorized lost c d k) (h refl) d.calls
