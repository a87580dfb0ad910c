-- ===== src/Client/Connection/Authorized.antt =====
-- What a call of onConnect leaves.
use magalix_agent.Prelude.{
  ℕ, ◌+◌, ◌≡◌, ◌⊎◌, inl, inr, refl, sym, ap, ◌∙◌, Bool, true, false, Option, ◌++◌, if◌then◌else◌,
}
use magalix_agent.Client.Session.{Error, Gateway, Client}
use magalix_agent.Client.Connection.{Backoff, attempt, connected_to, exits, finish, on_connect}
use magalix_agent.Client.Connection.Retries.{
  Fails, no_call, one_more, IsBackedOff, on_success, on_suspension, on_panic, on_limit,
  with_backoff_limit-IsBackedOff,
}
use magalix_agent.Client.Connection.Admitted.{
  IsUnauthorized, IsAdmitted, IsUnread, IsBroken, IsUnauthorized-trans, IsTry, IsConnection,
  IsSecure,
}
use magalix_agent.Client.Connection.Tries.{attempt-IsTry}

module _ (gw : Gateway) (secure : IsSecure gw) where
  Fails-IsUnauthorized :
      (expire n : ℕ) (o : Option Error) (c d : Client)
      → c.is_authorized ≡ false
      → Fails (attempt gw expire) n o c d
      → IsUnauthorized c d
  unfolding IsTry
  Fails-IsUnauthorized expire n o c d h (no_call s) = record {
    secret = refl;
    authorized = h;
    blocked = refl;
    woken = refl;
    announced = refl;
    readers = refl;
  }
  Fails-IsUnauthorized expire n o c d h (one_more m o' s t u e f same) =
      let k = Fails-IsUnauthorized expire m o' c t h f in
      let next : IsUnauthorized t u = rw same at (attempt-IsTry gw secure expire t k.authorized) in
      IsUnauthorized-trans c t u k next

  IsAdmitted-after : (c t u : Client) → IsUnauthorized c t → IsAdmitted gw t u → IsAdmitted gw c u
  IsAdmitted-after c t u k a = record {
    authorized = a.authorized;
    blocked = a.blocked;
    told = a.told;
    all_told = rw k.blocked at a.all_told;
    woken = a.woken ∙ ap (λ l. l ++ a.told) k.woken;
    announced = a.announced ∙ ap (λ n. n + 1) k.announced;
    read = sym k.readers ∙ a.read;
    answered = rw k.secret at a.answered;
  }

  IsUnread-after : (c t u : Client) → IsUnauthorized c t → IsUnread gw t u → IsUnread gw c u
  IsUnread-after c t u k r = record {
    authorized = r.authorized;
    blocked = r.blocked ∙ k.blocked;
    woken = r.woken ∙ k.woken;
    unread = sym k.readers ∙ r.unread;
    answered = rw k.secret at r.answered;
  }

  IsBroken-after : (c t u : Client) → IsUnauthorized c t → IsBroken gw t u → IsBroken gw c u
  IsBroken-after c t u k b = record {
    front = b.front;
    thread = b.thread;
    back = b.back;
    split = sym k.blocked ∙ b.split;
    leaving = b.leaving;
    told = b.told;
    front_told = b.front_told;
    woken = b.woken ∙ ap (λ l. l ++ b.told) k.woken;
    announced = b.announced ∙ ap (λ n. n + 1) k.announced;
    read = sym k.readers ∙ b.read;
    answered = rw k.secret at b.answered;
  }

  ended-IsConnection :
      (c d : Client) (b : Bool)
      → d.is_authorized ≡ b
      → IsUnauthorized c d ⊎ IsAdmitted gw c d
      → IsConnection gw c (if b then connected_to d else exits 122 d)
  unfolding IsConnection
  ended-IsConnection c d false e h = (refl, e, h)
  ended-IsConnection c d true e (inl u) = absurd (cc (e, u.authorized))
  ended-IsConnection c d true e (inr a) = (e, a)

  finish-IsConnection :
      (expire backoff : ℕ) (c c' : Client) (b : Backoff Client)
      → IsUnauthorized c c'
      → IsBackedOff (attempt gw expire) backoff 100 c' b
      → IsConnection gw c (finish b)
  unfolding finish IsConnection IsTry
  finish-IsConnection expire backoff c c' b k (on_success n o t u slept lt size f same) =
      let before =
        IsUnauthorized-trans c c' t k (Fails-IsUnauthorized expire n o c' t k.authorized f) in
      let last : IsUnauthorized t u ⊎ IsAdmitted gw t u =
        rw same at (attempt-IsTry gw secure expire t before.authorized) in
      ended-IsConnection c u u.is_authorized refl (elim last [
        | inl not_yet ↦ inl (IsUnauthorized-trans c t u before not_yet)
        | inr a ↦ inr (IsAdmitted-after c t u before a)
      ])
  finish-IsConnection expire backoff c c' b k (on_suspension n o t u lt f same) =
      let before =
        IsUnauthorized-trans c c' t k (Fails-IsUnauthorized expire n o c' t k.authorized f) in
      let last : IsUnauthorized t u ⊎ IsUnread gw t u =
        rw same at (attempt-IsTry gw secure expire t before.authorized) in
      elim last [
        | inl not_yet ↦ inl (IsUnauthorized-trans c t u before not_yet)
        | inr r ↦ inr (IsUnread-after c t u before r)
      ]
  finish-IsConnection expire backoff c c' b k (on_limit o t slept size f) =
      let before =
        IsUnauthorized-trans c c' t k (Fails-IsUnauthorized expire 100 o c' t k.authorized f) in
      ended-IsConnection c t t.is_authorized refl (inl before)
  finish-IsConnection expire backoff c c' b k (on_panic n o t u lt f same) =
      let before =
        IsUnauthorized-trans c c' t k (Fails-IsUnauthorized expire n o c' t k.authorized f) in
      let last : IsBroken gw t u =
        rw same at (attempt-IsTry gw secure expire t before.authorized) in
      IsBroken-after c t u before last

  -- When every question of the gateway has a token of 1024 bytes or more, a call of onConnect of a client that is not
  -- authorized, while no other call runs, returns only an authorized client, once the gateway has accepted the hash of a
  -- question around the secret, and somebody has read that the client is connected: then all that waited for the connection, and
  -- had not left, have been told. It exits with the code 122 only when the client is not authorized: nobody has been told then, or
  -- all this has happened and then a disconnection. It never returns only where nobody has been told, and where the client had not been accepted or nobody was to
  -- read that it is connected. It panics only when the client had been accepted and a thread leaves without receiving: those before it have been told.
  pub on_connect-IsConnection :
      (c : Client) → c.is_authorized ≡ false → IsConnection gw c (on_connect gw c)
  unfolding on_connect
  on_connect-IsConnection c h =
      let c' : Client = record c { is_connected = true } in
      let k : IsUnauthorized c c' = record {
        secret = refl;
        authorized = h;
        blocked = refl;
        woken = refl;
        announced = refl;
        readers = refl;
      } in
      finish-IsConnection (gw.clock c.calls + 600) c.timeouts.proto_backoff c c' _ k (
        with_backoff_limit-IsBackedOff (attempt gw (gw.clock c.calls + 600))
          c.timeouts.proto_backoff 100 c')
