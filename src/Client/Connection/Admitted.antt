-- ===== src/Client/Connection/Admitted.antt =====
-- What the parts of a try of onConnect may leave.
use magalix_agent.Prelude.{
  Bool, suc, ap, ℕ, ◌+◌, ◌≤◌, ◌≡◌, ◌⊎◌, inl, inr, refl, ap, ◌∙◌, String, true, false, ◌||◌, List,
  [], ◌∷◌, ◌++◌, length, ◌==◌, Bool-cases,
}
use magalix_agent.Proto.Connect.{
  Bytes, authorization_answer_kind, PacketAuthorizationQuestion, Request, authorization_answer,
}
use magalix_agent.Client.Session.{
  Error, protocol_error, other_error, Result, done, Waiter, receives, has_left, leaves, Gateway,
  Client, send,
}
use magalix_agent.Client.Connection.{
  Attempt, succeeded, failed, suspended, panicked, on_disconnect, drop_if, tell, refused, Connected,
  connected_to, exits, hangs, panics,
}
use magalix_agent.Client.Session.Sent.{send-after}

-- The gateway accepted the hash of a long token around the secret.
pub record IsAnswered (gw : Gateway) (secret : Bytes) : Type 0 where
  pub call : ℕ
  pub question : Bytes
  pub request : Bytes
  pub response : Bytes
  pub long : 1024 ≤ length question
  pub encoded :
      gw.encode
        (authorization_answer (record { token = gw.sha512 (question ++ secret ++ question) }))
      ≡ done request
  pub answered : gw.exchange call authorization_answer_kind request ≡ done response
  pub decoded : gw.decode_success response ≡ done tt

-- `d` is `c` before it is authorized.
pub record IsUnauthorized (c d : Client) : Type 0 where
  pub secret : d.secret ≡ c.secret
  pub authorized : d.is_authorized ≡ false
  pub blocked : d.blocked ≡ c.blocked
  pub woken : d.woken ≡ c.woken
  pub announced : d.announced ≡ c.announced
  pub readers : d.readers ≡ c.readers

-- The threads are told in their order, but for those that have left, and none of them leaves meanwhile.
pub data IsTold (gw : Gateway) : List ℕ → List ℕ → Type 0 where
  nobody : IsTold gw [] []
  tells :
      (k : ℕ) (ks told : List ℕ)
      → gw.waiter k ≡ receives
      → IsTold gw ks told
      → IsTold gw (k ∷ ks) (k ∷ told)
  skips :
      (k : ℕ) (ks told : List ℕ)
      → gw.waiter k ≡ has_left
      → IsTold gw ks told
      → IsTold gw (k ∷ ks) told

-- The client is authorized, unless onDisconnect ran after it was.
abbrev pub IsAuthorizedUnlessLost : Gateway → Client → Type 0
IsAuthorizedUnlessLost gw d =
    (d.is_authorized ≡ true)
    ⊎ ((d.is_authorized ≡ false) × ((call : ℕ) × (gw.is_dropped_after call ≡ true)))

-- `d` is `c` after it was authorized: whoever waited has been told.
pub record IsAdmitted (gw : Gateway) (c d : Client) : Type 0 where
  pub authorized : IsAuthorizedUnlessLost gw d
  pub blocked : d.blocked ≡ []
  pub told : List ℕ
  pub all_told : IsTold gw c.blocked told
  pub woken : d.woken ≡ c.woken ++ told
  pub announced : d.announced ≡ c.announced + 1
  pub read : c.readers ≡ suc d.readers
  pub answered : IsAnswered gw c.secret

-- `d` is `c` after it was authorized, when nobody reads that it is connected: nobody has been told.
pub record IsUnread (gw : Gateway) (c d : Client) : Type 0 where
  pub authorized : IsAuthorizedUnlessLost gw d
  pub blocked : d.blocked ≡ c.blocked
  pub woken : d.woken ≡ c.woken
  pub unread : c.readers ≡ 0
  pub answered : IsAnswered gw c.secret

-- `d` is `c` after it was authorized, when a thread that waited leaves: those before it have been told.
pub record IsBroken (gw : Gateway) (c d : Client) : Type 0 where
  pub front : List ℕ
  pub thread : ℕ
  pub back : List ℕ
  pub split : c.blocked ≡ front ++ thread ∷ back
  pub leaving : gw.waiter thread ≡ leaves
  pub told : List ℕ
  pub front_told : IsTold gw front told
  pub woken : d.woken ≡ c.woken ++ told
  pub announced : d.announced ≡ c.announced + 1
  pub read : c.readers ≡ suc d.readers
  pub answered : IsAnswered gw c.secret

pub IsUnauthorized-trans :
    (a b c : Client) → IsUnauthorized a b → IsUnauthorized b c → IsUnauthorized a c
IsUnauthorized-trans a b c f g = record {
  secret = g.secret ∙ f.secret;
  authorized = g.authorized;
  blocked = g.blocked ∙ f.blocked;
  woken = g.woken ∙ f.woken;
  announced = g.announced ∙ f.announced;
  readers = g.readers ∙ f.readers;
}

pub send-IsUnauthorized :
    {Out : Type 0} (gw : Gateway) (kind : String) (packet : Request) (decode : Bytes → Result Out)
    (c : Client)
    → c.is_authorized ≡ false
    → IsUnauthorized c (send gw kind packet decode c).1
send-IsUnauthorized gw kind packet decode c h =
    let (t, e) = send-after gw kind packet decode c in
    rw e (record {
      secret = refl;
      authorized = h;
      blocked = refl;
      woken = refl;
      announced = refl;
      readers = refl;
    })

-- What a try may leave.
unfoldable pub IsTry : Gateway → Client → Attempt Client → Type 0
IsTry gw c (succeeded d) = IsUnauthorized c d ⊎ IsAdmitted gw c d
IsTry gw c (failed e d) = IsUnauthorized c d
IsTry gw c (suspended d) = IsUnauthorized c d ⊎ IsUnread gw c d
IsTry gw c (panicked d) = IsBroken gw c d

-- What onConnect may leave.
unfoldable pub IsConnection : Gateway → Client → Connected → Type 0
IsConnection gw c (connected_to d) = (d.is_authorized ≡ true) × IsAdmitted gw c d
IsConnection gw c (exits code d) =
    (code ≡ 122) × (d.is_authorized ≡ false) × (IsUnauthorized c d ⊎ IsAdmitted gw c d)
IsConnection gw c (hangs d) = IsUnauthorized c d ⊎ IsUnread gw c d
IsConnection gw c (panics d) = IsBroken gw c d

-- Every question of the gateway has a long token.
unfoldable pub IsSecure : Gateway → Type 0
IsSecure gw =
    (response : Bytes) (q : PacketAuthorizationQuestion)
    → gw.decode_question response ≡ done q
    → 1024 ≤ length q.token

pub refused-IsTry :
    (gw : Gateway) (e : Error) (c d : Client) → IsUnauthorized c d → IsTry gw c (refused e d)
unfolding refused IsTry
refused-IsTry gw (other_error text) c d u = u
refused-IsTry gw (protocol_error code text) c d u = elim (Bool-cases (code == 404)) [
  | inl not_found ↦ rw not_found (inl u)
  | inr other ↦ elim (Bool-cases (code == 403 || code == 401)) [
    | inl forbidden ↦
        rw (other, forbidden)
          (record {
            secret = u.secret;
            authorized = u.authorized;
            blocked = u.blocked;
            woken = u.woken;
            announced = u.announced;
            readers = u.readers;
          })
    | inr rest ↦ rw (other, rest) u
  ]
]

pub drop_if-IsUnauthorized :
    (b : Bool) (c d : Client) → IsUnauthorized c d → IsUnauthorized c (drop_if b d)
unfolding drop_if on_disconnect
drop_if-IsUnauthorized false c d u = u
drop_if-IsUnauthorized true c d u = record {
  secret = u.secret;
  authorized = refl;
  blocked = u.blocked;
  woken = u.woken;
  announced = u.announced;
  readers = u.readers;
}

-- Whom the loop over the channels tells.
pub data IsTelling (gw : Gateway) (ks : List ℕ) : List ℕ × Bool → Type 0 where
  tells_all : (told : List ℕ) → IsTold gw ks told → IsTelling gw ks (told, false)
  breaks_off :
      (front back told : List ℕ) (k : ℕ)
      → ks ≡ front ++ k ∷ back
      → gw.waiter k ≡ leaves
      → IsTold gw front told
      → IsTelling gw ks (told, true)

tell-head :
    (gw : Gateway) (k : ℕ) (ks : List ℕ) (w : Waiter) (r : List ℕ × Bool)
    → gw.waiter k ≡ w
    → IsTelling gw ks r
    → IsTelling gw
        (k ∷ ks)
        (elim w [ receives ↦ (k ∷ r.0, r.1) | has_left ↦ r | leaves ↦ ([], true) ])
tell-head gw k ks leaves r e t = breaks_off [] ks [] k refl e nobody
tell-head gw k ks receives r e (tells_all told h) = tells_all (k ∷ told) (tells k ks told e h)
tell-head gw k ks has_left r e (tells_all told h) = tells_all told (skips k ks told e h)
tell-head gw k ks receives r e (breaks_off front back told k' split leaving h) =
    breaks_off (k ∷ front) back (k ∷ told) k' (ap (λ l. k ∷ l) split) leaving
      (tells k front told e h)
tell-head gw k ks has_left r e (breaks_off front back told k' split leaving h) =
    breaks_off (k ∷ front) back told k' (ap (λ l. k ∷ l) split) leaving (skips k front told e h)

pub tell-IsTelling : (gw : Gateway) (ks : List ℕ) → IsTelling gw ks (tell gw.waiter ks)
unfolding tell
tell-IsTelling gw [] = tells_all [] nobody
tell-IsTelling gw (k ∷ ks) =
    tell-head gw k ks (gw.waiter k) (tell gw.waiter ks) refl (tell-IsTelling gw ks)
