-- ===== src/Client/Session.antt =====
-- client/client.go, client/sender.go and client/auth.go: the client, its packets and its authorization. The gateway, the
-- codec of packets, the hash and the clock are arguments: the n-th call of send gets the n-th answer.
pub mod Sent
use magalix_agent.Prelude.{
  Run, ok, deref, ◌>>=◌, ℕ, zero, suc, ◌+◌, ◌-◌, ◌*◌, ◌%◌, String, Bool, true, false, ◌||◌, not,
  Option, none, some, List, [], ◌∷◌, ◌++◌, ltb, ◌==◌, length, if◌then◌else◌,
}
use magalix_agent.Proto.Connect.{
  Bytes, hello_kind, authorization_request_kind, authorization_answer_kind, ping_kind, PacketHello,
  PacketAuthorizationRequest, PacketAuthorizationQuestion, PacketAuthorizationAnswer, Request,
  hello_request, authorization_request, authorization_answer, ping_request,
}

-- A `*channel.ProtocolError` with its code, or another error.
pub data Error : Type 0 where
  protocol_error : ℕ → String → Error
  other_error : String → Error

pub data Result (A : Type 0) : Type 0 where
  done : A → Result A
  fails : Error → Result A

-- How a thread that waits for the connection stands when it is to be told: it receives, it has left and taken its
-- channel out, or its time is over and it is about to close its channel, or has, without receiving.
pub data Waiter : Type 0 where
  receives : Waiter
  has_left : Waiter
  leaves : Waiter

-- What the client uses of other code: channel.Send, EncodeSnappy and DecodeSnappy, sha512, the search in the text of an
-- error and the clock. `is_dropped` tells whether onDisconnect has run since the last try, `is_dropped_before` whether it
-- runs in a try before this authorizes the client, and `is_dropped_after` whether between that and the end of onConnect.
pub record Gateway : Type 0 where
  pub exchange : ℕ → String → Bytes → Result Bytes
  pub encode : Request → Result Bytes
  pub decode_hello : Bytes → Result PacketHello
  pub decode_question : Bytes → Result PacketAuthorizationQuestion
  pub decode_success : Bytes → Result Unit
  pub decode_pong : Bytes → Result ℕ
  pub sha512 : Bytes → Bytes
  pub is_unsupported : Error → Bool
  pub clock : ℕ → ℕ
  pub is_dropped : ℕ → Bool
  pub is_dropped_before : ℕ → Bool
  pub is_dropped_after : ℕ → Bool
  pub waiter : ℕ → Waiter

-- Durations are in milliseconds.
pub record Timeouts : Type 0 where
  pub proto_handshake : ℕ
  pub proto_write : ℕ
  pub proto_read : ℕ
  pub proto_reconnect : ℕ
  pub proto_backoff : ℕ

-- `blocked` holds the threads that have come to wait for the connection, `woken` those that were told of it. Of the fields that
-- the program does not keep, `calls` counts the calls of send and the tries, `readers` the receives from the channel
-- `connected` that will still come (WaitAuthorization does one at most), `announced` the messages to it, and
-- `paused` the hours slept after a refusal.
pub record Client : Type 0 where
  pub address : String
  pub version : String
  pub start_id : String
  pub account_id : String
  pub cluster_id : String
  pub secret : Bytes
  pub server_version : String
  pub agent_permissions : String
  pub cluster_provider : String
  pub is_connected : Bool
  pub is_authorized : Bool
  pub blocked : List ℕ
  pub woken : List ℕ
  pub should_send_logs : Bool
  pub last_sent : ℕ
  pub timeouts : Timeouts
  pub calls : ℕ
  pub readers : ℕ
  pub announced : ℕ
  pub paused : ℕ

-- newClient, with url.Parse, which gives none for an error; the channel and the pipes are left out.
pub new_client :
    (String → Option String)
    → String
    → String
    → String
    → String
    → String
    → Bytes
    → String
    → String
    → String
    → Timeouts
    → Bool
    → Run Client
new_client parse address version start_id account_id cluster_id secret server_version
      agent_permissions cluster_provider timeouts should_send_logs =
    deref (parse address) >>= λ gw_url. ok (record {
      address = gw_url;
      version = version;
      start_id = start_id;
      account_id = account_id;
      cluster_id = cluster_id;
      secret = secret;
      server_version = server_version;
      agent_permissions = agent_permissions;
      cluster_provider = cluster_provider;
      is_connected = false;
      is_authorized = false;
      blocked = [];
      woken = [];
      should_send_logs = should_send_logs;
      last_sent = 0;
      timeouts = timeouts;
      calls = 0;
      readers = 1;
      announced = 0;
      paused = 0;
    })

-- InitClient
pub init_client :
    (String → Option String)
    → String
    → String
    → String
    → String
    → Bytes
    → String
    → String
    → String
    → String
    → ℕ
    → ℕ
    → ℕ
    → ℕ
    → ℕ
    → Bool
    → Run Client
unfolding new_client
init_client parse version start_id account_id cluster_id secret server_version agent_permissions
      cluster_provider gateway_url proto_handshake proto_write proto_read proto_reconnect
      proto_backoff send_logs =
    new_client parse gateway_url version start_id account_id cluster_id secret server_version
      agent_permissions cluster_provider
      (record {
        proto_handshake = proto_handshake;
        proto_write = proto_write;
        proto_read = proto_read;
        proto_reconnect = proto_reconnect;
        proto_backoff = proto_backoff;
      })
      send_logs

-- send, with the decoding of the parameter `out`.
unfoldable pub send :
    {Out : Type 0}
    → Gateway
    → String
    → Request
    → (Bytes → Result Out)
    → Client
    → Result Out × Client
send gw kind packet decode c = elim (gw.encode packet) [
  | fails e ↦ (fails e, record c { calls = c.calls + 1 })
  | done req ↦ elim (gw.exchange c.calls kind req) [
    | fails e ↦ (fails e, record c { calls = c.calls + 1 })
    | done res ↦ (decode res, record c { calls = c.calls + 1; last_sent = gw.clock c.calls })
  ]
]

unfoldable pub hello : Gateway → Client → Result PacketHello × Client
unfolding send
hello gw c =
    send gw hello_kind
      (hello_request (record {
        major = 2;
        minor = 4;
        build = c.version;
        start_id = c.start_id;
        account_id = c.account_id;
        cluster_id = c.cluster_id;
        packet_v2_enabled = true;
        server_version = c.server_version;
        agent_permissions = c.agent_permissions;
        cluster_provider = c.cluster_provider;
      }))
      gw.decode_hello c

unfoldable pub get_authorization_token : Gateway → Client → Bytes → Bytes
get_authorization_token gw c question = gw.sha512 (question ++ c.secret ++ question)

-- The second half of authorize. An error is returned as it is on both branches.
unfoldable pub answer_question : Gateway → Bytes → Client → Result Unit × Client
unfolding send get_authorization_token
answer_question gw question c =
    send gw authorization_answer_kind
      (authorization_answer (record { token = get_authorization_token gw c question }))
      gw.decode_success c

-- What authorize does with the answer to its request. `errors.Wrapf` of a nil error is nil.
unfoldable pub check_question :
    Gateway → Result PacketAuthorizationQuestion × Client → Result Unit × Client
unfolding answer_question
check_question gw (fails e, c) = (fails e, c)
check_question gw (done question, c) =
    if ltb (length question.token) 1024 then (done tt, c) else answer_question gw question.token c

unfoldable pub authorize : Gateway → Client → Result Unit × Client
unfolding send check_question
authorize gw c = check_question gw (
    send gw authorization_request_kind
      (authorization_request (record { account_id = c.account_id; cluster_id = c.cluster_id }))
      gw.decode_question c)

pub ping : Gateway → Client → Result ℕ × Client
unfolding send
ping gw c = send gw ping_kind (ping_request (gw.clock c.calls)) gw.decode_pong c
