-- ===== src/Client/Connection/Tests.antt =====
-- The theorems at a gateway whose questions are long, and at one whose questions are short.
use magalix_agent.Prelude.{
  ℕ, zero, suc, ◌+◌, ◌≡◌, refl, sym, ap, false, true, [], ◌∷◌, arith, length, ◌==◌, if◌then◌else◌,
}
use magalix_agent.Proto.Connect.{Bytes, PacketHello, PacketAuthorizationQuestion}
use magalix_agent.Client.Session.{
  other_error, done, receives, has_left, leaves, Gateway, Client, send, hello,
}
use magalix_agent.Client.Connection.{
  Attempt, succeeded, failed, with_backoff_limit, connected_to, on_connect,
}
use magalix_agent.Client.Connection.Retries.{IsBackedOff, with_backoff_limit-IsBackedOff}
use magalix_agent.Client.Connection.Admitted.{IsConnection, IsSecure}
use magalix_agent.Client.Connection.Authorized.{on_connect-IsConnection}
use magalix_agent.Client.Connection.Short.{short_token}

zeros : ℕ → Bytes
zeros zero = []
zeros (suc n) = 0 ∷ zeros n

length-zeros : (n : ℕ) → length (zeros n) ≡ n
unfolding zeros
length-zeros zero = refl
length-zeros (suc n) = ap suc (length-zeros n)

abbrev server : PacketHello
server = record {
  major = 2;
  minor = 4;
  build = "gateway";
  start_id = "";
  account_id = "a";
  cluster_id = "c";
  packet_v2_enabled = true;
  server_version = "";
  agent_permissions = "";
  cluster_provider = "";
}

abbrev gateway : ℕ → Gateway
gateway n = record {
  exchange = λ call kind request. done (call ∷ request);
  encode = λ packet. done (1 ∷ 2 ∷ []);
  decode_hello = λ response. done server;
  decode_question = λ response. done (record { token = zeros n });
  decode_success = λ response. done tt;
  decode_pong = λ response. done 3;
  sha512 = λ bytes. bytes;
  is_unsupported = λ e. false;
  clock = λ call. 100 + call;
  is_dropped = λ call. call == 50;
  is_dropped_before = λ call. call == 51;
  is_dropped_after = λ call. call == 52;
  waiter = λ thread. if thread == 5 then has_left else if thread == 6 then leaves else receives;
}

abbrev client : Client
client = record {
  address = "wss://gateway";
  version = "v3";
  start_id = "s";
  account_id = "a";
  cluster_id = "c";
  secret = 7 ∷ [];
  server_version = "1.20";
  agent_permissions = "";
  cluster_provider = "";
  is_connected = false;
  is_authorized = false;
  blocked = 4 ∷ 5 ∷ [];
  woken = [];
  last_sent = 0;
  should_send_logs = true;
  timeouts = record {
    proto_handshake = 10;
    proto_write = 60;
    proto_read = 60;
    proto_reconnect = 1;
    proto_backoff = 300;
  };
  calls = 0;
  readers = 1;
  announced = 0;
  paused = 0;
}

gateway-IsSecure : IsSecure (gateway 1024)
unfolding IsSecure
gateway-IsSecure response q e =
    let same : zeros 1024 ≡ q.token = cc e in omega (arith, sym (ap length same), length-zeros 1024)

on_connect-IsConnection_example :
    IsConnection (gateway 1024) client (on_connect (gateway 1024) client)
on_connect-IsConnection_example =
    on_connect-IsConnection (gateway 1024) gateway-IsSecure client refl

abbrev question : PacketAuthorizationQuestion
question = record { token = zeros 16 }

short_token_example :
    (d : Client) × (on_connect (gateway 16) client ≡ connected_to d)
    × (d.is_authorized ≡ true)
    × (d.calls ≡ 0 + 2)
unfolding send hello
short_token_example =
    short_token (gateway 16) client refl refl refl
      ((λ e. absurd (cc e)), ((λ e. absurd (cc e)), tt)) server refl question (omega arith) refl
      (omega (arith, length-zeros 16))

-- The third call succeeds.
abbrev fn : ℕ → Attempt ℕ
fn n = if n == 2 then succeeded n else failed (other_error "closed") (n + 1)

with_backoff_limit-IsBackedOff_example : IsBackedOff fn 300 5 0 (with_backoff_limit fn 300 5 0)
with_backoff_limit-IsBackedOff_example = with_backoff_limit-IsBackedOff fn 300 5 0
