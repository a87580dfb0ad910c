-- ===== src/Proto/Connect.antt =====
-- proto/packets.go and proto/kind.go: the packets of the handshake, and pings.
use magalix_agent.Prelude.{ℕ, String, Bool, List}

abbrev pub Bytes : Type 0
Bytes = List ℕ

abbrev pub hello_kind : String
hello_kind = "hello"

abbrev pub authorization_request_kind : String
authorization_request_kind = "authorization/request"

abbrev pub authorization_answer_kind : String
authorization_answer_kind = "authorization/answer"

abbrev pub ping_kind : String
ping_kind = "ping"

pub record PacketHello : Type 0 where
  pub major : ℕ
  pub minor : ℕ
  pub build : String
  pub start_id : String
  pub account_id : String
  pub cluster_id : String
  pub packet_v2_enabled : Bool
  pub server_version : String
  pub agent_permissions : String
  pub cluster_provider : String

pub record PacketAuthorizationRequest : Type 0 where
  pub account_id : String
  pub cluster_id : String

pub record PacketAuthorizationQuestion : Type 0 where
  pub token : Bytes

pub record PacketAuthorizationAnswer : Type 0 where
  pub token : Bytes

-- The packets that the client sends.
pub data Request : Type 0 where
  hello_request : PacketHello → Request
  authorization_request : PacketAuthorizationRequest → Request
  authorization_answer : PacketAuthorizationAnswer → Request
  ping_request : ℕ → Request
