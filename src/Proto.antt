-- ===== src/Proto.antt =====
-- proto/packets.go and proto/kind.go: the packets of constraints and of audit results.
pub mod Connect
use magalix_agent.Prelude.{ℕ, String, Option, List}
use magalix_agent.Prelude.Dict.{Dict}
use magalix_agent.Value.{Fields}

abbrev pub audit_result_request_kind : String
audit_result_request_kind = "audit/result"

abbrev pub violating_status : String
violating_status = "Violation"

abbrev pub compliant_status : String
compliant_status = "Compliance"

abbrev pub ignored_status : String
ignored_status = "Ignored"

pub record PacketAuditResultItem : Type 0 where
  pub id : String
  pub template_id : Option String
  pub constraint_id : Option String
  pub category_id : Option String
  pub severity : Option String
  pub controls : List String
  pub standards : List String
  pub description : String
  pub how_to_solve : String
  pub status : String
  pub msg : Option String
  pub entity_name : Option String
  pub entity_kind : Option String
  pub namespace_name : Option String
  pub parent_name : Option String
  pub parent_kind : Option String
  pub entity_spec : Fields
  pub trigger : String

pub record PacketAuditResultRequest : Type 0 where
  pub items : List PacketAuditResultItem
  pub timestamp : ℕ

pub record PacketMatch : Type 0 where
  pub namespaces : List String
  pub kinds : List String
  pub labels : List (Dict String)

pub record PacketConstraintItem : Type 0 where
  pub id : String
  pub template_id : String
  pub account_id : String
  pub cluster_id : String
  pub name : String
  pub template_name : String
  pub parameters : Fields
  pub matches : PacketMatch
  pub code : String
  pub description : String
  pub how_to_solve : String
  pub category_id : String
  pub severity : String
  pub controls : List String
  pub standards : List String
  pub updated_at : ℕ
  pub deleted_at : Option String

pub record PacketConstraintsRequest : Type 0 where
  pub timestamp : ℕ
  pub constraints : List PacketConstraintItem
