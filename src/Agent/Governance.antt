-- ===== src/Agent/Governance.antt =====
-- agent/governance.go: constraints and audit results, and the packet that an audit result becomes
-- (proto/packets.go). A `*string` is an `Option String`, and times are numbers.
use magalix_agent.Prelude.{ℕ, String, Option, List}
use magalix_agent.Prelude.Dict.{Dict}
use magalix_agent.Value.{Fields}

pub record Match : Type 0 where
  pub namespaces : List String
  pub kinds : List String
  pub labels : List (Dict String)

pub record Constraint : Type 0 where
  pub id : String
  pub template_id : String
  pub account_id : String
  pub cluster_id : String
  pub name : String
  pub template_name : String
  pub parameters : Fields
  pub matches : Match
  pub code : String
  pub description : String
  pub how_to_solve : String
  pub updated_at : ℕ
  pub category_id : String
  pub severity : String
  pub controls : List String
  pub standards : List String
  pub deleted_at : Option String

-- `AuditResultStatus` is a string; the code gives it these values, or leaves it empty.
abbrev pub Status : Type 0
Status = String

abbrev pub violating : Status
violating = "Violation"

abbrev pub compliant : Status
compliant = "Compliance"

abbrev pub ignored : Status
ignored = "Ignored"

abbrev pub no_status : Status
no_status = ""

pub record AuditResult : Type 0 where
  pub id : String
  pub template_id : Option String
  pub constraint_id : Option String
  pub category_id : Option String
  pub severity : Option String
  pub controls : List String
  pub standards : List String
  pub description : String
  pub how_to_solve : String
  pub status : Status
  pub msg : Option String
  pub entity_name : Option String
  pub entity_kind : Option String
  pub namespace_name : Option String
  pub parent_name : Option String
  pub parent_kind : Option String
  pub entity_spec : Fields
  pub trigger : String
