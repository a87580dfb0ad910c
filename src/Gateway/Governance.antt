-- ===== src/Gateway/Governance.antt =====
-- gateway/governance.go, with ToPacket of agent/governance.go: the request that brings constraints,
-- and the worker that sends audit results in batches. The decoding of a request and what takes the
-- constraints are arguments. `piped` collects what goes to Pipe of the client, whose error is logged.
pub mod Batches
mod Tests
use magalix_agent.Prelude.{
  ℕ, zero, suc, ◌+◌, String, Bool, true, false, Option, none, some, List, [], ◌∷◌, ◌++◌, ltb, ◌==◌,
  length, map, str_eq, if◌then◌else◌,
}
use magalix_agent.Agent.Governance as Agent
use magalix_agent.Agent.Governance.{Match, AuditResult, Status, violating, compliant, ignored}
use magalix_agent.Proto.{
  PacketAuditResultItem, PacketAuditResultRequest, PacketConstraintItem, PacketConstraintsRequest,
  audit_result_request_kind, violating_status, compliant_status, ignored_status,
}

-- The status of an item stays empty where the switch has no case.
packet_status : Status → String
packet_status s =
    if str_eq s violating
    then violating_status
    else if str_eq s compliant
    then compliant_status
    else if str_eq s ignored
    then ignored_status
    else ""

pub to_packet : AuditResult → PacketAuditResultItem
unfolding packet_status
to_packet r = record {
  id = r.id;
  template_id = r.template_id;
  constraint_id = r.constraint_id;
  category_id = r.category_id;
  severity = r.severity;
  controls = r.controls;
  standards = r.standards;
  description = r.description;
  how_to_solve = r.how_to_solve;
  status = packet_status r.status;
  msg = r.msg;
  entity_name = r.entity_name;
  entity_kind = r.entity_kind;
  namespace_name = r.namespace_name;
  parent_name = r.parent_name;
  parent_kind = r.parent_kind;
  entity_spec = r.entity_spec;
  trigger = r.trigger;
}

pub to_constraint : PacketConstraintItem → Agent.Constraint
to_constraint c = record {
  id = c.id;
  template_id = c.template_id;
  account_id = c.account_id;
  cluster_id = c.cluster_id;
  name = c.name;
  template_name = c.template_name;
  parameters = c.parameters;
  matches = record {
    namespaces = c.matches.namespaces;
    kinds = c.matches.kinds;
    labels = c.matches.labels;
  };
  code = c.code;
  description = c.description;
  how_to_solve = c.how_to_solve;
  updated_at = c.updated_at;
  category_id = c.category_id;
  severity = c.severity;
  controls = c.controls;
  standards = c.standards;
  deleted_at = c.deleted_at;
}

pub to_constraints : List PacketConstraintItem → List Agent.Constraint
unfolding to_constraint
to_constraints [] = []
to_constraints (c ∷ cs) = to_constraint c ∷ to_constraints cs

-- What DecodeSnappy gives.
pub data Decoded : Type 0 where
  decoded : PacketConstraintsRequest → Decoded
  undecoded : String → Decoded

-- What the listener of constraints returns: the response, whose packet is empty, or an error.
pub data Answer : Type 0 where
  response : Answer
  answer_error : String → Answer

-- The listener of constraints, with the state of what takes the constraints.
pub handle_constraints_request :
    {State : Type 0} → (List Agent.Constraint → State → State) → Decoded → State → Answer × State
unfolding to_constraints
handle_constraints_request add_constraints (decoded r) s =
    (response, add_constraints (to_constraints r.constraints) s)
handle_constraints_request add_constraints (undecoded e) s = (answer_error e, s)

-- The package that a batch is piped in; durations are in seconds.
pub record AuditResultPackage : Type 0 where
  pub kind : String
  pub expiry_time : ℕ
  pub expiry_count : ℕ
  pub priority : ℕ
  pub retries : ℕ
  pub packet : PacketAuditResultRequest

pub record MagalixGateway : Type 0 where
  pub capacity : ℕ
  pub audit_results_buffer : List AuditResult
  pub piped : List AuditResultPackage

pub to_packets : List AuditResult → List PacketAuditResultItem
unfolding to_packet
to_packets [] = []
to_packets (r ∷ rs) = to_packet r ∷ to_packets rs

pub send_audit_results_batch : MagalixGateway → List AuditResult → ℕ → MagalixGateway
unfolding to_packets
send_audit_results_batch g results now = record g {
  piped =
      g.piped
      ++ (record {
        kind = audit_result_request_kind;
        expiry_time = now + 1800;
        expiry_count = 0;
        priority = 1;
        retries = 5;
        packet = record { items = to_packets results; timestamp = now };
      })
        ∷ [];
}

-- What the worker selects: a result of the channel, or the timer; with the time.
pub data Selected : Type 0 where
  result : AuditResult → ℕ → Selected
  timer : ℕ → Selected

-- One round of SendAuditResultsWorker.
pub select : MagalixGateway → Selected → MagalixGateway
unfolding send_audit_results_batch
select g (result r now) =
    let buffer = g.audit_results_buffer ++ r ∷ [] in
    let g' : MagalixGateway = record g { audit_results_buffer = buffer } in
    if length buffer == g.capacity
    then record (send_audit_results_batch g' buffer now) { audit_results_buffer = [] }
    else g'
select g (timer now) =
    if ltb 0 (length g.audit_results_buffer)
    then record (send_audit_results_batch g g.audit_results_buffer now) {
      audit_results_buffer = [];
    }
    else g

-- The worker over what it selects.
pub send_audit_results_worker : MagalixGateway → List Selected → MagalixGateway
unfolding select
send_audit_results_worker g [] = g
send_audit_results_worker g (x ∷ xs) = send_audit_results_worker (select g x) xs
