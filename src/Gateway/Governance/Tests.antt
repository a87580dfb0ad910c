-- ===== src/Gateway/Governance/Tests.antt =====
-- A gateway with room for two results, and three results with a timer between them.
use magalix_agent.Prelude.{String, ◌≡◌, ◌++◌, none, some, List, [], ◌∷◌, arith}
use magalix_agent.Value.{end}
use magalix_agent.Agent.Governance.{AuditResult, compliant}
use magalix_agent.Gateway.Governance.{
  MagalixGateway, Selected, result, timer, send_audit_results_worker, to_packets,
}
use magalix_agent.Gateway.Governance.Batches.{IsBatching, taken_on, received, worker-IsBatching}

abbrev result_of : String → AuditResult
result_of id = record {
  id = id;
  template_id = some "t1";
  constraint_id = some "c1";
  category_id = none;
  severity = none;
  controls = [];
  standards = [];
  description = "";
  how_to_solve = "";
  status = compliant;
  msg = none;
  entity_name = some "web";
  entity_kind = some "Deployment";
  namespace_name = some "default";
  parent_name = none;
  parent_kind = none;
  entity_spec = end;
  trigger = "periodic-audit";
}

abbrev gateway : MagalixGateway
gateway = record { capacity = 2; audit_results_buffer = []; piped = [] }

abbrev selected : List Selected
selected =
    result (result_of "1") 10
    ∷ result (result_of "2") 11
    ∷ result (result_of "3") 12
    ∷ timer 31
    ∷ []

worker-IsBatching_example :
    IsBatching (send_audit_results_worker gateway selected)
    × (taken_on (send_audit_results_worker gateway selected)
        ≡ taken_on gateway ++ to_packets (received selected))
worker-IsBatching_example =
    worker-IsBatching gateway selected (record { room = omega arith; batches = tt })
