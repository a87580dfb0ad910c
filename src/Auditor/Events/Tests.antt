-- ===== src/Auditor/Events/Tests.antt =====
-- The worker audits a changed deployment after the entities are synced, and finds it compliant.
use magalix_agent.Prelude.{String, refl, none, List, [], ◌∷◌, Returns}
use magalix_agent.Value.{Fields, end}
use magalix_agent.Agent.Governance as Agent
use magalix_agent.Kuber.Object.{Unstructured}
use magalix_agent.Auditor.Opa.{Parsed, parsed}
use magalix_agent.Auditor.Opa.Audit.{Evaluation, complies}
use magalix_agent.Auditor.Events.{
  World, Action, add, sync, constraints, worker, ticker, run, new_auditor,
}
use magalix_agent.Auditor.Events.Safety.{IsSafe}
use magalix_agent.Auditor.Events.Runs.{run-IsSafe}

abbrev deployment : Unstructured
deployment = record {
  namespace = "default";
  kind = "Deployment";
  name = "web";
  api_version = "apps/v1";
  resource_version = "1";
  labels = [];
  owner_references = [];
  object = end;
}

abbrev limits : Agent.Constraint
limits = record {
  id = "c1";
  template_id = "t1";
  account_id = "a";
  cluster_id = "k";
  name = "limits";
  template_name = "resource limits";
  parameters = end;
  matches = record { namespaces = []; kinds = []; labels = [] };
  code = "package limits";
  description = "Containers have limits";
  how_to_solve = "Set them";
  updated_at = 1;
  category_id = "performance";
  severity = "high";
  controls = [];
  standards = [];
  deleted_at = none;
}

abbrev parse : String → String → Parsed String
parse code query = parsed code

abbrev eval : String → Fields → Fields → String → Evaluation
eval policy object parameters query = complies

abbrev id_of : String → String
id_of id = id

abbrev template_of : String → String
template_of id = "t1"

abbrev world : World
world = record { entities = (deployment ∷ []) ∷ []; get_parents = λ namespace kind name. none }

abbrev actions : List Action
actions =
    constraints (limits ∷ [])
    ∷ sync
    ∷ worker world 1
    ∷ add deployment
    ∷ worker world 1
    ∷ worker world 0
    ∷ ticker world
    ∷ []

run-IsSafe_example : Returns (IsSafe parse template_of) (run parse eval id_of new_auditor actions)
run-IsSafe_example =
    run-IsSafe parse template_of eval id_of (λ p o ps. tt) actions
      (
        (record { policy = "package limits"; parses = refl; stable = refl }, tt),
        (tt, (tt, (tt, (tt, (tt, (tt, tt)))))),
      )
