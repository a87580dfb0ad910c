-- ===== src/Entities/Deltas/Tests.antt =====
-- Two changes of one object in a batch.
use magalix_agent.Prelude.{[]}
use magalix_agent.Value.{end}
use magalix_agent.Kuber.Object.{Unstructured}
use magalix_agent.Entities.Deltas.{Delta}

abbrev pod : Unstructured
pod = record {
  namespace = "default";
  kind = "Pod";
  name = "web";
  api_version = "v1";
  resource_version = "1";
  labels = [];
  owner_references = [];
  object = end;
}

abbrev first : Delta
first = record { kind = "UPSERT"; content = pod; timestamp = 5 }

abbrev second : Delta
second = record { kind = "DELETE"; content = pod; timestamp = 6 }
