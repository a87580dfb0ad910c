-- ===== src/Kuber/Object.antt =====
-- What the agent reads of the objects of the cluster, whose types are those of k8s.io/apimachinery:
-- a record holds what the accessors of that library return.
use magalix_agent.Prelude.{String, Bool, Option, List}
use magalix_agent.Prelude.Dict.{Dict}
use magalix_agent.Value.{Fields}

-- What the code reads of a `metav1.OwnerReference`.
pub record OwnerReference : Type 0 where
  pub name : String
  pub kind : String
  pub api_version : String
  pub controller : Option Bool

-- What the code reads of an `unstructured.Unstructured`: the results of its accessors.
pub record Unstructured : Type 0 where
  pub namespace : String
  pub kind : String
  pub name : String
  pub api_version : String
  pub resource_version : String
  pub labels : Dict String
  pub owner_references : List OwnerReference
  pub object : Fields
