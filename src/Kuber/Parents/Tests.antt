-- ===== src/Kuber/Parents/Tests.antt =====
-- A pod that a replica set controls, and the theorems at it.
use magalix_agent.Prelude.{
  ℕ, String, ◌≡◌, ◌⊎◌, inl, inr, ◌≢◌, refl, sym, ap, ◌∙◌, true, some, Option, [], ◌∷◌, arith,
  eq_iff, length, ◌<◌,
}
use magalix_agent.Prelude.Dict
use magalix_agent.Value.{end}
use magalix_agent.Kuber.Keys.{get_entity_key, get_entity_key-injective}
use magalix_agent.Kuber.Object.{OwnerReference, Unstructured}
use magalix_agent.Kuber.Parents.{
  ParentController, nil, controller, new_parents_store, find_parents, Watcher, listed, get_parents,
  root_parent, returned, set_parents,
}
use magalix_agent.Kuber.Parents.Ancestry.{
  IsOwnedBy, IsCluster, IsCoherent, Good, get_parents_walks, key,
}
use magalix_agent.Kuber.Parents.Root.{IsRoot, root_parent-IsRoot}

abbrev replica_set : Unstructured
replica_set = record {
  namespace = "default";
  kind = "ReplicaSet";
  name = "web";
  api_version = "apps/v1";
  resource_version = "1";
  labels = [];
  owner_references = [];
  object = end;
}

abbrev owner : OwnerReference
owner = record {
  name = "web";
  kind = "ReplicaSet";
  api_version = "apps/v1";
  controller = some true;
}

abbrev pod : Unstructured
pod = record replica_set { kind = "Pod"; name = "web-1"; owner_references = owner ∷ [] }

abbrev watchers : String → Option Watcher
watchers kind = some (λ namespace name. listed replica_set)

abbrev Live : Unstructured → Type 0
Live o = (o ≡ pod) ⊎ (o ≡ replica_set)

abbrev rank : Unstructured → ℕ
rank o = length o.owner_references

owner_obj-eq :
    (o : Unstructured) (ref : OwnerReference) (owner_obj : Unstructured)
    → IsOwnedBy watchers o ref owner_obj
    → owner_obj ≡ replica_set
owner_obj-eq o ref owner_obj by =
    let same : ◌≡◌ {A = Watcher} (λ namespace name. listed replica_set) by.watcher =
      cc by.watched in
    let found : listed replica_set ≡ by.watcher o.namespace ref.name =
      ap (λ (w : Watcher). w o.namespace ref.name) same in
    cc (found, by.found)

keys_differ : ¬ (key pod ≡ key replica_set)
unfolding get_entity_key
keys_differ e = cc ((eq_iff (key pod) (key replica_set)).1 e)

one_key : (o o' : Unstructured) → Live o → Live o' → key o ≡ key o' → o ≡ o'
one_key o o' (inl p) (inl q) e = cc
one_key o o' (inl p) (inr q) e = absurd (keys_differ (sym (ap key p) ∙ e ∙ ap key q))
one_key o o' (inr p) (inl q) e = absurd (keys_differ (sym (ap key q) ∙ sym e ∙ ap key p))
one_key o o' (inr p) (inr q) e = cc

grounded :
    (o : Unstructured) (ref : OwnerReference) (owner_obj : Unstructured)
    → Live o
    → IsOwnedBy watchers o ref owner_obj
    → rank owner_obj < rank o
grounded o ref owner_obj live by =
    let owned : rank o ≡ 1 = ap length by.single in
    let top : rank owner_obj ≡ 0 = ap rank (owner_obj-eq o ref owner_obj by) in omega arith

cluster : IsCluster watchers Live rank
cluster = record {
  closed = λ o ref owner_obj live by. inr (owner_obj-eq o ref owner_obj by);
  one_key = one_key;
  grounded = grounded;
}

abbrev chain : ParentController
chain = controller "ReplicaSet" "web" "apps/v1" true nil

-- The walk caches the parents of the replica set and of the pod.
walk_stores :
    get_parents watchers 2 pod new_parents_store
    ≡ returned chain
        (record { parents = ("default:ReplicaSet:web", nil) ∷ ("default:Pod:web-1", chain) ∷ [] })
unfolding get_parents new_parents_store set_parents get_entity_key Dict.lookup Dict.insert
walk_stores = refl

empty_IsCoherent : IsCoherent watchers Live new_parents_store
unfolding find_parents new_parents_store Dict.lookup
empty_IsCoherent o p live e = cc e

get_parents_walks_example :
    Good watchers Live rank cluster pod new_parents_store
      (get_parents watchers 2 pod new_parents_store)
get_parents_walks_example =
    get_parents_walks watchers Live rank cluster 2 pod new_parents_store (inl refl) (omega arith)
      empty_IsCoherent

root_parent-IsRoot_example :
    (chain ≢ nil → IsRoot chain (root_parent chain)) × (root_parent nil ≡ nil)
root_parent-IsRoot_example = root_parent-IsRoot chain

abbrev namespace : String
namespace = ""

abbrev cluster_role : String
cluster_role = "ClusterRole"

abbrev system_node : String
system_node = "system:node"

get_entity_key-injective_example :
    (namespace ≡ namespace) × (cluster_role ≡ cluster_role) × (system_node ≡ system_node)
get_entity_key-injective_example =
    get_entity_key-injective namespace cluster_role system_node namespace cluster_role system_node
      tt tt (omega arith) (omega arith) refl
