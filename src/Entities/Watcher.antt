-- ===== src/Entities/Watcher.antt =====
-- entities/entities.go: EntitiesWatcher. A watcher of the observer is what its lister answers. `told` collects the calls
-- of the handlers, and `listened` the watchers that call the EntitiesWatcher, which the program does not keep.
pub mod Started
pub mod Told
mod Tests
use magalix_agent.Prelude.{
  ℕ, String, Bool, true, false, ◌&&◌, Option, none, some, List, [], ◌∷◌, ◌++◌, map, leb, ◌==◌,
  str_eq, if◌then◌else◌,
}
use magalix_agent.Prelude.Dict
use magalix_agent.Prelude.Dict.{Dict}
use magalix_agent.Kuber.Object.{Unstructured}
use magalix_agent.Kuber.Resources.{
  GroupVersionResourceKind, Schemes, nodes, namespaces, limit_ranges, pods, replication_controllers,
  deployments, stateful_sets, daemon_sets, replica_sets, jobs, cron_jobs, ingresses,
  ingress_classes, network_policies, services, persistent_volumes, persistent_volume_claims,
  storage_classes, roles, role_bindings, cluster_roles, cluster_role_bindings, service_accounts,
}
use magalix_agent.Kuber.Parents.{
  ParentController, nil, controller, ParentsStore, Listed, Outcome, returned, failed, out_of_fuel,
}
use magalix_agent.Kuber.Parents
use magalix_agent.Entities.Deltas.{Delta}
use magalix_agent.Entities.Deltas

-- `get` is the lister's Get, `list` its List with the error.
pub record Watcher : Type 0 where
  pub gvrk : GroupVersionResourceKind
  pub get : Parents.Watcher
  pub list : List Unstructured × Option String

-- The calls of a ResourceEventsHandler.
pub data Notice : Type 0 where
  on_resource_add on_resource_delete : GroupVersionResourceKind → Unstructured → Notice
  on_resource_update : GroupVersionResourceKind → Unstructured → Unstructured → Notice
  on_cache_sync : Notice

-- `changes` holds the queue of deltas and the parents store of the observer. Handlers are named by numbers.
pub record EntitiesWatcher : Type 0 where
  pub changes : Deltas.EntitiesWatcher
  pub watchers : List (GroupVersionResourceKind × Watcher)
  pub watchers_by_kind : Dict Watcher
  pub resource_event_handlers : List ℕ
  pub is_started : Bool
  pub told : List (ℕ × Notice)
  pub listened : List GroupVersionResourceKind

pub same_gvrk : GroupVersionResourceKind → GroupVersionResourceKind → Bool
same_gvrk a b =
    str_eq a.group b.group
    && str_eq a.version b.version
    && str_eq a.resource b.resource
    && str_eq a.kind b.kind

-- `m[gvrk] = w`
pub put :
    GroupVersionResourceKind
    → Watcher
    → List (GroupVersionResourceKind × Watcher)
    → List (GroupVersionResourceKind × Watcher)
unfolding same_gvrk
put g w [] = (g, w) ∷ []
put g w ((k, v) ∷ m) = if same_gvrk k g then (k, w) ∷ m else (k, v) ∷ put g w m

-- The resources that are watched; version is the minor version of the server.
unfoldable pub watched_resources : Schemes → ℕ → List GroupVersionResourceKind
watched_resources schemes version =
    nodes schemes
    ∷ namespaces schemes
    ∷ limit_ranges schemes
    ∷ pods schemes
    ∷ replication_controllers schemes
    ∷ deployments schemes
    ∷ stateful_sets schemes
    ∷ daemon_sets schemes
    ∷ replica_sets schemes
    ∷ jobs schemes
    ∷ cron_jobs schemes
    ∷ ingresses schemes
    ∷ network_policies schemes
    ∷ services schemes
    ∷ persistent_volumes schemes
    ∷ persistent_volume_claims schemes
    ∷ storage_classes schemes
    ∷ roles schemes
    ∷ role_bindings schemes
    ∷ cluster_roles schemes
    ∷ cluster_role_bindings schemes
    ∷ service_accounts schemes
    ∷ (if leb 18 version then ingress_classes schemes ∷ [] else [])

-- NewEntitiesWatcher, with the parents store of the observer.
unfoldable pub new_entities_watcher : ParentsStore → EntitiesWatcher
new_entities_watcher parents = record {
  changes = record { deltas_queue = []; parents = parents };
  watchers = [];
  watchers_by_kind = [];
  resource_event_handlers = [];
  is_started = false;
  told = [];
  listened = [];
}

pub has_handler : ℕ → List ℕ → Bool
has_handler h [] = false
has_handler h (k ∷ ks) = if k == h then true else has_handler h ks

pub add_resource_events_handler : EntitiesWatcher → ℕ → EntitiesWatcher
unfolding has_handler
add_resource_events_handler ew h =
    if has_handler h ew.resource_event_handlers
    then ew
    else record ew { resource_event_handlers = ew.resource_event_handlers ++ h ∷ [] }

-- A call of every handler.
unfoldable pub tell : EntitiesWatcher → Notice → EntitiesWatcher
tell ew n = record ew { told = ew.told ++ map (λ h. (h, n)) ew.resource_event_handlers }

-- The first loop of Start; the argument is Watch of the observer.
pub watch_all :
    (GroupVersionResourceKind → Watcher)
    → List GroupVersionResourceKind
    → EntitiesWatcher
    → EntitiesWatcher
unfolding put
watch_all watch [] ew = ew
watch_all watch (g ∷ gs) ew = watch_all watch gs (record ew {
  watchers = put g (watch g) ew.watchers;
  watchers_by_kind = Dict.insert g.kind (watch g) ew.watchers_by_kind;
})

-- WaitForCacheSync, whose timeout is only logged.
pub wait_for_cache_sync : EntitiesWatcher → EntitiesWatcher
unfolding tell
wait_for_cache_sync ew = tell ew on_cache_sync

-- Start, up to the worker.
pub start :
    (GroupVersionResourceKind → Watcher)
    → List GroupVersionResourceKind
    → EntitiesWatcher
    → EntitiesWatcher
unfolding watch_all wait_for_cache_sync
start watch resources ew =
    let synced = wait_for_cache_sync (watch_all watch resources ew) in
    record synced {
      listened = synced.listened ++ map (λ kw. kw.0) synced.watchers;
      is_started = true;
    }

pub stop : EntitiesWatcher → EntitiesWatcher
stop ew = record ew { is_started = false }

find_watcher : GroupVersionResourceKind → List (GroupVersionResourceKind × Watcher) → Option Watcher
unfolding same_gvrk
find_watcher g [] = none
find_watcher g ((k, w) ∷ m) = if same_gvrk k g then some w else find_watcher g m

-- WatcherFor; `none` is the error.
pub watcher_for : EntitiesWatcher → GroupVersionResourceKind → Option Watcher
unfolding find_watcher
watcher_for ew g = find_watcher g ew.watchers

-- An error of a lister: the resource, and the error.
list_errors : String → Option String → List (String × String)
list_errors resource none = []
list_errors resource (some e) = (resource, e) ∷ []

-- The loop of GetAllEntitiesByGvrk; a lister that fails still has an entry.
list_all :
    List (GroupVersionResourceKind × Watcher)
    → List (GroupVersionResourceKind × List Unstructured) × List (String × String)
unfolding list_errors
list_all [] = ([], [])
list_all ((g, w) ∷ m) =
    let rest = list_all m in ((g, w.list.0) ∷ rest.0, list_errors g.resource w.list.1 ++ rest.1)

pub get_all_entities_by_gvrk :
    EntitiesWatcher → List (GroupVersionResourceKind × List Unstructured) × List (String × String)
unfolding list_all
get_all_entities_by_gvrk ew = list_all ew.watchers

get_by_kind : Option Watcher → Option Parents.Watcher
get_by_kind none = none
get_by_kind (some w) = some w.get

-- getParents of an object, before packetParent, with the fuel of the walk.
pub look_up_parents : EntitiesWatcher → ℕ → Unstructured → Outcome
unfolding get_by_kind
look_up_parents ew fuel u =
    Parents.get_parents (λ kind. get_by_kind (Dict.lookup kind ew.watchers_by_kind)) fuel u
      ew.changes.parents

-- agent.ParentController
pub data AgentParent : Type 0 where
  no_parent : AgentParent
  agent_parent : String → String → String → Bool → AgentParent → AgentParent

pub packet_parent : ParentController → AgentParent
packet_parent nil = no_parent
packet_parent (controller kind name api_version watched above) =
    agent_parent kind name api_version watched (packet_parent above)

unfoldable pub on_add :
    EntitiesWatcher → GroupVersionResourceKind → Unstructured → ℕ → EntitiesWatcher
unfolding tell
on_add ew g o now =
    tell (record ew { changes = Deltas.on_add ew.changes o now }) (on_resource_add g o)

unfoldable pub on_update :
    EntitiesWatcher → GroupVersionResourceKind → Unstructured → Unstructured → ℕ → EntitiesWatcher
unfolding tell
on_update ew g old new now =
    tell (record ew { changes = Deltas.on_add ew.changes new now }) (on_resource_update g old new)

unfoldable pub on_delete :
    EntitiesWatcher → GroupVersionResourceKind → Unstructured → ℕ → EntitiesWatcher
unfolding tell
on_delete ew g o now =
    tell (record ew { changes = Deltas.on_delete ew.changes o now }) (on_resource_delete g o)

-- GetParents
pub get_parents : EntitiesWatcher → String → String → String → Option ParentController
get_parents ew namespace kind name = Parents.find_parents ew.changes.parents namespace kind name

-- What the informers call.
pub data Event : Type 0 where
  added deleted : GroupVersionResourceKind → Unstructured → ℕ → Event
  updated : GroupVersionResourceKind → Unstructured → Unstructured → ℕ → Event

unfoldable pub handle : Event → EntitiesWatcher → EntitiesWatcher
unfolding on_add on_update on_delete
handle (added g o now) ew = on_add ew g o now
handle (deleted g o now) ew = on_delete ew g o now
handle (updated g old new now) ew = on_update ew g old new now

unfoldable pub handle_all : List Event → EntitiesWatcher → EntitiesWatcher
unfolding handle
handle_all [] ew = ew
handle_all (e ∷ es) ew = handle_all es (handle e ew)
