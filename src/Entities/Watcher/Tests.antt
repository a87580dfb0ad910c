-- ===== src/Entities/Watcher/Tests.antt =====
-- The theorems at a watcher with one handler.
use magalix_agent.Prelude.{◌≡◌, refl, none, some, [], ◌∷◌, List, All}
use magalix_agent.Prelude.Dict
use magalix_agent.Value.{end}
use magalix_agent.Kuber.Object.{Unstructured}
use magalix_agent.Kuber.Resources.{GroupVersion, GroupVersionResourceKind, Schemes, pods}
use magalix_agent.Kuber.Parents.{list_error, new_parents_store}
use magalix_agent.Entities.Watcher.{
  Watcher, EntitiesWatcher, watched_resources, new_entities_watcher, start, Event, added, deleted,
  updated, handle_all,
}
use magalix_agent.Entities.Watcher.Started.{lookup-start}
use magalix_agent.Entities.Watcher.Told.{IsTold, handle_all-IsTold}

abbrev v1 : GroupVersion
v1 = record { group = ""; version = "v1" }

abbrev schemes : Schemes
schemes = record {
  core = v1;
  apps = v1;
  batch = v1;
  batch_beta = v1;
  networking = v1;
  rbac = v1;
  storage = v1;
}

abbrev watch : GroupVersionResourceKind → Watcher
watch g = record { gvrk = g; get = λ namespace name. list_error "not found"; list = ([], none) }

lookup-start_example :
    All
      (λ g.
        Dict.lookup g.kind
          (start watch
            (watched_resources schemes 20)
            (new_entities_watcher new_parents_store)).watchers_by_kind
        ≡ some (watch g))
      (watched_resources schemes 20)
lookup-start_example = lookup-start watch schemes 20 (new_entities_watcher new_parents_store)

abbrev pod : Unstructured
pod = record {
  namespace = "default";
  kind = "Pod";
  name = "web";
  api_version = "v1";
  resource_version = "7";
  labels = [];
  owner_references = [];
  object = end;
}

-- With two handlers.
abbrev watcher : EntitiesWatcher
watcher = record (new_entities_watcher new_parents_store) { resource_event_handlers = 1 ∷ 2 ∷ [] }

abbrev events : List Event
events =
    added (pods schemes) pod 5
    ∷ updated (pods schemes) pod (record pod { resource_version = "8" }) 6
    ∷ deleted (pods schemes) pod 9
    ∷ []

handle_all-IsTold_example : IsTold watcher events (handle_all events watcher)
unfolding new_entities_watcher new_parents_store
handle_all-IsTold_example = handle_all-IsTold watcher events refl
