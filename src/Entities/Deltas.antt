-- ===== src/Entities/Deltas.antt =====
-- entities/entities.go: the changes of the objects of the cluster, and deltasWorker, which keeps the
-- newest change of each object until it flushes. Times and durations are in seconds.
pub mod Newest
mod Tests
use magalix_agent.Prelude.{
  ℕ, String, Bool, true, false, ◌||◌, Option, none, some, List, [], ◌∷◌, ◌++◌, ltb, leb, length,
  if◌then◌else◌,
}
use magalix_agent.Prelude.Dict
use magalix_agent.Prelude.Dict.{Dict}
use magalix_agent.Kuber.Keys.{get_entity_key}
use magalix_agent.Kuber.Object.{Unstructured}
use magalix_agent.Kuber.Parents.{ParentsStore}
use magalix_agent.Kuber.Parents

pub record Delta : Type 0 where
  pub kind : String
  pub content : Unstructured
  pub timestamp : ℕ

pub record EntitiesWatcher : Type 0 where
  pub deltas_queue : List Delta
  pub parents : ParentsStore

unfoldable pub upsert : Unstructured → ℕ → Delta
upsert o now = record { kind = "UPSERT"; content = o; timestamp = now }

-- OnAdd; OnUpdate does the same with the new object.
unfoldable pub on_add : EntitiesWatcher → Unstructured → ℕ → EntitiesWatcher
unfolding upsert
on_add w o now = record w { deltas_queue = w.deltas_queue ++ upsert o now ∷ [] }

unfoldable pub on_delete : EntitiesWatcher → Unstructured → ℕ → EntitiesWatcher
on_delete w o now = record {
  deltas_queue = w.deltas_queue ++ (record { kind = "DELETE"; content = o; timestamp = now }) ∷ [];
  parents = Parents.delete w.parents o.namespace o.kind o.name;
}

-- The identifier of the object.
pub identifier : Delta → String
identifier d = get_entity_key d.content.namespace d.content.kind d.content.name

pub keep_newest : Dict Delta → Delta → Dict Delta
unfolding identifier
keep_newest items d = elim (Dict.lookup (identifier d) items) [
  | none ↦ Dict.insert (identifier d) d items
  | some old ↦ if ltb old.timestamp d.timestamp then Dict.insert (identifier d) d items else items
]

-- What the worker selects: a delta with the time since the batch began, a timeout, or the end.
pub data Selected : Type 0 where
  item : Delta → ℕ → Selected
  timeout done : Selected

-- The inner loop: it goes on with the items, or it flushes, and stops at the end of the context.
pub data Batch : Type 0 where
  open_batch : Dict Delta → Batch
  flushed : Dict Delta → Bool → Batch

pub select : Dict Delta → Selected → Batch
unfolding keep_newest
select items (item d since) =
    let items' = keep_newest items d in
    if leb 100 (length items') || leb 10 since then flushed items' false else open_batch items'
select items timeout = flushed items false
select items done = flushed items true

-- The inner loop over what is selected, until it flushes.
pub gather : Dict Delta → List Selected → Batch
unfolding select
gather items [] = open_batch items
gather items (x ∷ xs) = elim (select items x) [
  | open_batch items' ↦ gather items' xs
  | flushed items' stop ↦ flushed items' stop
]
