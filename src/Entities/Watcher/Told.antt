-- ===== src/Entities/Watcher/Told.antt =====
-- What the events of the informers leave.
use magalix_agent.Prelude.{
  ℕ, ◌≡◌, refl, sym, ap, ap₂, ◌∙◌, String, none, List, [], ◌∷◌, ◌++◌, map, append_assoc, append-nil,
}
use magalix_agent.Prelude.Dict
use magalix_agent.Kuber.Parents.{delete, find_parents}
use magalix_agent.Entities.Deltas.{Delta, upsert}
use magalix_agent.Entities.Deltas
use magalix_agent.Entities.Watcher.{
  EntitiesWatcher, Notice, on_resource_add, on_resource_delete, on_resource_update, tell,
  get_parents, Event, added, deleted, updated, on_add, on_update, on_delete, handle, handle_all,
}

-- The delta of an event.
pub delta_of : Event → Delta
delta_of (added g o now) = record { kind = "UPSERT"; content = o; timestamp = now }
delta_of (deleted g o now) = record { kind = "DELETE"; content = o; timestamp = now }
delta_of (updated g old new now) = record { kind = "UPSERT"; content = new; timestamp = now }

-- The call of a handler for an event.
pub notice_of : Event → Notice
notice_of (added g o now) = on_resource_add g o
notice_of (deleted g o now) = on_resource_delete g o
notice_of (updated g old new now) = on_resource_update g old new

pub notices : List ℕ → List Event → List (ℕ × Notice)
unfolding notice_of
notices handlers [] = []
notices handlers (e ∷ es) = map (λ h. (h, notice_of e)) handlers ++ notices handlers es

pub record IsTold (ew : EntitiesWatcher) (events : List Event) (ew' : EntitiesWatcher)
    : Type 0 where
  pub queue : ew'.changes.deltas_queue ≡ ew.changes.deltas_queue ++ map delta_of events
  pub told : ew'.told ≡ ew.told ++ notices ew.resource_event_handlers events
  pub no_parents : (namespace kind name : String) → get_parents ew' namespace kind name ≡ none

-- One event.
record IsStep (ew : EntitiesWatcher) (e : Event) (ew' : EntitiesWatcher) : Type 0 where
  pub queue : ew'.changes.deltas_queue ≡ ew.changes.deltas_queue ++ delta_of e ∷ []
  pub told : ew'.told ≡ ew.told ++ map (λ h. (h, notice_of e)) ew.resource_event_handlers
  pub handlers : ew'.resource_event_handlers ≡ ew.resource_event_handlers
  pub parents : ew'.changes.parents.parents ≡ []

handle-IsStep :
    (ew : EntitiesWatcher) (e : Event) → ew.changes.parents.parents ≡ [] → IsStep ew e (handle e ew)
unfolding handle on_add on_update on_delete Deltas.on_add Deltas.on_delete upsert tell delta_of
    notice_of delete Dict.remove
handle-IsStep ew (added g o now) h = record {
  queue = refl;
  told = refl;
  handlers = refl;
  parents = h;
}
handle-IsStep ew (updated g old new now) h = record {
  queue = refl;
  told = refl;
  handlers = refl;
  parents = h;
}
handle-IsStep ew (deleted g o now) h = record {
  queue = refl;
  told = refl;
  handlers = refl;
  parents = rw h refl;
}

nothing_found :
    (ew : EntitiesWatcher) (namespace kind name : String)
    → ew.changes.parents.parents ≡ []
    → get_parents ew namespace kind name ≡ none
unfolding get_parents find_parents Dict.lookup
nothing_found ew namespace kind name h = rw h refl

-- From a watcher whose parents store is empty, as it is made, the events of the informers queue one delta each and
-- tell every handler of each, in their order. GetParents finds nothing then: no event puts a parent into the store.
pub handle_all-IsTold :
    (ew : EntitiesWatcher) (events : List Event)
    → ew.changes.parents.parents ≡ []
    → IsTold ew events (handle_all events ew)
unfolding handle_all notices
handle_all-IsTold ew [] h = record {
  queue = sym (append-nil ew.changes.deltas_queue);
  told = sym (append-nil ew.told);
  no_parents = λ namespace kind name. nothing_found ew namespace kind name h;
}
handle_all-IsTold ew (e ∷ es) h =
    let s = handle-IsStep ew e h in
    let later = handle_all-IsTold (handle e ew) es s.parents in
    record {
      queue =
          later.queue
          ∙ ap (λ q. q ++ map delta_of es) s.queue
          ∙ append_assoc ew.changes.deltas_queue (delta_of e ∷ []) (map delta_of es);
      told =
          later.told
          ∙ ap₂ (λ (q : List (ℕ × Notice)) (hs : List ℕ). q ++ notices hs es) s.told s.handlers
          ∙ append_assoc ew.told (map (λ k. (k, notice_of e)) ew.resource_event_handlers)
              (notices ew.resource_event_handlers es);
      no_parents = later.no_parents;
    }
