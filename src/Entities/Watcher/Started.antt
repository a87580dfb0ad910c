-- ===== src/Entities/Watcher/Started.antt =====
-- What Start leaves for the resources that are watched.
use magalix_agent.Prelude.{
  ℕ, ◌≡◌, refl, ◌∙◌, String, Bool, true, false, not, ◌&&◌, some, List, [], ◌∷◌, All, str_eq, eq_iff,
  arith, Bool-cases, inl, inr, leb,
}
use magalix_agent.Prelude.Dict
use magalix_agent.Prelude.Dict.{Dict, lookup-insert}
use magalix_agent.Kuber.Resources.{GroupVersionResourceKind, Schemes}
use magalix_agent.Entities.Watcher.{
  Watcher, EntitiesWatcher, watched_resources, watch_all, wait_for_cache_sync, tell, start,
}

-- The kind is none of those of the resources.
fresh_kind : String → List GroupVersionResourceKind → Bool
fresh_kind k [] = true
fresh_kind k (g ∷ gs) = not (str_eq g.kind k) && fresh_kind k gs

-- No kind stands twice.
distinct_kinds : List GroupVersionResourceKind → Bool
unfolding fresh_kind
distinct_kinds [] = true
distinct_kinds (g ∷ gs) = fresh_kind g.kind gs && distinct_kinds gs

module _ (watch : GroupVersionResourceKind → Watcher) where
  lookup-watch_all_other :
      (gs : List GroupVersionResourceKind) (ew : EntitiesWatcher) (k : String)
      → fresh_kind k gs ≡ true
      → Dict.lookup k (watch_all watch gs ew).watchers_by_kind ≡ Dict.lookup k ew.watchers_by_kind
  unfolding watch_all fresh_kind
  lookup-watch_all_other [] ew k h = refl
  lookup-watch_all_other (g ∷ gs) ew k h =
      let rest : fresh_kind k gs ≡ true = ground (arith, h) in
      let other : str_eq g.kind k ≡ false = ground (arith, h) in
      lookup-watch_all_other gs _ k rest
      ∙ ground (arith, lookup-insert g.kind k (watch g) ew.watchers_by_kind, other)

  lookup-watch_all :
      (gs : List GroupVersionResourceKind) (ew : EntitiesWatcher)
      → distinct_kinds gs ≡ true
      → All (λ g. Dict.lookup g.kind (watch_all watch gs ew).watchers_by_kind ≡ some (watch g)) gs
  unfolding watch_all distinct_kinds
  lookup-watch_all [] ew h = tt
  lookup-watch_all (g ∷ gs) ew h =
      let first : fresh_kind g.kind gs ≡ true = ground (arith, h) in
      let rest : distinct_kinds gs ≡ true = ground (arith, h) in
      (
        lookup-watch_all_other gs _ g.kind first
            ∙ ground (
              arith,
              lookup-insert g.kind g.kind (watch g) ew.watchers_by_kind,
              eq_iff g.kind g.kind,
            ),
        lookup-watch_all gs _ rest,
      )

distinct_kinds-watched_resources :
    (schemes : Schemes) (version : ℕ) → distinct_kinds (watched_resources schemes version) ≡ true
unfolding watched_resources distinct_kinds fresh_kind
distinct_kinds-watched_resources schemes version = elim (Bool-cases (leb 18 version)) [
  | inl new ↦ rw new refl
  | inr old ↦ rw old refl
]

-- After Start every resource that is watched is found by its kind, with its own watcher, for the walk to the parents.
pub lookup-start :
    (watch : GroupVersionResourceKind → Watcher) (schemes : Schemes) (version : ℕ)
    (ew : EntitiesWatcher)
    → All
        (λ g.
          Dict.lookup g.kind (start watch (watched_resources schemes version) ew).watchers_by_kind
          ≡ some (watch g))
        (watched_resources schemes version)
unfolding start wait_for_cache_sync tell
lookup-start watch schemes version ew =
    lookup-watch_all watch (watched_resources schemes version) ew
      (distinct_kinds-watched_resources schemes version)
