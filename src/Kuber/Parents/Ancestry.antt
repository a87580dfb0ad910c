-- ===== src/Kuber/Parents/Ancestry.antt =====
-- What GetParents computes: the chain of controllers above an object, whatever the store caches.
use mathlib.Core.Logic.{inl, inr}
use magalix_agent.Prelude.{
  ℕ, zero, suc, ◌<◌, ◌≡◌, refl, subst, String, true, false, Option, none, some, List, [], ◌∷◌,
  length, ltb, arith, str_eq, eq_iff, eq_refl, if◌then◌else◌, Bool-cases, Option-cases,
}
use magalix_agent.Prelude.Dict.{lookup-insert}
use magalix_agent.Kuber.Keys.{get_entity_key}
use magalix_agent.Kuber.Object.{OwnerReference, Unstructured}
use magalix_agent.Kuber.Parents.{
  ParentController, nil, controller, ParentsStore, set_parents, find_parents, Listed, listed,
  other_object, list_error, Watcher, Error, Outcome, returned, failed, out_of_fuel, is_controller,
  multiple_owners, with_parent, get_owner, visit_owners, store_and_return, look_up_owners,
  get_parents,
}

-- The store key of an object.
abbrev pub key : Unstructured → String
key o = get_entity_key o.namespace o.kind o.name

-- How a walk ends, and what holds of it then. The model's fuel must not run out.
abbrev pub Ends :
    (ParentController → ParentsStore → Type 0) → (Error → ParentsStore → Type 0) → Outcome → Type 0
Ends P E (returned p s) = P p s
Ends P E (failed e s) = E e s
Ends P E out_of_fuel = ⊥

module _ (get_watcher : String → Option Watcher) where
  -- `owner_obj` is the object that the lister returns for the watched controller `owner` of `o`.
  pub record IsOwnedBy (o : Unstructured) (owner : OwnerReference) (owner_obj : Unstructured)
      : Type 0 where
    pub watcher : Watcher
    pub single : o.owner_references ≡ owner ∷ []
    pub controls : is_controller owner ≡ true
    pub watched : get_watcher owner.kind ≡ some watcher
    pub found : watcher o.namespace owner.name ≡ listed owner_obj

  -- The chain of controllers above an object, read off the cluster.
  pub data Ancestry : Unstructured → ParentController → Type 0 where
    orphan : (o : Unstructured) → o.owner_references ≡ [] → Ancestry o nil
    uncontrolled :
        (o : Unstructured) (owner : OwnerReference)
        → o.owner_references ≡ owner ∷ []
        → is_controller owner ≡ false
        → Ancestry o nil
    unwatched :
        (o : Unstructured) (owner : OwnerReference)
        → o.owner_references ≡ owner ∷ []
        → is_controller owner ≡ true
        → get_watcher owner.kind ≡ none
        → Ancestry o (controller owner.kind owner.name owner.api_version false nil)
    owned :
        (o : Unstructured) (owner : OwnerReference) (owner_obj : Unstructured)
        (above : ParentController)
        → IsOwnedBy o owner owner_obj
        → Ancestry owner_obj above
        → Ancestry o (controller owner.kind owner.name owner.api_version true above)

  -- The objects of a cluster at rest: listers return objects of it, a key names one object, and
  -- ownership goes down a rank, so that no object owns itself through others.
  pub record IsCluster (Live : Unstructured → Type 0) (rank : Unstructured → ℕ) : Type 0 where
    pub closed :
        (o : Unstructured) (owner : OwnerReference) (owner_obj : Unstructured)
        → Live o
        → IsOwnedBy o owner owner_obj
        → Live owner_obj
    pub one_key : (o o' : Unstructured) → Live o → Live o' → key o ≡ key o' → o ≡ o'
    pub grounded :
        (o : Unstructured) (owner : OwnerReference) (owner_obj : Unstructured)
        → Live o
        → IsOwnedBy o owner owner_obj
        → rank owner_obj < rank o

  module _ (Live : Unstructured → Type 0) where
    -- What the store holds for an object of the cluster is the chain above it.
    abbrev pub IsCoherent : ParentsStore → Type 0
    IsCoherent s =
        (o : Unstructured) (p : ParentController)
        → Live o
        → find_parents s o.namespace o.kind o.name ≡ some p
        → Ancestry o p

    pub record Walked (o : Unstructured) (p : ParentController) (s : ParentsStore) : Type 0 where
      pub chain : Ancestry o p
      pub coherent : IsCoherent s
      pub cached : find_parents s o.namespace o.kind o.name ≡ some p

    module _ (rank : Unstructured → ℕ) (cluster : IsCluster Live rank) where
      abbrev pub Good : Unstructured → ParentsStore → Outcome → Type 0
      Good o s = Ends (Walked o) (λ e s'. s' ≡ s)

      store_Walked :
          (o : Unstructured) (p : ParentController) (s : ParentsStore)
          → Live o
          → IsCoherent s
          → Ancestry o p
          → Walked o p (set_parents s o.namespace o.kind o.name p)
      unfolding set_parents find_parents
      store_Walked o p s live coherent chain = record {
        chain = chain;
        coherent = λ o' p' live' e. elim (Bool-cases (str_eq (key o) (key o'))) [
          | inl same ↦
              let one : o ≡ o' = cluster.one_key o o' live live' ((eq_iff _ _).0 same) in
              let held : some p ≡ some p' = rw (lookup-insert, same) at e in
              let chain_p : p ≡ p' = cc held in
              subst (λ q. Ancestry o' q) chain_p (subst (λ q. Ancestry q p) one chain)
          | inr other ↦ coherent o' p' live' (rw (lookup-insert, other) at e)
        ];
        cached = simp (lookup-insert, eq_refl);
      }

      module _ (o : Unstructured) (s : ParentsStore) (live : Live o) (coherent : IsCoherent s) where
        -- What follows the recursive call, for a walk from the owner object that ends well.
        with_parent-Good :
            (owner : OwnerReference) (owner_obj : Unstructured) (r : Outcome)
            → IsOwnedBy o owner owner_obj
            → Good owner_obj s r
            → Good o s (with_parent get_watcher o owner (store_and_return get_watcher o) r)
        unfolding with_parent store_and_return
        with_parent-Good owner owner_obj (returned above s') by h =
            store_Walked o _ s' live h.coherent (owned o owner owner_obj above by h.chain)
        with_parent-Good owner owner_obj (failed e s') by h = h
        with_parent-Good owner owner_obj out_of_fuel by h = h

        module _ (walk : Unstructured → ParentsStore → Outcome)
            (walks : (o' : Unstructured) → Live o' → rank o' < rank o → Good o' s (walk o' s)) where
          -- The owner of a watched kind: the lister's answer, and the walk from the owner object.
          get_owner-Good :
              (owner : OwnerReference) (watcher : Watcher)
              → o.owner_references ≡ owner ∷ []
              → is_controller owner ≡ true
              → get_watcher owner.kind ≡ some watcher
              → (l : Listed) → watcher o.namespace owner.name ≡ l
              → Good o s (get_owner get_watcher walk o owner s (store_and_return get_watcher o) l)
          unfolding get_owner
          get_owner-Good owner watcher single controls watched (listed owner_obj) found =
              let by : IsOwnedBy o owner owner_obj = record {
                watcher = watcher;
                single = single;
                controls = controls;
                watched = watched;
                found = found;
              } in
              with_parent-Good owner owner_obj (walk owner_obj s) by (
                walks owner_obj (cluster.closed o owner owner_obj live by)
                  (cluster.grounded o owner owner_obj live by))
          get_owner-Good owner watcher single controls watched other_object found = refl
          get_owner-Good owner watcher single controls watched (list_error e) found = refl

          visit_one-Good :
              (owner : OwnerReference)
              → o.owner_references ≡ owner ∷ []
              → Good o s (
                  visit_owners get_watcher walk o
                    (owner ∷ [])
                    nil
                    s
                    (store_and_return get_watcher o))
          unfolding visit_owners store_and_return
          visit_one-Good owner single = elim (Bool-cases (is_controller owner)) [
            | inr no_control ↦
                rw no_control
                  (store_Walked o nil s live coherent (uncontrolled o owner single no_control))
            | inl controls ↦ rw controls (elim (Option-cases (get_watcher owner.kind)) [
              | inl none_watches ↦ rw none_watches (
                  store_Walked o _ s live coherent (unwatched o owner single controls none_watches))
              | inr (watcher, watched) ↦ rw watched (
                  unfold store_and_return in
                  get_owner-Good owner watcher single controls watched _ refl)
            ])
          ]

          visit-Good :
              (owners : List OwnerReference)
              → o.owner_references ≡ owners
              → Good o s (
                  if ltb 1 (length owners)
                  then failed (multiple_owners o) s
                  else visit_owners get_watcher walk o owners nil s
                      (store_and_return get_watcher o))
          visit-Good [] single =
              unfold visit_owners store_and_return in
              store_Walked o nil s live coherent (orphan o single)
          visit-Good (owner ∷ []) single = visit_one-Good owner single
          visit-Good (owner ∷ b ∷ owners) single =
              let two : ltb 1 (length (owner ∷ b ∷ owners)) ≡ true = ground arith in rw two refl

      -- In a cluster at rest, with a coherent store and fuel above the rank of the object, GetParents
      -- ends: it returns the chain of controllers above the object, caches it under the key of the
      -- object and keeps the store coherent, or it fails and leaves the store as it was.
      pub get_parents_walks :
          (fuel : ℕ) (o : Unstructured) (s : ParentsStore)
          → Live o
          → rank o < fuel
          → IsCoherent s
          → Good o s (get_parents get_watcher fuel o s)
      unfolding get_parents look_up_owners
      get_parents_walks zero o s live enough coherent = absurd (omega arith)
      get_parents_walks (suc fuel) o s live enough coherent =
          elim (Option-cases (find_parents s o.namespace o.kind o.name)) [
            | inl missing ↦
                rw (missing, get_parents)
                  (visit-Good o s live coherent (get_parents get_watcher fuel)
                    (λ o' live' below. get_parents_walks fuel o' s live' (omega arith) coherent)
                    o.owner_references refl)
            | inr (p, e) ↦
                rw (e, get_parents)
                  (record { chain = coherent o p live e; coherent = coherent; cached = e })
          ]
