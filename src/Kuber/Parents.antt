-- ===== src/Kuber/Parents.antt =====
-- kuber/utils.go: the store of parents and the walk up the owners of an object.
-- A `*ParentController` is `nil` or a controller; the pointers that the store shares are never
-- written through after they are stored, so they are values. The lock of the store makes each of
-- its methods atomic, and has no state of its own here.
pub mod Ancestry
pub mod Root
mod Tests
use magalix_agent.Prelude.{
  ℕ, zero, suc, String, Bool, true, false, Option, none, some, List, [], ◌∷◌, ltb, if◌then◌else◌,
  length,
}
use magalix_agent.Prelude.Dict
use magalix_agent.Prelude.Dict.{Dict}
use magalix_agent.Kuber.Keys.{get_entity_key}
use magalix_agent.Kuber.Object.{OwnerReference, Unstructured}

pub data ParentController : Type 0 where
  nil : ParentController
  controller : String → String → String → Bool → ParentController → ParentController

pub record ParentsStore : Type 0 where
  pub parents : Dict ParentController

unfoldable pub new_parents_store : ParentsStore
new_parents_store = record { parents = [] }

pub set_parents : ParentsStore → String → String → String → ParentController → ParentsStore
set_parents s namespace kind name parent = record {
  parents = Dict.insert (get_entity_key namespace kind name) parent s.parents;
}

-- The stored pointer may be nil: `some nil` is found, `none` is not.
unfoldable pub find_parents : ParentsStore → String → String → String → Option ParentController
find_parents s namespace kind name = Dict.lookup (get_entity_key namespace kind name) s.parents

unfoldable pub delete : ParentsStore → String → String → String → ParentsStore
delete s namespace kind name = record {
  parents = Dict.remove (get_entity_key namespace kind name) s.parents;
}

-- What a lister's Get returns: an object, something that is no *Unstructured, or an error.
pub data Listed : Type 0 where
  listed : Unstructured → Listed
  other_object : Listed
  list_error : String → Listed

-- A watcher is its lister's Get by namespace and name.
abbrev pub Watcher : Type 0
Watcher = String → String → Listed

pub data Error : Type 0 where
  multiple_owners no_cast : Unstructured → Error
  no_parent_owner : String → Unstructured → Error
  no_parent_parent : Error → Unstructured → Error

-- How GetParents ends; `out_of_fuel` is the model's, for a walk that goes on.
pub data Outcome : Type 0 where
  returned : ParentController → ParentsStore → Outcome
  failed : Error → ParentsStore → Outcome
  out_of_fuel : Outcome

pub is_controller : OwnerReference → Bool
is_controller owner = elim owner.controller [ none ↦ false | some b ↦ b ]

module _ (get_watcher : String → Option Watcher) where
  -- The rest of the loop body, after the recursive call for the owner object.
  with_parent :
      Unstructured
      → OwnerReference
      → (ParentController → ParentsStore → Outcome)
      → Outcome
      → Outcome
  with_parent obj owner next (returned above s) =
      next (controller owner.kind owner.name owner.api_version true above) s
  with_parent obj owner next (failed e s) = failed (no_parent_parent e obj) s
  with_parent obj owner next out_of_fuel = out_of_fuel

  get_owner :
      (Unstructured → ParentsStore → Outcome)
      → Unstructured
      → OwnerReference
      → ParentsStore
      → (ParentController → ParentsStore → Outcome)
      → Listed
      → Outcome
  unfolding with_parent
  get_owner walk obj owner s next (listed owner_obj) = with_parent obj owner next (walk owner_obj s)
  get_owner walk obj owner s next other_object = failed (no_cast obj) s
  get_owner walk obj owner s next (list_error e) = failed (no_parent_owner e obj) s

  -- The loop over the owners. `next` is what follows the loop; a kind that is not watched breaks.
  visit_owners :
      (Unstructured → ParentsStore → Outcome)
      → Unstructured
      → List OwnerReference
      → ParentController
      → ParentsStore
      → (ParentController → ParentsStore → Outcome)
      → Outcome
  unfolding get_owner is_controller
  visit_owners walk obj [] parent s done = done parent s
  visit_owners walk obj (owner ∷ owners) parent s done =
      let next =
        λ (p : ParentController) (s' : ParentsStore). visit_owners walk obj owners p s' done in
      if is_controller owner
      then elim (get_watcher owner.kind) [
        | none ↦ done (controller owner.kind owner.name owner.api_version false nil) s
        | some watcher ↦ get_owner walk obj owner s next (watcher obj.namespace owner.name)
      ]
      else next parent s

  store_and_return : Unstructured → ParentController → ParentsStore → Outcome
  store_and_return obj parent s =
      returned parent (set_parents s obj.namespace obj.kind obj.name parent)

  look_up_owners : (Unstructured → ParentsStore → Outcome) → Unstructured → ParentsStore → Outcome
  unfolding visit_owners store_and_return
  look_up_owners walk obj s =
      if ltb 1 (length obj.owner_references)
      then failed (multiple_owners obj) s
      else visit_owners walk obj obj.owner_references nil s (store_and_return obj)

  pub get_parents : ℕ → Unstructured → ParentsStore → Outcome
  unfolding look_up_owners find_parents
  get_parents zero obj s = out_of_fuel
  get_parents (suc fuel) obj s = elim (find_parents s obj.namespace obj.kind obj.name) [
    | none ↦ look_up_owners (get_parents fuel) obj s
    | some parents ↦ returned parents s
  ]

-- The loop `for p.Parent != nil { p = p.Parent }`.
last_parent : String → String → String → Bool → ParentController → ParentController
last_parent kind name api_version watched nil = controller kind name api_version watched nil
last_parent kind name api_version watched (controller k n a w above) = last_parent k n a w above

pub root_parent : ParentController → ParentController
unfolding last_parent
root_parent nil = nil
root_parent (controller kind name api_version watched above) =
    last_parent kind name api_version watched above
