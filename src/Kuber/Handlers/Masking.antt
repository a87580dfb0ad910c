-- ===== src/Kuber/Handlers/Masking.antt =====
-- What the handler that an informer calls hears of an event.
use magalix_agent.Prelude.{
  String, ◌≡◌, ◌↔◌, refl, true, eq_iff, arith, List, [], ◌∷◌, Run, ok, panic, Bool-cases, inl, inr,
  ◌⊎◌,
}
use magalix_agent.Value.{Value, Fields}
use magalix_agent.Kuber.Object.{Unstructured}
use magalix_agent.Kuber.Mask.{
  PodSpec, Nested, Tried, tried, error, MaskResult, kept_or_masked, mask_error, MaskError,
  mask_unstructured,
}
use magalix_agent.Kuber.Mask.Masked.{IsOutcome, mask_unstructured-IsOutcome}
use magalix_agent.Kuber.Handlers.{
  Informed, object, not_unstructured, InformerEvent, added, deleted, updated, Notice, on_add,
  on_delete, on_update, json_of, same_json, notify, notify_one, is_unchanged, notify_both,
  update_func, wrap_handler,
}

mask_cases :
    (r : MaskResult)
    → ((o : Unstructured) × (r ≡ kept_or_masked o)) ⊎ ((e : MaskError) × (r ≡ mask_error e))
mask_cases (kept_or_masked o) = inl (o, refl)
mask_cases (mask_error e) = inr (e, refl)

module _ (nested_field : Fields → List String → Nested) (decode : Value → Tried PodSpec)
    (encode : PodSpec → Tried Fields)
    (set_nested_field : Fields → Fields → List String → Tried Fields)
    (marshal : Unstructured → Tried String) where
  abbrev pub mask : Unstructured → MaskResult
  mask = mask_unstructured nested_field decode encode set_nested_field

  -- The mask makes `o'` of the object `o`, or fails on it.
  abbrev pub Becomes : Unstructured → Unstructured → Type 0
  Becomes o o' =
      (mask o ≡ kept_or_masked o')
      × IsOutcome nested_field decode encode set_nested_field o (kept_or_masked o')

  abbrev pub CannotMask : Unstructured → Type 0
  CannotMask o =
      (e : MaskError) × (mask o ≡ mask_error e)
      × IsOutcome nested_field decode encode set_nested_field o (mask_error e)

  -- The versions are the same, and so is the JSON; that of the old object is empty where its encoding fails.
  abbrev pub IsSame : Unstructured → Unstructured → Type 0
  IsSame old new =
      (old.resource_version ≡ new.resource_version) × (marshal new ≡ tried (json_of (marshal old)))

  -- What becomes of each event of an informer.
  pub data IsHeard : InformerEvent → Run (List Notice) → Type 0 where
    hears_add :
        (o o' : Unstructured) → Becomes o o' → IsHeard (added (object o)) (ok (on_add o' ∷ []))
    misses_add : (o : Unstructured) → CannotMask o → IsHeard (added (object o)) (ok [])
    no_add : IsHeard (added not_unstructured) (ok [])
    hears_delete :
        (o o' : Unstructured) → Becomes o o' → IsHeard (deleted (object o)) (ok (on_delete o' ∷ []))
    misses_delete : (o : Unstructured) → CannotMask o → IsHeard (deleted (object o)) (ok [])
    no_delete : IsHeard (deleted not_unstructured) (ok [])
    hears_update :
        (old new old' new' : Unstructured)
        → ¬ IsSame old new
        → Becomes old old'
        → Becomes new new'
        → IsHeard (updated (object old) (object new)) (ok (on_update old' new' ∷ []))
    ignores_update :
        (old new : Unstructured)
        → IsSame old new
        → IsHeard (updated (object old) (object new)) (ok [])
    misses_update :
        (old new : Unstructured)
        → ¬ IsSame old new
        → CannotMask new
        → IsHeard (updated (object old) (object new)) (ok [])
    breaks :
        (old new new' : Unstructured)
        → ¬ IsSame old new
        → CannotMask old
        → Becomes new new'
        → IsHeard (updated (object old) (object new)) panic
    no_old : (new : Informed) → IsHeard (updated not_unstructured new) (ok [])
    no_new : (old : Unstructured) → IsHeard (updated (object old) not_unstructured) (ok [])

  becomes : (o o' : Unstructured) → mask o ≡ kept_or_masked o' → Becomes o o'
  becomes o o' e =
      (e, rw e at (mask_unstructured-IsOutcome nested_field decode encode set_nested_field o))

  cannot_mask : (o : Unstructured) (err : MaskError) → mask o ≡ mask_error err → CannotMask o
  cannot_mask o err e =
      (err, e, rw e at (mask_unstructured-IsOutcome nested_field decode encode set_nested_field o))

  same_json_iff :
      (old new : Tried String)
      → (same_json mask marshal old new ≡ true) ↔ (new ≡ tried (json_of old))
  unfolding same_json
  same_json_iff old (error e) = (λ h. absurd (cc h), λ h. absurd (cc h))
  same_json_iff old (tried new) = (
    λ h. let same = (eq_iff (json_of old) new).0 h in cc same,
    λ h. let same : json_of old ≡ new = cc h in (eq_iff (json_of old) new).1 same,
  )

  is_unchanged_iff :
      (old new : Unstructured) → (is_unchanged mask marshal old new ≡ true) ↔ IsSame old new
  unfolding is_unchanged
  is_unchanged_iff old new =
      let json = same_json_iff (marshal old) (marshal new) in
      let version = eq_iff old.resource_version new.resource_version in
      (
        λ h. (version.0 (ground (arith, h)), json.0 (ground (arith, h))),
        λ h. ground (arith, version.1 h.0, json.1 h.1),
      )

  update_func-IsHeard :
      (old new : Unstructured)
      → IsHeard
          (updated (object old) (object new))
          (update_func mask marshal (object old) (object new))
  unfolding update_func notify_both
  update_func-IsHeard old new = elim (Bool-cases (is_unchanged mask marshal old new)) [
    | inl same ↦ rw same (ignores_update old new ((is_unchanged_iff old new).0 same))
    | inr differs ↦
        let news : ¬ IsSame old new = λ h. cc ((is_unchanged_iff old new).1 h, differs) in
        elim (mask_cases (mask new)) [
          | inr (err, e) ↦ rw (differs, e) (misses_update old new news (cannot_mask new err e))
          | inl (new', e) ↦ elim (mask_cases (mask old)) [
            | inl (old', e') ↦
                rw (differs, e, e')
                  (hears_update old new old' new' news (becomes old old' e') (becomes new new' e))
            | inr (err, e') ↦
                rw (differs, e, e')
                  (breaks old new new' news (cannot_mask old err e') (becomes new new' e))
          ]
        ]
  ]

  -- An object that is added or deleted is announced as such, as the mask makes it, unless the mask fails on it. An update
  -- that changes neither the version nor the JSON (that of the old object is empty where its encoding fails) is not announced.
  -- Any other update is announced as one of the old object by the new, both as the mask makes them, unless the mask fails: on
  -- the new object, and nothing is announced, or on the old object alone, and the handler panics. Nothing is announced of an event with
  -- something that is no object.
  pub wrap_handler-IsHeard :
      (event : InformerEvent) → IsHeard event (wrap_handler mask marshal event)
  unfolding wrap_handler notify_one notify update_func
  wrap_handler-IsHeard (added not_unstructured) = no_add
  wrap_handler-IsHeard (deleted not_unstructured) = no_delete
  wrap_handler-IsHeard (updated not_unstructured new) = no_old new
  wrap_handler-IsHeard (updated (object old) not_unstructured) = no_new old
  wrap_handler-IsHeard (updated (object old) (object new)) = update_func-IsHeard old new
  wrap_handler-IsHeard (added (object o)) = elim (mask_cases (mask o)) [
    | inl (o', e) ↦ rw e (hears_add o o' (becomes o o' e))
    | inr (err, e) ↦ rw e (misses_add o (cannot_mask o err e))
  ]
  wrap_handler-IsHeard (deleted (object o)) = elim (mask_cases (mask o)) [
    | inl (o', e) ↦ rw e (hears_delete o o' (becomes o o' e))
    | inr (err, e) ↦ rw e (misses_delete o (cannot_mask o err e))
  ]
