-- ===== src/Kuber/Handlers.antt =====
-- kuber/observer.go: wrapHandler, which masks the objects of the informers before a handler sees them.
-- The functions of kuber/mask.go that are arguments there, and the JSON encoding of objects, are
-- arguments.
pub mod Masking
mod Tests
use magalix_agent.Prelude.{
  String, Bool, true, false, ◌&&◌, List, [], ◌∷◌, Run, ok, panic, str_eq, if◌then◌else◌,
}
use magalix_agent.Kuber.Object.{Unstructured}
use magalix_agent.Kuber.Mask.{Tried, tried, error, MaskResult, kept_or_masked, mask_error}

-- What an informer passes: an object, or something that is no *Unstructured, whose cast gives nil.
pub data Informed : Type 0 where
  object : Unstructured → Informed
  not_unstructured : Informed

-- The calls of the informer.
pub data InformerEvent : Type 0 where
  added deleted : Informed → InformerEvent
  updated : Informed → Informed → InformerEvent

-- The calls of the wrapped handler.
pub data Notice : Type 0 where
  on_add on_delete : Unstructured → Notice
  on_update : Unstructured → Unstructured → Notice

-- The bytes are nil where the encoding fails.
pub json_of : Tried String → String
json_of (tried json) = json
json_of (error e) = ""

module _ (mask : Unstructured → MaskResult) (marshal : Unstructured → Tried String) where
  notify : (Unstructured → Notice) → MaskResult → List Notice
  notify call (mask_error e) = []
  notify call (kept_or_masked o) = call o ∷ []

  -- AddFunc and DeleteFunc.
  pub notify_one : (Unstructured → Notice) → Informed → Run (List Notice)
  unfolding notify
  notify_one call not_unstructured = ok []
  notify_one call (object o) = ok (notify call (mask o))

  -- The deep check. The variable `err` that is tested last holds the error of the new object alone.
  pub same_json : Tried String → Tried String → Bool
  unfolding json_of
  same_json old (error e) = false
  same_json old (tried new) = str_eq (json_of old) new

  unfoldable pub is_unchanged : Unstructured → Unstructured → Bool
  unfolding same_json
  is_unchanged old new =
      str_eq old.resource_version new.resource_version && same_json (marshal old) (marshal new)

  -- The masked objects are followed as pointers; the old one is nil where its masking failed.
  notify_both : MaskResult → MaskResult → Run (List Notice)
  notify_both old (mask_error e) = ok []
  notify_both (mask_error e) (kept_or_masked new) = panic
  notify_both (kept_or_masked old) (kept_or_masked new) = ok (on_update old new ∷ [])

  pub update_func : Informed → Informed → Run (List Notice)
  unfolding is_unchanged notify_both
  update_func not_unstructured new = ok []
  update_func (object old) not_unstructured = ok []
  update_func (object old) (object new) =
      if is_unchanged old new then ok [] else notify_both (mask old) (mask new)

  pub wrap_handler : InformerEvent → Run (List Notice)
  unfolding notify_one update_func
  wrap_handler (added o) = notify_one on_add o
  wrap_handler (deleted o) = notify_one on_delete o
  wrap_handler (updated old new) = update_func old new
