-- ===== src/Kuber/Handlers/Tests.antt =====
-- A pod that is updated, with a mask that works and with one that fails on its first version.
use magalix_agent.Prelude.{String, ◌≡◌, ok, refl, List, [], ◌∷◌, panic, str_eq, if◌then◌else◌}
use magalix_agent.Value.{Value, null, obj, Fields, field, end}
use magalix_agent.Kuber.Object.{Unstructured}
use magalix_agent.Kuber.Mask.{
  PodSpec, Nested, nested, Tried, tried, MaskResult, kept_or_masked, mask_error, not_found,
}
use magalix_agent.Kuber.Handlers.{object, updated, on_update, wrap_handler, is_unchanged}
use magalix_agent.Kuber.Handlers.Masking.{IsHeard, mask, wrap_handler-IsHeard}

abbrev spec : PodSpec
spec = record { containers = []; init_containers = []; rest = null }

abbrev pod : Unstructured
pod = record {
  namespace = "default";
  kind = "Pod";
  name = "web";
  api_version = "v1";
  resource_version = "2";
  labels = [];
  owner_references = [];
  object = field "spec" null end;
}

abbrev before : Unstructured
before = record pod { resource_version = "1" }

abbrev nested_field : Fields → List String → Nested
nested_field fields path = nested null

abbrev decode : Value → Tried PodSpec
decode v = tried spec

abbrev encode : PodSpec → Tried Fields
encode s = tried end

abbrev set_nested_field : Fields → Fields → List String → Tried Fields
set_nested_field all fields path = tried (field "spec" (obj fields) end)

abbrev marshal : Unstructured → Tried String
marshal o = tried o.name

-- The versions differ, and so the update is announced.
wrap_handler-IsHeard_example :
    IsHeard nested_field decode encode set_nested_field marshal
      (updated (object before) (object pod))
      (wrap_handler
        (mask nested_field decode encode set_nested_field marshal)
        marshal
        (updated (object before) (object pod)))
wrap_handler-IsHeard_example =
    wrap_handler-IsHeard nested_field decode encode set_nested_field marshal
      (updated (object before) (object pod))

-- The mask fails on the first version.
abbrev failing : Unstructured → MaskResult
failing o =
    if str_eq o.resource_version "1" then mask_error (not_found o.kind) else kept_or_masked o

broken_update : wrap_handler failing marshal (updated (object before) (object pod)) ≡ panic
unfolding wrap_handler is_unchanged
broken_update = refl

announced_update :
    wrap_handler kept_or_masked marshal (updated (object before) (object pod))
    ≡ ok (on_update before pod ∷ [])
unfolding wrap_handler is_unchanged
announced_update = refl
