-- ===== src/Kuber/Mask/Tests.antt =====
-- A pod with a secret in its environment and in its arguments.
use magalix_agent.Prelude.{String, List, [], ◌∷◌}
use magalix_agent.Value.{Value, null, obj, Fields, field, end}
use magalix_agent.Kuber.Object.{Unstructured}
use magalix_agent.Kuber.Mask.{
  EnvVar, PodSpec, mask_pod_spec, Nested, nested, Tried, tried, mask_unstructured,
}
use magalix_agent.Kuber.Mask.Masked.{
  IsMaskedSpec, IsOutcome, mask_pod_spec-IsMaskedSpec, mask_unstructured-IsOutcome,
}

abbrev secret : EnvVar
secret = record { name = "TOKEN"; value = "s3cret"; rest = null }

abbrev spec : PodSpec
spec = record {
  containers = (record { env = secret ∷ []; args = "--token=s3cret" ∷ []; rest = null }) ∷ [];
  init_containers = [];
  rest = null;
}

abbrev pod : Unstructured
pod = record {
  namespace = "default";
  kind = "Pod";
  name = "web";
  api_version = "v1";
  resource_version = "1";
  labels = [];
  owner_references = [];
  object = field "spec" null end;
}

abbrev nested_field : Fields → List String → Nested
nested_field fields path = nested null

abbrev decode : Value → Tried PodSpec
decode v = tried spec

abbrev encode : PodSpec → Tried Fields
encode s = tried (field "masked" null end)

abbrev set_nested_field : Fields → Fields → List String → Tried Fields
set_nested_field object fields path = tried (field "spec" (obj fields) end)

mask_pod_spec-IsMaskedSpec_example : IsMaskedSpec spec (mask_pod_spec spec)
mask_pod_spec-IsMaskedSpec_example = mask_pod_spec-IsMaskedSpec spec

mask_unstructured-IsOutcome_example :
    IsOutcome nested_field decode encode set_nested_field pod
      (mask_unstructured nested_field decode encode set_nested_field pod)
mask_unstructured-IsOutcome_example =
    mask_unstructured-IsOutcome nested_field decode encode set_nested_field pod
