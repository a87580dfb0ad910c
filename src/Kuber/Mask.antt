-- ===== src/Kuber/Mask.antt =====
-- kuber/mask.go: the environment and the arguments of containers are masked before an object is kept.
-- The nested fields of unstructured.Unstructured and the JSON codec of pod specs are arguments; a field
-- of a container or of a pod spec that the code does not touch stands in `rest`.
pub mod Masked
mod Tests
use magalix_agent.Prelude.{
  String, Bool, true, false, Option, none, some, List, [], ◌∷◌, str_eq, if◌then◌else◌,
}
use magalix_agent.Prelude.Dict
use magalix_agent.Prelude.Dict.{Dict}
use magalix_agent.Value.{Value, Fields}
use magalix_agent.Kuber.Object.{Unstructured}

abbrev pub masked_value : String
masked_value = "**MASKED**"

pub record EnvVar : Type 0 where
  pub name : String
  pub value : String
  pub rest : Value

pub record Container : Type 0 where
  pub env : List EnvVar
  pub args : List String
  pub rest : Value

pub record PodSpec : Type 0 where
  pub containers : List Container
  pub init_containers : List Container
  pub rest : Value

pub mask_env_var : EnvVar → EnvVar
mask_env_var v = if str_eq v.value "" then v else record v { value = masked_value }

pub mask_env_vars : List EnvVar → List EnvVar
unfolding mask_env_var
mask_env_vars [] = []
mask_env_vars (v ∷ vs) = mask_env_var v ∷ mask_env_vars vs

pub mask_args : List String → List String
mask_args [] = []
mask_args (a ∷ args) = masked_value ∷ mask_args args

pub mask_container : Container → Container
unfolding mask_env_vars mask_args
mask_container c = record c { env = mask_env_vars c.env; args = mask_args c.args }

pub mask_containers : List Container → List Container
unfolding mask_container
mask_containers [] = []
mask_containers (c ∷ cs) = mask_container c ∷ mask_containers cs

template_path : List String
template_path = "spec" ∷ "template" ∷ "spec" ∷ []

pub pod_spec_map : Dict (List String)
unfolding template_path
pod_spec_map =
    ("Pod", "spec" ∷ [])
    ∷ ("ReplicationController", template_path)
    ∷ ("Deployment", template_path)
    ∷ ("StatefulSet", template_path)
    ∷ ("DaemonSet", template_path)
    ∷ ("ReplicaSet", template_path)
    ∷ ("Job", template_path)
    ∷ ("CronJob", "spec" ∷ "jobTemplate" ∷ "spec" ∷ "template" ∷ "spec" ∷ [])
    ∷ []

-- What NestedFieldNoCopy returns.
pub data Nested : Type 0 where
  nested : Value → Nested
  absent : Nested
  nested_error : String → Nested

-- What a call returns that may fail.
pub data Tried (A : Type 0) : Type 0 where
  tried : A → Tried A
  error : String → Tried A

pub data MaskError : Type 0 where
  no_pod_spec no_set : String → String → MaskError
  not_found : String → MaskError
  no_decode no_encode : String → String → MaskError

pub data MaskResult : Type 0 where
  kept_or_masked : Unstructured → MaskResult
  mask_error : MaskError → MaskResult

pub mask_pod_spec : PodSpec → PodSpec
unfolding mask_containers
mask_pod_spec s = record s {
  containers = mask_containers s.containers;
  init_containers = mask_containers s.init_containers;
}

module _ (nested_field : Fields → List String → Nested) (decode : Value → Tried PodSpec)
    (encode : PodSpec → Tried Fields)
    (set_nested_field : Fields → Fields → List String → Tried Fields) where
  set_pod_spec : Unstructured → List String → Tried Fields → MaskResult
  set_pod_spec o path (error e) = mask_error (no_encode e o.kind)
  set_pod_spec o path (tried spec) = elim (set_nested_field o.object spec path) [
    | error e ↦ mask_error (no_set e o.kind)
    | tried object ↦ kept_or_masked (record o { object = object })
  ]

  mask_decoded : Unstructured → List String → Tried PodSpec → MaskResult
  unfolding set_pod_spec mask_pod_spec
  mask_decoded o path (error e) = mask_error (no_decode e o.kind)
  mask_decoded o path (tried spec) = set_pod_spec o path (encode (mask_pod_spec spec))

  mask_at : Unstructured → List String → MaskResult
  unfolding mask_decoded
  mask_at o path = elim (nested_field o.object path) [
    | nested_error e ↦ mask_error (no_pod_spec e o.kind)
    | absent ↦ mask_error (not_found o.kind)
    | nested v ↦ mask_decoded o path (decode v)
  ]

  pub mask_unstructured : Unstructured → MaskResult
  unfolding mask_at pod_spec_map
  mask_unstructured o = elim (Dict.lookup o.kind pod_spec_map) [
    | none ↦ kept_or_masked o
    | some path ↦ mask_at o path
  ]
