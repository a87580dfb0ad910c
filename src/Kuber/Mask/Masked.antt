-- ===== src/Kuber/Mask/Masked.antt =====
-- No value of the environment and no argument of a container passes the mask.
use magalix_agent.Prelude.{
  String, ◌≡◌, refl, ◌⊎◌, inl, inr, none, some, List, [], ◌∷◌, Option-cases, Bool-cases, str_eq,
  eq_iff,
}
use magalix_agent.Prelude.Dict
use magalix_agent.Value.{Value, Fields}
use magalix_agent.Kuber.Object.{Unstructured}
use magalix_agent.Kuber.Mask.{
  masked_value, EnvVar, Container, PodSpec, mask_env_var, mask_env_vars, mask_args, mask_container,
  mask_containers, mask_pod_spec, pod_spec_map, Nested, nested, absent, nested_error, Tried, tried,
  error, MaskResult, kept_or_masked, mask_error, set_pod_spec, mask_decoded, mask_at,
  mask_unstructured,
}

-- Two lists of one length, related item by item.
pub data Each {A : Type 0} (R : A → A → Type 0) : List A → List A → Type 0 where
  each_nil : Each R [] []
  each_cons : (a b : A) (as' bs : List A) → R a b → Each R as' bs → Each R (a ∷ as') (b ∷ bs)

-- `v'` is `v`, with a value that is masked or was empty.
pub record IsMaskedVar (v v' : EnvVar) : Type 0 where
  pub name : v'.name ≡ v.name
  pub rest : v'.rest ≡ v.rest
  pub value : (v'.value ≡ masked_value) ⊎ ((v'.value ≡ "") × (v.value ≡ ""))

pub record IsMaskedContainer (c c' : Container) : Type 0 where
  pub env : Each IsMaskedVar c.env c'.env
  pub args : Each (λ a a'. a' ≡ masked_value) c.args c'.args
  pub rest : c'.rest ≡ c.rest

pub record IsMaskedSpec (s s' : PodSpec) : Type 0 where
  pub containers : Each IsMaskedContainer s.containers s'.containers
  pub init_containers : Each IsMaskedContainer s.init_containers s'.init_containers
  pub rest : s'.rest ≡ s.rest

mask_env_var-IsMaskedVar : (v : EnvVar) → IsMaskedVar v (mask_env_var v)
unfolding mask_env_var
mask_env_var-IsMaskedVar v = elim (Bool-cases (str_eq v.value "")) [
  | inl empty ↦
      let none_there : v.value ≡ "" = (eq_iff v.value "").0 empty in
      simp empty (record { name = refl; rest = refl; value = inr (none_there, none_there) })
  | inr present ↦ simp present (record { name = refl; rest = refl; value = inl refl })
]

mask_env_vars-Each : (vs : List EnvVar) → Each IsMaskedVar vs (mask_env_vars vs)
unfolding mask_env_vars
mask_env_vars-Each [] = each_nil
mask_env_vars-Each (v ∷ vs) =
    each_cons v _ vs _ (mask_env_var-IsMaskedVar v) (mask_env_vars-Each vs)

mask_args-Each : (xs : List String) → Each (λ a a'. a' ≡ masked_value) xs (mask_args xs)
unfolding mask_args
mask_args-Each [] = each_nil
mask_args-Each (x ∷ xs) = each_cons x _ xs _ refl (mask_args-Each xs)

mask_containers-Each : (cs : List Container) → Each IsMaskedContainer cs (mask_containers cs)
unfolding mask_containers mask_container
mask_containers-Each [] = each_nil
mask_containers-Each (c ∷ cs) =
    each_cons c _ cs _
      (record { env = mask_env_vars-Each c.env; args = mask_args-Each c.args; rest = refl })
      (mask_containers-Each cs)

-- The masked spec has the containers of the spec, in order, each with every argument masked and every
-- value of its environment masked or empty as it was, and with everything else as it was.
pub mask_pod_spec-IsMaskedSpec : (s : PodSpec) → IsMaskedSpec s (mask_pod_spec s)
unfolding mask_pod_spec
mask_pod_spec-IsMaskedSpec s = record {
  containers = mask_containers-Each s.containers;
  init_containers = mask_containers-Each s.init_containers;
  rest = refl;
}

module _ (nested_field : Fields → List String → Nested) (decode : Value → Tried PodSpec)
    (encode : PodSpec → Tried Fields)
    (set_nested_field : Fields → Fields → List String → Tried Fields) (o : Unstructured) where
  -- `o'` is the object with the encoding of a masked spec in the place of its spec.
  pub record IsMaskedObject (path : List String) (o' : Unstructured) : Type 0 where
    pub value : Value
    pub spec : PodSpec
    pub masked : PodSpec
    pub fields : Fields
    pub read : nested_field o.object path ≡ nested value
    pub decoded : decode value ≡ tried spec
    pub is_masked : IsMaskedSpec spec masked
    pub encoded : encode masked ≡ tried fields
    pub written : set_nested_field o.object fields path ≡ tried o'.object
    pub others : o' ≡ record o { object = o'.object }

  -- One of the calls for a path of the spec fails.
  pub data Fails (path : List String) : Type 0 where
    unread : (e : String) → nested_field o.object path ≡ nested_error e → Fails path
    missing : nested_field o.object path ≡ absent → Fails path
    undecoded :
        (v : Value) (e : String)
        → nested_field o.object path ≡ nested v
        → decode v ≡ error e
        → Fails path
    unencoded :
        (v : Value) (s : PodSpec) (e : String)
        → nested_field o.object path ≡ nested v
        → decode v ≡ tried s
        → encode (mask_pod_spec s) ≡ error e
        → Fails path
    unset :
        (s : PodSpec) (fields : Fields) (e : String)
        → encode (mask_pod_spec s) ≡ tried fields
        → set_nested_field o.object fields path ≡ error e
        → Fails path

  -- What mask_unstructured may return for a path of the spec.
  abbrev pub Masks : List String → MaskResult → Type 0
  Masks path (mask_error e) = Fails path
  Masks path (kept_or_masked o') = IsMaskedObject path o'

  tried_cases :
      {A : Type 0} (t : Tried A) → ((a : A) × (t ≡ tried a)) ⊎ ((e : String) × (t ≡ error e))
  tried_cases (tried a) = inl (a, refl)
  tried_cases (error e) = inr (e, refl)

  nested_cases :
      (n : Nested)
      → ((v : Value) × (n ≡ nested v)) ⊎ ((n ≡ absent) ⊎ ((e : String) × (n ≡ nested_error e)))
  nested_cases (nested v) = inl (v, refl)
  nested_cases absent = inr (inl refl)
  nested_cases (nested_error e) = inr (inr (e, refl))

  set_pod_spec-Masks :
      (path : List String) (v : Value) (s : PodSpec)
      → nested_field o.object path ≡ nested v
      → decode v ≡ tried s
      → Masks path (
          set_pod_spec nested_field decode encode set_nested_field o path
            (encode (mask_pod_spec s)))
  unfolding set_pod_spec
  set_pod_spec-Masks path v s read decoded = elim (tried_cases (encode (mask_pod_spec s))) [
    | inr (e, fails) ↦ rw (fails, set_pod_spec) (unencoded v s e read decoded fails)
    | inl (fields, encoded) ↦ elim (tried_cases (set_nested_field o.object fields path)) [
      | inr (e, fails) ↦ rw (encoded, set_pod_spec, fails) (unset s fields e encoded fails)
      | inl (object, written) ↦
          rw (encoded, set_pod_spec, written)
            (record {
              value = v;
              spec = s;
              masked = mask_pod_spec s;
              fields = fields;
              read = read;
              decoded = decoded;
              is_masked = mask_pod_spec-IsMaskedSpec s;
              encoded = encoded;
              written = written;
              others = refl;
            })
    ]
  ]

  mask_at-Masks :
      (path : List String) → Masks path (mask_at nested_field decode encode set_nested_field o path)
  unfolding mask_at mask_decoded
  mask_at-Masks path = elim (nested_cases (nested_field o.object path)) [
    | inr (inl none_there) ↦ rw (none_there, mask_at) (missing none_there)
    | inr (inr (e, fails)) ↦ rw (fails, mask_at) (unread e fails)
    | inl (v, read) ↦ elim (tried_cases (decode v)) [
      | inr (e, fails) ↦ rw (read, mask_at, fails, mask_decoded) (undecoded v e read fails)
      | inl (s, decoded) ↦
          rw (read, mask_at, decoded, mask_decoded) (set_pod_spec-Masks path v s read decoded)
    ]
  ]

  -- What becomes of the object.
  abbrev pub IsOutcome : MaskResult → Type 0
  IsOutcome (mask_error e) =
      (path : List String) × (Dict.lookup o.kind pod_spec_map ≡ some path) × Fails path
  IsOutcome (kept_or_masked o') =
      ((Dict.lookup o.kind pod_spec_map ≡ none) × (o' ≡ o))
      ⊎ ((path : List String) × (Dict.lookup o.kind pod_spec_map ≡ some path)
          × IsMaskedObject path o')

  IsOutcome-of :
      (path : List String) (r : MaskResult)
      → Dict.lookup o.kind pod_spec_map ≡ some path
      → Masks path r
      → IsOutcome r
  IsOutcome-of path (mask_error e) known h = (path, known, h)
  IsOutcome-of path (kept_or_masked o') known h = inr (path, known, h)

  -- An object of a kind without a pod spec is kept as it is. Of another kind the result is
  -- an error if one of the calls for its spec fails, and else the object with the encoding of a masked
  -- spec written in the place of its spec.
  pub mask_unstructured-IsOutcome :
      IsOutcome (mask_unstructured nested_field decode encode set_nested_field o)
  unfolding mask_unstructured
  mask_unstructured-IsOutcome = elim (Option-cases (Dict.lookup o.kind pod_spec_map)) [
    | inl unknown ↦ rw (unknown, mask_unstructured) (inl (unknown, refl))
    | inr (path, known) ↦
        rw (known, mask_unstructured) (IsOutcome-of path _ known (mask_at-Masks path))
  ]
