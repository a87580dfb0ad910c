-- ===== src/Utils/Expanded.antt =====
-- What ExpandEnv and ExpandEnvUUID give.
use magalix_agent.Prelude.{
  ◌≡◌, inl, inr, refl, String, false, Option, none, some, str_eq, Bool-cases,
}
use magalix_agent.Prelude.Dict.{Dict}
use Prim.Native.String.{len, slice}
use text.Mathlib.Text.{starts_with}
use magalix_agent.Utils.{
  Arg, Outcome, returns, exits, panics, get_text, expand_key, expand_found, expand_env,
  parse_or_exit, expand_uuid_key, expand_uuid_found, expand_env_uuid,
}

-- A function of the value, unless the process exits.
pub and_then : {A B : Type 0} → Outcome A → (A → Outcome B) → Outcome B
and_then (returns a) f = f a
and_then (exits code) f = exits code
and_then (panics text) f = panics text

module _ {A : Type 0} (env : String → String) (parse : String → Option A) where
  expand_uuid_key_lem :
      (key : String)
      → expand_uuid_key env parse key ≡ and_then (expand_key env key) (parse_or_exit parse)
  unfolding expand_uuid_key expand_key and_then
  expand_uuid_key_lem key = elim (Bool-cases (starts_with key "$")) [
    | inr plain ↦ rw plain refl
    | inl variable ↦ elim (Bool-cases (str_eq (env (slice key 1 (len key))) "")) [
      | inl unset ↦ rw (variable, unset) refl
      | inr set ↦ rw (variable, set) refl
    ]
  ]

  expand_uuid_found_lem :
      (o : Option String)
      → expand_uuid_found env parse o ≡ and_then (expand_found env false o) (parse_or_exit parse)
  unfolding expand_uuid_found expand_found and_then
  expand_uuid_found_lem none = refl
  expand_uuid_found_lem (some key) = elim (Bool-cases (str_eq key "")) [
    | inl empty ↦ rw empty refl
    | inr given ↦ rw given (expand_uuid_key_lem key)
  ]

  -- ExpandEnvUUID is ExpandEnv that allows no empty value, and then the parser, where a value that does not parse
  -- exits the process.
  pub expand_env_uuid_lem :
      (args : Dict Arg) (flag : String)
      → expand_env_uuid env parse args flag
        ≡ and_then (expand_env env args flag false) (parse_or_exit parse)
  unfolding expand_env_uuid expand_env
  expand_env_uuid_lem args flag = expand_uuid_found_lem (get_text args flag)
