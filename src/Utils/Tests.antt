-- ===== src/Utils/Tests.antt =====
-- The theorems at concrete arguments.
use magalix_agent.Prelude.{
  ℕ, ltb, if◌then◌else◌, ◌≡◌, refl, ◌+◌, String, Option, some, List, [], ◌∷◌, length, false,
}
use magalix_agent.Prelude.Dict.{Dict}
use magalix_agent.Utils.{
  Arg, text_arg, get_sanitized_args, is_flag, is_secret, expand_env, expand_env_uuid, parse_or_exit,
  truncate_string,
}
use magalix_agent.Utils.Sanitized.{
  no_args, same_arg, other_value, other_joined, get_sanitized_args_secrets,
}
use magalix_agent.Utils.Expanded.{and_then, expand_env_uuid_lem}
use magalix_agent.Utils.Truncated.{length-truncate_string}

get_sanitized_args_secrets_example :
    get_sanitized_args ("agent" ∷ "--client-secret" ∷ "abc" ∷ "--client-secret=defg" ∷ [])
    ≡ get_sanitized_args ("agent" ∷ "--client-secret" ∷ "xyz" ∷ "--client-secret=1234" ∷ [])
unfolding is_flag is_secret
get_sanitized_args_secrets_example =
    get_sanitized_args_secrets ("agent" ∷ "--client-secret" ∷ "abc" ∷ "--client-secret=defg" ∷ [])
      ("agent" ∷ "--client-secret" ∷ "xyz" ∷ "--client-secret=1234" ∷ [])
      (same_arg "agent" _ _ (
        same_arg "--client-secret" _ _ (
          other_value "abc" "xyz" _ _ (refl, refl, refl)
            (other_joined "defg" "1234" [] [] (refl, refl, refl) (no_args false)))))

abbrev args : Dict Arg
args = ("--account-id", text_arg "$ACCOUNT") ∷ []

abbrev env : String → String
env name = "4711"

abbrev parse : String → Option String
parse text = some text

expand_env_uuid_lem_example :
    expand_env_uuid env parse args "--account-id"
    ≡ and_then (expand_env env args "--account-id" false) (parse_or_exit parse)
expand_env_uuid_lem_example = expand_env_uuid_lem env parse args "--account-id"

abbrev str : List ℕ
str = 104 ∷ 105 ∷ 33 ∷ []

length-truncate_string_example :
    length (truncate_string str 2)
    ≡ (if ltb 2 (length str) then (if ltb 3 2 then 2 else 2 + 3) else length str)
length-truncate_string_example = length-truncate_string str 2
