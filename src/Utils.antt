-- ===== src/Utils.antt =====
-- utils/utils.go. A map of docopt gives a text or something else for a flag; the environment, the parsers of the library
-- and the arguments of the process are arguments. TruncateString works on the bytes of a text.
pub mod Sanitized
pub mod Expanded
pub mod Truncated
mod Tests
use magalix_agent.Prelude.{
  ℕ, zero, suc, ◌+◌, ◌-◌, ◌/◌, ◌%◌, String, Bool, true, false, not, ◌&&◌, ◌||◌, Option, none, some,
  List, [], ◌∷◌, ◌++◌, ltb, length, take, str_eq, if◌then◌else◌,
}
use magalix_agent.Prelude.Dict
use magalix_agent.Prelude.Dict.{Dict}
use Prim.Native.String.{◌++◌ as str_append, len, slice}
use text.Mathlib.Text.{starts_with}

pub data Arg : Type 0 where
  text_arg : String → Arg
  other_arg : Arg

-- How a function ends: it returns, it exits the process with a code, or it panics.
pub data Outcome (A : Type 0) : Type 0 where
  returns : A → Outcome A
  exits : ℕ → Outcome A
  panics : String → Outcome A

-- `key, ok := args[flag].(string)`
pub get_text : Dict Arg → String → Option String
get_text args flag = elim (Dict.lookup flag args) [
  | none ↦ none
  | some other_arg ↦ none
  | some (text_arg key) ↦ some key
]

-- The part of ExpandEnv for a key that is not empty: `$NAME` stands for a variable of the environment.
pub expand_key : (String → String) → String → Outcome String
expand_key env key =
    let value = env (slice key 1 (len key)) in
    if not (starts_with key "$")
    then returns key
    else if str_eq value ""
    then exits 1
    else returns value

pub expand_found : (String → String) → Bool → Option String → Outcome String
unfolding expand_key
expand_found env allow_empty none = if allow_empty then returns "" else exits 1
expand_found env allow_empty (some key) =
    if str_eq key "" then (if allow_empty then returns "" else exits 1) else expand_key env key

pub expand_env : (String → String) → Dict Arg → String → Bool → Outcome String
unfolding expand_found get_text
expand_env env args flag allow_empty = expand_found env allow_empty (get_text args flag)

-- uuid.FromString, or the exit.
pub parse_or_exit : {A : Type 0} → (String → Option A) → String → Outcome A
parse_or_exit parse value = elim (parse value) [ none ↦ exits 1 | some v ↦ returns v ]

pub expand_uuid_key : {A : Type 0} → (String → String) → (String → Option A) → String → Outcome A
unfolding parse_or_exit
expand_uuid_key env parse key =
    let value = env (slice key 1 (len key)) in
    if not (starts_with key "$")
    then parse_or_exit parse key
    else if str_eq value ""
    then exits 1
    else parse_or_exit parse value

pub expand_uuid_found :
    {A : Type 0} → (String → String) → (String → Option A) → Option String → Outcome A
unfolding expand_uuid_key
expand_uuid_found env parse none = exits 1
expand_uuid_found env parse (some key) =
    if str_eq key "" then exits 1 else expand_uuid_key env parse key

pub expand_env_uuid :
    {A : Type 0} → (String → String) → (String → Option A) → Dict Arg → String → Outcome A
unfolding expand_uuid_found get_text
expand_env_uuid env parse args flag = expand_uuid_found env parse (get_text args flag)

-- MustParseDuration and MustParseInt, with the parser; a flag without a text panics.
pub must_parse : {A : Type 0} → (String → Option A) → Dict Arg → String → Outcome A
unfolding parse_or_exit get_text
must_parse parse args flag = elim (get_text args flag) [
  | none ↦ panics (str_append "invalid docopt for " flag)
  | some text ↦ parse_or_exit parse text
]

digit : ℕ → String
digit n = slice "0123456789" n (n + 1)

-- The decimal numeral; a number has at most as many digits as one more than its value.
decimal : ℕ → ℕ → String
unfolding digit
decimal zero n = ""
decimal (suc fuel) n =
    let front = decimal fuel (n / 10) in
    if ltb n 10 then digit n else str_append front (digit (n % 10))

abbrev pub client_secret : String
client_secret = "--client-secret"

-- `<sensitive:N>`
pub sensitive : String → String
unfolding decimal
sensitive value = str_append "<sensitive:" (str_append (decimal (suc (len value)) (len value)) ">")

-- There is something to hide: the value is not empty, and no variable of the environment.
pub is_secret : String → Bool
is_secret value = not (str_eq value "") && not (starts_with value "$")

pub hide : String → String
unfolding sensitive is_secret
hide value = if is_secret value then sensitive value else value

-- An argument `--client-secret=value`.
pub hide_joined : String → String
unfolding sensitive is_secret
hide_joined arg =
    let value = slice arg (len "--client-secret=") (len arg) in
    if is_secret value then str_append "--client-secret=" (sensitive value) else arg

-- The argument has the flag, and its value is the next argument.
pub is_flag : String → Bool
is_flag arg = starts_with arg client_secret && not (starts_with arg "--client-secret=")

-- The loop of GetSanitizedArgs; the Boolean tells that the next argument is the value of the flag.
pub sanitize : Bool → List String → List String
unfolding hide hide_joined is_flag
sanitize is_value [] = []
sanitize true (value ∷ args) = hide value ∷ sanitize false args
sanitize false (arg ∷ args) =
    let shown = if starts_with arg "--client-secret=" then hide_joined arg else arg in
    shown ∷ sanitize (is_flag arg) args

pub get_sanitized_args : List String → List String
unfolding sanitize
get_sanitized_args args = sanitize false args

-- After
pub after : ℕ → ℕ → ℕ
after d now = now + d

-- TruncateString with a number that is not negative.
pub truncate_string : List ℕ → ℕ → List ℕ
truncate_string str num =
    let dots = 46 ∷ 46 ∷ 46 ∷ [] in
    if ltb num (length str) then take (if ltb 3 num then num - 3 else num) str ++ dots else str
