-- ===== src/Utils/Sanitized.antt =====
-- What GetSanitizedArgs shows does not depend on the secrets.
use magalix_agent.Prelude.{
  ◌≡◌, refl, sym, ap, ap₂, ◌∙◌, String, Bool, true, false, not, ◌&&◌, List, [], ◌∷◌, eq_refl,
  if◌then◌else◌,
}
use Prim.Native.String.{◌++◌ as str_append, len, slice}
use text.Mathlib.Text.{starts_with}
use text.Mathlib.TextPositions.{len-append, slice-append_left, slice-append_right}
use magalix_agent.Utils.{
  client_secret, sensitive, is_secret, hide, hide_joined, is_flag, sanitize, get_sanitized_args,
}

-- Two values to hide, of one length.
abbrev pub AreSecrets : String → String → Type 0
AreSecrets v w = (is_secret v ≡ true) × (is_secret w ≡ true) × (len v ≡ len w)

abbrev pub joined : String → String
joined value = str_append "--client-secret=" value

-- Two lists of arguments that differ in secrets only; the Boolean tells that the first argument is the value of the flag.
pub data DifferInSecrets : Bool → List String → List String → Type 0 where
  no_args : (b : Bool) → DifferInSecrets b [] []
  same_value :
      (v : String) (xs ys : List String)
      → DifferInSecrets false xs ys
      → DifferInSecrets true (v ∷ xs) (v ∷ ys)
  same_arg :
      (x : String) (xs ys : List String)
      → DifferInSecrets (is_flag x) xs ys
      → DifferInSecrets false (x ∷ xs) (x ∷ ys)
  other_value :
      (v w : String) (xs ys : List String)
      → AreSecrets v w
      → DifferInSecrets false xs ys
      → DifferInSecrets true (v ∷ xs) (w ∷ ys)
  other_joined :
      (v w : String) (xs ys : List String)
      → AreSecrets v w
      → DifferInSecrets false xs ys
      → DifferInSecrets false (joined v ∷ xs) (joined w ∷ ys)

sensitive_of_len : (v w : String) → len v ≡ len w → sensitive v ≡ sensitive w
unfolding sensitive
sensitive_of_len v w e = rw e refl

hide_secrets : (v w : String) → AreSecrets v w → hide v ≡ hide w
unfolding hide
hide_secrets v w (hv, hw, e) = rw (hv, hw) (sensitive_of_len v w e)

starts_with-joined : (v : String) → starts_with (joined v) "--client-secret=" ≡ true
starts_with-joined v = rw (slice-append_left "--client-secret=" v) (eq_refl "--client-secret=")

value-joined : (v : String) → slice (joined v) (len "--client-secret=") (len (joined v)) ≡ v
value-joined v =
    ap (λ n. slice (joined v) (len "--client-secret=") n) (len-append "--client-secret=" v)
    ∙ slice-append_right "--client-secret=" v

hide_joined-secret :
    (v : String)
    → is_secret v ≡ true
    → hide_joined (joined v) ≡ str_append "--client-secret=" (sensitive v)
unfolding hide_joined
hide_joined-secret v h = rw (value-joined v, h) refl

and_not : (a b : Bool) → b ≡ true → (a && not b) ≡ false
and_not false b h = refl
and_not true b h = rw h refl

is_flag-joined : (v : String) → is_flag (joined v) ≡ false
unfolding is_flag
is_flag-joined v =
    and_not (starts_with (joined v) client_secret) (starts_with (joined v) "--client-secret=")
      (starts_with-joined v)

sanitize_secrets :
    (b : Bool) (xs ys : List String) → DifferInSecrets b xs ys → sanitize b xs ≡ sanitize b ys
unfolding sanitize
sanitize_secrets b xs ys (no_args b') = refl
sanitize_secrets b xs ys (same_value v vs ws d) =
    ap (λ l. hide v ∷ l) (sanitize_secrets false vs ws d)
sanitize_secrets b xs ys (same_arg x vs ws d) =
    ap (λ l. (if starts_with x "--client-secret=" then hide_joined x else x) ∷ l)
      (sanitize_secrets (is_flag x) vs ws d)
sanitize_secrets b xs ys (other_value v w vs ws s d) =
    ap₂ (λ (x : String) (l : List String). x ∷ l) (hide_secrets v w s)
      (sanitize_secrets false vs ws d)
sanitize_secrets b xs ys (other_joined v w vs ws (hv, hw, e) d) =
    let hidden : hide_joined (joined v) ≡ hide_joined (joined w) =
      hide_joined-secret v hv
      ∙ ap (str_append "--client-secret=") (sensitive_of_len v w e)
      ∙ sym (hide_joined-secret w hw) in
    rw (is_flag-joined v, is_flag-joined w, starts_with-joined v, starts_with-joined w)
      (ap₂ (λ (x : String) (l : List String). x ∷ l) hidden (sanitize_secrets false vs ws d))

-- When two lists of arguments differ only in values of the secret flag, given after `=` or as the next argument, each of
-- them not empty, no variable of the environment, and of the same length as the other, GetSanitizedArgs shows
-- them alike.
pub get_sanitized_args_secrets :
    (xs ys : List String)
    → DifferInSecrets false xs ys
    → get_sanitized_args xs ≡ get_sanitized_args ys
unfolding get_sanitized_args
get_sanitized_args_secrets xs ys d = sanitize_secrets false xs ys d
