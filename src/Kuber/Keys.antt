-- ===== src/Kuber/Keys.antt =====
-- kuber/utils.go: GetEntityKey, the key of the parents store and of the audit results cache.
use Prim.Native.Char.{Char, code}
use Prim.Native.String.{◌++◌, ◌∷◌}
use text.Mathlib.TextLemmas.{nil-append, cons-append, cons-eq-cons}
use magalix_agent.Prelude.{String, ◌≡◌, ◌≢◌, refl, sym, ap, ap₂, ◌∙◌}

-- fmt.Sprintf("%s:%s:%s", namespace, kind, name)
unfoldable pub get_entity_key : String → String → String → String
get_entity_key namespace kind name = namespace ++ (":" ++ (kind ++ (":" ++ name)))

-- No character of the text is a colon.
abbrev pub HasNoColon : String → Type 0
HasNoColon String.[] = Unit
HasNoColon (String.◌∷◌ c s) = (code c ≢ b':') × HasNoColon s

abbrev colon : Char
colon = ":"

colon-append : (u : String) → ":" ++ u ≡ colon ∷ u
colon-append u = cons-append colon "" u ∙ ap (◌∷◌ colon) (nil-append u)

-- Texts that agree up to their first colon agree before and behind it.
split_at_colon :
    (s t u v : String)
    → HasNoColon s
    → HasNoColon t
    → s ++ (":" ++ u) ≡ t ++ (":" ++ v)
    → (s ≡ t) × (u ≡ v)
split_at_colon String.[] String.[] u v hs ht e =
    let h : colon ∷ u ≡ colon ∷ v = rw (nil-append, nil-append, colon-append, colon-append) at e in
    (refl, (cons-eq-cons.0 h).1)
split_at_colon String.[] (String.◌∷◌ d t) u v hs ht e =
    let h : colon ∷ u ≡ d ∷ (t ++ (":" ++ v)) = rw (nil-append, colon-append u, cons-append) at e in
    absurd (ht.0 (ap code (sym (cons-eq-cons.0 h).0)))
split_at_colon (String.◌∷◌ c s) String.[] u v hs ht e =
    let h : c ∷ (s ++ (":" ++ u)) ≡ colon ∷ v = rw (nil-append, colon-append v, cons-append) at e in
    absurd (hs.0 (ap code (cons-eq-cons.0 h).0))
split_at_colon (String.◌∷◌ c s) (String.◌∷◌ d t) u v hs ht e =
    let h = sym (cons-append c s (":" ++ u)) ∙ e ∙ cons-append d t (":" ++ v) in
    let (heads, tails) = cons-eq-cons.0 h in
    let rest = split_at_colon s t u v hs.1 ht.1 tails in (ap₂ ◌∷◌ heads rest.0, rest.1)

-- Objects whose namespace and kind hold no colon have one key only if they have the same
-- namespace, kind and name (the name may hold colons, as `system:node` does).
pub get_entity_key-injective :
    (namespace kind name namespace' kind' name' : String)
    → HasNoColon namespace
    → HasNoColon namespace'
    → HasNoColon kind
    → HasNoColon kind'
    → get_entity_key namespace kind name ≡ get_entity_key namespace' kind' name'
    → (namespace ≡ namespace') × (kind ≡ kind') × (name ≡ name')
unfolding get_entity_key
get_entity_key-injective namespace kind name namespace' kind' name' hn hn' hk hk' e =
    let first = split_at_colon namespace namespace' _ _ hn hn' e in
    let second = split_at_colon kind kind' name name' hk hk' first.1 in
    (first.0, second.0, second.1)
