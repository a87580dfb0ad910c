-- ===== src/Value.antt =====
-- Go's `interface{}` values as JSON decoding makes them, and `map[string]interface{}` as `Fields`:
-- auditor/opa-auditor/opa-auditor.go reads the details of a violation through them.
use magalix_agent.Prelude.{String, Bool, Option, none, some, str_eq, if◌then◌else◌}

-- `number` holds the literal, since the agent computes with no number of a document.
mutual
  pub data Fields : Type 0 where
    end : Fields
    field : String → Value → Fields → Fields

  pub data Value : Type 0 where
    text : String → Value
    obj : Fields → Value
    array : Elements → Value
    number : String → Value
    boolean : Bool → Value
    null : Value

  pub data Elements : Type 0 where
    no_element : Elements
    element : Value → Elements → Elements

-- `v, ok := m[k]`
unfoldable pub lookup : String → Fields → Option Value
lookup k end = none
lookup k (field j v fs) = if str_eq j k then some v else lookup k fs
