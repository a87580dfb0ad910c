-- ===== src/Kuber/Kube/Minor.antt =====
-- The minor version of the server.
use magalix_agent.Prelude.{
  zero, ◌-◌, ◌≡◌, refl, String, inl, inr, ok, str_eq, arith, ◌==◌, if◌then◌else◌, Bool-cases, false,
  ap, ap₂, ◌∙◌,
}
use Prim.Native.String.{◌++◌ as str_append, len, slice}
use text.Mathlib.TextPositions.{slice-append_left, slice-append_right, len-append}
use magalix_agent.Kuber.Kube.{get_server_minor_version}

-- A minor version whose last byte is `last` is read whole, but for a plus at its end, which is left away first.
pub get_server_minor_version-last :
    {R : Type 0} (atoi failed : String → R) (s last : String)
    → len last ≡ 1
    → get_server_minor_version atoi failed (inr (str_append s last))
      ≡ ok (atoi (if str_eq last "+" then s else str_append s last))
unfolding get_server_minor_version
get_server_minor_version-last atoi failed s last one =
    let m = str_append s last in
    let size = len-append s last in
    let before : len m - 1 ≡ len s = omega (arith, size, one) in
    let some_byte : (len m == 0) ≡ false = ground (arith, size, one) in
    let last1 : slice m (len m - 1) (len m) ≡ last =
      ap₂ (slice m) before size ∙ slice-append_right s last in
    let first : slice m zero (len m - 1) ≡ s =
      ap (slice m zero) before ∙ slice-append_left s last in
    rw (some_byte, last1, first)
      (elim (Bool-cases (str_eq last "+")) [ inl plus ↦ rw plus refl | inr other ↦ rw other refl ])
