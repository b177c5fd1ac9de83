-- ===== src/PathBuilder/Default.antt =====
-- The paths of the default template.
use Prim.Native.Char.{code}
use package.text.Mathlib.TextLemmas.{nil-append, cons-append, append-nil, append_cancel_left}
use bmc_secret_operator.Base.{
  ◌≡◌, ◌∙◌, sym, ap, subst, String, ◌<>◌, false, ◌=ℕ◌, [], ◌∷◌, ok, arith, if◌then◌else◌,
}
use bmc_secret_operator.Base.Text.{has_char}
use bmc_secret_operator.PathBuilder.{
  PathBuilder, PathVariables, text, field, build, execute, render_node, render_field,
  new_path_builder, default_template,
}
use bmc_secret_operator.PathBuilder.Parser.{parse, default_nodes}

-- The text up to the first slash, and behind it.
cut : String → String × String
cut String.[] = ("", "")
cut (String.◌∷◌ c s) = if code c =ℕ b'/' then ("", s) else (String.◌∷◌ c (cut s).0, (cut s).1)

cut-slash : (a b : String) → has_char b'/' a ≡ false → cut (a <> ("/" <> b)) ≡ (a, b)
unfolding cut has_char
cut-slash String.[] b h = rw (nil-append, cons-append, nil-append)
cut-slash (String.◌∷◌ c a) b h = rw cons-append (ground (arith, cut-slash a b))

cut_eq :
    (a b s t : String)
    → has_char b'/' a ≡ false
    → has_char b'/' b ≡ false
    → a <> ("/" <> s) ≡ b <> ("/" <> t)
    → (a ≡ b) × (s ≡ t)
cut_eq a b s t ha hb same =
    let both = sym (cut-slash a s ha) ∙ ap cut same ∙ cut-slash b t hb in
    (ap (λ (x : String × String). x.0) both, ap (λ (x : String × String). x.1) both)

variables_eq :
    {a b : PathVariables}
    → a.region ≡ b.region
    → a.hostname ≡ b.hostname
    → a.username ≡ b.username
    → a ≡ b
variables_eq {a} {b} r h u = cc

abbrev pub default_path : PathVariables → String
default_path vars = "bmc/" <> (vars.region <> ("/" <> (vars.hostname <> ("/" <> vars.username))))

abbrev pub default_builder : PathBuilder
default_builder = record {
  template =
      text "bmc/"
      ∷ field "Region"
      ∷ text "/"
      ∷ field "Hostname"
      ∷ text "/"
      ∷ field "Username"
      ∷ text ""
      ∷ [];
}

rendered : (vars : PathVariables) → build default_builder vars ≡ ok (default_path vars)
unfolding build execute render_node render_field
rendered vars =
    ap (λ (u : String). ok (default_path (record vars { username = u }))) (append-nil vars.username)

-- The default template is accepted, and its paths are bmc, the region, the hostname and the
-- username, with slashes between them; no variables make it fail.
pub build-default_path :
    (path_builder : PathBuilder) (vars : PathVariables)
    → new_path_builder parse default_template ≡ ok path_builder
    → build path_builder vars ≡ ok (default_path vars)
unfolding new_path_builder build execute render_node render_field
build-default_path path_builder vars h =
    let same : default_builder ≡ path_builder = cc (rw (default_nodes, new_path_builder) at h) in
    subst (λ (pb : PathBuilder). build pb vars ≡ ok (default_path vars)) same (rendered vars)

default_path-injective :
    (a b : PathVariables)
    → has_char b'/' a.region ≡ false
    → has_char b'/' b.region ≡ false
    → has_char b'/' a.hostname ≡ false
    → has_char b'/' b.hostname ≡ false
    → default_path a ≡ default_path b
    → a ≡ b
default_path-injective a b ra rb ha hb same =
    let (region, rest) = cut_eq a.region b.region _ _ ra rb (append_cancel_left "bmc/" _ _ same) in
    let (hostname, username) = cut_eq a.hostname b.hostname a.username b.username ha hb rest in
    variables_eq region hostname username

-- If the regions and the hostnames have no slash, the default template builds the same path for two
-- BMCs, or two usernames, only if region, hostname and username are the same.
pub build-injective :
    (path_builder : PathBuilder) (a b : PathVariables)
    → new_path_builder parse default_template ≡ ok path_builder
    → has_char b'/' a.region ≡ false
    → has_char b'/' b.region ≡ false
    → has_char b'/' a.hostname ≡ false
    → has_char b'/' b.hostname ≡ false
    → build path_builder a ≡ build path_builder b
    → a ≡ b
build-injective path_builder a b h ra rb ha hb same =
    let paths : ok (default_path a) ≡ ok (default_path b) =
      sym (build-default_path path_builder a h) ∙ same ∙ build-default_path path_builder b h in
    default_path-injective a b ra rb ha hb (cc paths)
