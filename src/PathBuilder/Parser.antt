-- ===== src/PathBuilder/Parser.antt =====
-- `template.Parse` of text/template on the language that the configuration documents: literal text
-- and actions `{{.Field}}`, spaces allowed around the field. Every other action is refused here.
use Prim.Native.Char.{code}
use bmc_secret_operator.Base.{
  ℕ, String, ◌<>◌, Bool, true, false, [], ◌∷◌, ◌&&◌, ◌||◌, leb, not, ◌==◌,
}
use bmc_secret_operator.Base.{◌≡◌, refl, ◌=ℕ◌, Result, ok, err, errorf, ◌>>=?◌, if◌then◌else◌}
use bmc_secret_operator.PathBuilder.{text, field, Template}
use bmc_secret_operator.PathBuilder.{default_template}

-- Where the reader of an action stands: before the dot, in the field's name, or behind it.
pub data Place : Type 0 where
  before_dot in_name behind_name : Place

abbrev is_name_char : ℕ → Bool
is_name_char k =
    (leb b'a' k && leb k b'z')
    || (leb b'A' k && leb k b'Z')
    || (leb b'0' k && leb k b'9')
    || (k =ℕ b'_')

refused : Result String
refused = err (errorf "unexpected action in template")

-- The field named by the text of an action.
read_field : Place → String → String → Result String
unfolding refused
read_field before_dot name String.[] = refused
read_field in_name name String.[] = if name == "" then refused else ok name
read_field behind_name name String.[] = ok name
read_field before_dot name (String.◌∷◌ c s) = elim (code c =ℕ b' ') [
  | true ↦ read_field before_dot name s
  | false ↦ elim (code c =ℕ b'.') [ true ↦ read_field in_name name s | false ↦ refused ]
]
read_field in_name name (String.◌∷◌ c s) = elim (is_name_char (code c)) [
  | true ↦ read_field in_name (name <> String.◌∷◌ c "") s
  | false ↦ elim ((code c =ℕ b' ') && not (name == "")) [
    | true ↦ read_field behind_name name s
    | false ↦ refused
  ]
]
read_field behind_name name (String.◌∷◌ c s) = elim (code c =ℕ b' ') [
  | true ↦ read_field behind_name name s
  | false ↦ refused
]

-- What was read of the current piece is `acc`; the flag is set inside an action.
scan : Bool → String → String → Result Template
unfolding read_field
scan false acc String.[] = ok (text acc ∷ [])
scan true acc String.[] = err (errorf "unclosed action")
scan false acc (String.◌∷◌ c String.[]) = ok (text (acc <> String.◌∷◌ c "") ∷ [])
scan true acc (String.◌∷◌ c String.[]) = err (errorf "unclosed action")
scan false acc (String.◌∷◌ c (String.◌∷◌ d s)) = elim ((code c =ℕ b'{') && (code d =ℕ b'{')) [
  | true ↦ scan true "" s >>=? λ rest. ok (text acc ∷ rest)
  | false ↦ scan false (acc <> String.◌∷◌ c "") (String.◌∷◌ d s)
]
scan true acc (String.◌∷◌ c (String.◌∷◌ d s)) = elim ((code c =ℕ b'}') && (code d =ℕ b'}')) [
  | true ↦
      read_field before_dot "" acc >>=? λ name. scan false "" s >>=? λ rest. ok (field name ∷ rest)
  | false ↦ scan true (acc <> String.◌∷◌ c "") (String.◌∷◌ d s)
]

unfoldable pub parse : String → Result Template
unfolding scan
parse template_str = scan false "" template_str

pub default_nodes :
    parse default_template
    ≡ ok (
        text "bmc/"
        ∷ field "Region"
        ∷ text "/"
        ∷ field "Hostname"
        ∷ text "/"
        ∷ field "Username"
        ∷ text ""
        ∷ [])
unfolding parse
default_nodes = refl

spaces : parse "{{ .Region }}" ≡ ok (text "" ∷ field "Region" ∷ text "" ∷ [])
unfolding parse
spaces = refl

range_is_refused : parse "a{{range .X}}" ≡ err (errorf "unexpected action in template")
unfolding parse
range_is_refused = refl
