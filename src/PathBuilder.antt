-- ===== src/PathBuilder.antt =====
-- internal/secretbackend/pathbuilder.go. A parsed `text/template` is a list of nodes: literal text,
-- a field of the data, or any other action, given by its effect. `Parser` parses the documented
-- language, text and `{{.Field}}`.
pub mod Parser
pub mod Default
use bmc_secret_operator.Base.{String, ◌<>◌, List, [], ◌∷◌, ◌==◌, if◌then◌else◌}
use bmc_secret_operator.Base.{Result, ok, err, errorf, wrap, ◌>>=?◌}

pub record PathVariables : Type 0 where
  pub region : String
  pub hostname : String
  pub username : String

pub data Node : Type 0 where
  text : String → Node
  field : String → Node
  action : (PathVariables → Result String) → Node

abbrev pub Template : Type 0
Template = List Node

pub record PathBuilder : Type 0 where
  pub template : Template

-- The template parser is an argument: `text/template`'s `Parse`.
unfoldable pub new_path_builder : (String → Result Template) → String → Result PathBuilder
new_path_builder parse template_str = elim (parse template_str) [
  | err e ↦ err (wrap "failed to parse path template" e)
  | ok t ↦ ok (record { template = t })
]

-- A field of the struct that the template is executed on; another name is an execution error.
unfoldable pub render_field : String → PathVariables → Result String
render_field name vars =
    if name == "Region"
    then ok vars.region
    else if name == "Hostname"
    then ok vars.hostname
    else if name == "Username"
    then ok vars.username
    else err (errorf ("can't evaluate field " <> name <> " in type secretbackend.PathVariables"))

unfoldable pub render_node : Node → PathVariables → Result String
unfolding render_field
render_node (text s) vars = ok s
render_node (field name) vars = render_field name vars
render_node (action f) vars = f vars

-- `template.Execute` into an empty buffer: the first failing node ends it.
unfoldable pub execute : Template → PathVariables → Result String
unfolding render_node
execute [] vars = ok ""
execute (n ∷ t) vars = render_node n vars >>=? λ s. execute t vars >>=? λ rest. ok (s <> rest)

unfoldable pub build : PathBuilder → PathVariables → Result String
unfolding execute
build pb vars = elim (execute pb.template vars) [
  | err e ↦ err (wrap "failed to execute path template" e)
  | ok path ↦ ok path
]

-- The template that the configuration falls back on.
abbrev pub default_template : String
default_template = "bmc/{{.Region}}/{{.Hostname}}/{{.Username}}"
