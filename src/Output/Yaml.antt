-- ===== src/Output/Yaml.antt =====
-- marshal, marshalWithIndent and jsonToYaml of pkg/transformer/kubernetes/k8sutils.go.
use kompose.Base.{Bool, Option, none, some, Text, if◌then◌else◌}
use kompose.Base.Int.{ℤ}
use kompose.Base.Outcome.{Outcome, ok, panic, ◌>>=◌, or_err}
use kompose.Kubernetes.Types.{RuntimeObject}
use kompose.Output.Json.{Value, remove_empty_interfaces}

-- What the program calls of encoding/json and of the YAML library.
pub record Codec : Type 0 where
  -- json.Marshal and json.MarshalIndent
  pub marshal_json : RuntimeObject → Option Text
  pub marshal_json_indent : RuntimeObject → Option Text
  -- yaml.Unmarshal, and an encoder with an indent
  pub unmarshal : Text → Option Value
  pub encode : ℤ → Value → Option Text

unfoldable pub json_to_yaml : Codec → Text → ℤ → Outcome Text
unfolding remove_empty_interfaces
json_to_yaml codec j spaces = do
  v ← or_err (codec.unmarshal j)
  left ← elim (remove_empty_interfaces v) [ none ↦ panic | some x ↦ ok x ]
  or_err (codec.encode spaces left)

unfoldable pub marshal_with_indent : Codec → RuntimeObject → ℤ → Outcome Text
unfolding json_to_yaml
marshal_with_indent codec o indent = do
  j ← or_err (codec.marshal_json o)
  json_to_yaml codec j indent

unfoldable pub marshal : Codec → RuntimeObject → Bool → ℤ → Outcome Text
unfolding marshal_with_indent
marshal codec o json_format indent =
    if json_format then or_err (codec.marshal_json_indent o) else marshal_with_indent codec o indent
