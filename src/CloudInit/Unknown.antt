-- ===== src/CloudInit/Unknown.antt =====
-- pkg/cloudinit/unknown.go: a top-level key with no module here.
use cluster_api_provider_kub.Prelude.{Option, none, some, List, [], ◌∷◌, ◌++◌}
use cluster_api_provider_kub.Go.{message, Outcome, done, fail}
use cluster_api_provider_kub.Go.Text.{Bytes, join_lines}
use cluster_api_provider_kub.CloudInit.Parsers.{Parsers, Json}
use cluster_api_provider_kub.CloudInit.RunCmd.{decode_string, decode_strings}

unfoldable pub one_line : Parsers → Bytes → Option Bytes → Outcome (List Bytes)
one_line p user_data (some s2) = done (s2 ∷ [])
one_line p user_data none = fail (message (p.json_error user_data))

unfoldable pub lines_of_json : Parsers → Bytes → Option Json → Outcome (List Bytes)
unfolding one_line
lines_of_json p user_data none = fail (message (p.json_error user_data))
lines_of_json p user_data (some j) = elim (decode_strings j) [
  | some s1 ↦ done s1
  | none ↦ one_line p user_data (decode_string j)
]

-- `unknown.Unmarshal`: the lines, from a JSON list of strings or one JSON string.
unfoldable pub unmarshal_unknown : Parsers → Bytes → Outcome (List Bytes)
unfolding lines_of_json
unmarshal_unknown p user_data = lines_of_json p user_data (p.json user_data)

-- `unknown.GenerateScriptBlock`
unfoldable pub unknown_script_block : Bytes → List Bytes → Bytes
unknown_script_block name lines = name ++ 10 ∷ 10 ∷ join_lines lines
