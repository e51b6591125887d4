-- ===== src/Tests/Blocks.antt =====
-- The cut of a cloud-config into blocks at concrete inputs.
use cluster_api_provider_kub.Prelude.{
  [], ◌∷◌, ◌++◌, ◌≡◌, ◌≢◌, refl, inl, inr, In, codes, false, List,
}
use cluster_api_provider_kub.Go.{done}
use cluster_api_provider_kub.Go.Text.{Bytes, trim_suffix}
use cluster_api_provider_kub.CloudInit.Actions.{
  scan_lines, get_actions, generate_script, action, unknown,
}
use cluster_api_provider_kub.CloudInit.Blocks.{
  Block, cut, lines_of, actions_of, get_actions-actions_of,
}
use cluster_api_provider_kub.CloudInit.UnknownKeys.{
  JsonLaw, Preamble, comment, generate_script-unknown,
}
use cluster_api_provider_kub.Tests.MachineRuns.{machine_runs}
use cluster_api_provider_kub.Tests.Fixtures.{simple_parsers}

abbrev config : Bytes
config = codes "#cloud-config\nruncmd:\n- ls\npackages:\n- curl\n"

abbrev config_lines : List Bytes
config_lines =
    codes "#cloud-config" ∷ codes "runcmd:" ∷ codes "- ls" ∷ codes "packages:" ∷ codes "- curl" ∷ []

config_scanned : scan_lines config ≡ (config_lines, false)
unfolding machine_runs
config_scanned = refl

get_actions-actions_of_example :
    (get_actions simple_parsers config
      ≡ actions_of simple_parsers (cut config_lines).0 (cut config_lines).1)
    × ((cut config_lines).0 ++ lines_of (cut config_lines).1 ≡ config_lines)
get_actions-actions_of_example =
    get_actions-actions_of simple_parsers config config_lines config_scanned

simple_parsers-JsonLaw : JsonLaw simple_parsers
simple_parsers-JsonLaw = record { json_key = λ s q. refl; json_comment = λ s. refl }

config-Preamble : Preamble (cut config_lines).0
unfolding cut machine_runs
config-Preamble = comment (codes "cloud-config") []

packages_cut : In {A = Block} (codes "packages:", codes "- curl" ∷ []) (cut config_lines).1
unfolding cut machine_runs
packages_cut = inr (inl refl)

packages_unknown : action (trim_suffix (codes "packages:") b':') ≡ unknown (codes "packages")
unfolding machine_runs
packages_unknown = refl

generate_script-unknown_example : generate_script simple_parsers config ≢ done (codes "#!/bin/bash")
generate_script-unknown_example =
    generate_script-unknown simple_parsers config config_lines (codes "packages:")
      (codes "- curl" ∷ []) (codes "packages") (codes "#!/bin/bash") simple_parsers-JsonLaw
      config_scanned config-Preamble packages_cut packages_unknown
