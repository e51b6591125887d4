-- ===== src/CloudInit/Tests.antt =====
-- Runs of the script generator at single inputs.
use cluster_api_provider_kub.Prelude.{codes, none, false, [], ◌∷◌, ◌++◌, ◌≡◌, refl}
use cluster_api_provider_kub.Go.{ok, done}
use cluster_api_provider_kub.Go.Text.{
  bytes_eq, trim_suffix, trim_space, to_lower, quote, dir, has_suffix, contains,
}
use cluster_api_provider_kub.CloudInit.Parsers.{Parsers, File, str, arr, nil, cons}
use cluster_api_provider_kub.CloudInit.RunCmd.{unmarshal_runcmd, runcmd_script_block}
use cluster_api_provider_kub.CloudInit.WriteFiles.{
  unmarshal_write_files, write_files_script_block, fix_content, fix_encoding, file_lines,
}
use cluster_api_provider_kub.CloudInit.Actions.{
  generate_script, get_actions, scan_lines, scan_actions, flush, script_header, script_blocks,
  action, unmarshal, generate_script_block, is_action_line,
}

abbrev file : File
file = record {
  path = codes " /run/a ";
  encoding = [];
  owner = codes "root:root";
  permissions = codes "0640";
  content = codes "x=1";
  append = false;
}

-- Parsers that answer the same whatever the text is.
abbrev fixed_parsers : Parsers
fixed_parsers = record {
  yaml_map = λ _. none;
  yaml_write_files = λ _. ok (file ∷ []);
  yaml_runcmd = λ _. ok (str (codes "kubeadm init") ∷ arr (cons (str (codes "ls")) nil) ∷ []);
  json = λ _. none;
  new_reader = λ s. ok s;
  read_from = λ s. ok s;
  lower_run = λ s. s;
  quote_run = λ s. s;
  json_error = λ _. "invalid character";
}

script_of_both :
    generate_script fixed_parsers (codes "#cloud-config\nwrite_files:\n- a\nruncmd:\n- b\n")
    ≡ done (
        codes "#!/bin/bash\n\nset -o errexit\nset -o nounset\nset -o pipefail\n\n"
        ++ codes
            "# write_files script block\nmkdir -p \"/run\"\ncat > \"/run/a\" << END\nx=1\nEND\n"
        ++ codes "chmod 0640 \"/run/a\"\n\n# runcmd script block\n"
        ++ codes "\"/bin/sh\" \"-c\" \"kubeadm init --ignore-preflight-errors=all\"\n\"ls\"\n")
unfolding generate_script get_actions scan_lines scan_actions flush script_header script_blocks
    action unmarshal generate_script_block is_action_line unmarshal_write_files
    write_files_script_block unmarshal_runcmd runcmd_script_block bytes_eq trim_suffix fix_content
    fix_encoding trim_space to_lower file_lines quote dir has_suffix contains
script_of_both = refl
