-- ===== src/CloudInit/RunCmd.antt =====
-- pkg/cloudinit/runcmd.go
use cluster_api_provider_kub.Prelude.{
  String, ◌&&◌, ◌||◌, Option, none, some, List, [], ◌∷◌, ◌++◌, if◌then◌else◌, codes,
}
use cluster_api_provider_kub.Go.{message, wrapped, Outcome, done, fail, panic, ◌>>=◌, lift}
use cluster_api_provider_kub.Go.Text.{Bytes, bytes_eq, contains, quote}
use cluster_api_provider_kub.CloudInit.Parsers.{Parsers, Json, null, str, arr, Items, nil, cons}

pub record Cmd : Type 0 where
  pub cmd : Bytes
  pub args : List Bytes

-- `json.Unmarshal` of a value into a string; null leaves the empty string. `none` is an
-- `UnmarshalTypeError`.
unfoldable pub decode_string : Json → Option Bytes
decode_string null = some []
decode_string (str s) = some s
decode_string _ = none

cons_decoded : Option Bytes → Option (List Bytes) → Option (List Bytes)
cons_decoded (some s) (some ss) = some (s ∷ ss)
cons_decoded _ _ = none

unfoldable pub decode_items : Items → Option (List Bytes)
unfolding cons_decoded decode_string
decode_items nil = some []
decode_items (cons j js) = cons_decoded (decode_string j) (decode_items js)

-- `json.Unmarshal` of a value into a `[]string`; null leaves it empty.
unfoldable pub decode_strings : Json → Option (List Bytes)
unfolding decode_items
decode_strings null = some []
decode_strings (arr items) = decode_items items
decode_strings _ = none

-- `c.Cmd = s1[0]; c.Args = s1[1:]`, which panics where the list is empty.
cmd_of_list : List Bytes → Outcome Cmd
cmd_of_list [] = panic
cmd_of_list (c ∷ args) = done (record { cmd = c; args = args })

cmd_of_string : Parsers → Option Bytes → Outcome Cmd
cmd_of_string p none = fail (message "json: cannot unmarshal value into Go value of type string")
cmd_of_string p (some s) = done (record { cmd = codes "/bin/sh"; args = codes "-c" ∷ s ∷ [] })

-- `Cmd.UnmarshalJSON`, on a value that the decoder has found well formed.
unfoldable pub unmarshal_json : Parsers → Json → Outcome Cmd
unfolding cmd_of_list cmd_of_string decode_strings decode_string
unmarshal_json p j = elim (decode_strings j) [
  | some s1 ↦ cmd_of_list s1
  | none ↦ cmd_of_string p (decode_string j)
]

unfoldable pub unmarshal_cmds : Parsers → List Json → Outcome (List Cmd)
unfolding unmarshal_json
unmarshal_cmds p [] = done []
unmarshal_cmds p (j ∷ js) = do c ← unmarshal_json p j; cs ← unmarshal_cmds p js; done (c ∷ cs)

-- errors.Wrapf; the text leaves out the user data.
abbrev pub wrap_error : {A : Type 0} → String → Outcome A → Outcome A
wrap_error text (done a) = done a
wrap_error text (fail e) = fail (wrapped text e)
wrap_error text panic = panic

-- `runCmd.Unmarshal`
unfoldable pub unmarshal_runcmd : Parsers → Bytes → Outcome (List Cmd)
unfolding unmarshal_cmds
unmarshal_runcmd p user_data =
    wrap_error "error parsing run_cmd action" (lift (p.yaml_runcmd user_data) >>= unmarshal_cmds p)

abbrev pub ignore_flag : Bytes
ignore_flag = codes "--ignore-preflight-errors=all"

-- The kubeadm commands given as a string.
unfoldable pub hack_string : Bytes → List Bytes → List Bytes
hack_string cmd (a0 ∷ a1 ∷ rest) =
    if bytes_eq cmd (codes "/bin/sh")
      && (bytes_eq a0 (codes "-c")
          && (contains a1 (codes "kubeadm init") || contains a1 (codes "kubeadm join")))
    then a0 ∷ (a1 ++ 32 ∷ ignore_flag) ∷ rest
    else a0 ∷ a1 ∷ rest
hack_string cmd args = args

-- The kubeadm commands given as a list.
unfoldable pub hack_list : Bytes → List Bytes → List Bytes
hack_list cmd (a0 ∷ rest) =
    if bytes_eq cmd (codes "kubeadm") && (bytes_eq a0 (codes "init") || bytes_eq a0 (codes "join"))
    then (a0 ∷ rest) ++ ignore_flag ∷ []
    else a0 ∷ rest
hack_list cmd [] = []

-- The source writes `c.Args[1]` through the slice that it shares with `a.Cmds`; each action's
-- block is generated once, so no later read sees that write.
unfoldable pub hack_kubeadm_ignore_errors : Cmd → Cmd
unfolding hack_string hack_list
hack_kubeadm_ignore_errors c = record c { args = hack_list c.cmd (hack_string c.cmd c.args) }

-- The quoted arguments, each after a space.
quoted_args : Parsers → List Bytes → Bytes
quoted_args p [] = []
quoted_args p (a ∷ args) = 32 ∷ quote p.quote_run a ++ quoted_args p args

command_line : Parsers → Cmd → Bytes
unfolding quoted_args
command_line p c = quote p.quote_run c.cmd ++ quoted_args p c.args

runcmd_lines : Parsers → List Cmd → Bytes
unfolding hack_kubeadm_ignore_errors command_line
runcmd_lines p [] = []
runcmd_lines p (c ∷ cs) = 10 ∷ command_line p (hack_kubeadm_ignore_errors c) ++ runcmd_lines p cs

-- `runCmd.GenerateScriptBlock`
unfoldable pub runcmd_script_block : Parsers → List Cmd → Bytes
unfolding runcmd_lines
runcmd_script_block p cmds = codes "# runcmd script block" ++ runcmd_lines p cmds
