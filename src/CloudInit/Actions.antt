-- ===== src/CloudInit/Actions.antt =====
-- pkg/cloudinit/kindadapter.go: `getActions` and `GenerateScript`.
use cluster_api_provider_kub.Prelude.{
  ℕ, suc, Bool, true, false, ◌&&◌, ◌||◌, Option, none, some, List, [], ◌∷◌, ◌++◌, if◌then◌else◌,
  codes, leb, nat_eq,
}
use mathlib.Core.List.{reverse}
use cluster_api_provider_kub.Go.{Error, message, wrapped, Outcome, done, ◌>>=◌, check}
use cluster_api_provider_kub.Go.Text.{Bytes, bytes_eq, trim_suffix, join_lines}
use cluster_api_provider_kub.CloudInit.Parsers.{Parsers, File}
use cluster_api_provider_kub.CloudInit.RunCmd.{Cmd, unmarshal_runcmd, runcmd_script_block}
use cluster_api_provider_kub.CloudInit.WriteFiles.{unmarshal_write_files, write_files_script_block}
use cluster_api_provider_kub.CloudInit.Unknown.{unmarshal_unknown, unknown_script_block}

-- The implementations of the interface `action`, before they have read their part of the text.
pub data Kind : Type 0 where
  write_files : Kind
  runcmd : Kind
  unknown : Bytes → Kind

-- The same, with what they have read.
pub data Action : Type 0 where
  write_files : List File → Action
  runcmd : List Cmd → Action
  unknown : Bytes → List Bytes → Action

-- `actionFactory.action`
unfoldable pub action : Bytes → Kind
action name =
    if bytes_eq name (codes "write_files")
    then Kind.write_files
    else if bytes_eq name (codes "runcmd")
    then Kind.runcmd
    else Kind.unknown name

-- The method `Unmarshal` of an action.
unfoldable pub unmarshal : Parsers → Kind → Bytes → Outcome Action
unmarshal p Kind.write_files block = do
  files ← unmarshal_write_files p block
  done (Action.write_files files)
unmarshal p Kind.runcmd block = do cmds ← unmarshal_runcmd p block; done (Action.runcmd cmds)
unmarshal p (Kind.unknown name) block = do
  lines ← unmarshal_unknown p block
  done (Action.unknown name lines)

-- The method `GenerateScriptBlock` of an action.
unfoldable pub generate_script_block : Parsers → Action → Outcome Bytes
generate_script_block p (Action.write_files files) = write_files_script_block p files
generate_script_block p (Action.runcmd cmds) = done (runcmd_script_block p cmds)
generate_script_block p (Action.unknown name lines) = done (unknown_script_block name lines)

is_key_byte : ℕ → Bool
is_key_byte c = (leb b'a' c && leb c b'z') || ((leb b'A' c && leb c b'Z') || nat_eq c b'_')

-- The regular expression `^[a-zA-Z_]*:`.
unfoldable pub is_action_line : Bytes → Bool
unfolding is_key_byte
is_action_line [] = false
is_action_line (c ∷ s) = nat_eq c b':' || (is_key_byte c && is_action_line s)

-- bufio.MaxScanTokenSize
abbrev pub max_scan_token_size : ℕ
max_scan_token_size = 65536

-- `dropCR`, on a line whose last byte comes first.
drop_cr : Bytes → Bytes
drop_cr [] = []
drop_cr (c ∷ line) = if nat_eq c 13 then line else c ∷ line

cons_line : Bytes → List Bytes × Bool → List Bytes × Bool
cons_line line (lines, too_long) = (line ∷ lines, too_long)

-- The lines that a `bufio.Scanner` yields, and whether it stops at one that does not fit its
-- buffer; `line` is what has been read of the next line, last byte first, and `size` its length.
scan_from : ℕ → Bytes → Bytes → List Bytes × Bool
unfolding drop_cr cons_line
scan_from size line [] = (if nat_eq size 0 then [] else reverse (drop_cr line) ∷ [], false)
scan_from size line (c ∷ s) = elim (nat_eq c 10) [
  | true ↦ cons_line (reverse (drop_cr line)) (scan_from 0 [] s)
  | false ↦ elim (leb max_scan_token_size (suc size)) [
    | true ↦ ([], true)
    | false ↦ scan_from (suc size) (c ∷ line) s
  ]
]

unfoldable pub scan_lines : Bytes → List Bytes × Bool
unfolding scan_from
scan_lines user_data = scan_from 0 [] user_data

-- The variables of the loop in `getActions`: the current action, if any, and the lines read for it.
pub record Scan : Type 0 where
  pub act : Option Kind
  pub lines : List Bytes

-- The fragment read up to now as the current action's, if there is one.
unfoldable pub flush : Parsers → Scan → Outcome (List Action)
flush p s = elim s.act [
  | none ↦ done []
  | some kind ↦ unmarshal p kind (join_lines s.lines) >>= λ a. done (a ∷ [])
]

-- The state after an action line whose fragment has been flushed: without a current action the
-- lines before it stay.
unfoldable pub start_action : Scan → Bytes → Scan
start_action s line = record {
  act = some (action (trim_suffix line b':'));
  lines = elim s.act [ none ↦ s.lines ++ line ∷ [] | some _ ↦ line ∷ [] ];
}

unfoldable pub scan_actions : Parsers → Scan → List Bytes → Outcome (List Action)
unfolding start_action
scan_actions p s [] = flush p s
scan_actions p s (line ∷ rest) =
    let next = scan_actions p (start_action s line) rest in
    let same = scan_actions p (record s { lines = s.lines ++ line ∷ [] }) rest in
    let flushed : Outcome (List Action) =
      flush p s >>= λ actions. next >>= λ more. done (actions ++ more) in
    if is_action_line line then flushed else same

-- `scanner.Err()`
unfoldable pub scan_error : Bool → Option Error
scan_error true = some (message "bufio.Scanner: token too long")
scan_error false = none

unfoldable pub get_actions : Parsers → Bytes → Outcome (List Action)
unfolding scan_error
get_actions p user_data =
    let (lines, too_long) = scan_lines user_data in
    scan_actions p (record { act = none; lines = [] }) lines >>= λ actions.
    check (scan_error too_long) >>= λ _. done actions

unfoldable pub script_header : Bytes
script_header =
    codes "#!/bin/bash"
    ++ 10 ∷ 10 ∷ codes "set -o errexit"
    ++ 10 ∷ codes "set -o nounset"
    ++ 10 ∷ codes "set -o pipefail"

-- The blocks of the actions in order, each after a blank line.
unfoldable pub script_blocks : Parsers → List Action → Outcome Bytes
script_blocks p [] = done []
script_blocks p (a ∷ actions) = generate_script_block p a >>= λ block.
    script_blocks p actions >>= λ rest. done (10 ∷ 10 ∷ block ++ rest)

yaml_error : Option Error → Option Error
yaml_error none = none
yaml_error (some e) = some (wrapped "cloud-config is not valid yaml" e)

unfoldable pub generate_script : Parsers → Bytes → Outcome Bytes
unfolding yaml_error
generate_script p cloud_config = check (yaml_error (p.yaml_map cloud_config)) >>= λ _.
    get_actions p cloud_config >>= λ actions.
    script_blocks p actions >>= λ blocks. done (script_header ++ blocks ++ 10 ∷ [])
