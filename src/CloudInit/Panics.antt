-- ===== src/CloudInit/Panics.antt =====
-- Where the cloud-init code panics: only at an entry of a runcmd that is null or an empty list.
use cluster_api_provider_kub.Prelude.{
  Bool, true, false, ◌≡◌, refl, List, [], ◌∷◌, inl, inr, none, some, Option, String, Option-cases,
  arith, ◌++◌, In, ◌⊎◌,
}
use cluster_api_provider_kub.Go.{
  Outcome, done, fail, panic, ◌>>=◌, Result, ok, err, lift, check, Error, Result-cases,
}
use cluster_api_provider_kub.CloudInit.Parsers.{Parsers, Json, null, arr, nil, File}
use cluster_api_provider_kub.CloudInit.RunCmd.{
  unmarshal_json, unmarshal_cmds, unmarshal_runcmd, Cmd, wrap_error,
}
use cluster_api_provider_kub.Go.Text.{Bytes, join_lines, trim_suffix}
use cluster_api_provider_kub.CloudInit.Commands.{unmarshal_json-panic_iff}
use cluster_api_provider_kub.CloudInit.Actions.{
  generate_script, script_blocks, unmarshal, generate_script_block, get_actions, Action, scan_lines,
  Kind, scan_error, action,
}
use cluster_api_provider_kub.CloudInit.Unknown.{unmarshal_unknown, lines_of_json, one_line}
use cluster_api_provider_kub.CloudInit.WriteFiles.{
  files_lines, unmarshal_write_files, write_files_script_block, fix_content, fix_encoding,
}
use cluster_api_provider_kub.CloudInit.Blocks.{cut, Block, actions_of, scan_none}

abbrev pub panics {ℓ} : {A : Type ℓ} → Outcome A → Bool
panics panic = true
panics (done a) = false
panics (fail e) = false

-- An entry of a runcmd, as the parser of YAML reads it, is null or an empty list.
pub record EmptyCommand (p : Parsers) (text : Bytes) : Type 0 where
  pub entries : List Json
  pub entry : Json
  pub read : p.yaml_runcmd text ≡ ok entries
  pub among : In entry entries
  pub is_empty : (entry ≡ null) ⊎ (entry ≡ arr nil)

-- A text is that of a runcmd key with its lines, the first block with the lines before it too.
abbrev pub Runcmd : List Bytes → List Block → Bytes → Type 0
Runcmd before [] text = ⊥
Runcmd before ((key, body) ∷ blocks) text =
    ((action (trim_suffix key b':') ≡ Kind.runcmd) × (text ≡ join_lines (before ++ key ∷ body)))
    ⊎ Runcmd [] blocks text

-- A cloud-config has a runcmd with an entry that is null or an empty list.
pub record HasEmptyCommand (p : Parsers) (config : Bytes) : Type 0 where
  pub text : Bytes
  pub block : Runcmd (cut (scan_lines config).0).0 (cut (scan_lines config).0).1 text
  pub command : EmptyCommand p text

module _ {ℓ κ} {A : Type ℓ} {B : Type κ} {C : Type 0} where
  panics-bind :
      (o : Outcome A) (next : A → Outcome B)
      → (panics o ≡ false) ⊎ C
      → ((a : A) → (panics (next a) ≡ false) ⊎ C)
      → (panics (o >>= next) ≡ false) ⊎ C
  panics-bind (done a) next h hn = hn a
  panics-bind (fail e) next h hn = inl refl
  panics-bind panic next (inl h) hn = absurd (cc h)
  panics-bind panic next (inr c) hn = inr c

panics-lift {ℓ} : {A : Type ℓ} (r : Result A) → panics (lift r) ≡ false
panics-lift (ok a) = refl
panics-lift (err e) = refl

panics-check : (e : Option Error) → panics (check e) ≡ false
panics-check none = refl
panics-check (some e) = refl

panics-wrap_error :
    {A C : Type 0} (text : String) (o : Outcome A)
    → (panics o ≡ false) ⊎ C
    → (panics (wrap_error text o) ≡ false) ⊎ C
panics-wrap_error text (done a) h = h
panics-wrap_error text (fail e) h = inl refl
panics-wrap_error text panic h = h

module _ (p : Parsers) (C : Type 0) where
  panics-unmarshal_json :
      (j : Json) → ((j ≡ null) ⊎ (j ≡ arr nil) → C) → (panics (unmarshal_json p j) ≡ false) ⊎ C
  panics-unmarshal_json j empty = go (unmarshal_json p j) refl
    where
      go : (o : Outcome Cmd) → unmarshal_json p j ≡ o → (panics o ≡ false) ⊎ C
      go (done a) q = inl refl
      go (fail a) q = inl refl
      go panic q = inr (empty ((unmarshal_json-panic_iff p j).0 q))

  panics-unmarshal_cmds :
      (js : List Json)
      → ((j : Json) → In j js → (j ≡ null) ⊎ (j ≡ arr nil) → C)
      → (panics (unmarshal_cmds p js) ≡ false) ⊎ C
  unfolding unmarshal_cmds
  panics-unmarshal_cmds [] empty = inl refl
  panics-unmarshal_cmds (j ∷ js) empty =
      panics-bind (unmarshal_json p j) _ (panics-unmarshal_json j (empty j (inl refl))) (λ c.
        panics-bind (unmarshal_cmds p js) _
          (panics-unmarshal_cmds js (λ i among. empty i (inr among))) (λ cs. inl refl))

  panics-unmarshal_runcmd :
      (text : Bytes) → (EmptyCommand p text → C) → (panics (unmarshal_runcmd p text) ≡ false) ⊎ C
  unfolding unmarshal_runcmd
  panics-unmarshal_runcmd text empty =
      panics-wrap_error _ _ (elim (Result-cases (p.yaml_runcmd text)) [
        | inl (e, q) ↦ rw q (inl refl)
        | inr (js, q) ↦ rw q (
            panics-unmarshal_cmds js (λ j among is_empty'.
              empty (record {
                entries = js;
                entry = j;
                read = q;
                among = among;
                is_empty = is_empty';
              })))
      ])

  panics-unmarshal_unknown : (block : Bytes) → (panics (unmarshal_unknown p block) ≡ false) ⊎ C
  unfolding unmarshal_unknown lines_of_json one_line
  panics-unmarshal_unknown block =
      inl (elim (Option-cases (p.json block)) [
        | inl q ↦ rw q refl
        | inr (j, q) ↦ rw q (ground arith)
      ])

  panics-files_lines : (fs : List File) → (panics (files_lines p fs) ≡ false) ⊎ C
  unfolding files_lines
  panics-files_lines [] = inl refl
  panics-files_lines (f ∷ fs) =
      panics-bind _ _
        (panics-wrap_error "error decoding content" _
          (inl (panics-lift (fix_content p f.content (fix_encoding p f.encoding)))))
        (λ content. panics-bind (files_lines p fs) _ (panics-files_lines fs) (λ rest. inl refl))

  panics-generate_script_block : (a : Action) → (panics (generate_script_block p a) ≡ false) ⊎ C
  unfolding generate_script_block write_files_script_block
  panics-generate_script_block (Action.write_files fs) =
      panics-bind (files_lines p fs) _ (panics-files_lines fs) (λ lines. inl refl)
  panics-generate_script_block (Action.runcmd cmds) = inl refl
  panics-generate_script_block (Action.unknown name lines) = inl refl

  panics-script_blocks : (actions : List Action) → (panics (script_blocks p actions) ≡ false) ⊎ C
  unfolding script_blocks
  panics-script_blocks [] = inl refl
  panics-script_blocks (a ∷ actions) =
      panics-bind (generate_script_block p a) _ (panics-generate_script_block a) (λ block.
        panics-bind (script_blocks p actions) _ (panics-script_blocks actions) (λ rest. inl refl))

  panics-unmarshal :
      (kind : Kind) (text : Bytes)
      → (kind ≡ Kind.runcmd → EmptyCommand p text → C)
      → (panics (unmarshal p kind text) ≡ false) ⊎ C
  unfolding unmarshal unmarshal_write_files
  panics-unmarshal Kind.write_files text empty =
      panics-bind _ _
        (panics-wrap_error "error parsing write_files action" _
          (inl (panics-lift (p.yaml_write_files text))))
        (λ files. inl refl)
  panics-unmarshal Kind.runcmd text empty =
      panics-bind (unmarshal_runcmd p text) _ (panics-unmarshal_runcmd text (empty refl))
        (λ cmds. inl refl)
  panics-unmarshal (Kind.unknown name) text empty =
      panics-bind (unmarshal_unknown p text) _ (panics-unmarshal_unknown text) (λ lines. inl refl)

  panics-actions_of :
      (before : List Bytes) (blocks : List Block)
      → ((text : Bytes) → Runcmd before blocks text → EmptyCommand p text → C)
      → (panics (actions_of p before blocks) ≡ false) ⊎ C
  unfolding actions_of
  panics-actions_of before [] empty = inl refl
  panics-actions_of before ((key, body) ∷ blocks) empty =
      panics-bind _ _
        (panics-unmarshal (action (trim_suffix key b':')) (join_lines (before ++ key ∷ body))
          (λ kind command. empty _ (inl (kind, refl)) command))
        (λ a.
          panics-bind (actions_of p [] blocks) _
            (panics-actions_of [] blocks (λ text block command. empty text (inr block) command))
            (λ actions. inl refl))

-- `GenerateScript` panics only at an entry of a runcmd that is null or an empty list.
pub panics-generate_script :
    (p : Parsers) (config : Bytes)
    → (panics (generate_script p config) ≡ false) ⊎ HasEmptyCommand p config
unfolding generate_script get_actions
panics-generate_script p config = panics-bind _ _ (inl (panics-check _)) (λ _.
    panics-bind (get_actions p config) _ panics-get_actions
      (λ actions. panics-bind _ _ (panics-script_blocks p _ actions) (λ blocks. inl refl)))
  where
    panics-get_actions : (panics (get_actions p config) ≡ false) ⊎ HasEmptyCommand p config
    panics-get_actions =
        panics-bind _ _
          (rw (scan_none p [] (scan_lines config).0) (
            panics-actions_of p (HasEmptyCommand p config) (cut (scan_lines config).0).0
              (cut (scan_lines config).0).1
              (λ text' block' command'. record {
                text = text';
                block = block';
                command = command';
              })))
          (λ actions.
            panics-bind (check (scan_error (scan_lines config).1)) (λ _. done actions)
              (inl (panics-check _)) (λ _. inl refl))
