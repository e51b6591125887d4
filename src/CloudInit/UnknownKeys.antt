-- ===== src/CloudInit/UnknownKeys.antt =====
-- A key that no module knows fails the whole cloud-config.
use cluster_api_provider_kub.Prelude.{
  refl, ap, sym, false, ◌≢◌, arith, In, inl, inr, true, none, List, [], ◌++◌, ◌∷◌, ◌≡◌, Bool-cases,
}
use cluster_api_provider_kub.Go.{done, fail, panic, ◌>>=◌, Outcome}
use cluster_api_provider_kub.Go.Text.{Bytes, join_lines, trim_suffix}
use cluster_api_provider_kub.CloudInit.Actions.{
  unknown, action, unmarshal, generate_script, scan_lines, get_actions, is_action_line,
}
use cluster_api_provider_kub.CloudInit.Unknown.{unmarshal_unknown, lines_of_json}
use cluster_api_provider_kub.CloudInit.Parsers.{Parsers}
use cluster_api_provider_kub.CloudInit.Blocks.{Block, cut, actions_of, get_actions-actions_of}

-- No JSON text begins with a key and a colon, or with a number sign.
pub record JsonLaw (p : Parsers) : Type 0 where
  pub json_key : (s : Bytes) → is_action_line s ≡ true → p.json s ≡ none
  pub json_comment : (s : Bytes) → p.json (b'#' ∷ s) ≡ none

is_action_line-append : (s t : Bytes) → is_action_line s ≡ true → is_action_line (s ++ t) ≡ true
unfolding is_action_line
is_action_line-append [] t e = absurd (cc e)
is_action_line-append (c ∷ s) t e = ground (arith, e, is_action_line-append s t)

-- The keys of the blocks are key lines.
cut-key :
    (lines : List Bytes) (key : Bytes) (body : List Bytes)
    → In (key, body) (cut lines).1
    → is_action_line key ≡ true
unfolding cut
cut-key [] key body i = absurd i
cut-key (line ∷ lines) key body i = elim (Bool-cases (is_action_line line)) [
  | inl q ↦ elim (rw q at i) [
    | inl e ↦ rw (ap (λ (b : Block). b.0) e) q
    | inr i' ↦ cut-key lines key body i'
  ]
  | inr q ↦ cut-key lines key body (rw q at i)
]

-- An outcome is no result.
abbrev Never {ℓ} : {A : Type ℓ} → Outcome A → Type ℓ
Never {A = A} o = (a : A) → o ≡ done a → ⊥

Never-first : {A B : Type 0} (o : Outcome A) (f : A → Outcome B) → Never o → Never (o >>= f)
Never-first (done a) f n b e = n a refl
Never-first (fail x) f n b e = cc e
Never-first panic f n b e = cc e

Never-then :
    {A B : Type 0} (o : Outcome A) (f : A → Outcome B) → ((a : A) → Never (f a)) → Never (o >>= f)
Never-then (done a) f n b e = n a b e
Never-then (fail x) f n b e = cc e
Never-then panic f n b e = cc e

-- What stands before the first key: nothing, or lines of which the first begins with a number sign.
pub data Preamble : List Bytes → Type 0 where
  no_lines : Preamble []
  comment : (c : Bytes) (rest : List Bytes) → Preamble ((b'#' ∷ c) ∷ rest)

module _ (p : Parsers) (law : JsonLaw p) where
  json-join_lines :
      (before : List Bytes) (key : Bytes) (body : List Bytes)
      → Preamble before
      → is_action_line key ≡ true
      → p.json (join_lines (before ++ key ∷ body)) ≡ none
  unfolding join_lines
  json-join_lines before key [] no_lines q = law.json_key key q
  json-join_lines before key (line ∷ body) no_lines q =
      law.json_key _ (is_action_line-append key _ q)
  json-join_lines before key body (comment c []) q = law.json_comment _
  json-join_lines before key body (comment c (line ∷ rest)) q = law.json_comment _

  Never-unmarshal :
      (name text : Bytes) → p.json text ≡ none → Never (unmarshal p (unknown name) text)
  unfolding unmarshal unmarshal_unknown lines_of_json
  Never-unmarshal name text q actions e = cc (rw (q, unmarshal, unmarshal_unknown) at e)

  Never-actions_of :
      (before : List Bytes) (blocks : List Block) (key : Bytes) (body : List Bytes) (name : Bytes)
      → Preamble before
      → In (key, body) blocks
      → is_action_line key ≡ true
      → action (trim_suffix key b':') ≡ unknown name
      → Never (actions_of p before blocks)
  unfolding actions_of
  Never-actions_of before [] key body name pre i q u = absurd i
  Never-actions_of before ((key', body') ∷ blocks) key body name pre (inl e) q u =
      let same : key ≡ key' = ap (λ (b : Block). b.0) e in
      Never-first (unmarshal p (action (trim_suffix key' b':')) _) _
        (rw (sym same, u) (Never-unmarshal name _ (json-join_lines before key body' pre q)))
  Never-actions_of before ((key', body') ∷ blocks) key body name pre (inr i) q u =
      Never-then (unmarshal p (action (trim_suffix key' b':')) _) _ λ a.
        Never-first (actions_of p [] blocks) _
          (Never-actions_of [] blocks key body name no_lines i q u)

-- Where no JSON text begins with a key or a number sign: a cloud-config whose lines are all scanned, in
-- which at most lines that begin with a comment stand before the first key, and which has a key, at
-- any place, of a line other than `write_files:` and `runcmd:`, makes `GenerateScript` return no script.
pub generate_script-unknown :
    (p : Parsers) (user_data : Bytes) (lines : List Bytes) (key : Bytes) (body : List Bytes)
    (name script : Bytes)
    → JsonLaw p
    → scan_lines user_data ≡ (lines, false)
    → Preamble (cut lines).0
    → In (key, body) (cut lines).1
    → action (trim_suffix key b':') ≡ unknown name
    → generate_script p user_data ≢ done script
unfolding generate_script
generate_script-unknown p user_data lines key body name script law e pre i u =
    Never-then _ _
      (λ _. Never-first (get_actions p user_data) _ (
        rw (get_actions-actions_of p user_data lines e).0 (
          Never-actions_of p law (cut lines).0 (cut lines).1 key body name pre i
            (cut-key lines key body i) u)))
      script
