-- ===== src/CloudInit/Blocks.antt =====
-- `getActions` against a reference that cuts the lines at the keys first.
use cluster_api_provider_kub.CloudInit.Actions.{
  start_action, scan_error, get_actions, scan_actions, flush, scan_lines, action, unmarshal, Kind,
  Action, is_action_line,
}
use cluster_api_provider_kub.Prelude.{
  refl, some, none, false, inl, inr, ◌++◌, List, ◌≡◌, ◌∷◌, [], Bool-cases, if◌then◌else◌, ap,
  append_nil, append_assoc,
}
use cluster_api_provider_kub.Go.{◌>>=◌, done, fail, panic, Outcome}
use cluster_api_provider_kub.CloudInit.Parsers.{Parsers}
use cluster_api_provider_kub.Go.Text.{Bytes, trim_suffix, join_lines}

-- A key line and the lines up to the next key line.
abbrev pub Block : Type 0
Block = Bytes × List Bytes

unfoldable pub cut : List Bytes → List Bytes × List Block
cut [] = ([], [])
cut (line ∷ lines) =
    let (before, blocks) = cut lines in
    if is_action_line line then ([], (line, before) ∷ blocks) else (line ∷ before, blocks)

-- The lines of some blocks, in order.
unfoldable pub lines_of : List Block → List Bytes
lines_of [] = []
lines_of ((key, body) ∷ blocks) = key ∷ body ++ lines_of blocks

-- The actions of blocks: of the name of each key, and of its lines; the first block has the lines
-- before it too.
unfoldable pub actions_of : Parsers → List Bytes → List Block → Outcome (List Action)
actions_of p before [] = done []
actions_of p before ((key, body) ∷ blocks) =
    unmarshal p (action (trim_suffix key b':')) (join_lines (before ++ key ∷ body)) >>= λ a.
    actions_of p [] blocks >>= λ actions. done (a ∷ actions)

lines-cut : (lines : List Bytes) → (cut lines).0 ++ lines_of (cut lines).1 ≡ lines
unfolding cut lines_of
lines-cut [] = refl
lines-cut (line ∷ lines) = elim (Bool-cases (is_action_line line)) [
  | inl q ↦ rw q (ap (λ rest. line ∷ rest) (lines-cut lines))
  | inr q ↦ rw q (ap (λ rest. line ∷ rest) (lines-cut lines))
]

bind_one :
    {A : Type 0} (o : Outcome A) (next : Outcome (List A))
    → ((o >>= λ a. done (a ∷ [])) >>= λ xs. next >>= λ more. done (xs ++ more))
      ≡ (o >>= λ a. next >>= λ more. done (a ∷ more))
bind_one (done a) next = refl
bind_one (fail e) next = refl
bind_one panic next = refl

bind_done : {A : Type 0} (o : Outcome A) → (o >>= λ a. done a) ≡ o
bind_done (done a) = refl
bind_done (fail e) = refl
bind_done panic = refl

module _ (p : Parsers) where
  -- From a state with a current action.
  scan_some :
      (kind : Kind) (acc lines : List Bytes)
      → scan_actions p (record { act = some kind; lines = acc }) lines ≡ (
          unmarshal p kind (join_lines (acc ++ (cut lines).0)) >>= λ a.
          actions_of p [] (cut lines).1 >>= λ actions. done (a ∷ actions))
  unfolding scan_actions flush cut actions_of start_action
  scan_some kind acc [] = rw (append_nil acc) refl
  scan_some kind acc (line ∷ lines) = elim (Bool-cases (is_action_line line)) [
    | inl q ↦
        rw (q, append_nil acc, scan_some (action (trim_suffix line b':')) (line ∷ []) lines)
          (bind_one (unmarshal p kind (join_lines acc)) _)
    | inr q ↦
        rw (q, scan_some kind (acc ++ line ∷ []) lines, append_assoc acc line (cut lines).0) refl
  ]

  pub scan_none :
      (acc lines : List Bytes)
      → scan_actions p (record { act = none; lines = acc }) lines
        ≡ actions_of p (acc ++ (cut lines).0) (cut lines).1
  unfolding scan_actions flush cut actions_of start_action
  scan_none acc [] = refl
  scan_none acc (line ∷ lines) = elim (Bool-cases (is_action_line line)) [
    | inl q ↦
        rw
          (
            q,
            append_nil acc,
            scan_some (action (trim_suffix line b':')) (acc ++ line ∷ []) lines,
            append_assoc acc line (cut lines).0,
          )
          (bind_done _)
    | inr q ↦ rw (q, scan_none (acc ++ line ∷ []) lines, append_assoc acc line (cut lines).0) refl
  ]

-- Where all lines of a cloud-config are scanned, `getActions` is the reference that first cuts the
-- lines into blocks, each a key line and the lines up to the next key line, and then reads each block
-- in order, the first together with the lines before it; and no line is lost or moved by the cut.
pub get_actions-actions_of :
    (p : Parsers) (user_data : Bytes) (lines : List Bytes)
    → scan_lines user_data ≡ (lines, false)
    → (get_actions p user_data ≡ actions_of p (cut lines).0 (cut lines).1)
      × ((cut lines).0 ++ lines_of (cut lines).1 ≡ lines)
unfolding get_actions scan_error
get_actions-actions_of p user_data lines e =
    (rw (e, get_actions, scan_none p [] lines) (bind_done _), lines-cut lines)
