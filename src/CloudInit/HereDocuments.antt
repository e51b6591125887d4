-- ===== src/CloudInit/HereDocuments.antt =====
-- The here-documents of the script for `write_files`, as a shell reads them that expands nothing.
use cluster_api_provider_kub.Prelude.{
  append_append, nat_eq→eq, append_assoc, ℕ, Bool, true, false, Option, none, some, List, [], ◌∷◌,
  ◌++◌, ◌≡◌, refl, ap, sym, ◌∙◌, codes, if◌then◌else◌, nat_eq, All, Bool-cases, ◌⊎◌, inl, inr,
}
use cluster_api_provider_kub.Go.Text.{quote, dir, Bytes, bytes_eq, has_suffix}
use cluster_api_provider_kub.CloudInit.WriteFiles.{
  fix_path, fix_owner, fix_permissions, heredoc, file_lines,
}
use cluster_api_provider_kub.CloudInit.Parsers.{Parsers, File}

abbrev pub delimiter : Bytes
delimiter = codes "END"

cons_byte : ℕ → List Bytes → List Bytes
cons_byte c [] = (c ∷ []) ∷ []
cons_byte c (line ∷ lines) = (c ∷ line) ∷ lines

-- The lines of a text.
unfoldable pub split_lines : Bytes → List Bytes
unfolding cons_byte
split_lines [] = [] ∷ []
split_lines (c ∷ s) =
    let rest = split_lines s in if nat_eq c 10 then [] ∷ rest else cons_byte c rest

-- The lines of a here-document: up to the first that is the delimiter.
unfoldable pub read_document : List Bytes → Option (List Bytes)
read_document [] = none
read_document (line ∷ lines) =
    let rest = read_document lines in
    if bytes_eq line delimiter
    then some []
    else elim rest [ none ↦ none | some body ↦ some (line ∷ body) ]

-- What a command gets of those lines.
unfoldable pub document_text : List Bytes → Bytes
document_text [] = []
document_text (line ∷ lines) = line ++ 10 ∷ document_text lines

unfoldable pub with_line_break : Bytes → Bytes
with_line_break content = if has_suffix content 10 then content else content ++ 10 ∷ []

-- No line of a text is the delimiter.
abbrev pub IsOpen : List Bytes → Type 0
IsOpen lines = All (λ line. bytes_eq line delimiter ≡ false) lines

ten : {c : ℕ} → nat_eq c 10 ≡ true → c ≡ 10
ten b = nat_eq→eq _ 10 b

-- A text that ends in a line break is one with a line break after it.
has_suffix-last : (s : Bytes) → has_suffix s 10 ≡ true → (body : Bytes) × (s ≡ body ++ 10 ∷ [])
unfolding has_suffix
has_suffix-last [] q = absurd (cc q)
has_suffix-last (c ∷ []) q = ([], ap (λ x. x ∷ []) (ten q))
has_suffix-last (c ∷ d ∷ s) q =
    let (body, e) = has_suffix-last (d ∷ s) q in (c ∷ body, ap (λ x. c ∷ x) e)

-- A text has a first line.
split_lines-first :
    (s : Bytes) → (line : Bytes) × (lines : List Bytes) × (split_lines s ≡ line ∷ lines)
unfolding split_lines cons_byte
split_lines-first [] = ([], [], refl)
split_lines-first (c ∷ s) =
    let (line, lines, q) = split_lines-first s in
    elim (Bool-cases (nat_eq c 10)) [
      | inl b ↦ ([], split_lines s, rw b refl)
      | inr b ↦ (c ∷ line, lines, rw (b, q) refl)
    ]

split_lines-append : (s t : Bytes) → split_lines (s ++ 10 ∷ t) ≡ split_lines s ++ split_lines t
unfolding split_lines cons_byte
split_lines-append [] t = refl
split_lines-append (c ∷ s) t =
    let (line, lines, q) = split_lines-first s in
    elim (Bool-cases (nat_eq c 10)) [
      | inl b ↦ rw (b, split_lines-append s t) refl
      | inr b ↦ rw (b, split_lines-append s t, q) refl
    ]

document_text-split_lines : (s : Bytes) → document_text (split_lines s) ≡ s ++ 10 ∷ []
unfolding split_lines cons_byte document_text
document_text-split_lines [] = refl
document_text-split_lines (c ∷ s) =
    let (line, lines, q) = split_lines-first s in
    let ih = document_text-split_lines s in
    elim (Bool-cases (nat_eq c 10)) [
      | inl b ↦ rw (b, ih) (ap (λ x. x ∷ s ++ 10 ∷ []) (sym (ten b)))
      | inr b ↦ rw (b, q) (ap (λ x. c ∷ x) (rw q at ih))
    ]

read_document-append :
    (lines more : List Bytes)
    → IsOpen lines
    → read_document (lines ++ delimiter ∷ more) ≡ some lines
unfolding read_document bytes_eq
read_document-append [] more o = refl
read_document-append (line ∷ lines) more (o, os) = rw (read_document-append lines more os, o) refl

-- What follows a here-document: nothing or another line.
abbrev IsNext : Bytes → Type 0
IsNext s = (s ≡ []) ⊎ ((t : Bytes) × (s ≡ 10 ∷ t))

split_lines-delimiter :
    (next : Bytes)
    → IsNext next
    → (more : List Bytes) × (split_lines (delimiter ++ next) ≡ delimiter ∷ more)
unfolding split_lines cons_byte
split_lines-delimiter next (inl e) = ([], rw e refl)
split_lines-delimiter next (inr (t, e)) = (split_lines t, rw e refl)

IsOpen-append : (xs ys : List Bytes) → IsOpen (xs ++ ys) → IsOpen xs
IsOpen-append [] ys o = tt
IsOpen-append (x ∷ xs) ys (o, os) = (o, IsOpen-append xs ys os)

-- A text without its last line break.
heredoc-body :
    (content : Bytes)
    → IsOpen (split_lines content)
    → (body : Bytes) × (heredoc content ≡ body ++ 10 ∷ delimiter)
      × (with_line_break content ≡ body ++ 10 ∷ [])
      × IsOpen (split_lines body)
unfolding heredoc with_line_break
heredoc-body content o = elim (Bool-cases (has_suffix content 10)) [
  | inl q ↦
      let (body, e) = has_suffix-last content q in
      (
        body,
        rw q (ap (λ x. x ++ delimiter) e ∙ append_assoc body 10 delimiter),
        rw q e,
        IsOpen-append (split_lines body) (split_lines []) (rw (e, split_lines-append body []) at o),
      )
  | inr q ↦ (content, rw q refl, rw q refl, o)
]

split_lines-broken :
    (text body last next : Bytes)
    → text ≡ body ++ 10 ∷ last
    → split_lines (text ++ next) ≡ split_lines body ++ split_lines (last ++ next)
split_lines-broken text body last next here =
    let whole : text ++ next ≡ body ++ 10 ∷ (last ++ next) =
      ap (λ x. x ++ next) here ∙ append_append body (10 ∷ last) next in
    rw whole (split_lines-append body (last ++ next))

read_document-body :
    (text body next : Bytes) (more : List Bytes)
    → text ≡ body ++ 10 ∷ delimiter
    → split_lines (delimiter ++ next) ≡ delimiter ∷ more
    → IsOpen (split_lines body)
    → read_document (split_lines (text ++ next)) ≡ some (split_lines body)
read_document-body text body next more here d o =
    rw (split_lines-broken text body delimiter next here, d)
      (read_document-append (split_lines body) more o)

append_two :
    (before document a b : Bytes)
    → ((before ++ 10 ∷ document) ++ a) ++ b ≡ before ++ 10 ∷ (document ++ (a ++ b))
append_two before document a b =
    ap (λ x. x ++ b) (append_append before (10 ∷ document) a)
    ∙ append_append before (10 ∷ (document ++ a)) b
    ∙ ap (λ x. before ++ 10 ∷ x) (append_append document a b)

-- The text after the first line of a here-document is read as its content.
read_document-heredoc :
    (content next : Bytes)
    → IsOpen (split_lines content)
    → IsNext next
    → (lines : List Bytes) × (read_document (split_lines (heredoc content ++ next)) ≡ some lines)
      × (document_text lines ≡ with_line_break content)
read_document-heredoc content next o n =
    let (body, here, whole, open_body) = heredoc-body content o in
    let (more, d) = split_lines-delimiter next n in
    (
      split_lines body,
      read_document-body (heredoc content) body next more here d open_body,
      document_text-split_lines body ∙ sym whole,
    )

-- The commands before a file's here-document, and those after it.
abbrev pub before_document : Parsers → File → Bytes
before_document p f =
    (10 ∷ codes "mkdir -p ")
    ++ quote p.quote_run (dir (fix_path f.path))
    ++ (10 ∷ codes "cat ")
    ++ (if f.append then codes ">>" else codes ">")
    ++ 32 ∷ quote p.quote_run (fix_path f.path)

abbrev set_permissions : Parsers → File → Bytes
set_permissions p f =
    if bytes_eq (fix_permissions f.permissions) (codes "0644")
    then []
    else (10 ∷ codes "chmod ")
      ++ fix_permissions f.permissions
      ++ 32 ∷ quote p.quote_run (fix_path f.path)

abbrev set_owner : Parsers → File → Bytes
set_owner p f =
    if bytes_eq (fix_owner f.owner) (codes "root:root")
    then []
    else (10 ∷ codes "chown ") ++ fix_owner f.owner ++ 32 ∷ quote p.quote_run (fix_path f.path)

IsNext-if : (b : Bool) (t : Bytes) → IsNext (if b then [] else 10 ∷ t)
IsNext-if true t = inl refl
IsNext-if false t = inr (t, refl)

IsNext-append : (s t : Bytes) → IsNext s → IsNext t → IsNext (s ++ t)
IsNext-append s t (inl e) n = rw e n
IsNext-append s t (inr (u, e)) n = inr (u ++ t, rw e refl)

-- The script's lines for a file are the commands that make its directory and redirect `cat` to its
-- path, then a here-document, which, where no line of the content is the delimiter, a reader that
-- expands nothing in it reads as the content, with a line break at its end where it had none,
-- whatever permissions and owner are set after it.
pub file_lines-read_document :
    (p : Parsers) (f : File) (content : Bytes)
    → IsOpen (split_lines content)
    → (document : Bytes) × (file_lines p f content
        ≡ before_document p f ++ codes " << END" ++ 10 ∷ document)
      × (lines : List Bytes) × (read_document (split_lines document) ≡ some lines)
      × (document_text lines ≡ with_line_break content)
unfolding file_lines
file_lines-read_document p f content o =
    let next = set_permissions p f ++ set_owner p f in
    let (lines, r, t) =
      read_document-heredoc content next o
        (IsNext-append (set_permissions p f) (set_owner p f) (IsNext-if _ _) (IsNext-if _ _)) in
    let shape =
      append_two (before_document p f ++ codes " << END") (heredoc content) (set_permissions p f)
        (set_owner p f) in
    (heredoc content ++ next, shape, lines, r, t)
