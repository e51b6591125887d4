-- ===== src/CloudInit/WriteFiles.antt =====
-- pkg/cloudinit/writefiles.go
use cluster_api_provider_kub.Prelude.{
  Bool, false, ◌||◌, Option, none, some, List, [], ◌∷◌, ◌++◌, if◌then◌else◌, codes,
}
use cluster_api_provider_kub.Go.{message, Result, ok, err, Outcome, done, ◌>>=◌, lift}
use cluster_api_provider_kub.Go.Text.{Bytes, bytes_eq, has_suffix, trim_space, to_lower, quote, dir}
use cluster_api_provider_kub.Go.Base64.{decode}
use cluster_api_provider_kub.CloudInit.Parsers.{Parsers, File}
use cluster_api_provider_kub.CloudInit.RunCmd.{wrap_error}

-- `writeFilesAction.Unmarshal`
unfoldable pub unmarshal_write_files : Parsers → Bytes → Outcome (List File)
unmarshal_write_files p user_data =
    wrap_error "error parsing write_files action" (lift (p.yaml_write_files user_data))

unfoldable pub fix_path : Bytes → Bytes
fix_path p = trim_space p

-- `s`, or `default` where `s` is empty.
or_default : Bytes → Bytes → Bytes
or_default default [] = default
or_default default (c ∷ s) = c ∷ s

unfoldable pub fix_owner : Bytes → Bytes
unfolding or_default
fix_owner o = or_default (codes "root:root") (trim_space o)

unfoldable pub fix_permissions : Bytes → Bytes
unfolding or_default
fix_permissions p = or_default (codes "0644") (trim_space p)

-- The media types that `fixEncoding` names.
pub data Encoding : Type 0 where
  gzip base64 plain : Encoding

is_one_of : Bytes → List Bytes → Bool
is_one_of e [] = false
is_one_of e (n ∷ names) = bytes_eq e n || is_one_of e names

abbrev gzip_names : List Bytes
gzip_names = codes "gz" ∷ codes "gzip" ∷ []

abbrev both_names : List Bytes
both_names = codes "gz+base64" ∷ codes "gzip+base64" ∷ codes "gz+b64" ∷ codes "gzip+b64" ∷ []

abbrev base64_names : List Bytes
base64_names = codes "base64" ∷ codes "b64" ∷ []

unfoldable pub fix_encoding : Parsers → Bytes → List Encoding
unfolding is_one_of
fix_encoding p e =
    let e' = trim_space (to_lower p.lower_run e) in
    if is_one_of e' gzip_names
    then gzip ∷ []
    else if is_one_of e' both_names
    then base64 ∷ gzip ∷ []
    else if is_one_of e' base64_names
    then base64 ∷ []
    else plain ∷ []

unfoldable pub decoded : Option Bytes → Result Bytes
decoded (some s) = ok s
decoded none = err (message "illegal base64 data")

read_opened : (p : Parsers) → Result Bytes → Result Bytes
read_opened p (ok r) = p.read_from r
read_opened p (err e) = err e

-- `gUnzipData`
unfoldable pub g_unzip_data : Parsers → Bytes → Result Bytes
unfolding read_opened
g_unzip_data p content = read_opened p (p.new_reader content)

-- `fixContent`: every case of the switch returns, so the first encoding is the only one undone. Its
-- default case is for a media type that `fixEncoding` does not name.
unfoldable pub fix_content : Parsers → Bytes → List Encoding → Result Bytes
unfolding decoded
fix_content p content [] = ok content
fix_content p content (base64 ∷ _) = decoded (decode content)
fix_content p content (gzip ∷ _) = g_unzip_data p content
fix_content p content (plain ∷ _) = ok content

-- The here-document's body ends in a line break.
unfoldable pub heredoc : Bytes → Bytes
heredoc content =
    if has_suffix content 10 then content ++ codes "END" else content ++ 10 ∷ codes "END"

-- The lines for one file whose content is decoded.
unfoldable pub file_lines : Parsers → File → Bytes → Bytes
unfolding heredoc fix_path fix_owner fix_permissions
file_lines p f content =
    let path = quote p.quote_run (fix_path f.path) in
    let permissions = fix_permissions f.permissions in
    let owner = fix_owner f.owner in
    (10 ∷ codes "mkdir -p ")
    ++ quote p.quote_run (dir (fix_path f.path))
    ++ (10 ∷ codes "cat ")
    ++ (if f.append then codes ">>" else codes ">")
    ++ 32 ∷ path
    ++ codes " << END"
    ++ 10 ∷ heredoc content
    ++ (if bytes_eq permissions (codes "0644")
        then []
        else (10 ∷ codes "chmod ") ++ permissions ++ 32 ∷ path)
    ++ (if bytes_eq owner (codes "root:root")
        then []
        else (10 ∷ codes "chown ") ++ owner ++ 32 ∷ path)

unfoldable pub files_lines : Parsers → List File → Outcome Bytes
files_lines p [] = done []
files_lines p (f ∷ fs) = do
  content ←
      wrap_error "error decoding content"
        (lift (fix_content p f.content (fix_encoding p f.encoding)))
  rest ← files_lines p fs
  done (file_lines p f content ++ rest)

-- `writeFilesAction.GenerateScriptBlock`
unfoldable pub write_files_script_block : Parsers → List File → Outcome Bytes
unfolding files_lines
write_files_script_block p fs = do
  lines ← files_lines p fs
  done (codes "# write_files script block" ++ lines)
