-- ===== src/CloudInit/Contents.antt =====
-- The content of the files that `writeFilesAction` writes.
use cluster_api_provider_kub.Prelude.{List, [], ◌∷◌, ◌≡◌, ◌⊎◌, inl, inr, All}
use cluster_api_provider_kub.Go.{ok}
use cluster_api_provider_kub.Go.Text.{Bytes}
use cluster_api_provider_kub.Go.Base64.{encode}
use cluster_api_provider_kub.Go.Base64.RoundTrip.{IsByte, decode-encode}
use cluster_api_provider_kub.CloudInit.Parsers.{Parsers}
use cluster_api_provider_kub.CloudInit.WriteFiles.{
  Encoding, base64, gzip, fix_content, fix_encoding, decoded,
}

first_base64 :
    (p : Parsers) (content : Bytes) (es : List Encoding)
    → All IsByte content
    → fix_content p (encode content) (base64 ∷ es) ≡ ok content
unfolding fix_content decoded
first_base64 p content es h = rw (decode-encode content h)

-- Where a file's encoding is read as base64, or as base64 and gzip, `fixContent` of the base64 text
-- of some bytes gives those bytes, with nothing unzipped.
pub fix_content-encode :
    (p : Parsers) (encoding content : Bytes)
    → All IsByte content
    → (fix_encoding p encoding ≡ base64 ∷ []) ⊎ (fix_encoding p encoding ≡ base64 ∷ gzip ∷ [])
    → fix_content p (encode content) (fix_encoding p encoding) ≡ ok content
fix_content-encode p encoding content h (inl e) = rw e (first_base64 p content [] h)
fix_content-encode p encoding content h (inr e) = rw e (first_base64 p content (gzip ∷ []) h)
