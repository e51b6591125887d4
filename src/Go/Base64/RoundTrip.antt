-- ===== src/Go/Base64/RoundTrip.antt =====
-- Decoding undoes encoding, for every list of bytes.
use cluster_api_provider_kub.Prelude.{
  ℕ, ◌+◌, ◌*◌, ◌/◌, ◌%◌, ◌<◌, ◌≡◌, refl, false, some, [], ◌∷◌, All, arith, nat_eq, ◌∙◌,
}
use cluster_api_provider_kub.Go.Text.{Bytes}
use cluster_api_provider_kub.Go.Base64.{
  encode_digit, decode_digit, encode, decode, drop_newlines, bind, group, decode_groups,
}

abbrev pub IsByte : ℕ → Type 0
IsByte b = b < 256

decode_digit-encode_digit : (d : ℕ) → d < 64 → decode_digit (encode_digit d) ≡ some d
unfolding decode_digit encode_digit
decode_digit-encode_digit d h = ground arith

-- A digit is no padding and no line break.
encode_digit_plain :
    (d : ℕ)
    → d < 64
    → (nat_eq (encode_digit d) 61 ≡ false)
      × (nat_eq (encode_digit d) 10 ≡ false)
      × (nat_eq (encode_digit d) 13 ≡ false)
unfolding encode_digit
encode_digit_plain d h = ground arith

drop_newlines-digit :
    (d : ℕ) (s t : Bytes)
    → d < 64
    → drop_newlines s ≡ t
    → drop_newlines (encode_digit d ∷ s) ≡ encode_digit d ∷ t
unfolding drop_newlines
drop_newlines-digit d s t h e = ground (arith, encode_digit_plain d)

drop_newlines_padding :
    (drop_newlines (61 ∷ []) ≡ 61 ∷ []) × (drop_newlines (61 ∷ 61 ∷ []) ≡ 61 ∷ 61 ∷ [])
unfolding drop_newlines
drop_newlines_padding = (refl, refl)

drop_newlines-encode : (s : Bytes) → All IsByte s → drop_newlines (encode s) ≡ encode s
unfolding encode
drop_newlines-encode [] h = unfold drop_newlines in refl
drop_newlines-encode (a ∷ []) h =
    drop_newlines-digit (a / 4) _ _ (omega arith)
      (drop_newlines-digit (a % 4 * 16) _ _ (omega arith) drop_newlines_padding.1)
drop_newlines-encode (a ∷ b ∷ []) h = drop_newlines-digit (a / 4) _ _ (omega arith) (
    drop_newlines-digit (a % 4 * 16 + b / 16) _ _ (omega arith)
      (drop_newlines-digit (b % 16 * 4) _ _ (omega arith) drop_newlines_padding.0))
drop_newlines-encode (a ∷ b ∷ c ∷ s) h = drop_newlines-digit (a / 4) _ _ (omega arith) (
    drop_newlines-digit (a % 4 * 16 + b / 16) _ _ (omega arith) (
      drop_newlines-digit (b % 16 * 4 + c / 64) _ _ (omega arith)
        (drop_newlines-digit (c % 64) _ _ (omega arith) (drop_newlines-encode s h.1.1.1))))

-- A full group of digits.
group-digits :
    (i j k l : ℕ) (after t : Bytes)
    → i < 64
    → j < 64
    → k < 64
    → l < 64
    → group (encode_digit i) (encode_digit j) (encode_digit k) (encode_digit l) after (some t)
      ≡ some ((i * 4 + j / 16) ∷ (j % 16 * 16 + k / 4) ∷ (k % 4 * 64 + l) ∷ t)
unfolding group bind
group-digits i j k l after t hi hj hk hl = rw (
  decode_digit-encode_digit i hi,
  decode_digit-encode_digit j hj,
  (encode_digit_plain k hk).0,
  decode_digit-encode_digit k hk,
  (encode_digit_plain l hl).0,
  decode_digit-encode_digit l hl,
)

group-two :
    (i j : ℕ)
    → i < 64
    → j < 64
    → group (encode_digit i) (encode_digit j) 61 61 [] (some []) ≡ some ((i * 4 + j / 16) ∷ [])
unfolding group bind
group-two i j hi hj = rw (decode_digit-encode_digit i hi, decode_digit-encode_digit j hj)

group-three :
    (i j k : ℕ)
    → i < 64
    → j < 64
    → k < 64
    → group (encode_digit i) (encode_digit j) (encode_digit k) 61 [] (some [])
      ≡ some ((i * 4 + j / 16) ∷ (j % 16 * 16 + k / 4) ∷ [])
unfolding group bind
group-three i j k hi hj hk = rw (
  decode_digit-encode_digit i hi,
  decode_digit-encode_digit j hj,
  (encode_digit_plain k hk).0,
  decode_digit-encode_digit k hk,
)

decode_groups-encode : (s : Bytes) → All IsByte s → decode_groups (encode s) ≡ some s
unfolding encode decode_groups
decode_groups-encode [] h = refl
decode_groups-encode (a ∷ []) h =
    group-two (a / 4) (a % 4 * 16) (omega arith) (omega arith) ∙ ground arith
decode_groups-encode (a ∷ b ∷ []) h =
    group-three (a / 4) (a % 4 * 16 + b / 16) (b % 16 * 4) (omega arith) (omega arith) (omega arith)
    ∙ ground arith
decode_groups-encode (a ∷ b ∷ c ∷ s) h = rw (decode_groups-encode s h.1.1.1) (
    group-digits (a / 4) (a % 4 * 16 + b / 16) (b % 16 * 4 + c / 64) (c % 64) (encode s) s
      (omega arith) (omega arith) (omega arith) (omega arith)
    ∙ ground arith)

-- What `EncodeToString` makes of a list of bytes, `DecodeString` turns back into it, with no error.
pub decode-encode : (s : Bytes) → All IsByte s → decode (encode s) ≡ some s
unfolding decode
decode-encode s h = rw (drop_newlines-encode s h) (decode_groups-encode s h)
