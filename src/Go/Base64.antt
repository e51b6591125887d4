-- ===== src/Go/Base64.antt =====
-- encoding/base64's `StdEncoding`.
pub mod RoundTrip
use cluster_api_provider_kub.Prelude.{
  ℕ, ◌+◌, ◌-◌, ◌*◌, ◌/◌, ◌%◌, ◌&&◌, ◌||◌, Option, none, some, [], ◌∷◌, if◌then◌else◌, leb, ltb,
  nat_eq,
}
use cluster_api_provider_kub.Go.Text.{Bytes}

-- The alphabet "A-Za-z0-9+/".
encode_digit : ℕ → ℕ
encode_digit d =
    if ltb d 26
    then 65 + d
    else if ltb d 52
    then 71 + d
    else if ltb d 62
    then d - 4
    else if nat_eq d 62
    then 43
    else 47

decode_digit : ℕ → Option ℕ
decode_digit c =
    if leb 65 c && leb c 90
    then some (c - 65)
    else if leb 97 c && leb c 122
    then some (c - 71)
    else if leb 48 c && leb c 57
    then some (c + 4)
    else if nat_eq c 43
    then some 62
    else if nat_eq c 47
    then some 63
    else none

-- `EncodeToString`: three bytes become four digits, and `=` fills the last group.
unfoldable pub encode : Bytes → Bytes
unfolding encode_digit
encode [] = []
encode (a ∷ []) = encode_digit (a / 4) ∷ encode_digit (a % 4 * 16) ∷ 61 ∷ 61 ∷ []
encode (a ∷ b ∷ []) =
    encode_digit (a / 4) ∷ encode_digit (a % 4 * 16 + b / 16) ∷ encode_digit (b % 16 * 4) ∷ 61 ∷ []
encode (a ∷ b ∷ c ∷ s) =
    encode_digit (a / 4)
    ∷ encode_digit (a % 4 * 16 + b / 16)
    ∷ encode_digit (b % 16 * 4 + c / 64)
    ∷ encode_digit (c % 64)
    ∷ encode s

-- "\r" and "\n" are passed over.
drop_newlines : Bytes → Bytes
drop_newlines [] = []
drop_newlines (c ∷ s) =
    let rest = drop_newlines s in if nat_eq c 10 || nat_eq c 13 then rest else c ∷ rest

bind : {A B : Type 0} → Option A → (A → Option B) → Option B
bind none f = none
bind (some a) f = f a

-- What padding asks for: nothing comes after it.
ended : Bytes → Bytes → Option Bytes
ended [] out = some out
ended (_ ∷ _) out = none

-- A group with three digits and then `z`, which is a fourth digit or padding.
last_digit : ℕ → ℕ → ℕ → ℕ → Bytes → Option Bytes → Option Bytes
unfolding decode_digit bind ended
last_digit i j k z after rest =
    let first = i * 4 + j / 16 in
    let second = j % 16 * 16 + k / 4 in
    if nat_eq z 61
    then ended after (first ∷ second ∷ [])
    else bind (decode_digit z) λ l. bind rest λ t. some (first ∷ second ∷ (k % 4 * 64 + l) ∷ t)

-- One group of four characters, followed by `after`, which decodes to `rest`. Padding ends the
-- input; the bits under it are not looked at.
group : ℕ → ℕ → ℕ → ℕ → Bytes → Option Bytes → Option Bytes
unfolding last_digit
group w x y z after rest = bind (decode_digit w) λ i. bind (decode_digit x) λ j.
    if nat_eq y 61
    then if nat_eq z 61 then ended after ((i * 4 + j / 16) ∷ []) else none
    else bind (decode_digit y) λ k. last_digit i j k z after rest

decode_groups : Bytes → Option Bytes
unfolding group
decode_groups [] = some []
decode_groups (w ∷ x ∷ y ∷ z ∷ s) = group w x y z s (decode_groups s)
decode_groups _ = none

-- `DecodeString`; `none` is a CorruptInputError.
unfoldable pub decode : Bytes → Option Bytes
unfolding decode_groups drop_newlines
decode s = decode_groups (drop_newlines s)
