-- ===== src/Go/Text.antt =====
-- What the sources use of Go's packages strings, strconv, bufio and path/filepath, over the bytes
-- of a text. Runs of bytes from 128 up are other runes in UTF-8.
use mathlib.Core.List.{reverse}
use cluster_api_provider_kub.Prelude.{
  ℕ, zero, suc, ◌+◌, ◌-◌, ◌/◌, ◌%◌, Bool, true, false, ◌&&◌, ◌||◌, List, [], ◌∷◌, ◌++◌,
  if◌then◌else◌, leb, ltb, nat_eq, codes, length, map,
}

abbrev pub Bytes : Type 0
Bytes = List ℕ

-- Equality of texts.
unfoldable pub bytes_eq : Bytes → Bytes → Bool
bytes_eq [] [] = true
bytes_eq (a ∷ s) (b ∷ t) = nat_eq a b && bytes_eq s t
bytes_eq _ _ = false

-- strings.HasPrefix(s, t)
unfoldable pub has_prefix : Bytes → Bytes → Bool
has_prefix s [] = true
has_prefix [] (b ∷ t) = false
has_prefix (a ∷ s) (b ∷ t) = nat_eq a b && has_prefix s t

-- strings.Contains(s, t)
unfoldable pub contains : Bytes → Bytes → Bool
unfolding has_prefix
contains [] t = has_prefix [] t
contains (a ∷ s) t = has_prefix (a ∷ s) t || contains s t

-- strings.HasSuffix(s, t) and strings.TrimSuffix(s, t), at a suffix of one byte.
unfoldable pub has_suffix : Bytes → ℕ → Bool
has_suffix [] b = false
has_suffix (a ∷ []) b = nat_eq a b
has_suffix (a ∷ c ∷ s) b = has_suffix (c ∷ s) b

unfoldable pub trim_suffix : Bytes → ℕ → Bytes
trim_suffix [] b = []
trim_suffix (a ∷ []) b = if nat_eq a b then [] else a ∷ []
trim_suffix (a ∷ c ∷ s) b = a ∷ trim_suffix (c ∷ s) b

-- strings.Join(lines, "\n")
unfoldable pub join_lines : List Bytes → Bytes
join_lines [] = []
join_lines (l ∷ []) = l
join_lines (l ∷ m ∷ ls) = l ++ 10 ∷ join_lines (m ∷ ls)

-- The UTF-8 forms of the white space of `unicode.IsSpace`.
abbrev pub white_space : List Bytes
white_space =
    (9 ∷ [])
    ∷ (10 ∷ [])
    ∷ (11 ∷ [])
    ∷ (12 ∷ [])
    ∷ (13 ∷ [])
    ∷ (32 ∷ [])
    ∷ (0xc2 ∷ 0x85 ∷ [])
    ∷ (0xc2 ∷ 0xa0 ∷ [])
    ∷ (0xe1 ∷ 0x9a ∷ 0x80 ∷ [])
    ∷ (0xe2 ∷ 0x80 ∷ 0x80 ∷ [])
    ∷ (0xe2 ∷ 0x80 ∷ 0x81 ∷ [])
    ∷ (0xe2 ∷ 0x80 ∷ 0x82 ∷ [])
    ∷ (0xe2 ∷ 0x80 ∷ 0x83 ∷ [])
    ∷ (0xe2 ∷ 0x80 ∷ 0x84 ∷ [])
    ∷ (0xe2 ∷ 0x80 ∷ 0x85 ∷ [])
    ∷ (0xe2 ∷ 0x80 ∷ 0x86 ∷ [])
    ∷ (0xe2 ∷ 0x80 ∷ 0x87 ∷ [])
    ∷ (0xe2 ∷ 0x80 ∷ 0x88 ∷ [])
    ∷ (0xe2 ∷ 0x80 ∷ 0x89 ∷ [])
    ∷ (0xe2 ∷ 0x80 ∷ 0x8a ∷ [])
    ∷ (0xe2 ∷ 0x80 ∷ 0xa8 ∷ [])
    ∷ (0xe2 ∷ 0x80 ∷ 0xa9 ∷ [])
    ∷ (0xe2 ∷ 0x80 ∷ 0xaf ∷ [])
    ∷ (0xe2 ∷ 0x81 ∷ 0x9f ∷ [])
    ∷ (0xe3 ∷ 0x80 ∷ 0x80 ∷ [])
    ∷ []

-- The length of the first of `forms` that begins `s`, or 0.
prefix_width : List Bytes → Bytes → ℕ
unfolding has_prefix
prefix_width [] s = 0
prefix_width (f ∷ forms) s = if has_prefix s f then length f else prefix_width forms s

-- Drops `skip` bytes, and then leading white space in one of `forms`.
trim_front : List Bytes → ℕ → Bytes → Bytes
unfolding prefix_width
trim_front forms skip [] = []
trim_front forms (suc skip) (a ∷ s) = trim_front forms skip s
trim_front forms zero (a ∷ s) = elim (prefix_width forms (a ∷ s)) [
  | zero ↦ a ∷ s
  | suc w ↦ trim_front forms w s
]

-- strings.TrimSpace
unfoldable pub trim_space : Bytes → Bytes
unfolding trim_front
trim_space s =
    let front = trim_front white_space 0 s in
    reverse (trim_front (map reverse white_space) 0 (reverse front))

lower_ascii : ℕ → ℕ
lower_ascii c = if leb b'A' c && leb c b'Z' then c + 32 else c

-- Applies `byte` to each byte below `limit`, and `run` to each maximal run of the others; `held` is
-- the run that has been read, last byte first.
by_runs : ℕ → (ℕ → Bytes) → (Bytes → Bytes) → Bytes → Bytes → Bytes
by_runs limit byte run [] [] = []
by_runs limit byte run (h ∷ held) [] = run (reverse (h ∷ held))
by_runs limit byte run [] (c ∷ s) = elim (ltb c limit) [
  | true ↦ byte c ++ by_runs limit byte run [] s
  | false ↦ by_runs limit byte run (c ∷ []) s
]
by_runs limit byte run (h ∷ held) (c ∷ s) = elim (ltb c limit) [
  | true ↦ run (reverse (h ∷ held)) ++ byte c ++ by_runs limit byte run [] s
  | false ↦ by_runs limit byte run (c ∷ h ∷ held) s
]

-- strings.ToLower; `lower_run` does it for a run of bytes from 128 up.
unfoldable pub to_lower : (Bytes → Bytes) → Bytes → Bytes
unfolding by_runs lower_ascii
to_lower lower_run s = by_runs 128 (λ c. lower_ascii c ∷ []) lower_run [] s

hex_digit : ℕ → ℕ
hex_digit d = if ltb d 10 then b'0' + d else b'a' + d - 10

-- One ASCII byte below 127 inside the quotes of `%q`.
quote_byte : ℕ → Bytes
unfolding hex_digit
quote_byte c =
    if nat_eq c 34
    then 92 ∷ 34 ∷ []
    else if nat_eq c 92
    then 92 ∷ 92 ∷ []
    else if leb 32 c
    then c ∷ []
    else if nat_eq c 7
    then 92 ∷ b'a' ∷ []
    else if nat_eq c 8
    then 92 ∷ b'b' ∷ []
    else if nat_eq c 12
    then 92 ∷ b'f' ∷ []
    else if nat_eq c 10
    then 92 ∷ b'n' ∷ []
    else if nat_eq c 13
    then 92 ∷ b'r' ∷ []
    else if nat_eq c 9
    then 92 ∷ b't' ∷ []
    else if nat_eq c 11
    then 92 ∷ b'v' ∷ []
    else 92 ∷ b'x' ∷ hex_digit (c / 16) ∷ hex_digit (c % 16) ∷ []

-- The verb `%q`; `quote_run` does it for a run of bytes from 127 up.
unfoldable pub quote : (Bytes → Bytes) → Bytes → Bytes
unfolding by_runs quote_byte
quote quote_run s = 34 ∷ by_runs 127 quote_byte quote_run [] s ++ 34 ∷ []

-- The parts of a text between the bytes `sep`; `part` is what has been read, last byte first.
split_from : ℕ → Bytes → Bytes → List Bytes
split_from sep part [] = reverse part ∷ []
split_from sep part (c ∷ s) = elim (nat_eq c sep) [
  | true ↦ reverse part ∷ split_from sep [] s
  | false ↦ split_from sep (c ∷ part) s
]

-- The stack of path/filepath's `Clean`, last component first: "" and "." change nothing, and ".."
-- takes a component off, or stays if there is none and the path is not rooted.
clean_parts : Bool → List Bytes → List Bytes → List Bytes
unfolding bytes_eq
clean_parts rooted out [] = out
clean_parts rooted out (p ∷ ps) = clean_parts rooted (push out) ps
  where
    climb : List Bytes → List Bytes
    climb [] = if rooted then [] else p ∷ []
    climb (q ∷ qs) = if bytes_eq q (codes "..") then p ∷ q ∷ qs else qs

    push : List Bytes → List Bytes
    push out' =
        if bytes_eq p [] || bytes_eq p (codes ".")
        then out'
        else if bytes_eq p (codes "..")
        then climb out'
        else p ∷ out'

join_with : ℕ → List Bytes → Bytes
join_with sep [] = []
join_with sep (l ∷ []) = l
join_with sep (l ∷ m ∷ ls) = l ++ sep ∷ join_with sep (m ∷ ls)

or_dot : Bytes → Bytes
or_dot [] = codes "."
or_dot (c ∷ s) = c ∷ s

-- filepath.Clean
unfoldable pub clean : Bytes → Bytes
unfolding split_from clean_parts join_with has_prefix or_dot
clean s =
    let rooted = has_prefix s (codes "/") in
    let body = join_with 47 (reverse (clean_parts rooted [] (split_from 47 [] s))) in
    or_dot (if rooted then 47 ∷ body else body)

-- What stands before the last "/", with it.
up_to_slash : Bytes → Bytes
up_to_slash [] = []
up_to_slash (c ∷ s) = elim (up_to_slash s) [
  | [] ↦ if nat_eq c 47 then c ∷ [] else []
  | d ∷ t ↦ c ∷ d ∷ t
]

-- filepath.Dir
unfoldable pub dir : Bytes → Bytes
unfolding clean up_to_slash
dir s = clean (up_to_slash s)
