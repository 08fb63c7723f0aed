-- ===== src/Text.antt =====
-- The functions of Go's strings, unicode and strconv that the code calls.
pub mod Replaced
use Prim.Native.Nat.{◌/◌, ◌%◌}
use Prim.Native.Char.{Char, code}
use synthy.Prelude.{
  String, ℕ, zero, suc, ◌+◌, ◌-◌, Bool, true, false, ◌&&◌, ◌||◌, leb, ltb, nat_eq, ◌==◌,
  if◌then◌else◌,
}

-- unicode.IsSpace
abbrev pub is_space : Char → Bool
is_space c =
    let n = code c in
    (leb 9 n && leb n 13)
    || nat_eq n 32
    || nat_eq n 133
    || nat_eq n 160
    || nat_eq n 5760
    || (leb 8192 n && leb n 8202)
    || nat_eq n 8232
    || nat_eq n 8233
    || nat_eq n 8239
    || nat_eq n 8287
    || nat_eq n 12288

-- strings.TrimSpace(s) == ""
unfoldable pub is_blank : String → Bool
is_blank String.[] = true
is_blank (String.◌∷◌ c s) = is_space c && is_blank s

unfoldable pub trim_left : String → String
trim_left String.[] = ""
trim_left (String.◌∷◌ c s) = let rest = trim_left s in if is_space c then rest else String.◌∷◌ c s

unfoldable pub trim_right : String → String
trim_right String.[] = ""
trim_right (String.◌∷◌ c s) =
    let rest = trim_right s in if is_space c && rest == "" then "" else String.◌∷◌ c rest

-- strings.TrimSpace
unfoldable pub trim_space : String → String
unfolding trim_left trim_right
trim_space s = trim_right (trim_left s)

-- strings.HasPrefix, the prefix first
unfoldable pub starts_with : String → String → Bool
starts_with String.[] s = true
starts_with (String.◌∷◌ d p) String.[] = false
starts_with (String.◌∷◌ d p) (String.◌∷◌ c s) = nat_eq (code d) (code c) && starts_with p s

-- strings.Contains, the part first
unfoldable pub occurs : String → String → Bool
unfolding starts_with
occurs p String.[] = starts_with p ""
occurs p (String.◌∷◌ c s) = starts_with p (String.◌∷◌ c s) || occurs p s

abbrev pub prepend : String → String → String
prepend String.[] s = s
prepend (String.◌∷◌ c p) s = String.◌∷◌ c (prepend p s)

abbrev pub text_length : String → ℕ
text_length String.[] = 0
text_length (String.◌∷◌ c s) = suc (text_length s)

-- What is left to replace behind the first characters, which are part of a hit.
unfoldable pub replace_from : String → String → ℕ → String → String
unfolding starts_with
replace_from old new skip String.[] = ""
replace_from old new (suc skip) (String.◌∷◌ c s) = replace_from old new skip s
replace_from old new zero (String.◌∷◌ c s) =
    let hit = prepend new (replace_from old new (text_length old - 1) s) in
    let miss = String.◌∷◌ c (replace_from old new 0 s) in
    if starts_with old (String.◌∷◌ c s) then hit else miss

-- strings.ReplaceAll, for a text to replace that is not empty
unfoldable pub replace_all : String → String → String → String
unfolding replace_from
replace_all s old new = replace_from old new 0 s

abbrev pub digit : ℕ → Char
digit n =
    if nat_eq n 0
    then "0"
    else if nat_eq n 1
    then "1"
    else if nat_eq n 2
    then "2"
    else if nat_eq n 3
    then "3"
    else if nat_eq n 4
    then "4"
    else if nat_eq n 5
    then "5"
    else if nat_eq n 6
    then "6"
    else if nat_eq n 7
    then "7"
    else if nat_eq n 8
    then "8"
    else "9"

-- The digits of a number in front of some others; the number itself is fuel enough.
unfoldable pub emit : ℕ → ℕ → String → String
emit zero n out = String.◌∷◌ (digit (n % 10)) out
emit (suc fuel) n out =
    let more = emit fuel (n / 10) (String.◌∷◌ (digit (n % 10)) out) in
    if ltb n 10 then String.◌∷◌ (digit n) out else more

-- strconv.FormatInt in base ten, and %d, of a number that is not negative
unfoldable pub decimal : ℕ → String
unfolding emit
decimal n = emit n n ""

-- the bytes of a character in UTF-8
abbrev byte_width : Char → ℕ
byte_width c =
    let n = code c in
    if ltb n 128 then 1 else if ltb n 2048 then 2 else if ltb n 65536 then 3 else 4

-- len(s): the number of bytes
unfoldable pub byte_length : String → ℕ
byte_length String.[] = 0
byte_length (String.◌∷◌ c s) = byte_width c + byte_length s

-- A character that is cut in two belongs to neither part.
unfoldable pub byte_drop : ℕ → String → String
byte_drop n String.[] = ""
byte_drop n (String.◌∷◌ c s) =
    let rest = byte_drop (n - byte_width c) s in if nat_eq n 0 then String.◌∷◌ c s else rest

unfoldable pub byte_take : ℕ → String → String
byte_take n String.[] = ""
byte_take n (String.◌∷◌ c s) =
    let rest = byte_take (n - byte_width c) s in
    if leb (byte_width c) n then String.◌∷◌ c rest else ""

-- s[from:to], by bytes, within bounds
unfoldable pub byte_slice : String → ℕ → ℕ → String
unfolding byte_drop byte_take
byte_slice s from to = byte_take (to - from) (byte_drop from s)
