-- ===== src/Base/Text.antt =====
-- What the program asks of Rust's `str`: its bytes, characters, white space and trimming.
use Prim.Native.Nat.{ℕ, zero, suc, ◌+◌, ◌-◌, ◌≤◌, ◌/◌, ◌%◌}
use Prim.Native.Char.{Char, code}
use Prim.Native.String
use Prim.Native.String.{String}
use mathlib.Core.Path.{◌≡◌, refl}
use mathlib.Core.Bool.{Bool, true, false, ◌&&◌, ◌||◌}
use mathlib.Core.Option.{Option, none, some}
use mathlib.Core.List.{List, [], ◌∷◌}
use native.Mathlib.Omega.{arith}
use dandori.Base.Tests.{ltb, leb, ◌==◌, if◌then◌else◌}

-- The Unicode property White_Space, which `char::is_whitespace` decides.
unfoldable pub is_whitespace : Char → Bool
is_whitespace ch =
    let c = code ch in
    (leb 0x9 c && leb c 0xd)
    || c == 0x20
    || c == 0x85
    || c == 0xa0
    || c == 0x1680
    || (leb 0x2000 c && leb c 0x200a)
    || c == 0x2028
    || c == 0x2029
    || c == 0x202f
    || c == 0x205f
    || c == 0x3000

-- The bytes of a character in UTF-8.
unfoldable pub utf8_length : Char → ℕ
utf8_length ch =
    let c = code ch in
    if ltb c 0x80 then 1 else if ltb c 0x800 then 2 else if ltb c 0x10000 then 3 else 4

-- `str::len`, which counts bytes.
unfoldable pub byte_length : String → ℕ
unfolding utf8_length
byte_length String.[] = 0
byte_length (String.◌∷◌ c s) = utf8_length c + byte_length s

-- PostgreSQL's `char_length`, which counts characters.
unfoldable pub char_length : String → ℕ
char_length String.[] = 0
char_length (String.◌∷◌ c s) = 1 + char_length s

unfoldable pub is_empty : String → Bool
is_empty String.[] = true
is_empty (String.◌∷◌ c s) = false

-- `s.chars().all(p)`
unfoldable pub all_chars : (Char → Bool) → String → Bool
all_chars p String.[] = true
all_chars p (String.◌∷◌ c s) = p c && all_chars p s

unfoldable pub trim_start : String → String
unfolding is_whitespace
trim_start String.[] = String.[]
trim_start (String.◌∷◌ c s) =
    let rest = trim_start s in if is_whitespace c then rest else String.◌∷◌ c s

unfoldable pub trim_end : String → String
unfolding is_whitespace is_empty
trim_end String.[] = String.[]
trim_end (String.◌∷◌ c s) =
    let rest = trim_end s in
    if is_whitespace c && is_empty rest then String.[] else String.◌∷◌ c rest

-- `str::trim`
unfoldable pub trim : String → String
unfolding trim_start trim_end
trim s = trim_end (trim_start s)

is_empty-trim_end : (s : String) → is_empty (trim_end s) ≡ all_chars is_whitespace s
unfolding trim_end is_empty all_chars
is_empty-trim_end String.[] = refl
is_empty-trim_end (String.◌∷◌ c s) = ground (arith, is_empty-trim_end s)

all-trim_start : (s : String) → all_chars is_whitespace (trim_start s) ≡ all_chars is_whitespace s
unfolding trim_start all_chars
all-trim_start String.[] = refl
all-trim_start (String.◌∷◌ c s) = ground (arith, all-trim_start s)

-- `s.trim().is_empty()` holds exactly of the texts that are white space throughout.
pub is_empty-trim : (s : String) → is_empty (trim s) ≡ all_chars is_whitespace s
unfolding trim
is_empty-trim s = rw (is_empty-trim_end (trim_start s)) (all-trim_start s)

-- No text has fewer bytes than characters.
pub char_length-le : (s : String) → char_length s ≤ byte_length s
unfolding char_length byte_length
char_length-le String.[] = omega arith
char_length-le (String.◌∷◌ c s) = ground (arith, char_length-le s)

abbrev pub append : String → String → String
append = String.◌++◌

unfoldable pub digit : ℕ → String
digit n =
    if n == 0
    then "0"
    else if n == 1
    then "1"
    else if n == 2
    then "2"
    else if n == 3
    then "3"
    else if n == 4
    then "4"
    else if n == 5
    then "5"
    else if n == 6
    then "6"
    else if n == 7
    then "7"
    else if n == 8
    then "8"
    else "9"

unfoldable pub decimal_from : ℕ → ℕ → String → String
unfolding digit
decimal_from zero n acc = acc
decimal_from (suc fuel) n acc =
    let rest = decimal_from fuel (n / 10) (append (digit (n % 10)) acc) in
    if ltb n 10 then append (digit n) acc else rest

-- `Display` of an unsigned integer. There are at most n + 1 digits.
unfoldable pub decimal : ℕ → String
unfolding decimal_from
decimal n = decimal_from (n + 1) n ""

prefix_head : Char → List String → List String
prefix_head c [] = String.◌∷◌ c String.[] ∷ []
prefix_head c (w ∷ ws) = String.◌∷◌ c w ∷ ws

-- `str::split` by one character, which is given as a text.
unfoldable pub split : Char → String → List String
unfolding prefix_head
split sep String.[] = String.[] ∷ []
split sep (String.◌∷◌ c s) =
    let rest = split sep s in if code c == code sep then String.[] ∷ rest else prefix_head c rest

unfoldable pub strip_prefix : String → String → Option String
strip_prefix String.[] s = some s
strip_prefix (String.◌∷◌ p ps) String.[] = none
strip_prefix (String.◌∷◌ p ps) (String.◌∷◌ c s) =
    let rest = strip_prefix ps s in if code p == code c then rest else none

unfoldable pub split_here :
    Char → Option String → Option (String × String) → Option (String × String)
split_here c (some after) later = some (String.[], after)
split_here c none (some (before, after)) = some (String.◌∷◌ c before, after)
split_here c none none = none

-- `str::split_once` by a separator that is not empty.
unfoldable pub split_once : String → String → Option (String × String)
unfolding strip_prefix split_here
split_once sep String.[] = none
split_once sep (String.◌∷◌ c s) =
    split_here c (strip_prefix sep (String.◌∷◌ c s)) (split_once sep s)

char_at : ℕ → String → Char → Char
char_at n String.[] default = default
char_at zero (String.◌∷◌ c s) default = c
char_at (suc n) (String.◌∷◌ c s) default = char_at n s default

-- `char::to_ascii_lowercase`: only A to Z change.
unfoldable pub lower : Char → Char
unfolding char_at
lower c =
    if leb 65 (code c) && leb (code c) 90
    then char_at (code c - 65) "abcdefghijklmnopqrstuvwxyz" c
    else c

unfoldable pub to_ascii_lowercase : String → String
unfolding lower
to_ascii_lowercase String.[] = String.[]
to_ascii_lowercase (String.◌∷◌ c s) = String.◌∷◌ (lower c) (to_ascii_lowercase s)
