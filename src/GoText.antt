-- ===== src/GoText.antt =====
-- What the program uses of the Go packages strings, strconv and unicode.
pub mod Numbers
mod Tests
use Prim.Native.Char.{code}
use Prim.Native.String.{char_at}
use trekr_go.Prelude.{
  ℕ, zero, suc, ◌+◌, ◌*◌, ◌-◌, ◌/◌, ◌%◌, String, Bool, true, false, ◌&&◌, ◌||◌, Option, none, some,
  List, [], ◌∷◌, ◌==◌, nat_instance, string_instance, list_instance, leb, ltb, any, Bytes,
  if◌then◌else◌,
}
use trekr_go.Models.{ℤ, pos, negsuc}

-- `unicode.IsSpace`
abbrev pub is_space : ℕ → Bool
is_space c =
    leb 9 c && leb c 13
    || (c == 32
        || (c == 133
            || (c == 160
                || (c == 5760
                    || (leb 8192 c && leb c 8202
                        || (c == 8232
                            || (c == 8233 || (c == 8239 || (c == 8287 || c == 12288)))))))))

-- `strings.TrimSpace`, on a text and on its code points
abbrev trim_left : String → String
trim_left String.[] = ""
trim_left (String.◌∷◌ c s) =
    let rest = trim_left s in if is_space (code c) then rest else String.◌∷◌ c s

abbrev trim_right : String → String
trim_right String.[] = ""
trim_right (String.◌∷◌ c s) =
    let rest = trim_right s in if is_space (code c) && rest == "" then "" else String.◌∷◌ c rest

unfoldable pub trim_space : String → String
trim_space s = trim_right (trim_left s)

abbrev pub trim_front : Bytes → Bytes
trim_front [] = []
trim_front (c ∷ s) = let rest = trim_front s in if is_space c then rest else c ∷ s

abbrev pub trim_back : Bytes → Bytes
trim_back [] = []
trim_back (c ∷ s) = let rest = trim_back s in if is_space c && rest == [] then [] else c ∷ rest

unfoldable pub trim_codes : Bytes → Bytes
trim_codes s = trim_back (trim_front s)

-- `strings.HasPrefix` and `strings.Contains`, the part first
abbrev pub has_prefix : Bytes → Bytes → Bool
has_prefix [] s = true
has_prefix (p ∷ ps) [] = false
has_prefix (p ∷ ps) (c ∷ s) = p == c && has_prefix ps s

abbrev pub contains : Bytes → Bytes → Bool
contains p [] = has_prefix p []
contains p (c ∷ s) = has_prefix p (c ∷ s) || contains p s

-- The decimal digits of a number before a text, with fuel; `suc n` is enough for `n`.
unfoldable pub put_digits : ℕ → ℕ → String → String
put_digits zero n acc = acc
put_digits (suc fuel) n acc =
    let more = String.◌∷◌ (char_at "0123456789" (n % 10)) acc in
    let rest = put_digits fuel (n / 10) more in if ltb n 10 then more else rest

-- `strconv.Itoa` and `strconv.FormatInt(n, 10)`
unfoldable pub itoa : ℤ → String
itoa (pos n) = put_digits (suc n) n ""
itoa (negsuc n) = String.◌∷◌ (char_at "-" 0) (put_digits (suc (suc n)) (suc n) "")

-- The number with these digits, after `acc`.
unfoldable pub read_digits : ℕ → Bytes → Option ℕ
read_digits acc [] = some acc
read_digits acc (c ∷ cs) =
    let rest = read_digits (acc * 10 + (c - 48)) cs in if leb 48 c && leb c 57 then rest else none

abbrev pub some_digits : Bytes → Option ℕ
some_digits [] = none
some_digits (c ∷ cs) = read_digits 0 (c ∷ cs)

abbrev pub max_int64 : ℕ
max_int64 = 9223372036854775807

abbrev pub in_range : Option ℕ → Option ℤ
in_range none = none
in_range (some n) = if leb n max_int64 then some (pos n) else none

abbrev pub negated : Option ℕ → Option ℤ
negated none = none
negated (some zero) = some (pos 0)
negated (some (suc n)) = if leb n max_int64 then some (negsuc n) else none

-- `strconv.ParseInt(s, 10, 64)`, none for an error
unfoldable pub parse_int : Bytes → Option ℤ
parse_int [] = none
parse_int (c ∷ cs) =
    if c == b'+'
    then in_range (some_digits cs)
    else if c == b'-'
    then negated (some_digits cs)
    else in_range (some_digits (c ∷ cs))

-- `len` of a text: the bytes of its UTF-8 form
abbrev rune_length : ℕ → ℕ
rune_length c = if ltb c 128 then 1 else if ltb c 2048 then 2 else if ltb c 65536 then 3 else 4

unfoldable pub byte_length : String → ℕ
byte_length String.[] = 0
byte_length (String.◌∷◌ c s) = rune_length (code c) + byte_length s

-- `strconv.ParseBool`, none for an error
unfoldable pub parse_bool : String → Option Bool
parse_bool s =
    if any ("1" ∷ "t" ∷ "T" ∷ "TRUE" ∷ "true" ∷ "True" ∷ []) (λ w. w == s)
    then some true
    else if any ("0" ∷ "f" ∷ "F" ∷ "FALSE" ∷ "false" ∷ "False" ∷ []) (λ w. w == s)
    then some false
    else none
