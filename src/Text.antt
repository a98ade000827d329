-- ===== src/Text.antt =====
-- What the program uses of Go's package strings, over texts that are valid UTF-8: a text is the
-- list of its code points. `len(s)` is `len` (bytes), and `len([]rune(s))` is `count`.
pub mod Trim
use Prim.Native.Char.{Char, code}
pub use Prim.Native.String.{String, len, count}
use permission_center_go.Common.{
  ℕ, List, [], ◌∷◌, Bool, true, false, ◌&&◌, ◌||◌, ltb, leb, ◌==◌ as nat_eq, if◌then◌else◌,
}

-- s == ""
abbrev pub is_blank : String → Bool
is_blank String.[] = true
is_blank (String.◌∷◌ c s) = false

-- unicode.IsSpace
abbrev pub is_space_code : ℕ → Bool
is_space_code n =
    (leb 9 n && leb n 13)
    || nat_eq n 32
    || nat_eq n 0x85
    || nat_eq n 0xA0
    || nat_eq n 0x1680
    || (leb 0x2000 n && leb n 0x200a)
    || nat_eq n 0x2028
    || nat_eq n 0x2029
    || nat_eq n 0x202f
    || nat_eq n 0x205f
    || nat_eq n 0x3000

unfoldable pub is_space : Char → Bool
is_space c = is_space_code (code c)

-- strings.TrimLeft and strings.TrimRight for the spaces
unfoldable pub trim_left : String → String
trim_left String.[] = String.[]
trim_left (String.◌∷◌ c s) = let rest = trim_left s in if is_space c then rest else String.◌∷◌ c s

unfoldable pub cons_unless_blank : Char → String → String
cons_unless_blank c rest = if is_space c && is_blank rest then String.[] else String.◌∷◌ c rest

unfoldable pub trim_right : String → String
unfolding cons_unless_blank
trim_right String.[] = String.[]
trim_right (String.◌∷◌ c s) = cons_unless_blank c (trim_right s)

-- strings.TrimSpace
unfoldable pub trim_space : String → String
unfolding trim_left trim_right is_space
trim_space s = trim_right (trim_left s)

-- strings.HasPrefix(s, prefix)
unfoldable pub has_prefix : String → String → Bool
has_prefix s String.[] = true
has_prefix String.[] (String.◌∷◌ d t) = false
has_prefix (String.◌∷◌ c s) (String.◌∷◌ d t) = nat_eq (code c) (code d) && has_prefix s t

-- strings.Contains(s, part)
unfoldable pub contains_text : String → String → Bool
unfolding has_prefix
contains_text String.[] part = has_prefix String.[] part
contains_text (String.◌∷◌ c s) part = has_prefix (String.◌∷◌ c s) part || contains_text s part

swap_letter : String → String → Char → Char
swap_letter (String.◌∷◌ a from) (String.◌∷◌ b to) c =
    let rest = swap_letter from to c in if nat_eq (code a) (code c) then b else rest
swap_letter _ _ c = c

-- unicode.ToUpper: the letters a to z, and a table beyond ASCII, which is a parameter.
upper_rune : (Char → Char) → Char → Char
unfolding swap_letter
upper_rune table c =
    if ltb (code c) 128
    then swap_letter "abcdefghijklmnopqrstuvwxyz" "ABCDEFGHIJKLMNOPQRSTUVWXYZ" c
    else table c

-- strings.ToUpper
unfoldable pub to_upper : (Char → Char) → String → String
unfolding upper_rune
to_upper table String.[] = String.[]
to_upper table (String.◌∷◌ c s) = String.◌∷◌ (upper_rune table c) (to_upper table s)

-- strings.ToLower on ASCII letters; strings.EqualFold to a lower-case ASCII text without k and s,
-- the two letters that a letter beyond ASCII folds to.
unfoldable pub to_lower : String → String
unfolding swap_letter
to_lower String.[] = String.[]
to_lower (String.◌∷◌ c s) =
    String.◌∷◌ (swap_letter "ABCDEFGHIJKLMNOPQRSTUVWXYZ" "abcdefghijklmnopqrstuvwxyz" c)
      (to_lower s)

-- strings.Fields: the runs of other characters between spaces. The first part of a split is what
-- stands before the first space.
abbrev pub add_word : String → List String → List String
add_word String.[] words = words
add_word (String.◌∷◌ c word) words = String.◌∷◌ c word ∷ words

unfoldable pub split_by : (Char → Bool) → String → String × List String
split_by p String.[] = (String.[], [])
split_by p (String.◌∷◌ c s) =
    let (word, words) = split_by p s in
    if p c then (String.[], add_word word words) else (String.◌∷◌ c word, words)

-- strings.FieldsFunc
unfoldable pub fields_func : (Char → Bool) → String → List String
unfolding split_by
fields_func p s = let (word, words) = split_by p s in add_word word words

unfoldable pub fields : String → List String
unfolding fields_func is_space
fields s = fields_func is_space s

-- Whether some character of the text passes the test: strings.ContainsAny, by the set.
abbrev pub any_char : (Char → Bool) → String → Bool
any_char p String.[] = false
any_char p (String.◌∷◌ c s) = p c || any_char p s

abbrev pub is_slash : Char → Bool
is_slash c = nat_eq (code c) 47

-- strings.TrimRight, by the set
unfoldable pub trim_right_by : (Char → Bool) → String → String
trim_right_by p String.[] = String.[]
trim_right_by p (String.◌∷◌ c s) =
    let rest = trim_right_by p s in if p c && is_blank rest then String.[] else String.◌∷◌ c rest

-- The text behind a prefix that it has: strings.TrimPrefix(s, prefix).
unfoldable pub trim_prefix : String → String → String
trim_prefix s String.[] = s
trim_prefix String.[] (String.◌∷◌ d t) = String.[]
trim_prefix (String.◌∷◌ c s) (String.◌∷◌ d t) = trim_prefix s t

-- s + t
abbrev pub append : String → String → String
append String.[] t = t
append (String.◌∷◌ c s) t = String.◌∷◌ c (append s t)
