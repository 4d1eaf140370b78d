-- ===== src/Auxil.antt =====
-- src/util/ftb_auxil.c: strings.
pub mod Trim
use ftb.Prelude.{
  ℕ, zero, suc, ◌+◌, ◌-◌, Bool, true, false, not, ◌&&◌, ◌||◌, List, [], ◌∷◌, Option, none, some,
  ◌==◌, ltb, leb, if◌then◌else◌, length, get_elem?, take,
}
use ftb.Text.{Str}
use ftb.Defs.{Run, ok, crash}

-- The characters of the test: letters, digits and the underscore.
unfoldable pub is_word : ℕ → Bool
is_word c =
    leb b'A' c && leb c b'Z' || leb b'a' c && leb c b'z' || c == b'_' || leb b'0' c && leb c b'9'

unfoldable pub check_alphanumeric_underscore_format : Str → Bool
unfolding is_word
check_alphanumeric_underscore_format [] = true
check_alphanumeric_underscore_format (c ∷ s) =
    if is_word c then check_alphanumeric_underscore_format s else false

unfoldable pub is_blank : ℕ → Bool
is_blank c = c == b' ' || c == b'\t'

-- The first loop of soft_trim: the string from the first character that is no blank.
unfoldable pub skip_blanks : Str → Str
unfolding is_blank
skip_blanks [] = []
skip_blanks (c ∷ s) = let rest = skip_blanks s in if is_blank c then rest else c ∷ s

-- The character before the position `j` is a blank.
unfoldable pub blank_before : Str → ℕ → Bool
unfolding is_blank
blank_before s zero = false
blank_before s (suc j) = elim (get_elem? s j) [ none ↦ false | some c ↦ is_blank c ]

-- The second loop: `j` goes down over the blanks at the end.
unfoldable pub trim_end : Str → ℕ → ℕ
unfolding blank_before
trim_end s zero = zero
trim_end s (suc j) = let lower = trim_end s j in if blank_before s (suc j) then lower else suc j

-- The string as the caller sees it, once the zero byte is written.
unfoldable pub soft_trim : Str → Str
unfolding skip_blanks trim_end
soft_trim s = let rest = skip_blanks s in take (trim_end rest (length rest)) rest

-- trim_string: the blanks are cut at the front and at the end; with nothing left, the loop at the end
-- reads before the string.
unfoldable pub trim_string : Str → Run Str
unfolding skip_blanks trim_end
trim_string s = elim (skip_blanks s) [
  | [] ↦ crash
  | c ∷ rest ↦ ok (take (trim_end (c ∷ rest) (length (c ∷ rest))) (c ∷ rest))
]
