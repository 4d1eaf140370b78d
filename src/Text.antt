-- ===== src/Text.antt =====
-- C strings as the lists of their bytes before the terminating zero, and what the code uses of
-- string.h: `strcasecmp`, `strncasecmp`, `strcmp` and `strncmp`, each compared with 0.
pub mod Laws
use Prim.Native.Char.{code}
use Prim.Native.String.{String}
use ftb.Prelude.{
  ℕ, zero, suc, ◌+◌, ◌≡◌, refl, ◌↔◌, Bool, true, false, ◌&&◌, List, [], ◌∷◌, map, arith, leb, ◌==◌,
  if◌then◌else◌,
}

abbrev pub Str : Type 0
Str = List ℕ

-- The bytes of a literal.
abbrev pub codes : String → Str
codes String.[] = []
codes (String.◌∷◌ c s) = code c ∷ codes s

unfoldable pub to_lower : ℕ → ℕ
to_lower c = if leb b'A' c && leb c b'Z' then c + 32 else c

-- `strcasecmp(s, t) == 0`
unfoldable pub strcasecmp : Str → Str → Bool
strcasecmp [] [] = true
strcasecmp (c ∷ s) (d ∷ t) = to_lower c == to_lower d && strcasecmp s t
strcasecmp s t = false

-- `strncasecmp(s, t, n) == 0`
unfoldable pub strncasecmp : ℕ → Str → Str → Bool
strncasecmp zero s t = true
strncasecmp (suc n) [] [] = true
strncasecmp (suc n) (c ∷ s) (d ∷ t) = to_lower c == to_lower d && strncasecmp n s t
strncasecmp (suc n) s t = false

-- `strcmp(s, t) == 0`
unfoldable pub strcmp : Str → Str → Bool
strcmp [] [] = true
strcmp (c ∷ s) (d ∷ t) = c == d && strcmp s t
strcmp s t = false

-- `strncmp(s, t, n) == 0`
unfoldable pub strncmp : ℕ → Str → Str → Bool
strncmp zero s t = true
strncmp (suc n) [] [] = true
strncmp (suc n) (c ∷ s) (d ∷ t) = c == d && strncmp n s t
strncmp (suc n) s t = false
