-- ===== src/Text.antt =====
-- Python's operations on `str` that the code uses.
use Prim.Native.Char.{code}
use Prim.Native.String.{String, ◌++◌}
use autonomous_quant_tra.Base.{
  ℕ, zero, suc, Bool, true, ◌&&◌, ◌||◌, List, [], ◌∷◌, ◌==◌, nat_eq, leb, string_eq, if◌then◌else◌,
}

-- The parts of an f-string, put together.
abbrev pub concat : List String → String
concat [] = ""
concat (s ∷ ss) = s ++ concat ss

-- The characters that `str.strip` removes.
is_space : ℕ → Bool
is_space c =
    leb 9 c && leb c 13
    || leb 28 c && leb c 32
    || c == 0x85
    || c == 0xa0
    || c == 0x1680
    || leb 0x2000 c && leb c 0x200a
    || c == 0x2028
    || c == 0x2029
    || c == 0x202f
    || c == 0x205f
    || c == 0x3000

-- `not s.strip()`
unfoldable pub is_blank : String → Bool
unfolding is_space
is_blank String.[] = true
is_blank (String.◌∷◌ c s) = is_space (code c) && is_blank s

-- `s or t`
abbrev pub or_text : String → String → String
or_text s t = if s == "" then t else s

-- `s[:n]`
unfoldable pub prefix : ℕ → String → String
prefix zero s = ""
prefix (suc n) String.[] = ""
prefix (suc n) (String.◌∷◌ c s) = String.◌∷◌ c (prefix n s)
