-- ===== src/Text.antt =====
-- Python's `str`: a list of code points. A lone surrogate can stand in one and has no UTF-8 form.
pub mod Laws
use Prim.Native.Char.{code}
use tay.Prelude.{
  ℕ, zero, suc, ◌+◌, ◌/◌, ◌%◌, String, Bool, true, false, ◌&&◌, ◌||◌, not, Option, none, some, List,
  [], ◌∷◌, ◌++◌, leb, ltb, ◌==◌, all, length, if◌then◌else◌,
}

abbrev pub Text : Type 0
Text = List ℕ

abbrev pub Bytes : Type 0
Bytes = List ℕ

-- A text of the source, as a literal.
abbrev pub codes : String → Text
codes String.[] = []
codes (String.◌∷◌ c s) = code c ∷ codes s

unfoldable pub same : Text → Text → Bool
same [] [] = true
same [] (d ∷ t) = false
same (c ∷ s) [] = false
same (c ∷ s) (d ∷ t) = c == d && same s t

-- `s <= t`: by code points, as Python orders texts.
unfoldable pub text_le : Text → Text → Bool
text_le [] t = true
text_le (c ∷ s) [] = false
text_le (c ∷ s) (d ∷ t) = let rest = text_le s t in if c == d then rest else ltb c d

-- `t in {...}`
unfoldable pub mem : Text → List Text → Bool
unfolding same
mem t [] = false
mem t (s ∷ ss) = same t s || mem t ss

abbrev pub is_empty : Text → Bool
is_empty [] = true
is_empty (c ∷ s) = false

-- `"\x00" in t`
unfoldable pub has_nul : Text → Bool
has_nul [] = false
has_nul (c ∷ s) = c == 0 || has_nul s

unfoldable pub is_surrogate : ℕ → Bool
is_surrogate c = leb 0xd800 c && leb c 0xdfff

-- `t.encode("utf-8")` of one code point.
unfoldable pub utf8_char : ℕ → Bytes
utf8_char c =
    if ltb c 0x80
    then c ∷ []
    else if ltb c 0x800
    then (0xc0 + c / 64) ∷ (0x80 + c % 64) ∷ []
    else if ltb c 0x10000
    then (0xe0 + c / 4096) ∷ (0x80 + c / 64 % 64) ∷ (0x80 + c % 64) ∷ []
    else (0xf0 + c / 262144) ∷ (0x80 + c / 4096 % 64) ∷ (0x80 + c / 64 % 64) ∷ (0x80 + c % 64) ∷ []

-- `t.encode("utf-8")`; `none` is a UnicodeEncodeError.
unfoldable pub utf8 : Text → Option Bytes
unfolding utf8_char is_surrogate
utf8 [] = some []
utf8 (c ∷ s) =
    let rest = utf8 s in
    if is_surrogate c then none else elim rest [ none ↦ none | some b ↦ some (utf8_char c ++ b) ]

-- `len(t.encode("utf-8"))`
unfoldable pub utf8_size : Text → Option ℕ
unfolding utf8
utf8_size t = elim (utf8 t) [ none ↦ none | some b ↦ some (length b) ]
