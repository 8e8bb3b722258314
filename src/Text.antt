-- ===== src/Text.antt =====
-- Strings of the program (QString) as lists of UTF-16 code units, with the operations of
-- QString that the sources call: startsWith, endsWith, contains, split, mid, replace, comparison.
pub mod Split
pub mod Lines
pub mod Percent
pub mod Decimal
pub mod Laws
use Prim.Native.Char.{code}
use Prim.Native.String.{String}
use kde_nasmount.Prelude.{
  ℕ, Bool, true, false, ◌&&◌, ◌||◌, Option, none, some, List, [], ◌∷◌, ◌++◌, ◌==◌, leb, not,
  if◌then◌else◌,
}

abbrev pub Text : Type 0
Text = List ℕ

-- A literal of the source. All the literals lie in the basic plane, one unit to a character.
abbrev pub codes : String → Text
codes String.[] = []
codes (String.◌∷◌ c s) = code c ∷ codes s

abbrev pub line_feed : ℕ
line_feed = 10

abbrev pub is_empty {ℓ} : {A : Type ℓ} → List A → Bool
is_empty [] = true
is_empty (_ ∷ _) = false

abbrev pub is_high_surrogate : ℕ → Bool
is_high_surrogate c = leb 0xd800 c && leb c 0xdbff

abbrev pub is_low_surrogate : ℕ → Bool
is_low_surrogate c = leb 0xdc00 c && leb c 0xdfff

-- every surrogate is one of a pair
unfoldable pub is_utf16 : Text → Bool
is_utf16 [] = true
is_utf16 (c ∷ []) = not (is_high_surrogate c) && not (is_low_surrogate c)
is_utf16 (c ∷ d ∷ t) =
    let rest = is_utf16 t in
    let next = is_utf16 (d ∷ t) in
    if is_high_surrogate c then is_low_surrogate d && rest else not (is_low_surrogate c) && next

-- `a == b` on strings
unfoldable pub text_eq : Text → Text → Bool
text_eq [] [] = true
text_eq (x ∷ xs) (y ∷ ys) = x == y && text_eq xs ys
text_eq _ _ = false

-- contains(QChar)
unfoldable pub contains : Text → ℕ → Bool
contains [] c = false
contains (x ∷ xs) c = x == c || contains xs c

-- mid(prefix.size()) after a successful startsWith(prefix)
unfoldable pub strip_prefix : Text → Text → Option Text
strip_prefix [] t = some t
strip_prefix (p ∷ ps) [] = none
strip_prefix (p ∷ ps) (c ∷ cs) = if p == c then strip_prefix ps cs else none

abbrev pub is_some {ℓ} : {A : Type ℓ} → Option A → Bool
is_some none = false
is_some (some _) = true

abbrev pub starts_with : Text → Text → Bool
starts_with p t = is_some (strip_prefix p t)

-- endsWith(QChar)
unfoldable pub ends_with : Text → ℕ → Bool
ends_with [] c = false
ends_with (x ∷ []) c = x == c
ends_with (x ∷ y ∷ ys) c = ends_with (y ∷ ys) c

-- `while (value.endsWith(c)) value.chop(1)`
unfoldable pub chop_end : ℕ → Text → Text
chop_end c [] = []
chop_end c (x ∷ xs) = let rest = chop_end c xs in if is_empty rest && x == c then [] else x ∷ rest

-- QStringList::contains
unfoldable pub list_contains : List Text → Text → Bool
unfolding text_eq
list_contains [] t = false
list_contains (x ∷ xs) t = text_eq x t || list_contains xs t

-- QStringList::join
unfoldable pub join : Text → List Text → Text
join sep [] = []
join sep (x ∷ []) = x
join sep (x ∷ y ∷ ys) = x ++ (sep ++ join sep (y ∷ ys))
