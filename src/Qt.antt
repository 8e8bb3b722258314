-- ===== src/Qt.antt =====
-- What the program asks of Qt beyond plain string operations: the space test behind trimmed() and
-- isSpace(), toHtmlEscaped() and QDir::cleanPath(). They are arguments of every definition that
-- calls them; the laws are what Qt's documentation says of them.
use kde_nasmount.Prelude.{
  ℕ, ◌<◌, Bool, true, false, ◌&&◌, ◌||◌, [], ◌∷◌, ◌≡◌, refl, arith, leb, ◌==◌, if◌then◌else◌,
}
use kde_nasmount.Text.{Text, contains, ends_with, is_empty}

pub record Qt : Type 0 where
  -- QChar::isSpace
  pub is_space : ℕ → Bool
  -- QString::toHtmlEscaped
  pub html_escaped : Text → Text
  -- QDir::cleanPath
  pub clean_path : Text → Text

-- Documented behaviour that theorems rely on, apart from the operations themselves.
pub record QtLaws (qt : Qt) : Type 0 where
  -- "\t", "\n", "\v", "\f", "\r" and " " are the spaces below 128.
  pub ascii_space : (c : ℕ) → c < 128 → qt.is_space c ≡ (c == b' ' || (leb 9 c && leb c 13))
  -- Escaping replaces <, >, & and " by entities, and leaves every other unit in its place.
  pub escaped_lacks :
      (t : Text) (c : ℕ) → c < 32 → contains t c ≡ false → contains (qt.html_escaped t) c ≡ false
  pub escaped_end :
      (t : Text) → ends_with t b'\\' ≡ false → ends_with (qt.html_escaped t) b'\\' ≡ false

module _ (qt : Qt) where
  trim_start : Text → Text
  trim_start [] = []
  trim_start (c ∷ t) = let rest = trim_start t in if qt.is_space c then rest else c ∷ t

  trim_end : Text → Text
  trim_end [] = []
  trim_end (c ∷ t) =
      let rest = trim_end t in if is_empty rest && qt.is_space c then [] else c ∷ rest

  -- QString::trimmed
  unfoldable pub trimmed : Text → Text
  unfolding trim_start trim_end
  trimmed t = trim_end (trim_start t)

  -- A text that begins with no space is not blank.
  pub trimmed_nonempty :
      (c : ℕ) (t : Text) → qt.is_space c ≡ false → is_empty (trimmed (c ∷ t)) ≡ false
  unfolding trimmed
  trimmed_nonempty c t h = ground arith

  pub trimmed_empty : is_empty (trimmed []) ≡ true
  unfolding trimmed
  trimmed_empty = refl
