-- ===== src/Text/Split.antt =====
-- split(QChar): the pieces between the separators, and how lines come back out of a text.
use kde_nasmount.Prelude.{ℕ, false, List, [], ◌∷◌, ◌++◌, ◌≡◌, arith, ◌==◌, if◌then◌else◌}
use kde_nasmount.Text.{Text, contains, is_empty}

abbrev pub cons_head : ℕ → List Text → List Text
cons_head x [] = (x ∷ []) ∷ []
cons_head x (l ∷ ls) = (x ∷ l) ∷ ls

unfoldable pub split : ℕ → Text → List Text
split c [] = [] ∷ []
split c (x ∷ xs) = let rest = split c xs in if x == c then [] ∷ rest else cons_head x rest

-- split(QChar, Qt::SkipEmptyParts)
unfoldable pub drop_empty : List Text → List Text
drop_empty [] = []
drop_empty (l ∷ ls) = if is_empty l then drop_empty ls else l ∷ drop_empty ls

-- A line without the separator, followed by it, is the first piece.
pub split-append :
    (c : ℕ) (l rest : Text) → contains l c ≡ false → split c (l ++ (c ∷ rest)) ≡ l ∷ split c rest
unfolding split contains
split-append c [] rest h = ground arith
split-append c (x ∷ l) rest h = ground (arith, split-append c l rest)
