-- ===== src/Text/Lines.antt =====
-- Texts as lists of pieces: lines that end in a line feed, and pieces joined by a separator.
use kde_nasmount.Prelude.{
  ℕ, false, List, [], ◌∷◌, ◌++◌, ◌≡◌, refl, arith, ap, ◌∙◌, ◌==◌, Bool-cases, inl, inr,
}
use kde_nasmount.Text.{Text, line_feed, contains, join}
use kde_nasmount.Text.Split.{split, split-append, cons_head}

-- Lines, each ended by a line feed, in front of a rest.
unfoldable pub unlines : List Text → Text → Text
unlines [] rest = rest
unlines (l ∷ ls) rest = l ++ (line_feed ∷ unlines ls rest)

abbrev pub AllLack : ℕ → List Text → Type 0
AllLack c [] = Unit
AllLack c (l ∷ ls) = (contains l c ≡ false) × AllLack c ls

pub split-unlines :
    (ls : List Text) (rest : Text)
    → AllLack line_feed ls
    → split line_feed (unlines ls rest) ≡ ls ++ split line_feed rest
unfolding unlines
split-unlines [] rest h = refl
split-unlines (l ∷ ls) rest (h, hs) =
    split-append line_feed l (unlines ls rest) h ∙ ap (λ r. l ∷ r) (split-unlines ls rest hs)

pub split-lack : (c : ℕ) (l : Text) → contains l c ≡ false → split c l ≡ l ∷ []
unfolding split contains
split-lack c [] h = refl
split-lack c (x ∷ l) h = ground (arith, split-lack c l)

pub split-join :
    (c : ℕ) (l : Text) (ls : List Text)
    → AllLack c (l ∷ ls)
    → split c (join (c ∷ []) (l ∷ ls)) ≡ l ∷ ls
unfolding join
split-join c l [] (h, _) = split-lack c l h
split-join c l (k ∷ ks) (h, hs) =
    split-append c l (join (c ∷ []) (k ∷ ks)) h ∙ ap (λ r. l ∷ r) (split-join c k ks hs)

split-AllLack-cons :
    (c x : ℕ) (ls : List Text) → (x == c) ≡ false → AllLack c ls → AllLack c (cons_head x ls)
unfolding contains
split-AllLack-cons c x [] n h = (ground arith, tt)
split-AllLack-cons c x (l ∷ ls) n (h, hs) = (ground arith, hs)

-- No piece holds the separator.
pub split-AllLack : (c : ℕ) (t : Text) → AllLack c (split c t)
unfolding split contains
split-AllLack c [] = (refl, tt)
split-AllLack c (x ∷ t) = elim (Bool-cases (x == c)) [
  | inl e ↦ rw e (refl, split-AllLack c t)
  | inr e ↦ rw e (split-AllLack-cons c x (split c t) e (split-AllLack c t))
]
