-- ===== src/Verify/Mountinfo/Escape.antt =====
-- unescapeMountinfoField undoes the escaping of the mount point in mountinfo, as proc(5) describes it.
-- The source field, where the kernel writes a number sign in octal as well, is not the subject.
use kde_nasmount.Prelude.{
  ℕ, Bool, true, false, ◌&&◌, [], ◌∷◌, ◌++◌, ◌≡◌, refl, ap, ◌∙◌, arith, ◌==◌, ==_iff, ==_refl,
  if◌then◌else◌,
}
use kde_nasmount.Text.{Text, line_feed}
use kde_nasmount.Verify.Mountinfo.{replace_octal, unescape_mountinfo_field}

-- The kernel writes a space, a tab, a line feed and a backslash in octal; the three flags say which
-- of the first three are still written so.
escape_unit : (space tab feed : Bool) → ℕ → Text
escape_unit space tab feed c =
    if space && c == b' '
    then b'\\' ∷ b'0' ∷ b'4' ∷ b'0' ∷ []
    else if tab && c == 9
    then b'\\' ∷ b'0' ∷ b'1' ∷ b'1' ∷ []
    else if feed && c == line_feed
    then b'\\' ∷ b'0' ∷ b'1' ∷ b'2' ∷ []
    else if c == b'\\'
    then b'\\' ∷ b'1' ∷ b'3' ∷ b'4' ∷ []
    else c ∷ []

escape : (space tab feed : Bool) → Text → Text
unfolding escape_unit
escape space tab feed [] = []
escape space tab feed (c ∷ t) = escape_unit space tab feed c ++ escape space tab feed t

unfoldable pub escape_mountinfo_field : Text → Text
unfolding escape
escape_mountinfo_field = escape true true true

replace_plain :
    (x y z r c : ℕ) (t : Text)
    → (c == b'\\') ≡ false
    → replace_octal x y z r (c ∷ t) ≡ c ∷ replace_octal x y z r t
unfolding replace_octal
replace_plain x y z r c [] h = refl
replace_plain x y z r c (d ∷ []) h = refl
replace_plain x y z r c (d ∷ e ∷ []) h = refl
replace_plain x y z r c (d ∷ e ∷ f ∷ t) h = ground arith

replace_hit :
    (x y z r : ℕ) (t : Text)
    → replace_octal x y z r (b'\\' ∷ x ∷ y ∷ z ∷ t) ≡ r ∷ replace_octal x y z r t
unfolding replace_octal
replace_hit x y z r t = ground (arith, ==_refl x, ==_refl y, ==_refl z)

replace_miss :
    (x y z r d e f : ℕ) (t : Text)
    → (d == x && (e == y && f == z)) ≡ false
    → (d == b'\\') ≡ false
    → (e == b'\\') ≡ false
    → (f == b'\\') ≡ false
    → replace_octal x y z r (b'\\' ∷ d ∷ e ∷ f ∷ t) ≡ b'\\' ∷ d ∷ e ∷ f ∷ replace_octal x y z r t
unfolding replace_octal
replace_miss x y z r d e f t n hd he hf =
    missed
    ∙ ap (λ u. b'\\' ∷ u)
        (replace_plain x y z r d (e ∷ f ∷ t) hd
          ∙ ap (λ u. d ∷ u)
              (replace_plain x y z r e (f ∷ t) he ∙ ap (λ u. e ∷ u) (replace_plain x y z r f t hf)))
  where
    missed :
        replace_octal x y z r (b'\\' ∷ d ∷ e ∷ f ∷ t)
        ≡ b'\\' ∷ replace_octal x y z r (d ∷ e ∷ f ∷ t)
    missed = ground arith

space_unit :
    (c : ℕ) (t : Text)
    → replace_octal b'0' b'4' b'0' b' ' (escape_unit true true true c ++ t)
      ≡ escape_unit false true true c ++ replace_octal b'0' b'4' b'0' b' ' t
unfolding escape_unit
space_unit c t = ground (
  arith,
  ==_iff c b' ',
  replace_hit b'0' b'4' b'0' b' ' t,
  replace_miss b'0' b'4' b'0' b' ' b'0' b'1' b'1' t refl refl refl refl,
  replace_miss b'0' b'4' b'0' b' ' b'0' b'1' b'2' t refl refl refl refl,
  replace_miss b'0' b'4' b'0' b' ' b'1' b'3' b'4' t refl refl refl refl,
  replace_plain b'0' b'4' b'0' b' ' c t,
)

tab_unit :
    (c : ℕ) (t : Text)
    → replace_octal b'0' b'1' b'1' 9 (escape_unit false true true c ++ t)
      ≡ escape_unit false false true c ++ replace_octal b'0' b'1' b'1' 9 t
unfolding escape_unit
tab_unit c t = ground (
  arith,
  ==_iff c 9,
  replace_hit b'0' b'1' b'1' 9 t,
  replace_miss b'0' b'1' b'1' 9 b'0' b'1' b'2' t refl refl refl refl,
  replace_miss b'0' b'1' b'1' 9 b'1' b'3' b'4' t refl refl refl refl,
  replace_plain b'0' b'1' b'1' 9 c t,
)

feed_unit :
    (c : ℕ) (t : Text)
    → replace_octal b'0' b'1' b'2' line_feed (escape_unit false false true c ++ t)
      ≡ escape_unit false false false c ++ replace_octal b'0' b'1' b'2' line_feed t
unfolding escape_unit
feed_unit c t = ground (
  arith,
  ==_iff c line_feed,
  replace_hit b'0' b'1' b'2' line_feed t,
  replace_miss b'0' b'1' b'2' line_feed b'1' b'3' b'4' t refl refl refl refl,
  replace_plain b'0' b'1' b'2' line_feed c t,
)

backslash_unit :
    (c : ℕ) (t : Text)
    → replace_octal b'1' b'3' b'4' b'\\' (escape_unit false false false c ++ t)
      ≡ c ∷ replace_octal b'1' b'3' b'4' b'\\' t
unfolding escape_unit
backslash_unit c t = ground (
  arith,
  ==_iff c b'\\',
  replace_hit b'1' b'3' b'4' b'\\' t,
  replace_plain b'1' b'3' b'4' b'\\' c t,
)

-- A pass takes back the escaping of its character, and leaves the other escapes.
module _ (x y z r : ℕ) (s t n s' t' n' : Bool)
    (on_unit : (c : ℕ) (u : Text)
      → replace_octal x y z r (escape_unit s t n c ++ u)
        ≡ escape_unit s' t' n' c ++ replace_octal x y z r u) where
  one_pass : (u : Text) → replace_octal x y z r (escape s t n u) ≡ escape s' t' n' u
  unfolding escape replace_octal
  one_pass [] = refl
  one_pass (c ∷ u) = on_unit c (escape s t n u) ∙ ap (λ v. escape_unit s' t' n' c ++ v) (one_pass u)

last_pass : (u : Text) → replace_octal b'1' b'3' b'4' b'\\' (escape false false false u) ≡ u
unfolding escape replace_octal
last_pass [] = refl
last_pass (c ∷ u) = backslash_unit c (escape false false false u) ∙ ap (λ v. c ∷ v) (last_pass u)

-- Every text that was escaped like the mount point in mountinfo, where a space, a tab, a line feed and
-- a backslash are written in octal and nothing else, is decoded to what it was, though the passes run
-- one after the other.
pub unescape_mountinfo_field-escape_mountinfo_field :
    (t : Text) → unescape_mountinfo_field (escape_mountinfo_field t) ≡ t
unfolding unescape_mountinfo_field escape_mountinfo_field
unescape_mountinfo_field-escape_mountinfo_field t =
    ap
      (λ u.
        replace_octal b'1' b'3' b'4' b'\\'
          (replace_octal b'0' b'1' b'2' line_feed (replace_octal b'0' b'1' b'1' 9 u)))
      (one_pass b'0' b'4' b'0' b' ' true true true false true true space_unit t)
    ∙ ap (λ u. replace_octal b'1' b'3' b'4' b'\\' (replace_octal b'0' b'1' b'2' line_feed u))
        (one_pass b'0' b'1' b'1' 9 false true true false false true tab_unit t)
    ∙ ap (λ u. replace_octal b'1' b'3' b'4' b'\\' u)
        (one_pass b'0' b'1' b'2' line_feed false false true false false false feed_unit t)
    ∙ last_pass t
