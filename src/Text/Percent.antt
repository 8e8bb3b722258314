-- ===== src/Text/Percent.antt =====
-- replace('%', "%%") and replace("%%", "%"): the doubling that protects a value from systemd's
-- specifier expansion, and its inverse.
use mathlib.Core.Option
use kde_nasmount.Prelude.{
  Option, none, some, ℕ, true, false, ◌&&◌, [], ◌∷◌, ◌≡◌, refl, arith, ◌==◌, if◌then◌else◌,
  Bool-cases, inl, inr, ap, ◌∙◌,
}
use kde_nasmount.Text.{Text, contains, ends_with}

unfoldable pub double_percent : Text → Text
double_percent [] = []
double_percent (c ∷ t) =
    let rest = double_percent t in if c == b'%' then b'%' ∷ b'%' ∷ rest else c ∷ rest

-- Matches are taken from the left and do not overlap.
unfoldable pub undouble_percent : Text → Text
undouble_percent [] = []
undouble_percent (x ∷ []) = x ∷ []
undouble_percent (x ∷ y ∷ t) = elim (x == b'%' && y == b'%') [
  | true ↦ b'%' ∷ undouble_percent t
  | false ↦ x ∷ undouble_percent (y ∷ t)
]

undouble_percent-cons :
    (c : ℕ) (t : Text) → (c == b'%') ≡ false → undouble_percent (c ∷ t) ≡ c ∷ undouble_percent t
unfolding undouble_percent
undouble_percent-cons c [] h = refl
undouble_percent-cons c (y ∷ t) h = ground arith

-- Decoding gives back what was encoded.
pub undouble-double : (t : Text) → undouble_percent (double_percent t) ≡ t
unfolding double_percent undouble_percent
undouble-double [] = refl
undouble-double (c ∷ t) = elim (Bool-cases (c == b'%')) [
  | inl e ↦ ground (arith, undouble-double t)
  | inr e ↦
      rw e (undouble_percent-cons c (double_percent t) e ∙ ap (λ r. c ∷ r) (undouble-double t))
]

-- systemd's reading of "%" in a value: "%%" stands for "%", and "%" before anything else is a
-- specifier, which would be replaced by something else (`none`).
unfoldable pub specifier_free : Text → Option Text
specifier_free [] = some []
specifier_free (x ∷ []) = if x == b'%' then none else some (x ∷ [])
specifier_free (x ∷ y ∷ t) = elim (x == b'%') [
  | true ↦ if y == b'%' then Option.map (λ r. b'%' ∷ r) (specifier_free t) else none
  | false ↦ Option.map (λ r. x ∷ r) (specifier_free (y ∷ t))
]

specifier_free-cons :
    (c : ℕ) (t : Text)
    → (c == b'%') ≡ false
    → specifier_free (c ∷ t) ≡ Option.map (λ r. c ∷ r) (specifier_free t)
unfolding specifier_free
specifier_free-cons c [] h = rw h
specifier_free-cons c (y ∷ t) h = ground arith

-- The doubled text has no specifier in it, and systemd reads it as the text that was encoded.
pub specifier_free-double : (t : Text) → specifier_free (double_percent t) ≡ some t
unfolding double_percent specifier_free
specifier_free-double [] = refl
specifier_free-double (c ∷ t) = elim (Bool-cases (c == b'%')) [
  | inl e ↦ ground (arith, specifier_free-double t)
  | inr e ↦ rw e (specifier_free-cons c (double_percent t) e ∙ rw (specifier_free-double t))
]

pub contains-double : (t : Text) (c : ℕ) → contains (double_percent t) c ≡ contains t c
unfolding double_percent contains
contains-double [] c = refl
contains-double (x ∷ t) c = ground (arith, contains-double t c)

pub ends_with-double : (t : Text) (c : ℕ) → ends_with (double_percent t) c ≡ ends_with t c
unfolding double_percent ends_with
ends_with-double [] c = refl
ends_with-double (x ∷ []) c = ground arith
ends_with-double (x ∷ y ∷ t) c = ground (arith, ends_with-double (y ∷ t) c)
