-- ===== src/Text/Laws.antt =====
-- Laws of the string operations.
use kde_nasmount.Prelude.{
  ℕ, true, false, ◌&&◌, ◌||◌, some, List, [], ◌∷◌, ◌++◌, ◌≡◌, ◌≢◌, ◌↔◌, refl, arith, ◌==◌,
  if◌then◌else◌, ==_refl,
}
use kde_nasmount.Text.{
  Text, text_eq, contains, strip_prefix, ends_with, chop_end, list_contains, is_empty,
}

pub text_eq_iff : (a b : Text) → (text_eq a b ≡ true) ↔ (a ≡ b)
unfolding text_eq
text_eq_iff (x ∷ a) (y ∷ b) = ground (arith, text_eq_iff a b)
text_eq_iff _ _ = ground arith

pub text_eq_refl : (a : Text) → text_eq a a ≡ true
text_eq_refl a = (text_eq_iff a a).1 refl

pub contains-append : (a b : Text) (c : ℕ) → contains (a ++ b) c ≡ (contains a c || contains b c)
unfolding contains
contains-append [] b c = refl
contains-append (x ∷ a) b c = ground (arith, contains-append a b c)

pub strip_prefix-append : (p t : Text) → strip_prefix p (p ++ t) ≡ some t
unfolding strip_prefix
strip_prefix-append [] t = refl
strip_prefix-append (c ∷ p) t = rw ==_refl (strip_prefix-append p t)

-- What is stripped was there.
pub strip_prefix-eq-some : (p t r : Text) → strip_prefix p t ≡ some r → t ≡ p ++ r
unfolding strip_prefix
strip_prefix-eq-some [] t r h = ground arith
strip_prefix-eq-some (x ∷ p) [] r h = cc
strip_prefix-eq-some (x ∷ p) (c ∷ t) r h = ground (arith, strip_prefix-eq-some p t r)

pub ends_with-append : (a b : Text) (c : ℕ) → b ≢ [] → ends_with (a ++ b) c ≡ ends_with b c
unfolding ends_with
ends_with-append [] b c h = refl
ends_with-append (x ∷ []) [] c h = absurd (h refl)
ends_with-append (x ∷ []) (y ∷ b) c h = refl
ends_with-append (x ∷ y ∷ a) b c h = ends_with-append (y ∷ a) b c h

pub contains-ends_with : (t : Text) (c : ℕ) → contains t c ≡ false → ends_with t c ≡ false
unfolding contains ends_with
contains-ends_with [] c h = refl
contains-ends_with (x ∷ []) c h = ground arith
contains-ends_with (x ∷ y ∷ t) c h = contains-ends_with (y ∷ t) c (ground arith)

pub list_contains_self : (x : Text) (xs : List Text) → list_contains (x ∷ xs) x ≡ true
unfolding list_contains
list_contains_self x xs = ground (arith, text_eq_refl x)

pub ends_with-chop_end : (t : Text) (c : ℕ) → ends_with (chop_end c t) c ≡ false
unfolding chop_end ends_with
ends_with-chop_end [] c = refl
ends_with-chop_end (x ∷ t) c = grow (chop_end c t) (ends_with-chop_end t c)
  where
    grow :
        (r : Text)
        → ends_with r c ≡ false
        → ends_with (if is_empty r && x == c then [] else x ∷ r) c ≡ false
    grow [] h = ground arith
    grow (y ∷ r) h = h

-- Chopping stops at once on a text that does not end in the unit.
pub chop_end_id : (t : Text) (c : ℕ) → ends_with t c ≡ false → chop_end c t ≡ t
unfolding chop_end ends_with
chop_end_id [] c h = refl
chop_end_id (x ∷ []) c h = ground arith
chop_end_id (x ∷ y ∷ t) c h = rw (chop_end_id (y ∷ t) c h)

pub list_contains_later :
    (x : Text) (xs : List Text) (t : Text)
    → list_contains xs t ≡ true
    → list_contains (x ∷ xs) t ≡ true
unfolding list_contains
list_contains_later x xs t h = ground arith

pub ends_with-append_false :
    (a b : Text) (c : ℕ)
    → ends_with a c ≡ false
    → ends_with b c ≡ false
    → ends_with (a ++ b) c ≡ false
unfolding ends_with
ends_with-append_false [] b c ha hb = hb
ends_with-append_false (x ∷ []) [] c ha hb = ha
ends_with-append_false (x ∷ []) (y ∷ b) c ha hb = hb
ends_with-append_false (x ∷ y ∷ a) b c ha hb = ends_with-append_false (y ∷ a) b c ha hb
