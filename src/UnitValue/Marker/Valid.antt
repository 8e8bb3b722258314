-- ===== src/UnitValue/Marker/Valid.antt =====
-- The values of a parsed marker are in range: 32-bit ids, and an id that is safe in a file name.
use kde_nasmount.Prelude.{
  ◌<◌, true, Option, none, some, List, [], ◌∷◌, ◌≡◌, refl, arith, ap, ◌∙◌, sym, ok, Bool-cases,
  Option-cases, inl, inr, ◌⊎◌,
}
use kde_nasmount.Text.{Text, line_feed, text_eq, starts_with}
use kde_nasmount.Text.Decimal.{to_uint_bound}
use kde_nasmount.Text.Split.{split}
use kde_nasmount.UnitValue.Marker.{
  Marker, IsValidMarker, Field, field_specs, marker_prefix, field_value_matches, field_match,
  first_match, parse_marker, is_valid_share_id, checked_value,
}
use kde_nasmount.UnitValue.Marker.Sound.{parse_marker-IsMarkerOf}
use kde_nasmount.UnitValue.Marker.Spec.{
  value_of, value_from, count_field, line_field, value_in, sets,
}

checked_value-matches :
    (f : Field) (o : Option Text) {v : Text}
    → checked_value f o ≡ some v
    → field_value_matches f v ≡ true
unfolding checked_value
checked_value-matches f none h = cc
checked_value-matches f (some w) h = ground arith

field_match_matches :
    (f : Field) (l : Text) {v : Text} → field_match f l ≡ some v → field_value_matches f v ≡ true
unfolding field_match
field_match_matches f l h = checked_value-matches f _ h

first_match-none :
    (fs : List Field) (f : Field) (l : Text)
    → field_match f l ≡ none
    → first_match (f ∷ fs) l ≡ first_match fs l
unfolding first_match
first_match-none fs f l h = rw h

first_match-some :
    (fs : List Field) (f : Field) (l v : Text)
    → field_match f l ≡ some v
    → first_match (f ∷ fs) l ≡ some (f, v)
unfolding first_match
first_match-some fs f l v h = rw h

first_match-nil : (l : Text) → first_match [] l ≡ none
unfolding first_match
first_match-nil l = refl

first_match_matches :
    (fs : List Field) (l : Text) {g : Field} {v : Text}
    → first_match fs l ≡ some (g, v)
    → field_value_matches g v ≡ true
first_match_matches [] l h = cc (first_match-nil l)
first_match_matches (f ∷ fs) l h = elim (Option-cases (field_match f l)) [
  | inl e ↦ first_match_matches fs l (sym (first_match-none fs f l e) ∙ h)
  | inr (w, e) ↦
      let same = sym (first_match-some fs f l w e) ∙ h in ground (arith, field_match_matches f l e)
]

line_field-matches :
    (l : Text) {g : Field} {v : Text} → line_field l ≡ some (g, v) → field_value_matches g v ≡ true
unfolding line_field
line_field-matches l h = elim (Bool-cases (starts_with marker_prefix l)) [
  | inl e ↦ first_match_matches field_specs l (rw e at h)
  | inr e ↦ cc (rw e at h)
]

id_matches : (w : Text) → field_value_matches Field.id w ≡ true → is_valid_share_id w ≡ true
unfolding field_value_matches
id_matches w h = h

-- One line keeps the id valid, or makes it so.
value_in-valid :
    (l : Text) (o : Option (Field × Text)) (v : Text)
    → line_field l ≡ o
    → (is_valid_share_id v ≡ true) ⊎ (sets Field.id o ≡ true)
    → is_valid_share_id (value_in Field.id o v) ≡ true
unfolding text_eq
value_in-valid l none v e (inl h) = h
value_in-valid l none v e (inr h) = cc
value_in-valid l (some (Field.id, w)) v e h = id_matches w (line_field-matches l e)
value_in-valid l (some (_, w)) v e (inl h) = h
value_in-valid l (some (_, w)) v e (inr h) = cc

value_from-valid :
    (ls : List Text) (v : Text)
    → (is_valid_share_id v ≡ true) ⊎ (0 < count_field Field.id ls)
    → is_valid_share_id (value_from Field.id ls v) ≡ true
unfolding count_field value_from
value_from-valid [] v (inl h) = h
value_from-valid [] v (inr h) = absurd (omega arith)
value_from-valid (l ∷ ls) v (inl h) =
    value_from-valid ls _ (inl (value_in-valid l (line_field l) v refl (inl h)))
value_from-valid (l ∷ ls) v (inr h) = elim (Bool-cases (sets Field.id (line_field l))) [
  | inl e ↦ value_from-valid ls _ (inl (value_in-valid l (line_field l) v refl (inr e)))
  | inr e ↦ value_from-valid ls _ (inr (omega (arith, rw e at h)))
]

-- The owner and the group of a parsed marker fit their 32-bit types, and its id is 32 lower-case
-- hexadecimal digits, the only form from which a file name is built.
pub parse_marker-IsValidMarker :
    (content : Text) (m : Marker) → parse_marker content ≡ ok m → IsValidMarker m
unfolding value_of
parse_marker-IsValidMarker content m h =
    let spec = parse_marker-IsMarkerOf content m h in
    let lines = split line_feed content in
    record {
      uid_fits = to_uint_bound _ _ spec.uid;
      gid_fits = to_uint_bound _ _ spec.gid;
      id_valid =
          ap is_valid_share_id (sym spec.id)
          ∙ value_from-valid lines [] (inr (omega (arith, spec.once Field.id refl)));
    }
