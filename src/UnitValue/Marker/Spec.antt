-- ===== src/UnitValue/Marker/Spec.antt =====
-- What it means that a text holds a marker, told by its lines and without the loops of parseMarker.
use kde_nasmount.Prelude.{
  ℕ, ◌+◌, ◌≤◌, Bool, true, false, Option, none, some, List, [], ◌∷◌, ◌≡◌, ok, if◌then◌else◌,
}
use kde_nasmount.Text.{Text, codes, starts_with, text_eq, is_some}
use kde_nasmount.Text.Decimal.{to_uint}
use kde_nasmount.UnitValue.Access.{credentials, guest}
use kde_nasmount.UnitValue.Marker.{
  Marker, Field, field_key, field_specs, field_required, marker_prefix, first_match, decode_access,
}

-- The field that a line sets, with its value; `none` for a line outside the namespace.
unfoldable pub line_field : Text → Option (Field × Text)
line_field line = if starts_with marker_prefix line then first_match field_specs line else none

abbrev pub sets : Field → Option (Field × Text) → Bool
sets f none = false
sets f (some (g, v)) = text_eq (field_key g) (field_key f)

-- How many lines set a field.
unfoldable pub count_field : Field → List Text → ℕ
unfolding line_field
count_field f [] = 0
count_field f (l ∷ ls) = (if sets f (line_field l) then 1 else 0) + count_field f ls

abbrev pub value_in : Field → Option (Field × Text) → Text → Text
value_in f none v = v
value_in f (some (g, w)) v = if text_eq (field_key g) (field_key f) then w else v

unfoldable pub value_from : Field → List Text → Text → Text
value_from f [] v = v
value_from f (l ∷ ls) v = value_from f ls (value_in f (line_field l) v)

-- The value that the lines give a field: the last, which is the only one where no field repeats.
unfoldable pub value_of : Field → List Text → Text
unfolding value_from
value_of f ls = value_from f ls []

-- Every line of the namespace sets one of the seven fields, with a value of the field's form.
abbrev pub AllRecognised : List Text → Type 0
AllRecognised [] = Unit
AllRecognised (l ∷ ls) =
    (starts_with marker_prefix l ≡ true → is_some (first_match field_specs l) ≡ true)
    × AllRecognised ls

-- A text that parseMarker accepts as the marker `m`.
pub record IsMarkerOf (lines : List Text) (m : Marker) : Type 0 where
  pub recognised : AllRecognised lines
  pub once : (f : Field) → field_required f ≡ true → count_field f lines ≡ 1
  pub access_once : count_field Field.access lines ≤ 1
  pub uid : to_uint (value_of Field.owner_uid lines) ≡ some m.owner_uid
  pub gid : to_uint (value_of Field.owner_gid lines) ≡ some m.owner_gid
  pub id : value_of Field.id lines ≡ m.id
  pub authentication : m.authentication ≡ (
      if text_eq (value_of Field.authentication lines) (codes "guest") then guest else credentials)
  pub access : decode_access (value_of Field.access lines) ≡ ok m.access
