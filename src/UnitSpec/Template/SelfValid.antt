-- ===== src/UnitSpec/Template/SelfValid.antt =====
-- What the builders write passes the validators for the same marker and mount point.
use kde_nasmount.Prelude.{true, false, List, [], ◌∷◌, ◌≡◌, refl, ap, ◌∙◌, ok}
use kde_nasmount.Qt.{Qt, QtLaws}
use kde_nasmount.Text.{Text, codes, line_feed, ends_with}
use kde_nasmount.Text.Laws.{text_eq_refl}
use kde_nasmount.Text.Percent.{undouble_percent}
use kde_nasmount.Text.Split.{split}
use kde_nasmount.UnitValue.Encode.{
  encode_unit_value, encode_unit_value-IsUnitValue, encode_unit_value-eq-ok,
}
use kde_nasmount.UnitValue.Marker.{Marker, IsValidMarker}
use kde_nasmount.UnitSpec.Unc.{validate_unc}
use kde_nasmount.UnitSpec.Options.{mount_options_for}
use kde_nasmount.UnitSpec.Template.Accepts.{mount_values, automount_values, unit_values}
use kde_nasmount.UnitSpec.Template.Continuation.{
  has_line_continuation-unit, mount_tail-NoneContinued, automount_tail-NoneContinued,
}
use kde_nasmount.UnitSpec.Template.Generated.{
  build_mount-eq-ok, build_automount-eq-ok, encoded_lacks, described_lacks,
}
use kde_nasmount.UnitSpec.Template.Layout.{split_unit, mount_tail-AllLack, automount_tail-AllLack}
use kde_nasmount.UnitSpec.Template.Section.{
  Values, section_lines, section_start, extract_section_assignments, SectionScan,
}
use kde_nasmount.UnitSpec.Template.{
  build_mount_unit_content, build_automount_unit_content, validate_mount_unit_body, check_present,
  has_line_continuation, validate_automount_unit_body, mount_keys, automount_keys, unit_keys,
  check_mount_values, check_automount_values,
}

module _ (qt : Qt) where
  extract_of_lines :
      (content section : Text) (allowed : List Text) (lines : List Text) (s : SectionScan)
      → split line_feed content ≡ lines
      → section_lines qt section allowed lines section_start ≡ ok s
      → s.section_seen ≡ true
      → extract_section_assignments qt content section allowed ≡ ok s.values
  unfolding extract_section_assignments
  extract_of_lines content section allowed lines s e h seen = rw (e, h, seen)

  validate_mount_of :
      (content : Text) (m : Marker) (mount_point : Text) (values : Values)
      → has_line_continuation content ≡ false
      → extract_section_assignments qt content (codes "Mount") mount_keys ≡ ok values
      → validate_mount_unit_body qt content m mount_point
        ≡ check_mount_values qt m mount_point values
  unfolding validate_mount_unit_body
  validate_mount_of content m mount_point values plain h = rw (plain, h)

  check_mount_of :
      (m : Marker) (mount_point unc what place options : Text)
      → undouble_percent what ≡ unc
      → undouble_percent place ≡ mount_point
      → validate_unc unc ≡ ok unc
      → encode_unit_value qt (mount_options_for m) ≡ ok options
      → check_mount_values qt m mount_point (
          (codes "TimeoutSec", codes "30")
          ∷ (codes "Options", options)
          ∷ (codes "Type", codes "cifs")
          ∷ (codes "Where", place)
          ∷ (codes "What", what)
          ∷ [])
        ≡ ok unc
  unfolding check_mount_values
  check_mount_of m mount_point unc what place options w p u o =
      rw (w, p, text_eq_refl mount_point, u, o, text_eq_refl options)

  validate_automount_of :
      (content : Text) (m : Marker) (mount_point : Text) (values more : Values)
      → has_line_continuation content ≡ false
      → extract_section_assignments qt content (codes "Automount") automount_keys ≡ ok values
      → check_present automount_keys values ≡ ok tt
      → extract_section_assignments qt content (codes "Unit") unit_keys ≡ ok more
      → validate_automount_unit_body qt content m mount_point
        ≡ check_automount_values qt mount_point values more
  unfolding validate_automount_unit_body
  validate_automount_of content m mount_point values more plain h present g =
      rw (plain, h, present, g)

  check_automount_of :
      (mount_point place described : Text)
      → encode_unit_value qt mount_point ≡ ok place
      → check_automount_values qt mount_point
          ((codes "DirectoryMode", codes "0700")
            ∷ (codes "TimeoutIdleSec", codes "60")
            ∷ (codes "Where", place)
            ∷ [])
          ((codes "ConditionPathIsDirectory", place) ∷ (codes "Description", described) ∷ [])
        ≡ ok tt
  unfolding check_automount_values
  check_automount_of mount_point place described h = rw (h, text_eq_refl place)

  check_present_automount :
      (place : Text)
      → check_present automount_keys (
          (codes "DirectoryMode", codes "0700")
          ∷ (codes "TimeoutIdleSec", codes "60")
          ∷ (codes "Where", place)
          ∷ [])
        ≡ ok tt
  unfolding check_present
  check_present_automount place = refl

module _ (qt : Qt) (laws : QtLaws qt) where
  described_ends :
      (value encoded : Text)
      → encode_unit_value qt value ≡ ok encoded
      → ends_with (qt.html_escaped value) b'\\' ≡ false
  described_ends value encoded h =
      let (_, _, _, ended, _, _) = encode_unit_value-eq-ok qt value h in
      laws.escaped_end value ended

  encoded_ends :
      (value encoded : Text)
      → encode_unit_value qt value ≡ ok encoded
      → ends_with encoded b'\\' ≡ false
  encoded_ends value encoded h = (encode_unit_value-IsUnitValue qt value encoded h).not_continued

  pub validate-build_mount :
      (m : Marker) (unc mount_point content : Text)
      → IsValidMarker m
      → validate_unc unc ≡ ok unc
      → build_mount_unit_content qt m unc mount_point ≡ ok content
      → validate_mount_unit_body qt content m mount_point ≡ ok unc
  validate-build_mount m unc mount_point content v u h =
      let (what, place, options, hw, hp, ho, is) = build_mount-eq-ok qt m unc mount_point h in
      let lines =
        ap (split line_feed) is
        ∙ split_unit m _ v (
            mount_tail-AllLack (qt.html_escaped unc) what place options
              (described_lacks qt laws unc what hw) (encoded_lacks qt laws unc what hw)
              (encoded_lacks qt laws mount_point place hp) (encoded_lacks qt laws _ options ho)) in
      let plain =
        has_line_continuation-unit m _ content v
          (mount_tail-NoneContinued (qt.html_escaped unc) what place options
            (described_ends unc what hw) (encoded_ends unc what hw)
            (encoded_ends mount_point place hp) (encoded_ends _ options ho))
          lines in
      let read =
        extract_of_lines qt content (codes "Mount") mount_keys _ _ lines
          (mount_values qt laws m (qt.html_escaped unc) what place options) refl in
      validate_mount_of qt content m mount_point _ plain read
      ∙ check_mount_of qt m mount_point unc what place options
          (encode_unit_value-IsUnitValue qt unc what hw).decodes_to
          (encode_unit_value-IsUnitValue qt mount_point place hp).decodes_to u ho

  pub validate-build_automount :
      (m : Marker) (mount_point content : Text)
      → IsValidMarker m
      → build_automount_unit_content qt m mount_point ≡ ok content
      → validate_automount_unit_body qt content m mount_point ≡ ok tt
  validate-build_automount m mount_point content v h =
      let (place, hp, is) = build_automount-eq-ok qt m mount_point h in
      let described = qt.html_escaped mount_point in
      let lines =
        ap (split line_feed) is
        ∙ split_unit m _ v (
            automount_tail-AllLack described place (described_lacks qt laws mount_point place hp)
              (encoded_lacks qt laws mount_point place hp)) in
      let plain =
        has_line_continuation-unit m _ content v
          (automount_tail-NoneContinued described place (described_ends mount_point place hp)
            (encoded_ends mount_point place hp))
          lines in
      validate_automount_of qt content m mount_point _ _ plain
        (extract_of_lines qt content (codes "Automount") automount_keys _ _ lines
          (automount_values qt laws m described place) refl)
        (check_present_automount qt place)
        (extract_of_lines qt content (codes "Unit") unit_keys _ _ lines
          (unit_values qt laws m described place) refl)
      ∙ check_automount_of qt mount_point place _ hp
