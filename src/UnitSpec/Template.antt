-- ===== src/UnitSpec/Template.antt =====
-- The restricted template of the two unit files: buildMountUnitContent, buildAutomountUnitContent,
-- and the validators validateMountUnitBody and validateAutomountUnitBody with their helpers.
pub mod Section
pub mod Layout
pub mod Generated
pub mod Continuation
pub mod Accepts
pub mod SelfValid
pub mod Strict
use kde_nasmount.Prelude.{
  ℕ, Bool, true, false, not, ◌&&◌, ◌||◌, Option, none, some, List, [], ◌∷◌, ◌++◌, ◌==◌,
  if◌then◌else◌, Result, ok, err, ◌>>=◌, ◌>>◌,
}
use kde_nasmount.Qt.{Qt}
use kde_nasmount.Text.{Text, codes, line_feed, text_eq, ends_with}
use kde_nasmount.Text.Percent.{undouble_percent}
use kde_nasmount.Text.Split.{split}
use kde_nasmount.UnitValue.Encode.{EncodeError, encode_unit_value}
use kde_nasmount.UnitValue.Marker.{Marker, marker_comment}
use kde_nasmount.UnitSpec.Unc.{UncError, validate_unc}
use kde_nasmount.UnitSpec.Options.{mount_options_for}
use kde_nasmount.UnitSpec.Template.Section.{
  SectionError, Values, value_lookup, has_value, extract_section_assignments,
}

pub data TemplateError : Type 0 where
  line_continuation not_cifs unexpected_timeout where_disagrees options_mismatch : TemplateError
  condition_disagrees unexpected_idle_timeout unexpected_directory_mode : TemplateError
  section_error : SectionError → TemplateError
  missing_directive : Text → TemplateError
  invalid_what : UncError → TemplateError
  encoding_error : EncodeError → TemplateError

-- A step with errors of its own inside a validator.
abbrev pub lift {ℓ κ ν} : {E : Type ℓ} {F : Type κ} {A : Type ν} → (E → F) → Result E A → Result F A
lift f (ok a) = ok a
lift f (err e) = err (f e)

abbrev pub guard : Bool → TemplateError → Result TemplateError (Unit {0})
guard true e = ok tt
guard false e = err e

any_continued : List Text → Bool
any_continued [] = false
any_continued (l ∷ ls) = ends_with l b'\\' || any_continued ls

unfoldable pub has_line_continuation : Text → Bool
unfolding split ends_with any_continued
has_line_continuation content = any_continued (split line_feed content)

-- `for (key : allowed) if (!values.contains(key))`
unfoldable pub check_present : List Text → Values → Result TemplateError (Unit {0})
unfolding has_value
check_present [] values = ok tt
check_present (key ∷ keys) values = do
  guard (has_value key values) (missing_directive key)
  check_present keys values

abbrev pub mount_keys : List Text
mount_keys = codes "What" ∷ codes "Where" ∷ codes "Type" ∷ codes "Options" ∷ codes "TimeoutSec" ∷ []

abbrev pub automount_keys : List Text
automount_keys = codes "Where" ∷ codes "TimeoutIdleSec" ∷ codes "DirectoryMode" ∷ []

abbrev pub unit_keys : List Text
unit_keys = codes "Description" ∷ codes "ConditionPathIsDirectory" ∷ []

abbrev pub managed_line : Text
managed_line = codes "# Managed by nasmount — do not edit by hand; use the KCM or the dialog.\n"

module _ (qt : Qt) where
  unfoldable pub build_mount_unit_content : Marker → Text → Text → Result EncodeError Text
  unfolding encode_unit_value marker_comment mount_options_for
  build_mount_unit_content marker unc mount_point = do
    what ← encode_unit_value qt unc
    place ← encode_unit_value qt mount_point
    options ← encode_unit_value qt (mount_options_for marker)
    ok (
        managed_line
        ++ (marker_comment marker
            ++ (codes "[Unit]\nDescription=nasmount: "
                ++ (qt.html_escaped unc
                    ++ (codes "\n\n[Mount]\nWhat="
                        ++ (what
                            ++ (codes "\nWhere="
                                ++ (place
                                    ++ (codes "\nType=cifs\nOptions="
                                        ++ (options ++ codes "\nTimeoutSec=30\n"))))))))))

  unfoldable pub build_automount_unit_content : Marker → Text → Result EncodeError Text
  unfolding encode_unit_value marker_comment
  build_automount_unit_content marker mount_point = do
    place ← encode_unit_value qt mount_point
    ok (
        managed_line
        ++ (marker_comment marker
            ++ (codes "[Unit]\nDescription=nasmount automount: "
                ++ (qt.html_escaped mount_point
                    ++ (codes "\nConditionPathIsDirectory="
                        ++ (place
                            ++ (codes "\n\n[Automount]\nWhere="
                                ++ (place
                                    ++ codes "\nTimeoutIdleSec=60\nDirectoryMode=0700\n"))))))))

  -- the checks on the values of [Mount], in their order
  unfoldable pub check_mount_values : Marker → Text → Values → Result TemplateError Text
  unfolding check_present text_eq undouble_percent validate_unc mount_options_for encode_unit_value
      value_lookup
  check_mount_values marker canonical_mount_point values = do
    check_present mount_keys values
    guard (text_eq (value_lookup (codes "Type") values) (codes "cifs")) not_cifs
    guard (text_eq (value_lookup (codes "TimeoutSec") values) (codes "30")) unexpected_timeout
    guard (text_eq (undouble_percent (value_lookup (codes "Where") values)) canonical_mount_point)
        where_disagrees
    let decoded_unc = undouble_percent (value_lookup (codes "What") values)
    normalised ← lift invalid_what (validate_unc decoded_unc)
    expected ← lift encoding_error (encode_unit_value qt (mount_options_for marker))
    guard (text_eq (value_lookup (codes "Options") values) expected) options_mismatch
    ok decoded_unc

  unfoldable pub validate_mount_unit_body : Text → Marker → Text → Result TemplateError Text
  unfolding has_line_continuation extract_section_assignments check_mount_values
  validate_mount_unit_body content marker canonical_mount_point = do
    guard (not (has_line_continuation content)) line_continuation
    values ← lift section_error (extract_section_assignments qt content (codes "Mount") mount_keys)
    check_mount_values marker canonical_mount_point values

  -- the checks on the values of [Automount] and [Unit], in their order
  unfoldable pub check_automount_values : Text → Values → Values → Result TemplateError (Unit {0})
  unfolding text_eq encode_unit_value value_lookup has_value
  check_automount_values canonical_mount_point values unit_values = do
    guard (has_value (codes "ConditionPathIsDirectory") unit_values)
        (missing_directive (codes "ConditionPathIsDirectory"))
    expected ← lift encoding_error (encode_unit_value qt canonical_mount_point)
    guard (text_eq (value_lookup (codes "Where") values) expected) where_disagrees
    guard (text_eq (value_lookup (codes "ConditionPathIsDirectory") unit_values) expected)
        condition_disagrees
    guard (text_eq (value_lookup (codes "TimeoutIdleSec") values) (codes "60"))
        unexpected_idle_timeout
    guard (text_eq (value_lookup (codes "DirectoryMode") values) (codes "0700"))
        unexpected_directory_mode

  -- The marker is not used (Q_UNUSED).
  unfoldable pub validate_automount_unit_body :
      Text → Marker → Text → Result TemplateError (Unit {0})
  unfolding has_line_continuation extract_section_assignments check_present check_automount_values
  validate_automount_unit_body content marker canonical_mount_point = do
    guard (not (has_line_continuation content)) line_continuation
    values ←
        lift section_error
          (extract_section_assignments qt content (codes "Automount") automount_keys)
    check_present automount_keys values
    unit_values ←
        lift section_error (extract_section_assignments qt content (codes "Unit") unit_keys)
    check_automount_values canonical_mount_point values unit_values
