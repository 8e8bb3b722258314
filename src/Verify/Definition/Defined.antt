-- ===== src/Verify/Definition/Defined.antt =====
-- The pair of unit files that defining a share writes, seen by the inspection.
use kde_nasmount.Prelude.{true, false, [], ◌≡◌, ◌∙◌, ok, ==_refl}
use kde_nasmount.Qt.{Qt, QtLaws}
use kde_nasmount.Text.{Text}
use kde_nasmount.UnitValue.Marker.{Marker, parse_marker, has_marker, IsValidMarker}
use kde_nasmount.UnitValue.Marker.Present.{parse_marker-has_marker}
use kde_nasmount.UnitValue.Paths.{UnitPaths}
use kde_nasmount.UnitSpec.Unc.{validate_unc}
use kde_nasmount.UnitSpec.Template.{
  build_mount_unit_content, build_automount_unit_content, validate_mount_unit_body,
  validate_automount_unit_body,
}
use kde_nasmount.UnitSpec.Template.Generated.{
  parse_marker-build_mount, parse_marker-build_automount,
}
use kde_nasmount.UnitSpec.Template.SelfValid.{validate-build_mount, validate-build_automount}
use kde_nasmount.Verify.Files.{Files, readable, probe_unit_file, drop_in_exists}
use kde_nasmount.Verify.Definition.{
  Definition, SideCheck, valid, parse_owned_marker, blank_check, apply_marker, combine_sides,
  decide_sides, marker_side, mount_side, automount_side, checked_mount, checked_automount,
  evaluate_side, evaluate_mount_side, evaluate_automount_side, inspect_probes, inspect_definition,
}
use kde_nasmount.Verify.Definition.Pair.{marker_eq_refl, evaluate_readable_lem}

module _ (qt : Qt) (laws : QtLaws qt) (m : Marker)
    (unc mount_point mount_content automount_content : Text) where
  parse_owned_marker_of :
      (content : Text)
      → has_marker content ≡ true
      → parse_marker content ≡ ok m
      → parse_owned_marker content m.owner_uid ≡ ok m
  unfolding parse_owned_marker
  parse_owned_marker_of content h p = rw (h, p, ==_refl m.owner_uid)

  evaluate_side_of :
      (body : Text → Marker → SideCheck) (content what : Text)
      → has_marker content ≡ true
      → parse_marker content ≡ ok m
      → body content m ≡ valid m what
      → evaluate_side qt m.owner_uid mount_point body (readable content) ≡ valid m what
  unfolding marker_side
  evaluate_side_of body content what h p b =
      evaluate_readable_lem qt m.owner_uid mount_point body content
      ∙ rw (h, parse_owned_marker_of content h p) b

  inspect_of :
      (files : Files) (paths : UnitPaths)
      → probe_unit_file files paths.mount_unit_path ≡ readable mount_content
      → probe_unit_file files paths.automount_unit_path ≡ readable automount_content
      → drop_in_exists files paths.mount_unit_path ≡ false
      → drop_in_exists files paths.automount_unit_path ≡ false
      → evaluate_mount_side qt m.owner_uid mount_point (readable mount_content) ≡ valid m unc
      → evaluate_automount_side qt m.owner_uid mount_point (readable automount_content) ≡ valid m []
      → inspect_definition qt m.owner_uid mount_point files paths
        ≡ record (apply_marker m (blank_check paths.unit_name mount_point)) {
          state = Definition.pair;
          what = unc;
        }
  unfolding inspect_definition inspect_probes decide_sides combine_sides
  inspect_of files paths pm pa dm da em ea = rw (pm, pa, dm, da, em, ea, marker_eq_refl m)

  checked_mount_of :
      validate_mount_unit_body qt mount_content m mount_point ≡ ok unc
      → checked_mount qt m.owner_uid mount_point mount_content m ≡ valid m unc
  unfolding checked_mount mount_side
  checked_mount_of h = rw h

  checked_automount_of :
      validate_automount_unit_body qt automount_content m mount_point ≡ ok tt
      → checked_automount qt m.owner_uid mount_point automount_content m ≡ valid m []
  unfolding checked_automount automount_side
  checked_automount_of h = rw h

  evaluate_mount_of :
      parse_marker mount_content ≡ ok m
      → validate_mount_unit_body qt mount_content m mount_point ≡ ok unc
      → evaluate_mount_side qt m.owner_uid mount_point (readable mount_content) ≡ valid m unc
  unfolding evaluate_mount_side
  evaluate_mount_of p h =
      evaluate_side_of (checked_mount qt m.owner_uid mount_point) mount_content unc
        (parse_marker-has_marker mount_content m p) p (checked_mount_of h)

  evaluate_automount_of :
      parse_marker automount_content ≡ ok m
      → validate_automount_unit_body qt automount_content m mount_point ≡ ok tt
      → evaluate_automount_side qt m.owner_uid mount_point (readable automount_content) ≡ valid m []
  unfolding evaluate_automount_side
  evaluate_automount_of p h =
      evaluate_side_of (checked_automount qt m.owner_uid mount_point) automount_content []
        (parse_marker-has_marker automount_content m p) p (checked_automount_of h)

  -- When the two unit files hold what is built for a valid marker, a validated path and a mount
  -- point, are read safely and have no drop-in, the inspection for the marker's owner gives the
  -- verdict Pair, with the marker's fields, the path and no reason.
  pub inspect_definition-build :
      (files : Files) (paths : UnitPaths)
      → IsValidMarker m
      → validate_unc unc ≡ ok unc
      → build_mount_unit_content qt m unc mount_point ≡ ok mount_content
      → build_automount_unit_content qt m mount_point ≡ ok automount_content
      → probe_unit_file files paths.mount_unit_path ≡ readable mount_content
      → probe_unit_file files paths.automount_unit_path ≡ readable automount_content
      → drop_in_exists files paths.mount_unit_path ≡ false
      → drop_in_exists files paths.automount_unit_path ≡ false
      → inspect_definition qt m.owner_uid mount_point files paths
        ≡ record (apply_marker m (blank_check paths.unit_name mount_point)) {
          state = Definition.pair;
          what = unc;
        }
  inspect_definition-build files paths v u bm ba pm pa dm da =
      inspect_of files paths pm pa dm da
        (evaluate_mount_of (parse_marker-build_mount qt laws m unc mount_point mount_content v bm)
          (validate-build_mount qt laws m unc mount_point mount_content v u bm))
        (evaluate_automount_of
          (parse_marker-build_automount qt laws m mount_point automount_content v ba)
          (validate-build_automount qt laws m mount_point automount_content v ba))
