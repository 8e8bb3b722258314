-- ===== src/Verify/Definition.antt =====
-- inspectDefinition: what the pair of unit files of one share is. The human-readable detail that
-- goes with each reason is left out.
pub mod Pair
pub mod Verdict
pub mod Defined
use kde_nasmount.Prelude.{
  ℕ, Bool, true, false, not, ◌&&◌, ◌||◌, [], ◌++◌, ◌==◌, if◌then◌else◌, Result, ok, err,
}
use kde_nasmount.Qt.{Qt}
use kde_nasmount.Text.{Text, codes, text_eq}
use kde_nasmount.UnitValue.Access.{
  AuthenticationKind, credentials, guest, AccessMode, read_write, read_only, read_write_executable,
}
use kde_nasmount.UnitValue.Marker.{Marker, parse_marker, has_marker}
use kde_nasmount.UnitValue.Paths.{UnitPaths}
use kde_nasmount.UnitSpec.Template.{
  TemplateError, validate_mount_unit_body, validate_automount_unit_body,
}
use kde_nasmount.Verify.Files.{
  Files, FileProbe, probe_unit_file, probe_content, drop_in_exists, is_missing, is_tampered,
}

pub data Definition : Type 0 where
  none pair partial tampered not_ours : Definition

-- The values of `reason`; `no_reason` is the empty text.
pub data Reason : Type 0 where
  no_reason unsafe_file drop_in_present marker_or_body_invalid is_not_ours : Reason
  pair_marker_mismatch is_partial : Reason

pub record DefinitionCheck : Type 0 where
  pub state : Definition
  pub id : Text
  pub owner_uid : ℕ
  pub owner_gid : ℕ
  pub authentication : AuthenticationKind
  pub access : AccessMode
  pub canonical_mount_point : Text
  pub mount_unit_name : Text
  pub automount_unit_name : Text
  pub what : Text
  pub reason : Reason

abbrev pub same_authentication : AuthenticationKind → AuthenticationKind → Bool
same_authentication credentials credentials = true
same_authentication guest guest = true
same_authentication _ _ = false

abbrev pub same_access : AccessMode → AccessMode → Bool
same_access read_write read_write = true
same_access read_only read_only = true
same_access read_write_executable read_write_executable = true
same_access _ _ = false

-- Marker::operator==
unfoldable pub marker_eq : Marker → Marker → Bool
unfolding text_eq
marker_eq m other =
    m.owner_uid == other.owner_uid
    && (m.owner_gid == other.owner_gid
        && (text_eq m.id other.id
            && (same_authentication m.authentication other.authentication
                && same_access m.access other.access)))

-- SideCheck: the marker and What= are set when the state is Valid.
pub data SideCheck : Type 0 where
  not_present no_marker broken : SideCheck
  valid : Marker → Text → SideCheck

unfoldable pub parse_owned_marker : Text → ℕ → Result (Unit {0}) Marker
unfolding has_marker parse_marker
parse_owned_marker content expected_uid =
    if not (has_marker content) then err tt else elim (parse_marker content) [
      | err e ↦ err tt
      | ok m ↦ if m.owner_uid == expected_uid then ok m else err tt
    ]

abbrev pub is_broken : SideCheck → Bool
is_broken broken = true
is_broken _ = false

abbrev pub is_no_marker : SideCheck → Bool
is_no_marker no_marker = true
is_no_marker _ = false

abbrev pub side_what : SideCheck → Text
side_what (valid _ what) = what
side_what _ = []

-- the default values of DefinitionCheck and the names that are set first
abbrev pub blank_check : Text → Text → DefinitionCheck
blank_check unit_name mount_point = record {
  state = none;
  id = [];
  owner_uid = 0;
  owner_gid = 0;
  authentication = credentials;
  access = read_write;
  canonical_mount_point = mount_point;
  mount_unit_name = unit_name ++ codes ".mount";
  automount_unit_name = unit_name ++ codes ".automount";
  what = [];
  reason = no_reason;
}

unfoldable pub apply_marker : Marker → DefinitionCheck → DefinitionCheck
apply_marker m check = record check {
  id = m.id;
  owner_uid = m.owner_uid;
  owner_gid = m.owner_gid;
  authentication = m.authentication;
  access = m.access;
}

abbrev pub verdict : Definition → Reason → DefinitionCheck → DefinitionCheck
verdict d r check = record check { state = d; reason = r }

-- what follows the tests for a broken or an unmarked side
unfoldable pub combine_sides : SideCheck → SideCheck → DefinitionCheck → DefinitionCheck
unfolding marker_eq apply_marker
combine_sides (valid m what) (valid am _) check =
    if not (marker_eq m am)
    then verdict tampered pair_marker_mismatch check
    else record (apply_marker m check) { state = pair; what = what }
combine_sides (valid m what) _ check = record (verdict partial is_partial (apply_marker m check)) {
  what = what;
}
combine_sides _ (valid am _) check = verdict partial is_partial (apply_marker am check)
combine_sides _ _ check = check

unfoldable pub decide_sides : SideCheck → SideCheck → DefinitionCheck → DefinitionCheck
unfolding combine_sides
decide_sides mount automount check =
    if is_broken mount || is_broken automount
    then verdict tampered marker_or_body_invalid check
    else if is_no_marker mount || is_no_marker automount
    then verdict not_ours is_not_ours check
    else combine_sides mount automount check

-- the outcome of the marker, then that of the body
unfoldable pub marker_side : Result (Unit {0}) Marker → (Marker → SideCheck) → SideCheck
marker_side (err _) body = broken
marker_side (ok m) body = body m

unfoldable pub mount_side : Marker → Result TemplateError Text → SideCheck
mount_side m (err _) = broken
mount_side m (ok what) = valid m what

unfoldable pub automount_side : Marker → Result TemplateError (Unit {0}) → SideCheck
automount_side m (err _) = broken
automount_side m (ok _) = valid m []

module _ (qt : Qt) (expected_uid : ℕ) (canonical_mount_point : Text) where
  unfoldable pub checked_mount : Text → Marker → SideCheck
  unfolding validate_mount_unit_body mount_side
  checked_mount content m =
      mount_side m (validate_mount_unit_body qt content m canonical_mount_point)

  unfoldable pub checked_automount : Text → Marker → SideCheck
  unfolding validate_automount_unit_body automount_side
  checked_automount content m =
      automount_side m (validate_automount_unit_body qt content m canonical_mount_point)

  -- both evaluators up to the validation of the body
  unfoldable pub evaluate_side : (Text → Marker → SideCheck) → FileProbe → SideCheck
  unfolding has_marker parse_owned_marker marker_side
  evaluate_side body probe =
      if is_missing probe
      then not_present
      else if not (has_marker (probe_content probe))
      then no_marker
      else marker_side (parse_owned_marker (probe_content probe) expected_uid)
          (body (probe_content probe))

  unfoldable pub evaluate_mount_side : FileProbe → SideCheck
  unfolding evaluate_side checked_mount
  evaluate_mount_side = evaluate_side checked_mount

  unfoldable pub evaluate_automount_side : FileProbe → SideCheck
  unfolding evaluate_side checked_automount
  evaluate_automount_side = evaluate_side checked_automount

  unfoldable pub inspect_probes : Text → FileProbe → FileProbe → Bool → DefinitionCheck
  unfolding evaluate_mount_side evaluate_automount_side decide_sides
  inspect_probes unit_name mount_probe automount_probe drop_in =
      if is_tampered mount_probe || is_tampered automount_probe
      then verdict tampered unsafe_file (blank_check unit_name canonical_mount_point)
      else if drop_in
      then verdict tampered drop_in_present (blank_check unit_name canonical_mount_point)
      else if is_missing mount_probe && is_missing automount_probe
      then blank_check unit_name canonical_mount_point
      else decide_sides (evaluate_mount_side mount_probe) (evaluate_automount_side automount_probe)
          (blank_check unit_name canonical_mount_point)

  unfoldable pub inspect_definition : Files → UnitPaths → DefinitionCheck
  unfolding probe_unit_file drop_in_exists inspect_probes
  inspect_definition files paths =
      inspect_probes paths.unit_name (probe_unit_file files paths.mount_unit_path)
        (probe_unit_file files paths.automount_unit_path)
        (drop_in_exists files paths.mount_unit_path
          || drop_in_exists files paths.automount_unit_path)
