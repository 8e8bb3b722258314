-- ===== src/Tests/Inspection.antt =====
-- Runs and instances for the inspection: unit files, scanned halves, mountinfo, runtime.
use kde_nasmount.Prelude.{Bool, true, false, some, List, [], ◌∷◌, ◌≡◌, refl, if◌then◌else◌}
use kde_nasmount.Text.{Text, codes, text_eq, chop_end}
use kde_nasmount.UnitValue.Access.{credentials, read_only}
use kde_nasmount.UnitValue.Paths.{UnitPaths, paths_of}
use kde_nasmount.Verify.Files.{
  Files, Stat, no_entry, descriptor, probe_unit_file, readable, drop_in_exists,
}
use kde_nasmount.Verify.Definition.{
  Definition, DefinitionCheck, inspect_definition, apply_marker, Reason,
}
use kde_nasmount.Verify.Definition.Defined.{inspect_definition-build}
use kde_nasmount.Verify.Definition.Verdict.{HasFields, IsPair, inspect_definition-IsPair}
use kde_nasmount.UnitValue.Marker.{Marker}
use kde_nasmount.Verify.Halves.{ScannedHalf, OwnedUnit, pair_scanned_halves}
use kde_nasmount.Verify.Halves.Distinct.{AllDistinct, pair_scanned_halves-AllDistinct}
use kde_nasmount.Verify.Mountinfo.{
  pos, MountEntry, MountState, VerificationState, classify_mount_entries,
}
use kde_nasmount.Verify.Mountinfo.{unescape_mountinfo_field}
use kde_nasmount.Verify.Mountinfo.Escape.{
  escape_mountinfo_field, unescape_mountinfo_field-escape_mountinfo_field,
}
use kde_nasmount.Tests.Setting.{
  qt, qt_laws, media, media-IsValidMarker, guest_share, nas, mount_dir, share_id,
}
use kde_nasmount.Tests.Core.{mount_unit, automount_unit, build_mount, build_automount, nas_again}

abbrev pub paths : UnitPaths
paths = paths_of (codes "mnt-media")

abbrev root_file : Stat
root_file = record { is_regular = true; uid = 0; group_writable = false; others_writable = false }

abbrev files : Files
files = record {
  open_no_follow = λ path.
      if text_eq path paths.mount_unit_path
      then descriptor (some root_file) (some mount_unit)
      else if text_eq path paths.automount_unit_path
      then descriptor (some root_file) (some automount_unit)
      else no_entry;
  entry_exists = λ path. false;
}

mount_probe : probe_unit_file files paths.mount_unit_path ≡ readable mount_unit
unfolding probe_unit_file text_eq
mount_probe = refl

automount_probe : probe_unit_file files paths.automount_unit_path ≡ readable automount_unit
unfolding probe_unit_file text_eq
automount_probe = refl

no_drop_in : (path : Text) → drop_in_exists files path ≡ false
unfolding drop_in_exists
no_drop_in path = refl

abbrev media_check : DefinitionCheck
media_check = record {
  state = Definition.pair;
  id = share_id;
  owner_uid = 1000;
  owner_gid = 1000;
  authentication = credentials;
  access = read_only;
  canonical_mount_point = mount_dir;
  mount_unit_name = codes "mnt-media.mount";
  automount_unit_name = codes "mnt-media.automount";
  what = nas;
  reason = Reason.no_reason;
}

inspect_definition-build_example : inspect_definition qt 1000 mount_dir files paths ≡ media_check
unfolding apply_marker
inspect_definition-build_example =
    inspect_definition-build qt qt_laws media nas mount_dir mount_unit automount_unit files paths
      media-IsValidMarker nas_again build_mount build_automount mount_probe automount_probe
      (no_drop_in paths.mount_unit_path) (no_drop_in paths.automount_unit_path)

media_seen : inspect_definition qt 1000 mount_dir files paths ≡ media_check
unfolding inspect_definition text_eq
media_seen = refl

inspect_definition-IsPair_example :
    (m : Marker) × HasFields m media_check × IsPair qt 1000 mount_dir files paths nas m
inspect_definition-IsPair_example =
    inspect_definition-IsPair qt 1000 mount_dir files paths media_check media_seen refl

abbrev half : Text → Bool → Marker → Text → ScannedHalf
half base mount_ m place = record {
  base_name = base;
  is_mount = mount_;
  marker = m;
  where_ = place;
  what = nas;
}

abbrev halves : List ScannedHalf
halves =
    half (codes "b") true media (codes "/mnt/b")
    ∷ half (codes "a") false media (codes "/mnt/a")
    ∷ half (codes "b") false media (codes "/mnt/b")
    ∷ half (codes "c") true guest_share (codes "/mnt/c")
    ∷ []

abbrev states : List OwnedUnit → List Definition
states [] = []
states (u ∷ us) = u.state ∷ states us

-- All three share one id, so none of them is trusted.
collided :
    states (pair_scanned_halves halves)
    ≡ Definition.tampered ∷ Definition.tampered ∷ Definition.tampered ∷ []
unfolding pair_scanned_halves
collided = refl

pair_scanned_halves-AllDistinct_example : AllDistinct (pair_scanned_halves halves)
pair_scanned_halves-AllDistinct_example = pair_scanned_halves-AllDistinct halves

abbrev trigger : MountEntry
trigger = record {
  mount_id = pos 40;
  parent_id = pos 22;
  mount_point = mount_dir;
  filesystem_type = codes "autofs";
  mount_source = codes "systemd-1";
}

abbrev share : MountEntry
share = record {
  mount_id = pos 41;
  parent_id = pos 40;
  mount_point = mount_dir;
  filesystem_type = codes "cifs";
  mount_source = nas;
}

classify_triggered :
    classify_mount_entries qt (trigger ∷ share ∷ []) mount_dir nas
    ≡ record { mount = MountState.present; verification = VerificationState.match_ }
unfolding classify_mount_entries chop_end
classify_triggered = refl

classify_idle :
    classify_mount_entries qt (trigger ∷ []) mount_dir nas
    ≡ record { mount = MountState.absent; verification = VerificationState.not_applicable }
unfolding classify_mount_entries chop_end
classify_idle = refl

escaped_run : escape_mountinfo_field (codes "/mnt/a b\\040") ≡ codes "/mnt/a\\040b\\134040"
unfolding escape_mountinfo_field
escaped_run = refl

unescape_mountinfo_field-escape_mountinfo_field_example :
    unescape_mountinfo_field (escape_mountinfo_field (codes "/mnt/a b\\040"))
    ≡ codes "/mnt/a b\\040"
unescape_mountinfo_field-escape_mountinfo_field_example =
    unescape_mountinfo_field-escape_mountinfo_field (codes "/mnt/a b\\040")
