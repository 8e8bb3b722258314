-- ===== src/Verify/Runtime.antt =====
-- inspectRuntime: the automount, mount, verification and trust axes of one share, with
-- readRecordedAutomountId and uniqueMountId.
pub mod Closed
use kde_nasmount.Prelude.{
  ℕ, Bool, true, false, not, ◌&&◌, ◌||◌, Option, none, some, ◌++◌, ◌==◌, ltb, if◌then◌else◌,
}
use kde_nasmount.Qt.{Qt, trimmed}
use kde_nasmount.Text.{Text, codes, text_eq}
use kde_nasmount.Verify.Files.{Stat, is_unsafe}
use kde_nasmount.Verify.Mountinfo.{
  ℤ, MountState, VerificationState, MountClassification, unknown, parse_mountinfo,
  classify_mount_entries,
}

pub data AutomountState : Type 0 where
  inactive active indeterminate : AutomountState

pub data ActivationTrust : Type 0 where
  not_applicable trusted untrusted : ActivationTrust

pub record RuntimeSnapshot : Type 0 where
  pub automount : AutomountState
  pub mount : MountState
  pub verification : VerificationState
  pub activation_trust : ActivationTrust

-- The record of an automount id as open and fstat find it, with its content when it can be read.
pub record IdFile : Type 0 where
  pub stat : Option Stat
  pub size : ℕ
  pub content : Option Text

-- What the inspection asks of systemctl and of the kernel: `none` is a failed call.
pub record Observed : Type 0 where
  -- systemctl show UNIT --property=PROPERTY --value, trimmed
  pub systemctl_show : Text → Text → Option Text
  pub mountinfo : Option Text
  -- open(path, O_RDONLY | O_NOFOLLOW | O_CLOEXEC)
  pub open_id : Text → Option IdFile
  -- statx with STATX_MNT_ID_UNIQUE, when the kernel fills the id in
  pub statx_mount_id : Text → Option ℕ

-- The conversions of Qt that the inspection calls.
pub record Numbers : Type 0 where
  pub to_long_long : Text → Option ℤ
  pub to_unsigned_long_long : Text → Option ℕ

unfoldable pub or_zero : Option ℕ → ℕ
or_zero none = 0
or_zero (some n) = n

unfoldable pub unique_mount_id : Observed → Text → ℕ
unfolding or_zero
unique_mount_id sys path = or_zero (sys.statx_mount_id path)

abbrev pub automount_id_dir : Text
automount_id_dir = codes "/run/nasmount-ids"

abbrev pub max_id_file_bytes : ℕ
max_id_file_bytes = 32

unfoldable pub automount_axis : Option Text → AutomountState
unfolding text_eq
automount_axis none = AutomountState.indeterminate
automount_axis (some value) =
    if text_eq value (codes "active")
    then active
    else if text_eq value (codes "inactive") || text_eq value (codes "failed")
    then inactive
    else AutomountState.indeterminate

abbrev pub is_present : MountState → Bool
is_present MountState.present = true
is_present _ = false

-- the cross-check of mountinfo with the ActiveState of the mount unit
unfoldable pub cross_check : MountClassification → Option Text → MountClassification
unfolding text_eq
cross_check seen none = unknown
cross_check seen (some value) =
    if text_eq value (codes "active")
    then (if is_present seen.mount then seen else unknown)
    else if text_eq value (codes "inactive") || text_eq value (codes "failed")
    then (if is_present seen.mount then unknown else seen)
    else unknown

unfoldable pub trust_axis : AutomountState → ℕ → ℕ → ActivationTrust
trust_axis active recorded current =
    if not (recorded == 0) && (not (current == 0) && recorded == current)
    then trusted
    else untrusted
trust_axis _ _ _ = ActivationTrust.not_applicable

module _ (qt : Qt) (numbers : Numbers) where
  unfoldable pub id_of_file : Option IdFile → ℕ
  unfolding trimmed or_zero
  id_of_file none = 0
  id_of_file (some file) = elim (file.stat) [
    | none ↦ 0
    | some st ↦ if is_unsafe st || ltb max_id_file_bytes file.size then 0 else elim (file.content) [
      | none ↦ 0
      | some content ↦ or_zero (numbers.to_unsigned_long_long (trimmed qt content))
    ]
  ]

  unfoldable pub read_recorded_automount_id : Observed → Text → ℕ
  unfolding id_of_file
  read_recorded_automount_id sys unit_name =
      id_of_file (sys.open_id (automount_id_dir ++ (codes "/" ++ unit_name)))

  unfoldable pub mount_axes : Observed → Text → Text → Text → MountClassification
  unfolding classify_mount_entries parse_mountinfo cross_check
  mount_axes sys unit_name mount_point expected_what = elim (sys.mountinfo) [
    | none ↦ unknown
    | some content ↦
        cross_check
          (classify_mount_entries qt (parse_mountinfo numbers.to_long_long content) mount_point
            expected_what)
          (sys.systemctl_show (unit_name ++ codes ".mount") (codes "ActiveState"))
  ]

  unfoldable pub inspect_runtime : Observed → Text → Text → Text → RuntimeSnapshot
  unfolding automount_axis mount_axes trust_axis read_recorded_automount_id unique_mount_id
  inspect_runtime sys unit_name mount_point expected_what =
      let state =
        automount_axis
          (sys.systemctl_show (unit_name ++ codes ".automount") (codes "ActiveState")) in
      let seen = mount_axes sys unit_name mount_point expected_what in
      record {
        automount = state;
        mount = seen.mount;
        verification = seen.verification;
        activation_trust =
            trust_axis state (read_recorded_automount_id sys unit_name)
              (unique_mount_id sys mount_point);
      }
