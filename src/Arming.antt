-- ===== src/Arming.antt =====
-- root/arming.h and root/arming.cpp: the decisions before a stop and before arming, safeStop and
-- armShare. The error messages are left out, apart from whether the compensation left one.
pub mod Decisions
pub mod Compensation
pub mod Armed
use kde_nasmount.Prelude.{ℕ, Bool, true, false, not, ◌&&◌, ◌||◌, ◌++◌, ◌==◌, if◌then◌else◌}
use kde_nasmount.Qt.{Qt}
use kde_nasmount.Text.{Text, codes}
use kde_nasmount.UnitValue.Access.{AuthenticationKind, credentials, guest}
use kde_nasmount.UnitSpec.Mountpoint.{MountpointPlan}
use kde_nasmount.Verify.Mountinfo.{MountState, VerificationState}
use kde_nasmount.Verify.Runtime.{
  AutomountState, ActivationTrust, RuntimeSnapshot, Observed, Numbers, inspect_runtime,
  unique_mount_id,
}

pub data StopResult : Type 0 where
  stopped already_inactive busy correlation_mismatch indeterminate : StopResult

pub data StopPrecheck : Type 0 where
  should_stop already_inactive correlation_mismatch indeterminate : StopPrecheck

pub data PathPolicy : Type 0 where
  interactive_create boot_no_create : PathPolicy

pub data ArmPrecheck : Type 0 where
  ready_to_arm already_armed blocked : ArmPrecheck

pub data ArmShareOutcome : Type 0 where
  armed already_armed needs_attention : ArmShareOutcome

pub record ArmShareRequest : Type 0 where
  pub owner_uid : ℕ
  pub owner_gid : ℕ
  pub share_id : Text
  pub authentication : AuthenticationKind
  pub plan : MountpointPlan
  pub unit_name : Text
  pub what : Text
  pub path_policy : PathPolicy

pub record ArmShareResult : Type 0 where
  pub outcome : ArmShareOutcome
  pub definition_cleanup_safe : Bool

unfoldable pub is_indeterminate : RuntimeSnapshot → Bool
is_indeterminate snap =
    elim (snap.mount) [ MountState.indeterminate ↦ true | _ ↦ false ]
    || elim (snap.automount) [ AutomountState.indeterminate ↦ true | _ ↦ false ]

abbrev pub mount_present : MountState → Bool
mount_present MountState.present = true
mount_present _ = false

abbrev pub mount_absent : MountState → Bool
mount_absent MountState.absent = true
mount_absent _ = false

abbrev pub is_match : VerificationState → Bool
is_match VerificationState.match_ = true
is_match _ = false

abbrev pub automount_active : AutomountState → Bool
automount_active AutomountState.active = true
automount_active _ = false

abbrev pub automount_inactive : AutomountState → Bool
automount_inactive AutomountState.inactive = true
automount_inactive _ = false

abbrev pub is_trusted : ActivationTrust → Bool
is_trusted ActivationTrust.trusted = true
is_trusted _ = false

unfoldable pub evaluate_stop_precheck : RuntimeSnapshot → StopPrecheck
unfolding is_indeterminate
evaluate_stop_precheck snap =
    if is_indeterminate snap
    then StopPrecheck.indeterminate
    else if mount_present snap.mount
    then (if not (is_match snap.verification)
        then StopPrecheck.correlation_mismatch
        else should_stop)
    else if automount_active snap.automount
    then (if not (is_trusted snap.activation_trust)
        then StopPrecheck.correlation_mismatch
        else should_stop)
    else StopPrecheck.already_inactive

unfoldable pub evaluate_arm_precheck : RuntimeSnapshot → ArmPrecheck
unfolding is_indeterminate
evaluate_arm_precheck snap =
    if is_indeterminate snap
    then blocked
    else if mount_present snap.mount
    then blocked
    else if automount_active snap.automount
    then (if is_trusted snap.activation_trust then ArmPrecheck.already_armed else blocked)
    else ready_to_arm

-- The machine that the operations act on: its states, what the inspection sees of one, and the
-- calls of SystemdOps, RuntimeFiles, CredentialStore and the mount point walks, each with the state
-- it leaves and whether it succeeded.
pub record Machine (S : Type 0) : Type 0 where
  pub observe : S → Observed
  pub stop : Text → S → Bool × S
  pub start : Text → S → Bool × S
  pub write_automount_id : Text → ℕ → S → Bool × S
  pub remove_automount_id : Text → S → Bool × S
  pub credential_healthy : Text → S → Bool × S
  pub credential_absent : Text → S → Bool × S
  pub open_mountpoint_no_follow : MountpointPlan → ℕ → ℕ → S → Bool × S
  pub open_mountpoint_no_create : MountpointPlan → ℕ → ℕ → S → Bool × S

module _ {S : Type 0} (qt : Qt) (numbers : Numbers) (machine : Machine S) where
  unfoldable pub runtime_of : S → Text → Text → Text → RuntimeSnapshot
  unfolding inspect_runtime
  runtime_of s = inspect_runtime qt numbers (machine.observe s)

  unfoldable pub current_id : S → Text → ℕ
  unfolding unique_mount_id
  current_id s path = unique_mount_id (machine.observe s) path

  -- stopStartedAutomount. A failed removal of the record still counts as stopped.
  unfoldable pub stop_started_automount : Text → Text → Text → ℕ → S → Bool × S
  unfolding current_id
  stop_started_automount automount_unit unit_name mount_point started_id s =
      if started_id == 0
      then (false, s)
      else if current_id s mount_point == 0 || not (current_id s mount_point == started_id)
      then (false, s)
      else (let (ok_, s') = machine.stop automount_unit s in
          if not ok_ then (false, s') else (true, (machine.remove_automount_id unit_name s').1))

  unfoldable pub stop_both : Text → S → StopResult × S
  stop_both unit_name s =
      let (mount_ok, s') = machine.stop (unit_name ++ codes ".mount") s in
      let (automount_ok, s'') = machine.stop (unit_name ++ codes ".automount") s' in
      (if not mount_ok || not automount_ok then busy else stopped, s'')

  unfoldable pub safe_stop : Text → Text → Text → S → StopResult × S
  unfolding runtime_of evaluate_stop_precheck stop_both
  safe_stop unit_name mount_point expected_what s =
      elim (evaluate_stop_precheck (runtime_of s unit_name mount_point expected_what)) [
        | StopPrecheck.indeterminate ↦ (StopResult.indeterminate, s)
        | StopPrecheck.correlation_mismatch ↦ (StopResult.correlation_mismatch, s)
        | StopPrecheck.already_inactive ↦ (StopResult.already_inactive, s)
        | should_stop ↦ stop_both unit_name s
      ]

  -- `fail` before anything was started, with the flag as it stands
  abbrev pub failed : Bool → S → ArmShareResult × S
  failed safe s = (record { outcome = needs_attention; definition_cleanup_safe = safe }, s)

  unfoldable pub automount_unit_of : ArmShareRequest → Text
  automount_unit_of req = req.unit_name ++ codes ".automount"

  -- `fail` after the start
  unfoldable pub compensate : ArmShareRequest → ℕ → S → ArmShareResult × S
  unfolding stop_started_automount automount_unit_of
  compensate req started_id s =
      let (stopped_, s') =
        stop_started_automount (automount_unit_of req) req.unit_name req.plan.path started_id s in
      failed stopped_ s'

  unfoldable pub start_failed : ArmShareRequest → RuntimeSnapshot → S → ArmShareResult × S
  unfolding compensate current_id
  start_failed req after s =
      if automount_active after.automount && mount_absent after.mount
      then compensate req (current_id s req.plan.path) s
      else failed (automount_inactive after.automount && mount_absent after.mount) s

  unfoldable pub record_instance : ArmShareRequest → ℕ → S → ArmShareResult × S
  unfolding compensate
  record_instance req started_id s =
      if started_id == 0
      then compensate req started_id s
      else (let (written, s') = machine.write_automount_id req.unit_name started_id s in
          if not written
          then compensate req started_id s'
          else (record { outcome = armed; definition_cleanup_safe = true }, s'))

  unfoldable pub start_trigger : ArmShareRequest → S → ArmShareResult × S
  unfolding runtime_of current_id start_failed record_instance automount_unit_of
  start_trigger req s =
      let (ok_, s') = machine.start (automount_unit_of req) s in
      if not ok_
      then start_failed req (runtime_of s' req.unit_name req.plan.path req.what) s'
      else record_instance req (current_id s' req.plan.path) s'

  unfoldable pub check_credential : ArmShareRequest → S → Bool × S
  check_credential req s = elim (req.authentication) [
    | credentials ↦ machine.credential_healthy req.share_id s
    | guest ↦ machine.credential_absent req.share_id s
  ]

  unfoldable pub open_mountpoint : ArmShareRequest → S → Bool × S
  open_mountpoint req s = elim (req.path_policy) [
    | interactive_create ↦ machine.open_mountpoint_no_follow req.plan req.owner_uid req.owner_gid s
    | boot_no_create ↦ machine.open_mountpoint_no_create req.plan req.owner_uid req.owner_gid s
  ]

  -- what armShare does once the runtime allows it
  unfoldable pub arm_ready : ArmShareRequest → S → ArmShareResult × S
  unfolding check_credential open_mountpoint start_trigger
  arm_ready req s =
      let (credential_ok, s') = check_credential req s in
      let (opened, s'') = open_mountpoint req s' in
      if not credential_ok
      then failed true s'
      else if not opened
      then failed true s''
      else start_trigger req s''

  unfoldable pub arm_share : ArmShareRequest → S → ArmShareResult × S
  unfolding runtime_of evaluate_arm_precheck arm_ready
  arm_share req s =
      elim (evaluate_arm_precheck (runtime_of s req.unit_name req.plan.path req.what)) [
        | blocked ↦ failed true s
        | ArmPrecheck.already_armed ↦
            (record { outcome = ArmShareOutcome.already_armed; definition_cleanup_safe = true }, s)
        | ready_to_arm ↦ arm_ready req s
      ]
