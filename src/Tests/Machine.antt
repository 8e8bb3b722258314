-- ===== src/Tests/Machine.antt =====
-- Runs and instances for the runtime inspection and for arming, on a small machine.
use kde_nasmount.Prelude.{
  Bool, true, false, none, some, [], ◌∷◌, ◌++◌, ◌≡◌, ◌≢◌, ◌↔◌, refl, if◌then◌else◌,
}
use kde_nasmount.Text.{Text, codes, text_eq, chop_end}
use kde_nasmount.Text.Decimal.{to_uint}
use kde_nasmount.UnitValue.Access.{credentials}
use kde_nasmount.UnitSpec.Mountpoint.{MountpointPlan}
use kde_nasmount.Verify.Files.{Stat}
use kde_nasmount.Verify.Mountinfo.{pos, MountState, VerificationState}
use kde_nasmount.Verify.Runtime.{
  Numbers, Observed, RuntimeSnapshot, AutomountState, ActivationTrust, inspect_runtime,
  read_recorded_automount_id, unique_mount_id,
}
use kde_nasmount.Verify.Runtime.Closed.{
  active_state, SaysInactive, classified, inspect_runtime-present, inspect_runtime-absent,
  inspect_runtime-trusted,
}
use kde_nasmount.Arming.{
  Machine, ArmShareRequest, should_stop, boot_no_create, needs_attention, armed,
  evaluate_stop_precheck, runtime_of, safe_stop, arm_share,
}
use kde_nasmount.Arming.Decisions.{
  MayStop, evaluate_stop_precheck_iff, SafelyStopped, safe_stop-SafelyStopped,
}
use kde_nasmount.Arming.Armed.{IsArmed, arm_share-IsArmed}
use kde_nasmount.Arming.Compensation.{SafeReason, arm_share-SafeReason}
use kde_nasmount.Tests.Setting.{qt, share_id}

abbrev pub numbers : Numbers
numbers = record {
  to_long_long = λ t. elim (to_uint t) [ none ↦ none | some n ↦ some (pos n) ];
  to_unsigned_long_long = to_uint;
}

abbrev pub name : Text
name = codes "mnt-media"

abbrev pub point : Text
point = codes "/mnt/media"

abbrev pub source : Text
source = codes "//nas/media"

abbrev trigger_line : Text
trigger_line = codes "40 22 0:50 / /mnt/media rw,relatime shared:9 - autofs systemd-1 rw,fd=60\n"

abbrev share_line : Text
share_line = codes "41 40 0:51 / /mnt/media rw - cifs //nas/media rw,vers=3.1.1\n"

abbrev pub root_file : Stat
root_file = record { is_regular = true; uid = 0; group_writable = false; others_writable = false }

-- the automount unit and the mount unit as systemd holds them, and the mountinfo
abbrev observed : Bool → Bool → Text → Observed
observed automount mounted info = record {
  systemctl_show = λ unit property.
      if text_eq unit (codes "mnt-media.mount")
      then some (if mounted then codes "active" else codes "inactive")
      else some (if automount then codes "active" else codes "inactive");
  mountinfo = some info;
  open_id =
      λ path. some (record { stat = some root_file; size = 3; content = some (codes "77\n") });
  statx_mount_id = λ path. some 77;
}

abbrev triggered : Observed
triggered = observed true true (trigger_line ++ share_line)

abbrev pub idle : Observed
idle = observed true false trigger_line

abbrev pub nothing : Observed
nothing = observed false false []

snapshot_triggered : inspect_runtime qt numbers triggered name point source ≡ record {
  automount = AutomountState.active;
  mount = MountState.present;
  verification = VerificationState.match_;
  activation_trust = ActivationTrust.trusted;
}
unfolding inspect_runtime chop_end to_uint
snapshot_triggered = refl

snapshot_idle : inspect_runtime qt numbers idle name point source ≡ record {
  automount = AutomountState.active;
  mount = MountState.absent;
  verification = VerificationState.not_applicable;
  activation_trust = ActivationTrust.trusted;
}
unfolding inspect_runtime chop_end to_uint
snapshot_idle = refl

triggered_present :
    (inspect_runtime qt numbers triggered name point source).mount ≡ MountState.present
unfolding inspect_runtime chop_end to_uint
triggered_present = refl

idle_absent : (inspect_runtime qt numbers idle name point source).mount ≡ MountState.absent
unfolding inspect_runtime chop_end to_uint
idle_absent = refl

idle_trusted :
    (inspect_runtime qt numbers idle name point source).activation_trust ≡ ActivationTrust.trusted
unfolding inspect_runtime to_uint
idle_trusted = refl

inspect_runtime-present_example :
    (content : Text) × (triggered.mountinfo ≡ some content)
    × (active_state triggered (name ++ codes ".mount") ≡ some (codes "active"))
    × ((classified qt numbers triggered name point source content).mount ≡ MountState.present)
    × ((inspect_runtime qt numbers triggered name point source).verification
        ≡ (classified qt numbers triggered name point source content).verification)
inspect_runtime-present_example =
    inspect_runtime-present qt numbers triggered name point source triggered_present

inspect_runtime-absent_example :
    (content : Text) × (idle.mountinfo ≡ some content)
    × SaysInactive (active_state idle (name ++ codes ".mount"))
    × ((classified qt numbers idle name point source content).mount ≡ MountState.absent)
inspect_runtime-absent_example =
    inspect_runtime-absent qt numbers idle name point source idle_absent

inspect_runtime-trusted_example :
    (active_state idle (name ++ codes ".automount") ≡ some (codes "active"))
    × (read_recorded_automount_id qt numbers idle name ≡ unique_mount_id idle point)
    × (read_recorded_automount_id qt numbers idle name ≢ 0)
inspect_runtime-trusted_example =
    inspect_runtime-trusted qt numbers idle name point source idle_trusted

abbrev armed_snapshot : RuntimeSnapshot
armed_snapshot = record {
  automount = AutomountState.active;
  mount = MountState.absent;
  verification = VerificationState.not_applicable;
  activation_trust = ActivationTrust.trusted;
}

evaluate_stop_precheck_iff_example :
    (evaluate_stop_precheck armed_snapshot ≡ should_stop) ↔ MayStop armed_snapshot
evaluate_stop_precheck_iff_example = evaluate_stop_precheck_iff armed_snapshot

-- A machine whose state says whether the trigger is active; the record of its id cannot be written.
abbrev machine : Machine Bool
machine = record {
  observe = λ s. if s then idle else nothing;
  stop = λ unit s. (true, false);
  start = λ unit s. (true, true);
  write_automount_id = λ unit id s. (false, s);
  remove_automount_id = λ unit s. (true, s);
  credential_healthy = λ id s. (true, s);
  credential_absent = λ id s. (true, s);
  open_mountpoint_no_follow = λ plan uid gid s. (true, s);
  open_mountpoint_no_create = λ plan uid gid s. (true, s);
}

safe_stop-SafelyStopped_example :
    SafelyStopped qt numbers machine name
      (runtime_of qt numbers machine true name point source)
      true
      (safe_stop qt numbers machine name point source true)
safe_stop-SafelyStopped_example = safe_stop-SafelyStopped qt numbers machine name point source true

abbrev plan : MountpointPlan
plan = record { path = point; root = codes "/mnt"; suffix = codes "media" ∷ [] }

abbrev request : ArmShareRequest
request = record {
  owner_uid = 1000;
  owner_gid = 1000;
  share_id = share_id;
  authentication = credentials;
  plan = plan;
  unit_name = name;
  what = source;
  path_policy = boot_no_create;
}

-- The trigger is started, its id cannot be recorded, and it is stopped again.
arm_fails :
    arm_share qt numbers machine request false
    ≡ (record { outcome = needs_attention; definition_cleanup_safe = true }, false)
unfolding arm_share chop_end to_uint
arm_fails = refl

arm_needs_attention : (arm_share qt numbers machine request false).0.outcome ≡ needs_attention
unfolding arm_share chop_end to_uint
arm_needs_attention = refl

arm_cleanup_safe : (arm_share qt numbers machine request false).0.definition_cleanup_safe ≡ true
unfolding arm_share chop_end to_uint
arm_cleanup_safe = refl

arm_share-SafeReason_example :
    SafeReason qt numbers machine request false (arm_share qt numbers machine request false).1
arm_share-SafeReason_example =
    arm_share-SafeReason qt numbers machine request false arm_needs_attention arm_cleanup_safe

-- The machine on which the id can be recorded.
abbrev recording : Machine Bool
recording = record machine { write_automount_id = λ unit id s. (true, s) }

arm_succeeds : (arm_share qt numbers recording request false).0.outcome ≡ armed
unfolding arm_share chop_end to_uint
arm_succeeds = refl

arm_share-IsArmed_example :
    IsArmed qt numbers recording request false (arm_share qt numbers recording request false).1
arm_share-IsArmed_example = arm_share-IsArmed qt numbers recording request false arm_succeeds
