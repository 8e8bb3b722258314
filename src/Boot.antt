-- ===== src/Boot.antt =====
-- boot/main.cpp: every managed pair of every owner is armed once at boot. What is logged is left out.
pub mod Handler
pub mod Attempted
pub mod Authorized
use kde_nasmount.Prelude.{
  ℕ, ◌+◌, Bool, true, false, Option, none, some, List, [], ◌∷◌, if◌then◌else◌, Result, ok, err,
}
use kde_nasmount.Prelude.Program.{Program, ret, call, ◌>>=◌, ◌>>◌, perform}
use kde_nasmount.Qt.{Qt}
use kde_nasmount.Text.{Text, text_eq}
use kde_nasmount.UnitValue.Paths.{UnitPaths, PathsError, unit_paths_for}
use kde_nasmount.UnitSpec.Mountpoint.{MountpointPlan, MountpointError, validate_mountpoint}
use kde_nasmount.Verify.Definition.{Definition, DefinitionCheck}
use kde_nasmount.Verify.Halves.{OwnedUnit}
use kde_nasmount.Arming.{ArmShareRequest, ArmShareResult, boot_no_create}

pub data Call : Type 0 where
  -- RootLock::acquire
  acquire_lock : Call
  -- Verify::enumerateManagedUnits
  managed_units : Call
  -- getpwuid, and the home directory of the account
  home_of : ℕ → Call
  -- the process `systemd-escape -p`
  systemd_escape : Text → Call
  -- Verify::inspectDefinition
  inspect : UnitPaths → ℕ → Text → Call
  -- Arming::armShare
  arm : ArmShareRequest → Call

abbrev pub Answer : Call → Type 0
Answer acquire_lock = Bool
Answer managed_units = List OwnedUnit
Answer (home_of _) = Option Text
Answer (systemd_escape _) = Option Text
Answer (inspect _ _ _) = DefinitionCheck
Answer (arm _) = ArmShareResult

abbrev pub is_pair : Definition → Bool
is_pair Definition.pair = true
is_pair _ = false

unfoldable pub request_of : OwnedUnit → MountpointPlan → DefinitionCheck → ArmShareRequest
request_of unit plan def = record {
  owner_uid = unit.owner_uid;
  owner_gid = unit.owner_gid;
  share_id = unit.id;
  authentication = unit.authentication;
  plan = plan;
  unit_name = unit.unit_name;
  what = def.what;
  path_policy = boot_no_create;
}

-- The result is that the unit was attempted; a failure is only logged.
abbrev pub done : Program Call Answer (Unit {0})
done = ret tt

arm_inspected : OwnedUnit → MountpointPlan → DefinitionCheck → Program Call Answer (Unit {0})
unfolding request_of
arm_inspected unit plan def =
    if is_pair def.state then perform (arm (request_of unit plan def)) >> done else done

inspect_named : OwnedUnit → MountpointPlan → UnitPaths → Program Call Answer (Unit {0})
unfolding text_eq arm_inspected
inspect_named unit plan paths =
    if text_eq paths.unit_name unit.unit_name
    then perform (inspect paths unit.owner_uid plan.path) >>= arm_inspected unit plan
    else done

arm_named :
    OwnedUnit → MountpointPlan → Result PathsError UnitPaths → Program Call Answer (Unit {0})
unfolding inspect_named
arm_named unit plan (err _) = done
arm_named unit plan (ok paths) = inspect_named unit plan paths

module _ (qt : Qt) where
  arm_planned : OwnedUnit → Result MountpointError MountpointPlan → Program Call Answer (Unit {0})
  unfolding unit_paths_for arm_named
  arm_planned unit (err _) = done
  arm_planned unit (ok plan) = do
    escaped ← perform (systemd_escape plan.path)
    arm_named unit plan (unit_paths_for qt (λ _. escaped) plan.path)

  arm_at_home : OwnedUnit → Option Text → Program Call Answer (Unit {0})
  unfolding validate_mountpoint arm_planned
  arm_at_home unit none = done
  arm_at_home unit (some home) = arm_planned unit (validate_mountpoint qt unit.mount_point home)

  unfoldable pub arm_one_share : OwnedUnit → Program Call Answer (Unit {0})
  unfolding arm_at_home
  arm_one_share unit = do home ← perform (home_of unit.owner_uid); arm_at_home unit home

  -- the loop, with how many were attempted and how many skipped
  unfoldable pub arm_all : List OwnedUnit → ℕ → ℕ → Program Call Answer (ℕ × ℕ)
  unfolding arm_one_share
  arm_all [] attempted skipped = ret (attempted, skipped)
  arm_all (unit ∷ units) attempted skipped =
      let next = arm_all units (attempted + 1) skipped in
      let past = arm_all units attempted (skipped + 1) in
      if is_pair unit.state then arm_one_share unit >> next else past

  arm_managed : Bool → Program Call Answer (Option (ℕ × ℕ))
  unfolding arm_all
  arm_managed false = ret none
  arm_managed true = do units ← perform managed_units; counts ← arm_all units 0 0; ret (some counts)

  -- none for the exit code 1
  unfoldable pub boot : Program Call Answer (Option (ℕ × ℕ))
  unfolding arm_managed
  boot = do locked ← perform acquire_lock; arm_managed locked
