-- ===== src/Operations/Machine/Keeps.antt =====
-- Arming and stopping leave the unit files and the credentials alone.
use kde_nasmount.Prelude.{
  ℕ, Bool, true, false, not, ◌&&◌, ◌||◌, ◌++◌, refl, ◌∙◌, ◌==◌, if◌then◌else◌,
}
use kde_nasmount.Qt.{Qt}
use kde_nasmount.Text.{Text, codes}
use kde_nasmount.UnitValue.Access.{credentials, guest}
use kde_nasmount.Verify.Runtime.{Numbers, RuntimeSnapshot}
use kde_nasmount.Arming.{
  ArmShareResult, ArmShareOutcome, StopResult, failed, ArmPrecheck, ready_to_arm, blocked,
  StopPrecheck, should_stop, ArmShareRequest, interactive_create, boot_no_create,
  stop_started_automount, compensate, start_failed, record_instance, start_trigger,
  check_credential, open_mountpoint, arm_ready, arm_share, stop_both, safe_stop,
  evaluate_arm_precheck, evaluate_stop_precheck, runtime_of, current_id, automount_unit_of,
  automount_active, mount_absent,
}
use kde_nasmount.Operations.Machine.{Root, Same, RootLaws}

module _ {S : Type 0} (root : Root S) where
  pub Same-refl : (s : S) → Same root s s
  Same-refl s = record {
    units = record { unit_same = λ n. refl };
    rest = record { drop_in_same = λ n. refl };
    credentials = record { credential_same = λ n. refl };
  }

  pub Same-trans : (s t u : S) → Same root s t → Same root t u → Same root s u
  Same-trans s t u h k = record {
    units = record { unit_same = λ n. k.units.unit_same n ∙ h.units.unit_same n };
    rest = record { drop_in_same = λ n. k.rest.drop_in_same n ∙ h.rest.drop_in_same n };
    credentials = record {
      credential_same = λ n. k.credentials.credential_same n ∙ h.credentials.credential_same n;
    };
  }

  Same-if :
      {A : Type 0} (b : Bool) (s : S) (x y : A × S)
      → Same root s x.1
      → Same root s y.1
      → Same root s (if b then x else y).1
  Same-if true s x y h k = h
  Same-if false s x y h k = k

module _ {S : Type 0} (qt : Qt) (numbers : Numbers) (root : Root S) (laws : RootLaws root) where
  stop_started-Same :
      (unit name path : Text) (id : ℕ) (s : S)
      → Same root s (stop_started_automount qt numbers root.machine unit name path id s).1
  unfolding stop_started_automount
  stop_started-Same unit name path id s =
      let stopped = laws.stop_same unit s in
      let cleaned =
        Same-trans root _ _ _ stopped (laws.remove_id_same name (root.machine.stop unit s).1) in
      Same-if root (id == 0) s _ _ (Same-refl root s) (
        Same-if root
          (current_id qt numbers root.machine s path == 0
            || not (current_id qt numbers root.machine s path == id))
          s _ _ (Same-refl root s)
          (Same-if root (not (root.machine.stop unit s).0) s _ _ stopped cleaned))

  compensate-Same :
      (req : ArmShareRequest) (id : ℕ) (s : S)
      → Same root s (compensate qt numbers root.machine req id s).1
  unfolding compensate automount_unit_of
  compensate-Same req id s =
      stop_started-Same (req.unit_name ++ codes ".automount") req.unit_name req.plan.path id s

  start_failed-Same :
      (req : ArmShareRequest) (snap : RuntimeSnapshot) (s : S)
      → Same root s (start_failed qt numbers root.machine req snap s).1
  unfolding start_failed
  start_failed-Same req snap s =
      Same-if root (automount_active snap.automount && mount_absent snap.mount) s _ _
        (compensate-Same req (current_id qt numbers root.machine s req.plan.path) s)
        (Same-refl root s)

  record_instance-Same :
      (req : ArmShareRequest) (id : ℕ) (s : S)
      → Same root s (record_instance qt numbers root.machine req id s).1
  unfolding record_instance
  record_instance-Same req id s =
      let written = laws.write_id_same req.unit_name id s in
      let written_state = (root.machine.write_automount_id req.unit_name id s).1 in
      Same-if root (id == 0) s _ _ (compensate-Same req id s) (
        Same-if root (not (root.machine.write_automount_id req.unit_name id s).0) s _ _
          (Same-trans root s written_state _ written (compensate-Same req id written_state))
          written)

  start_trigger-Same :
      (req : ArmShareRequest) (s : S) → Same root s (start_trigger qt numbers root.machine req s).1
  unfolding start_trigger automount_unit_of
  start_trigger-Same req s =
      let started = laws.start_same (req.unit_name ++ codes ".automount") s in
      let after = (root.machine.start (req.unit_name ++ codes ".automount") s).1 in
      Same-if root (not (root.machine.start (req.unit_name ++ codes ".automount") s).0) s _ _
        (Same-trans root s after _ started (
          start_failed-Same req
            (runtime_of qt numbers root.machine after req.unit_name req.plan.path req.what) after))
        (Same-trans root s after _ started
          (record_instance-Same req (current_id qt numbers root.machine after req.plan.path) after))

  check_credential-Same :
      (req : ArmShareRequest) (s : S)
      → Same root s (check_credential qt numbers root.machine req s).1
  unfolding check_credential
  check_credential-Same req s =
      elim (req.authentication)
        as (λ a.
          Same root s
            (elim a as (λ b. Bool × S) [
              | credentials ↦ root.machine.credential_healthy req.share_id s
              | guest ↦ root.machine.credential_absent req.share_id s
            ]).1) [
              | credentials ↦ laws.healthy_same req.share_id s
              | guest ↦ laws.absent_same req.share_id s
            ]

  open_mountpoint-Same :
      (req : ArmShareRequest) (s : S)
      → Same root s (open_mountpoint qt numbers root.machine req s).1
  unfolding open_mountpoint
  open_mountpoint-Same req s =
      elim (req.path_policy)
        as (λ p.
          Same root s
            (elim p as (λ b. Bool × S) [
              | interactive_create ↦
                  root.machine.open_mountpoint_no_follow req.plan req.owner_uid req.owner_gid s
              | boot_no_create ↦
                  root.machine.open_mountpoint_no_create req.plan req.owner_uid req.owner_gid s
            ]).1) [
              | interactive_create ↦ laws.follow_same req.plan req.owner_uid req.owner_gid s
              | boot_no_create ↦ laws.create_same req.plan req.owner_uid req.owner_gid s
            ]

  arm_ready-Same :
      (req : ArmShareRequest) (s : S) → Same root s (arm_ready qt numbers root.machine req s).1
  unfolding arm_ready
  arm_ready-Same req s =
      let checked = check_credential-Same req s in
      let checked_state = (check_credential qt numbers root.machine req s).1 in
      let walked =
        Same-trans root s checked_state _ checked (open_mountpoint-Same req checked_state) in
      let walked_state = (open_mountpoint qt numbers root.machine req checked_state).1 in
      Same-if root (not (check_credential qt numbers root.machine req s).0) s _ _ checked (
        Same-if root (not (open_mountpoint qt numbers root.machine req checked_state).0) s _ _
          walked (Same-trans root s walked_state _ walked (start_trigger-Same req walked_state)))

  arm_of_precheck : ArmPrecheck → ArmShareRequest → S → ArmShareResult × S
  arm_of_precheck p req s = elim p [
    | blocked ↦ failed qt numbers root.machine true s
    | ArmPrecheck.already_armed ↦
        (record { outcome = ArmShareOutcome.already_armed; definition_cleanup_safe = true }, s)
    | ready_to_arm ↦ arm_ready qt numbers root.machine req s
  ]

  arm_of_precheck-Same :
      (p : ArmPrecheck) (req : ArmShareRequest) (s : S) → Same root s (arm_of_precheck p req s).1
  unfolding arm_of_precheck
  arm_of_precheck-Same blocked req s = Same-refl root s
  arm_of_precheck-Same ArmPrecheck.already_armed req s = Same-refl root s
  arm_of_precheck-Same ready_to_arm req s = arm_ready-Same req s

  -- armShare touches no unit file and no credential.
  pub arm_share-Same :
      (req : ArmShareRequest) (s : S) → Same root s (arm_share qt numbers root.machine req s).1
  unfolding arm_share arm_of_precheck
  arm_share-Same req s =
      arm_of_precheck-Same
        (evaluate_arm_precheck
          (runtime_of qt numbers root.machine s req.unit_name req.plan.path req.what))
        req s

  stop_both-Same :
      (unit_name : Text) (s : S) → Same root s (stop_both qt numbers root.machine unit_name s).1
  unfolding stop_both
  stop_both-Same unit_name s =
      let after = (root.machine.stop (unit_name ++ codes ".mount") s).1 in
      Same-trans root s after _ (laws.stop_same (unit_name ++ codes ".mount") s)
        (laws.stop_same (unit_name ++ codes ".automount") after)

  stop_of_precheck : StopPrecheck → Text → S → StopResult × S
  stop_of_precheck p unit_name s = elim p [
    | StopPrecheck.indeterminate ↦ (StopResult.indeterminate, s)
    | StopPrecheck.correlation_mismatch ↦ (StopResult.correlation_mismatch, s)
    | StopPrecheck.already_inactive ↦ (StopResult.already_inactive, s)
    | should_stop ↦ stop_both qt numbers root.machine unit_name s
  ]

  stop_of_precheck-Same :
      (p : StopPrecheck) (u : Text) (s : S) → Same root s (stop_of_precheck p u s).1
  unfolding stop_of_precheck
  stop_of_precheck-Same StopPrecheck.indeterminate u s = Same-refl root s
  stop_of_precheck-Same StopPrecheck.correlation_mismatch u s = Same-refl root s
  stop_of_precheck-Same StopPrecheck.already_inactive u s = Same-refl root s
  stop_of_precheck-Same should_stop u s = stop_both-Same u s

  -- Nor does safeStop.
  pub safe_stop-Same :
      (unit_name mount_point what : Text) (s : S)
      → Same root s (safe_stop qt numbers root.machine unit_name mount_point what s).1
  unfolding safe_stop stop_of_precheck
  safe_stop-Same unit_name mount_point what s =
      stop_of_precheck-Same
        (evaluate_stop_precheck (runtime_of qt numbers root.machine s unit_name mount_point what))
        unit_name s
