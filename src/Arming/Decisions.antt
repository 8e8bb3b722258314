-- ===== src/Arming/Decisions.antt =====
-- When a share may be stopped and when it may be armed, and what is left alone otherwise.
use kde_nasmount.Prelude.{
  Bool, true, not, ◌||◌, ◌++◌, ◌≡◌, ◌≢◌, ◌↔◌, ◌⊎◌, inl, inr, refl, arith, if◌then◌else◌,
}
use kde_nasmount.Qt.{Qt}
use kde_nasmount.Text.{Text, codes}
use kde_nasmount.Verify.Mountinfo.{MountState, VerificationState}
use kde_nasmount.Verify.Runtime.{AutomountState, ActivationTrust, RuntimeSnapshot, Numbers}
use kde_nasmount.Arming.{
  StopPrecheck, should_stop, StopResult, stopped, ArmPrecheck, ready_to_arm, Machine,
  is_indeterminate, evaluate_stop_precheck, evaluate_arm_precheck, runtime_of, stop_both, safe_stop,
}

-- A snapshot that allows a stop: the matching share is mounted, whatever the trust in an automount
-- that is active, or nothing is mounted and the trusted automount is active.
pub MayStop : RuntimeSnapshot → Type 0
MayStop snap =
    ((snap.mount ≡ MountState.present)
      × (snap.verification ≡ VerificationState.match_)
      × (snap.automount ≢ AutomountState.indeterminate))
    ⊎ ((snap.mount ≡ MountState.absent)
        × (snap.automount ≡ AutomountState.active)
        × (snap.activation_trust ≡ ActivationTrust.trusted))

-- The precheck of a stop says ShouldStop exactly when the matching share is mounted and the
-- automount's state is known, be the automount trusted or not, or nothing is mounted and the trusted
-- automount is active.
pub evaluate_stop_precheck_iff :
    (snap : RuntimeSnapshot) → (evaluate_stop_precheck snap ≡ should_stop) ↔ MayStop snap
unfolding evaluate_stop_precheck is_indeterminate MayStop
evaluate_stop_precheck_iff snap = ground arith

-- The precheck of arming says ReadyToArm exactly when nothing is mounted and the automount is
-- inactive, and AlreadyArmed exactly when nothing is mounted and the trusted automount is active.
pub evaluate_arm_precheck_iff :
    (snap : RuntimeSnapshot)
    → ((evaluate_arm_precheck snap ≡ ready_to_arm)
        ↔ ((snap.mount ≡ MountState.absent) × (snap.automount ≡ AutomountState.inactive)))
      × ((evaluate_arm_precheck snap ≡ ArmPrecheck.already_armed) ↔ (
          (snap.mount ≡ MountState.absent)
          × (snap.automount ≡ AutomountState.active)
          × (snap.activation_trust ≡ ActivationTrust.trusted)))
unfolding evaluate_arm_precheck is_indeterminate
evaluate_arm_precheck_iff snap = (ground arith, ground arith)

module _ {S : Type 0} (qt : Qt) (numbers : Numbers) (machine : Machine S) where
  -- What safeStop may have done: stopped both units in a runtime that allows it, with a success
  -- only when both commands succeeded, or nothing.
  pub SafelyStopped : (unit_name : Text) → RuntimeSnapshot → S → StopResult × S → Type 0
  SafelyStopped unit_name snap s (result, after) =
      (MayStop snap
        × (after
            ≡ (machine.stop (unit_name ++ codes ".automount")
                (machine.stop (unit_name ++ codes ".mount") s).1).1)
        × ((result ≡ stopped) ↔ (
            ((machine.stop (unit_name ++ codes ".mount") s).0 ≡ true)
            × ((machine.stop (unit_name ++ codes ".automount")
                  (machine.stop (unit_name ++ codes ".mount") s).1).0
                ≡ true))))
      ⊎ ((after ≡ s) × (result ≢ stopped) × (result ≢ StopResult.busy) × (MayStop snap → ⊥))

  stop_both_lem :
      (unit_name : Text) (s : S)
      → stop_both qt numbers machine unit_name s ≡ (
        if not (machine.stop (unit_name ++ codes ".mount") s).0
              || not
                  (machine.stop
                    (unit_name ++ codes ".automount")
                    (machine.stop (unit_name ++ codes ".mount") s).1).0
            then StopResult.busy
            else stopped,
        (machine.stop
            (unit_name ++ codes ".automount")
            (machine.stop (unit_name ++ codes ".mount") s).1).1,
      )
  unfolding stop_both
  stop_both_lem unit_name s = refl

  stopped_iff :
      (a b : Bool)
      → ((if not a || not b then StopResult.busy else stopped) ≡ stopped)
        ↔ ((a ≡ true) × (b ≡ true))
  stopped_iff a b = ground arith

  stop_of_precheck : StopPrecheck → Text → S → StopResult × S
  stop_of_precheck p unit_name s = elim p [
    | StopPrecheck.indeterminate ↦ (StopResult.indeterminate, s)
    | StopPrecheck.correlation_mismatch ↦ (StopResult.correlation_mismatch, s)
    | StopPrecheck.already_inactive ↦ (StopResult.already_inactive, s)
    | should_stop ↦ stop_both qt numbers machine unit_name s
  ]

  stop_of_precheck-SafelyStopped :
      (p : StopPrecheck) (unit_name : Text) (snap : RuntimeSnapshot) (s : S)
      → (p ≡ should_stop) ↔ MayStop snap
      → SafelyStopped unit_name snap s (stop_of_precheck p unit_name s)
  unfolding SafelyStopped stop_of_precheck
  stop_of_precheck-SafelyStopped StopPrecheck.indeterminate unit_name snap s h =
      inr (refl, (λ e. cc), (λ e. cc), λ m. (let e = h.1 m in cc))
  stop_of_precheck-SafelyStopped StopPrecheck.correlation_mismatch unit_name snap s h =
      inr (refl, (λ e. cc), (λ e. cc), λ m. (let e = h.1 m in cc))
  stop_of_precheck-SafelyStopped StopPrecheck.already_inactive unit_name snap s h =
      inr (refl, (λ e. cc), (λ e. cc), λ m. (let e = h.1 m in cc))
  stop_of_precheck-SafelyStopped should_stop unit_name snap s h =
      rw (stop_both_lem unit_name s) (inl (h.0 refl, refl, stopped_iff _ _))

  -- safeStop stops the two units, the mount first, only when the snapshot taken at its start
  -- allows a stop, which for a mounted matching share does not depend on whether the active automount
  -- is the recorded one, and reports Stopped exactly when both commands succeed; in every other runtime
  -- it leaves the machine as it is and reports neither Stopped nor Busy.
  pub safe_stop-SafelyStopped :
      (unit_name mount_point expected_what : Text) (s : S)
      → SafelyStopped unit_name
          (runtime_of qt numbers machine s unit_name mount_point expected_what)
          s
          (safe_stop qt numbers machine unit_name mount_point expected_what s)
  unfolding safe_stop stop_of_precheck
  safe_stop-SafelyStopped unit_name mount_point expected_what s =
      stop_of_precheck-SafelyStopped _ unit_name
        (runtime_of qt numbers machine s unit_name mount_point expected_what) s
        (evaluate_stop_precheck_iff _)
