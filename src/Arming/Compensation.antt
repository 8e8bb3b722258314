-- ===== src/Arming/Compensation.antt =====
-- What armShare leaves behind: the armed share, or a failure after which the definition may be
-- removed only when its trigger is known not to run.
use kde_nasmount.Prelude.{
  ℕ, Bool, true, false, not, ◌&&◌, ◌++◌, ◌≡◌, ◌≢◌, refl, sym, subst, ◌∙◌, arith, ◌==◌, ==_iff,
  if◌then◌else◌,
}
use kde_nasmount.Qt.{Qt}
use kde_nasmount.Text.{Text, codes}
use kde_nasmount.Verify.Mountinfo.{MountState}
use kde_nasmount.Verify.Runtime.{AutomountState, Numbers}
use kde_nasmount.Arming.{
  ArmPrecheck, ready_to_arm, blocked, ArmShareResult, ArmShareRequest, ArmShareOutcome,
  needs_attention, Machine, automount_active, automount_inactive, mount_absent,
  evaluate_arm_precheck, runtime_of, current_id, stop_started_automount, compensate, start_failed,
  record_instance, start_trigger, check_credential, open_mountpoint, failed, arm_ready, arm_share,
  automount_unit_of,
}

module _ {S : Type 0} (qt : Qt) (numbers : Numbers) (machine : Machine S) where
  -- The runtime shows an inactive automount and nothing mounted.
  pub SeenIdle : ArmShareRequest → S → Type 0
  SeenIdle req t =
      ((runtime_of qt numbers machine t req.unit_name req.plan.path req.what).automount
        ≡ AutomountState.inactive)
      × ((runtime_of qt numbers machine t req.unit_name req.plan.path req.what).mount
          ≡ MountState.absent)

  -- Why the definition may be removed after a failure that ends in a state: the trigger was never
  -- started, or the start failed and the runtime shows it idle, or its instance was stopped.
  pub data SafeReason (req : ArmShareRequest) (s : S) : S → Type 0 where
    runtime_blocked :
        evaluate_arm_precheck (runtime_of qt numbers machine s req.unit_name req.plan.path req.what)
          ≡ blocked
        → SafeReason req s s
    credential_refused :
        (check_credential qt numbers machine req s).0 ≡ false
        → SafeReason req s (check_credential qt numbers machine req s).1
    path_refused :
        (t : S)
        → t ≡ (check_credential qt numbers machine req s).1
        → (open_mountpoint qt numbers machine req t).0 ≡ false
        → SafeReason req s (open_mountpoint qt numbers machine req t).1
    start_refused :
        (t : S)
        → (machine.start (req.unit_name ++ codes ".automount") t).0 ≡ false
        → SeenIdle req (machine.start (req.unit_name ++ codes ".automount") t).1
        → SafeReason req s (machine.start (req.unit_name ++ codes ".automount") t).1
    trigger_stopped :
        (t : S)
        → current_id qt numbers machine t req.plan.path ≢ 0
        → (machine.stop (req.unit_name ++ codes ".automount") t).0 ≡ true
        → SafeReason req s
            (machine.remove_automount_id req.unit_name
              (machine.stop (req.unit_name ++ codes ".automount") t).1).1

  stop_started-eq-true :
      (unit name path : Text) (id : ℕ) (t : S)
      → (stop_started_automount qt numbers machine unit name path id t).0 ≡ true
      → (id ≢ 0)
        × (current_id qt numbers machine t path ≡ id)
        × ((machine.stop unit t).0 ≡ true)
        × ((stop_started_automount qt numbers machine unit name path id t).1
            ≡ (machine.remove_automount_id name (machine.stop unit t).1).1)
  unfolding stop_started_automount
  stop_started-eq-true unit name path id t h =
      ground (arith, ==_iff id 0, ==_iff (current_id qt numbers machine t path) id)

  compensate-SafeReason :
      (req : ArmShareRequest) (s : S) (id : ℕ) (t : S)
      → (compensate qt numbers machine req id t).0.definition_cleanup_safe ≡ true
      → SafeReason req s (compensate qt numbers machine req id t).1
  unfolding compensate automount_unit_of
  compensate-SafeReason req s id t h =
      let (filled, is, ok_, end) =
        stop_started-eq-true (req.unit_name ++ codes ".automount") req.unit_name req.plan.path id t
          h in
      subst (SafeReason req s) (sym end) (trigger_stopped t (λ z. filled (sym is ∙ z)) ok_)

  -- A result whose flag, when set, has a reason.
  Justified : ArmShareRequest → S → ArmShareResult × S → Type 0
  Justified req s r =
      r.0.outcome ≡ needs_attention → r.0.definition_cleanup_safe ≡ true → SafeReason req s r.1

  compensate-Justified :
      (req : ArmShareRequest) (s : S) (id : ℕ) (t : S)
      → Justified req s (compensate qt numbers machine req id t)
  unfolding Justified
  compensate-Justified req s id t o h = compensate-SafeReason req s id t h

  choose :
      (b : Bool) (req : ArmShareRequest) (s : S) (x y : ArmShareResult × S)
      → (b ≡ true → Justified req s x)
      → (b ≡ false → Justified req s y)
      → Justified req s (if b then x else y)
  choose true req s x y f g = f refl
  choose false req s x y f g = g refl

  seen_idle :
      (req : ArmShareRequest) (u : S)
      → (automount_inactive
            (runtime_of qt numbers machine u req.unit_name req.plan.path req.what).automount
          && mount_absent
              (runtime_of qt numbers machine u req.unit_name req.plan.path req.what).mount)
        ≡ true
      → SeenIdle req u
  unfolding SeenIdle
  seen_idle req u h = ground arith

  start_failed-Justified :
      (req : ArmShareRequest) (s u : S)
      → (SeenIdle req u → SafeReason req s u)
      → Justified req s (
          start_failed qt numbers machine req
            (runtime_of qt numbers machine u req.unit_name req.plan.path req.what)
            u)
  unfolding start_failed Justified
  start_failed-Justified req s u idle =
      choose
        (automount_active
            (runtime_of qt numbers machine u req.unit_name req.plan.path req.what).automount
          && mount_absent
              (runtime_of qt numbers machine u req.unit_name req.plan.path req.what).mount)
        req s _ _ (λ e. compensate-Justified req s _ u) (λ e o h. idle (seen_idle req u h))

  record_instance-Justified :
      (req : ArmShareRequest) (s : S) (id : ℕ) (u : S)
      → Justified req s (record_instance qt numbers machine req id u)
  unfolding record_instance Justified
  record_instance-Justified req s id u =
      choose (id == 0) req s _ _ (λ e. compensate-Justified req s id u)
        (λ e.
          choose (not (machine.write_automount_id req.unit_name id u).0) req s _ _
            (λ w. compensate-Justified req s id (machine.write_automount_id req.unit_name id u).1)
            (λ w o h. cc))

  start_trigger-Justified :
      (req : ArmShareRequest) (s t : S) → Justified req s (start_trigger qt numbers machine req t)
  unfolding start_trigger automount_unit_of Justified
  start_trigger-Justified req s t =
      choose (not (machine.start (req.unit_name ++ codes ".automount") t).0) req s _ _
        (λ e.
          start_failed-Justified req s (machine.start (req.unit_name ++ codes ".automount") t).1
            (λ idle. start_refused t (is_false _ e) idle))
        (λ e.
          record_instance-Justified req s _
            (machine.start (req.unit_name ++ codes ".automount") t).1)
    where
      is_false : (b : Bool) → not b ≡ true → b ≡ false
      is_false b e = ground arith

  arm_ready-Justified :
      (req : ArmShareRequest) (s : S) → Justified req s (arm_ready qt numbers machine req s)
  unfolding arm_ready Justified
  arm_ready-Justified req s =
      choose (not (check_credential qt numbers machine req s).0) req s _ _
        (λ e o h. credential_refused (is_false _ e))
        (λ e.
          choose
            (not
              (open_mountpoint qt numbers machine req
                (check_credential qt numbers machine req s).1).0)
            req s _ _
            (λ w o h.
              path_refused (check_credential qt numbers machine req s).1 refl (is_false _ w))
            (λ w. start_trigger-Justified req s _))
    where
      is_false : (b : Bool) → not b ≡ true → b ≡ false
      is_false b e = ground arith

  arm_of_precheck : ArmPrecheck → ArmShareRequest → S → ArmShareResult × S
  arm_of_precheck p req s = elim p [
    | blocked ↦ failed qt numbers machine true s
    | ArmPrecheck.already_armed ↦
        (record { outcome = ArmShareOutcome.already_armed; definition_cleanup_safe = true }, s)
    | ready_to_arm ↦ arm_ready qt numbers machine req s
  ]

  arm_of_precheck-Justified :
      (p : ArmPrecheck) (req : ArmShareRequest) (s : S)
      → evaluate_arm_precheck (runtime_of qt numbers machine s req.unit_name req.plan.path req.what)
        ≡ p
      → Justified req s (arm_of_precheck p req s)
  unfolding arm_of_precheck Justified
  arm_of_precheck-Justified blocked req s e o h = runtime_blocked e
  arm_of_precheck-Justified ArmPrecheck.already_armed req s e o h = cc
  arm_of_precheck-Justified ready_to_arm req s e o h = arm_ready-Justified req s o h

  -- When armShare fails and says that the definition may be removed, then the trigger was never
  -- started, or its start failed and the runtime then shows an inactive automount and nothing
  -- mounted, or a mount id was seen at the path and a stop of the automount unit succeeded.
  pub arm_share-SafeReason :
      (req : ArmShareRequest) (s : S)
      → (arm_share qt numbers machine req s).0.outcome ≡ needs_attention
      → (arm_share qt numbers machine req s).0.definition_cleanup_safe ≡ true
      → SafeReason req s (arm_share qt numbers machine req s).1
  unfolding arm_share arm_of_precheck Justified
  arm_share-SafeReason req s o h = arm_of_precheck-Justified _ req s refl o h
