-- ===== src/Arming/Armed.antt =====
-- What armShare has done when it reports a share as armed.
use kde_nasmount.Prelude.{ℕ, true, ◌++◌, ◌≡◌, ◌≢◌, refl, sym, ap, ◌∙◌, arith, ==_iff}
use kde_nasmount.Qt.{Qt}
use kde_nasmount.Text.{codes}
use kde_nasmount.Verify.Runtime.{Numbers}
use kde_nasmount.Arming.{
  ArmPrecheck, ready_to_arm, blocked, ArmShareResult, ArmShareRequest, ArmShareOutcome, armed,
  Machine, evaluate_arm_precheck, runtime_of, current_id, compensate, start_failed, record_instance,
  start_trigger, check_credential, open_mountpoint, failed, arm_ready, arm_share, automount_unit_of,
}

module _ {S : Type 0} (qt : Qt) (numbers : Numbers) (machine : Machine S) where
  -- the states after the credential check, the walk to the mount point and the start
  abbrev pub checked_state : ArmShareRequest → S → S
  checked_state req s = (check_credential qt numbers machine req s).1

  abbrev pub walked_state : ArmShareRequest → S → S
  walked_state req s = (open_mountpoint qt numbers machine req (checked_state req s)).1

  abbrev pub started_state : ArmShareRequest → S → S
  started_state req s = (machine.start (req.unit_name ++ codes ".automount") (walked_state req s)).1

  abbrev pub started_id : ArmShareRequest → S → ℕ
  started_id req s = current_id qt numbers machine (started_state req s) req.plan.path

  pub record IsArmed (req : ArmShareRequest) (s after : S) : Type 0 where
    pub ready :
        evaluate_arm_precheck (runtime_of qt numbers machine s req.unit_name req.plan.path req.what)
        ≡ ready_to_arm
    pub credential_ok : (check_credential qt numbers machine req s).0 ≡ true
    pub path_ok : (open_mountpoint qt numbers machine req (checked_state req s)).0 ≡ true
    pub started :
        (machine.start (req.unit_name ++ codes ".automount") (walked_state req s)).0 ≡ true
    pub identified : started_id req s ≢ 0
    pub recorded :
        (machine.write_automount_id req.unit_name (started_id req s) (started_state req s)).0 ≡ true
    pub ends :
        after
        ≡ (machine.write_automount_id req.unit_name (started_id req s) (started_state req s)).1

  compensate_unarmed :
      (req : ArmShareRequest) (id : ℕ) (t : S)
      → (compensate qt numbers machine req id t).0.outcome ≢ armed
  unfolding compensate
  compensate_unarmed req id t h = cc

  record_instance-eq-armed :
      (req : ArmShareRequest) (id : ℕ) (u : S)
      → (record_instance qt numbers machine req id u).0.outcome ≡ armed
      → (id ≢ 0)
        × ((machine.write_automount_id req.unit_name id u).0 ≡ true)
        × ((record_instance qt numbers machine req id u).1
            ≡ (machine.write_automount_id req.unit_name id u).1)
  unfolding record_instance
  record_instance-eq-armed req id u h = ground (
    arith,
    ==_iff id 0,
    compensate_unarmed req id u,
    compensate_unarmed req id (machine.write_automount_id req.unit_name id u).1,
  )

  start_failed_unarmed :
      (req : ArmShareRequest) (t : S)
      → (start_failed qt numbers machine req
          (runtime_of qt numbers machine t req.unit_name req.plan.path req.what)
          t).0.outcome
        ≢ armed
  unfolding start_failed
  start_failed_unarmed req t h =
      ground (arith, compensate_unarmed req (current_id qt numbers machine t req.plan.path) t)

  start_trigger-eq-armed :
      (req : ArmShareRequest) (t : S)
      → (start_trigger qt numbers machine req t).0.outcome ≡ armed
      → ((machine.start (req.unit_name ++ codes ".automount") t).0 ≡ true)
        × (start_trigger qt numbers machine req t
            ≡ record_instance qt numbers machine req
                (current_id qt numbers machine
                  (machine.start (req.unit_name ++ codes ".automount") t).1
                  req.plan.path)
                (machine.start (req.unit_name ++ codes ".automount") t).1)
  unfolding start_trigger automount_unit_of
  start_trigger-eq-armed req t h =
      ground
        (arith, start_failed_unarmed req (machine.start (req.unit_name ++ codes ".automount") t).1)

  arm_ready-eq-armed :
      (req : ArmShareRequest) (s : S)
      → (arm_ready qt numbers machine req s).0.outcome ≡ armed
      → ((check_credential qt numbers machine req s).0 ≡ true)
        × ((open_mountpoint qt numbers machine req (checked_state req s)).0 ≡ true)
        × (arm_ready qt numbers machine req s
            ≡ start_trigger qt numbers machine req (walked_state req s))
  unfolding arm_ready
  arm_ready-eq-armed req s h = ground arith

  armed_of_ready :
      (req : ArmShareRequest) (s : S)
      → evaluate_arm_precheck (runtime_of qt numbers machine s req.unit_name req.plan.path req.what)
        ≡ ready_to_arm
      → (arm_ready qt numbers machine req s).0.outcome ≡ armed
      → IsArmed req s (arm_ready qt numbers machine req s).1
  armed_of_ready req s e h =
      let (credential, path, is) = arm_ready-eq-armed req s h in
      let (started, now) =
        start_trigger-eq-armed req (walked_state req s) (sym (ap (λ r. r.0.outcome) is) ∙ h) in
      let (identified, recorded, ends) =
        record_instance-eq-armed req (started_id req s) (started_state req s)
          (sym (ap (λ r. r.0.outcome) (is ∙ now)) ∙ h) in
      record {
        ready = e;
        credential_ok = credential;
        path_ok = path;
        started = started;
        identified = identified;
        recorded = recorded;
        ends = ap (λ r. r.1) (is ∙ now) ∙ ends;
      }

  arm_of_precheck : ArmPrecheck → ArmShareRequest → S → ArmShareResult × S
  arm_of_precheck p req s = elim p [
    | blocked ↦ failed qt numbers machine true s
    | ArmPrecheck.already_armed ↦
        (record { outcome = ArmShareOutcome.already_armed; definition_cleanup_safe = true }, s)
    | ready_to_arm ↦ arm_ready qt numbers machine req s
  ]

  arm_of_precheck-IsArmed :
      (p : ArmPrecheck) (req : ArmShareRequest) (s : S)
      → evaluate_arm_precheck (runtime_of qt numbers machine s req.unit_name req.plan.path req.what)
        ≡ p
      → (arm_of_precheck p req s).0.outcome ≡ armed
      → IsArmed req s (arm_of_precheck p req s).1
  unfolding arm_of_precheck
  arm_of_precheck-IsArmed blocked req s e h = cc
  arm_of_precheck-IsArmed ArmPrecheck.already_armed req s e h = cc
  arm_of_precheck-IsArmed ready_to_arm req s e h = armed_of_ready req s e h

  -- When armShare reports a share as armed, the runtime was ready for it, the credential check and
  -- the walk to the mount point succeeded, the automount unit was started, the mount id seen after
  -- the start is not 0, and it was recorded, which is the last that was done.
  pub arm_share-IsArmed :
      (req : ArmShareRequest) (s : S)
      → (arm_share qt numbers machine req s).0.outcome ≡ armed
      → IsArmed req s (arm_share qt numbers machine req s).1
  unfolding arm_share arm_of_precheck
  arm_share-IsArmed req s h = arm_of_precheck-IsArmed _ req s refl h
