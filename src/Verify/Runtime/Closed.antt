-- ===== src/Verify/Runtime/Closed.antt =====
-- The snapshot of inspectRuntime claims no more than systemd and mountinfo agree on.
use kde_nasmount.Prelude.{
  ℕ, Option, none, some, ◌++◌, ◌≡◌, ◌≢◌, ◌⊎◌, inl, inr, refl, sym, ap, ◌∙◌, arith, Option-cases,
}
use kde_nasmount.Qt.{Qt}
use kde_nasmount.Text.{Text, codes}
use kde_nasmount.Text.Laws.{text_eq_iff}
use kde_nasmount.Verify.Mountinfo.{
  MountState, MountClassification, unknown, parse_mountinfo, classify_mount_entries,
}
use kde_nasmount.Verify.Runtime.{
  AutomountState, active, trusted, Observed, Numbers, unique_mount_id, read_recorded_automount_id,
  automount_axis, cross_check, mount_axes, trust_axis, inspect_runtime,
}

abbrev pub active_state : Observed → Text → Option Text
active_state sys unit = sys.systemctl_show unit (codes "ActiveState")

-- systemd holds the unit for stopped: its state is "inactive" or "failed".
pub SaysInactive : Option Text → Type 0
SaysInactive answer = (answer ≡ some (codes "inactive")) ⊎ (answer ≡ some (codes "failed"))

cross_check-eq-present :
    (seen : MountClassification) (answer : Option Text)
    → (cross_check seen answer).mount ≡ MountState.present
    → (answer ≡ some (codes "active"))
      × (seen.mount ≡ MountState.present)
      × (cross_check seen answer ≡ seen)
unfolding cross_check
cross_check-eq-present seen none h = cc
cross_check-eq-present seen (some v) h = ground (arith, text_eq_iff v (codes "active"))

cross_check-eq-absent :
    (seen : MountClassification) (answer : Option Text)
    → (cross_check seen answer).mount ≡ MountState.absent
    → SaysInactive answer × (seen.mount ≡ MountState.absent)
unfolding cross_check SaysInactive
cross_check-eq-absent seen none h = cc
cross_check-eq-absent seen (some v) h =
    ground (arith, text_eq_iff v (codes "inactive"), text_eq_iff v (codes "failed"))

trust_axis-eq-trusted :
    (state : AutomountState) (recorded current : ℕ)
    → trust_axis state recorded current ≡ trusted
    → (state ≡ active) × (recorded ≡ current) × (recorded ≢ 0)
unfolding trust_axis
trust_axis-eq-trusted active recorded current h = (refl, ground arith, λ e. ground arith)
trust_axis-eq-trusted AutomountState.inactive recorded current h = cc
trust_axis-eq-trusted AutomountState.indeterminate recorded current h = cc

automount_axis-eq-active :
    (answer : Option Text) → automount_axis answer ≡ active → answer ≡ some (codes "active")
unfolding automount_axis
automount_axis-eq-active none h = cc
automount_axis-eq-active (some v) h = ground (arith, text_eq_iff v (codes "active"))

module _ (qt : Qt) (numbers : Numbers) (sys : Observed)
    (unit_name mount_point expected_what : Text) where
  abbrev pub classified : Text → MountClassification
  classified content =
      classify_mount_entries qt (parse_mountinfo numbers.to_long_long content) mount_point
        expected_what

  mount_axes-cases :
      (mount_axes qt numbers sys unit_name mount_point expected_what ≡ unknown)
      ⊎ ((content : Text) × (sys.mountinfo ≡ some content)
          × (mount_axes qt numbers sys unit_name mount_point expected_what
              ≡ cross_check (classified content) (active_state sys (unit_name ++ codes ".mount"))))
  unfolding mount_axes
  mount_axes-cases = elim (Option-cases sys.mountinfo) [
    | inl e ↦ inl (rw e)
    | inr (content, e) ↦ inr (content, e, rw e)
  ]

  mount_axes-agreed :
      (state : MountState)
      → (state ≡ MountState.indeterminate → ⊥)
      → (mount_axes qt numbers sys unit_name mount_point expected_what).mount ≡ state
      → (content : Text) × (sys.mountinfo ≡ some content)
        × ((cross_check (classified content) (active_state sys (unit_name ++ codes ".mount"))).mount
            ≡ state)
        × (mount_axes qt numbers sys unit_name mount_point expected_what
            ≡ cross_check (classified content) (active_state sys (unit_name ++ codes ".mount")))
  mount_axes-agreed state known h = elim mount_axes-cases [
    | inl e ↦ absurd (known (sym h ∙ ap (λ c. c.mount) e))
    | inr (content, read, is) ↦ (content, read, sym (ap (λ c. c.mount) is) ∙ h, is)
  ]

  -- A snapshot says "present" only when the mountinfo was read, is classified as present with the
  -- snapshot's verification, and systemd says that the mount unit is active.
  pub inspect_runtime-present :
      (inspect_runtime qt numbers sys unit_name mount_point expected_what).mount
        ≡ MountState.present
      → (content : Text) × (sys.mountinfo ≡ some content)
        × (active_state sys (unit_name ++ codes ".mount") ≡ some (codes "active"))
        × ((classified content).mount ≡ MountState.present)
        × ((inspect_runtime qt numbers sys unit_name mount_point expected_what).verification
            ≡ (classified content).verification)
  unfolding inspect_runtime
  inspect_runtime-present h =
      let (content, read, crossed, is) =
        mount_axes-agreed MountState.present (λ x. present_known x) h in
      let (says, seen, same) = cross_check-eq-present _ _ crossed in
      (content, read, says, seen, ap (λ c. c.verification) (is ∙ same))
    where
      present_known : MountState.present ≡ MountState.indeterminate → ⊥
      present_known x = cc

  -- A snapshot says "absent" only when the mountinfo was read, is classified as absent, and systemd
  -- says that the mount unit is inactive or failed: a failed reading is never taken for it.
  pub inspect_runtime-absent :
      (inspect_runtime qt numbers sys unit_name mount_point expected_what).mount ≡ MountState.absent
      → (content : Text) × (sys.mountinfo ≡ some content)
        × SaysInactive (active_state sys (unit_name ++ codes ".mount"))
        × ((classified content).mount ≡ MountState.absent)
  unfolding inspect_runtime
  inspect_runtime-absent h =
      let (content, read, crossed, is) =
        mount_axes-agreed MountState.absent (λ x. absent_known x) h in
      let (says, seen) = cross_check-eq-absent _ _ crossed in (content, read, says, seen)
    where
      absent_known : MountState.absent ≡ MountState.indeterminate → ⊥
      absent_known x = cc

  -- An automount is trusted only when systemd says that it is active and the mount id at the mount
  -- point is the recorded one and not 0.
  pub inspect_runtime-trusted :
      (inspect_runtime qt numbers sys unit_name mount_point expected_what).activation_trust
        ≡ trusted
      → (active_state sys (unit_name ++ codes ".automount") ≡ some (codes "active"))
        × (read_recorded_automount_id qt numbers sys unit_name ≡ unique_mount_id sys mount_point)
        × (read_recorded_automount_id qt numbers sys unit_name ≢ 0)
  unfolding inspect_runtime
  inspect_runtime-trusted h =
      let (is_active, same, filled) = trust_axis-eq-trusted _ _ _ h in
      (automount_axis-eq-active _ is_active, same, filled)
