-- ===== src/Operations/Remove/Removed.antt =====
-- What remove has done when it reports a share as removed, and that a share that is not down is left.
use kde_nasmount.Prelude.{Bool, true, false, none, ◌≡◌, ◌≢◌, arith, ◌⊎◌, inl, inr, refl, ◌∙◌}
use kde_nasmount.Prelude.Program.{
  Program, call, run, run->>=, or_fail, perform, Always-end, Keeps-Always,
}
use kde_nasmount.Qt.{Qt}
use kde_nasmount.Text.{Text}
use kde_nasmount.Verify.Files.{missing}
use kde_nasmount.Verify.Runtime.{Numbers}
use kde_nasmount.Arming.{safe_stop, StopResult, stopped}
use kde_nasmount.Credentials as Credentials
use kde_nasmount.Credentials.{file_name_for}
use kde_nasmount.Operations.{
  Call, Answer, open_units, daemon_reload, stored, mount_file, automount_file,
}
use kde_nasmount.Operations.Machine.{Root, Same, RootLaws, on_call, unit_of}
use kde_nasmount.Operations.Define.Cleanup.{mount_file-neq-automount_file}
use kde_nasmount.Operations.Remove.{
  RemovalInput, is_down, unlink_automount, forget, unlink_units, after_stop, remove,
}
use kde_nasmount.Operations.Remove.Ordered.{
  NoCredential, NoCredential-framed, unlink_units-Keeps, remove_gone,
}

module _ {S : Type 0} (qt : Qt) (numbers : Numbers) (root : Root S) (laws : RootLaws root) where
  -- The credential and both units are gone.
  pub record IsRemoved (input : RemovalInput) (t : S) : Type 0 where
    pub credential_gone : root.credential_file t (file_name_for input.share_id) ≡ none
    pub mount_gone : unit_of root t (mount_file input.unit_name) ≡ missing
    pub automount_gone : unit_of root t (automount_file input.unit_name) ≡ missing

  record AreGone (u : Text) (t : S) : Type 0 where
    mount_gone : unit_of root t (mount_file u) ≡ missing
    automount_gone : unit_of root t (automount_file u) ≡ missing

  AreGone-framed : (u : Text) (s t : S) → Same root s t → AreGone u s → AreGone u t
  AreGone-framed u s t same h = record {
    mount_gone = same.units.unit_same (mount_file u) ∙ h.mount_gone;
    automount_gone = same.units.unit_same (automount_file u) ∙ h.automount_gone;
  }

  -- a program fails or leaves the units gone
  Unlinks : Text → Bool × S → Type 0
  Unlinks u (b, t) = (b ≡ false) ⊎ AreGone u t

  reload-Unlinks :
      (u : Text) (b : Bool) (t : S)
      → AreGone u t
      → Unlinks u (run (on_call qt numbers root) (or_fail b (perform daemon_reload)) t)
  unfolding Unlinks run
  reload-Unlinks u false t gone = inl refl
  reload-Unlinks u true t gone =
      inr (AreGone-framed u t (root.reload_daemon t).1 (laws.reload_same t) gone)

  forget-Unlinks :
      (u : Text) (removed : Bool) (t : S)
      → (removed ≡ false) ⊎ AreGone u t
      → Unlinks u (run (on_call qt numbers root) (forget u removed) t)
  unfolding Unlinks forget run
  forget-Unlinks u false t gone = inl refl
  forget-Unlinks u true t (inl e) = cc
  forget-Unlinks u true t (inr gone) =
      let forgotten = root.machine.remove_automount_id u t in
      reload-Unlinks u forgotten.0 forgotten.1
        (AreGone-framed u t forgotten.1 (laws.remove_id_same u t) gone)

  -- the second unit goes after the first
  unlink_automount-gone :
      (u : Text) (mount_removed : Bool) (t : S)
      → (mount_removed ≡ false) ⊎ (unit_of root t (mount_file u) ≡ missing)
      → ((run (on_call qt numbers root) (unlink_automount u mount_removed) t).0 ≡ false)
        ⊎ AreGone u (run (on_call qt numbers root) (unlink_automount u mount_removed) t).1
  unfolding unlink_automount run
  unlink_automount-gone u false t h = inl refl
  unlink_automount-gone u true t (inl e) = cc
  unlink_automount-gone u true t (inr h) =
      let wrote = laws.remove_wrote (automount_file u) t in
      elim (wrote.written) [
        | inl e ↦ inr (record {
          mount_gone = wrote.others (mount_file u) (mount_file-neq-automount_file u) ∙ h;
          automount_gone = e;
        })
        | inr (done, kept) ↦ inl done
      ]

  unlink_units-Unlinks :
      (u : Text) (opened : Bool) (t : S)
      → Unlinks u (run (on_call qt numbers root) (unlink_units u opened) t)
  unfolding unlink_units run Unlinks
  unlink_units-Unlinks u false t = inl refl
  unlink_units-Unlinks u true t =
      let gone = root.remove_unit_file (mount_file u) t in
      let mount_gone =
        elim ((laws.remove_wrote (mount_file u) t).written)
          as (λ _. (gone.0 ≡ false) ⊎ (unit_of root gone.1 (mount_file u) ≡ missing)) [
            | inl e ↦ inr e
            | inr (done, kept) ↦ inl done
          ] in
      rw (run->>= (on_call qt numbers root) (unlink_automount u gone.0) (forget u) gone.1) (
        forget-Unlinks u (run (on_call qt numbers root) (unlink_automount u gone.0) gone.1).0
          (run (on_call qt numbers root) (unlink_automount u gone.0) gone.1).1
          (unlink_automount-gone u gone.0 gone.1 mount_gone))

  units_next : RemovalInput → Bool → Program Call Answer Bool
  units_next input removed =
      or_fail removed (call open_units (λ opened. unlink_units input.unit_name opened))

  units_next-IsRemoved :
      (input : RemovalInput) (removed : Bool) (t : S)
      → (removed ≡ false) ⊎ NoCredential qt numbers root laws input.share_id t
      → ((run (on_call qt numbers root) (units_next input removed) t).0 ≡ false)
        ⊎ IsRemoved input (run (on_call qt numbers root) (units_next input removed) t).1
  unfolding units_next run Unlinks NoCredential
  units_next-IsRemoved input false t h = inl refl
  units_next-IsRemoved input true t (inl e) = cc
  units_next-IsRemoved input true t (inr gone) =
      let opened = root.open_unit_directory t in
      let still =
        NoCredential-framed qt numbers root laws input.share_id t opened.1 (laws.open_units_same t)
          gone in
      let end =
        Always-end (on_call qt numbers root) (NoCredential qt numbers root laws input.share_id)
          (unlink_units input.unit_name opened.0) opened.1
          (Keeps-Always (on_call qt numbers root) (NoCredential qt numbers root laws input.share_id)
            (unlink_units input.unit_name opened.0) opened.1
            (unlink_units-Keeps qt numbers root laws input.share_id input.unit_name opened.0)
            still) in
      elim (unlink_units-Unlinks input.unit_name opened.0 opened.1) [
        | inl refused ↦ inl refused
        | inr units ↦ inr (record {
          credential_gone = end;
          mount_gone = units.mount_gone;
          automount_gone = units.automount_gone;
        })
      ]

  abbrev pub stop_of : RemovalInput → S → StopResult
  stop_of input s =
      (safe_stop qt numbers root.machine input.unit_name input.mount_point input.what s).0

  -- the share was not down and nothing was done after safeStop, or remove failed, or all is gone
  unfoldable pub Reports : RemovalInput → S → Bool × S → Type 0
  Reports input s (b, t) =
      ((stop_of input s ≢ stopped)
        × (stop_of input s ≢ StopResult.already_inactive)
        × (b ≡ false)
        × (t
            ≡ (safe_stop qt numbers root.machine input.unit_name input.mount_point input.what s).1))
      ⊎ (((stop_of input s ≡ stopped) ⊎ (stop_of input s ≡ StopResult.already_inactive))
          × ((b ≡ false) ⊎ IsRemoved input t))

  is_down-eq-true :
      (r : StopResult) → is_down r ≡ true → (r ≡ stopped) ⊎ (r ≡ StopResult.already_inactive)
  unfolding is_down
  is_down-eq-true stopped h = inl refl
  is_down-eq-true StopResult.already_inactive h = inr refl
  is_down-eq-true StopResult.busy h = cc
  is_down-eq-true StopResult.correlation_mismatch h = cc
  is_down-eq-true StopResult.indeterminate h = cc

  is_down-eq-false :
      (r : StopResult) → is_down r ≡ false → (r ≢ stopped) × (r ≢ StopResult.already_inactive)
  unfolding is_down
  is_down-eq-false r h = ground arith

  after_stop-IsRemoved :
      (input : RemovalInput) (t : S)
      → ((run (on_call qt numbers root) (after_stop input true) t).0 ≡ false)
        ⊎ IsRemoved input (run (on_call qt numbers root) (after_stop input true) t).1
  unfolding after_stop units_next
  after_stop-IsRemoved input t =
      rw
        (run->>= (on_call qt numbers root) (stored (Credentials.remove input.share_id))
          (units_next input) t)
        (units_next-IsRemoved input
          (run (on_call qt numbers root) (stored (Credentials.remove input.share_id)) t).0
          (run (on_call qt numbers root) (stored (Credentials.remove input.share_id)) t).1
          (remove_gone qt numbers root laws input.share_id t))

  not_down :
      (input : RemovalInput) (t : S)
      → ((run (on_call qt numbers root) (after_stop input false) t).0 ≡ false)
        × ((run (on_call qt numbers root) (after_stop input false) t).1 ≡ t)
  unfolding after_stop run
  not_down input t = (refl, refl)

  after_stop-Reports :
      (input : RemovalInput) (s : S) (down : Bool)
      → is_down (safe_stop qt numbers root.machine input.unit_name input.mount_point input.what s).0
        ≡ down
      → Reports input s (
          run
            (on_call qt numbers root)
            (after_stop input down)
            (safe_stop qt numbers root.machine input.unit_name input.mount_point input.what s).1)
  unfolding Reports
  after_stop-Reports input s true h = inr (
    is_down-eq-true (stop_of input s) h,
    after_stop-IsRemoved input
        (safe_stop qt numbers root.machine input.unit_name input.mount_point input.what s).1,
  )
  after_stop-Reports input s false h =
      let still =
        (safe_stop qt numbers root.machine input.unit_name input.mount_point input.what s).1 in
      let others = is_down-eq-false (stop_of input s) h in
      inl (others.0, others.1, (not_down input still).0, (not_down input still).1)

  -- When safeStop says neither Stopped nor AlreadyInactive, remove fails and has done nothing after it;
  -- otherwise it fails, or at its end the credential and both unit files of the share are gone.
  pub remove-Reports :
      (input : RemovalInput) (s : S)
      → Reports input s (run (on_call qt numbers root) (remove input) s)
  unfolding remove run
  remove-Reports input s =
      after_stop-Reports input s
        (is_down
          (safe_stop qt numbers root.machine input.unit_name input.mount_point input.what s).0)
        refl
