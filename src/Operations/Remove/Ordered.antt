-- ===== src/Operations/Remove/Ordered.antt =====
-- The order of the steps of remove: the units stay as they are until the credential is gone.
use kde_nasmount.Prelude.{Bool, true, false, none, ◌≡◌, ◌⊎◌, inl, inr, refl, ◌∙◌}
use kde_nasmount.Prelude.Program.{
  Program, ret, call, Always, Always->>=, Always-map, Always-end, Keeps, Keeps-ret, Keeps-call,
  Keeps->>=, Keeps-or_fail, Keeps-Always, run, or_fail, perform, ◌>>=◌,
}
use kde_nasmount.Qt.{Qt}
use kde_nasmount.Text.{Text}
use kde_nasmount.UnitValue.Marker.{is_valid_share_id}
use kde_nasmount.Verify.Runtime.{Numbers}
use kde_nasmount.Credentials as Credentials
use kde_nasmount.Credentials.{open_directory, unlink_file, file_name_for}
use kde_nasmount.Operations.{
  Call, Answer, open_units, remove_unit, remove_automount_id, daemon_reload, stop, stored,
  mount_file, automount_file,
}
use kde_nasmount.Operations.Machine.{Root, Same, RootLaws, on_call, on_credential, unit_of}
use kde_nasmount.Operations.Machine.Quiet.{
  Keeps-Quiet, Keeps-QuietCredential, Keeps-stored, run-stored, Quiet-Same,
}
use kde_nasmount.Operations.Remove.{
  RemovalInput, is_down, unlink_automount, forget, unlink_units, after_stop, remove,
}

module _ {S : Type 0} (qt : Qt) (numbers : Numbers) (root : Root S) (laws : RootLaws root) where
  -- a unit file is as it was in a state
  UnitOf : S → Text → S → Type 0
  UnitOf s n t = unit_of root t n ≡ unit_of root s n

  UnitOf-framed : (s : S) (n : Text) (t u : S) → Same root t u → UnitOf s n t → UnitOf s n u
  unfolding UnitOf
  UnitOf-framed s n t u same h = same.units.unit_same n ∙ h

  unlink-UnitOf :
      (s : S) (n id : Text) (t : S)
      → UnitOf s n t
      → UnitOf s n (on_credential qt numbers root (unlink_file (file_name_for id)) t).1
  unfolding UnitOf
  unlink-UnitOf s n id t h = (laws.unlink_units (file_name_for id) t).unit_same n ∙ h

  remove-UnitOf :
      (s : S) (n id : Text)
      → Keeps (on_credential qt numbers root) (UnitOf s n) (Credentials.remove id)
  unfolding Credentials.remove
  remove-UnitOf s n id =
      Keeps-or_fail (on_credential qt numbers root) (UnitOf s n) (is_valid_share_id id) _ (
        Keeps-QuietCredential qt numbers root laws (UnitOf s n) (UnitOf-framed s n) open_directory
          (λ opened. or_fail opened (perform (unlink_file (file_name_for id)))) tt
          (λ opened.
            Keeps-or_fail (on_credential qt numbers root) (UnitOf s n) opened
              (perform (unlink_file (file_name_for id)))
              (Keeps-call (on_credential qt numbers root) (UnitOf s n)
                (unlink_file (file_name_for id)) (λ r. ret r) (unlink-UnitOf s n id)
                (λ r. Keeps-ret (on_credential qt numbers root) (UnitOf s n) r))))

  unfoldable pub NoCredential : Text → S → Type 0
  NoCredential id t = root.credential_file t (file_name_for id) ≡ none

  pub NoCredential-framed :
      (id : Text) (t u : S) → Same root t u → NoCredential id t → NoCredential id u
  unfolding NoCredential
  NoCredential-framed id t u same h = same.credentials.credential_same (file_name_for id) ∙ h

  remove_unit-NoCredential :
      (id n : Text) (t : S)
      → NoCredential id t
      → NoCredential id (on_call qt numbers root (remove_unit n) t).1
  unfolding NoCredential
  remove_unit-NoCredential id n t h =
      (laws.remove_credentials n t).credential_same (file_name_for id) ∙ h

  remove_unit-Keeps :
      (id n : Text) → Keeps (on_call qt numbers root) (NoCredential id) (perform (remove_unit n))
  remove_unit-Keeps id n =
      Keeps-call (on_call qt numbers root) (NoCredential id) (remove_unit n) (λ r. ret r)
        (remove_unit-NoCredential id n)
        (λ r. Keeps-ret (on_call qt numbers root) (NoCredential id) r)

  forget-Keeps :
      (id u : Text) (b : Bool) → Keeps (on_call qt numbers root) (NoCredential id) (forget u b)
  unfolding forget
  forget-Keeps id u b = Keeps-or_fail (on_call qt numbers root) (NoCredential id) b _ (
      Keeps-Quiet qt numbers root laws (NoCredential id) (NoCredential-framed id)
        (remove_automount_id u) (λ forgotten. or_fail forgotten (perform daemon_reload)) tt
        (λ forgotten.
          Keeps-or_fail (on_call qt numbers root) (NoCredential id) forgotten
            (perform daemon_reload)
            (Keeps-Quiet qt numbers root laws (NoCredential id) (NoCredential-framed id)
              daemon_reload (λ r. ret r) tt
              (λ r. Keeps-ret (on_call qt numbers root) (NoCredential id) r))))

  pub unlink_units-Keeps :
      (id u : Text) (b : Bool)
      → Keeps (on_call qt numbers root) (NoCredential id) (unlink_units u b)
  unfolding unlink_units unlink_automount
  unlink_units-Keeps id u b = Keeps-or_fail (on_call qt numbers root) (NoCredential id) b _ (
      Keeps-call (on_call qt numbers root) (NoCredential id) (remove_unit (mount_file u))
        (λ mount_removed. unlink_automount u mount_removed >>= forget u)
        (remove_unit-NoCredential id (mount_file u))
        (λ mount_removed.
          Keeps->>= (on_call qt numbers root) (NoCredential id) (unlink_automount u mount_removed)
            (forget u)
            (Keeps-or_fail (on_call qt numbers root) (NoCredential id) mount_removed _
              (remove_unit-Keeps id (automount_file u)))
            (forget-Keeps id u)))

  -- an operation that reports the credential as removed has removed it
  unlink_gone :
      (id : Text) (opened : Bool) (s : S)
      → ((run
            (on_credential qt numbers root)
            (or_fail opened (perform (unlink_file (file_name_for id))))
            s).0
          ≡ false)
        ⊎ NoCredential id
            (run
              (on_credential qt numbers root)
              (or_fail opened (perform (unlink_file (file_name_for id))))
              s).1
  unfolding run NoCredential
  unlink_gone id false s = inl refl
  unlink_gone id true s = elim ((laws.unlink_wrote (file_name_for id) s).written) [
    | inl gone ↦ inr gone
    | inr (refused, kept) ↦ inl refused
  ]

  remove_gone_of :
      (id : Text) (valid : Bool) (s : S)
      → ((run
            (on_credential qt numbers root)
            (or_fail valid (
              call open_directory
                (λ opened. or_fail opened (perform (unlink_file (file_name_for id))))))
            s).0
          ≡ false)
        ⊎ NoCredential id
            (run
              (on_credential qt numbers root)
              (or_fail valid (
                call open_directory
                  (λ opened. or_fail opened (perform (unlink_file (file_name_for id))))))
              s).1
  unfolding run
  remove_gone_of id false s = inl refl
  remove_gone_of id true s =
      unlink_gone id (root.open_credential_directory s).0 (root.open_credential_directory s).1

  pub remove_gone :
      (id : Text) (s : S)
      → ((run (on_call qt numbers root) (stored (Credentials.remove id)) s).0 ≡ false)
        ⊎ NoCredential id (run (on_call qt numbers root) (stored (Credentials.remove id)) s).1
  unfolding Credentials.remove
  remove_gone id s =
      rw (run-stored qt numbers root laws (Credentials.remove id) s)
        (remove_gone_of id (is_valid_share_id id) s)

  -- The credential is gone, or the unit file is as it was.
  unfoldable pub IsOrdered : S → Text → Text → S → Type 0
  unfolding NoCredential UnitOf
  IsOrdered s id n t = NoCredential id t ⊎ UnitOf s n t

  units_next : RemovalInput → Bool → Program Call Answer Bool
  units_next input removed =
      or_fail removed (call open_units (λ opened. unlink_units input.unit_name opened))

  units_next-IsOrdered :
      (input : RemovalInput) (s : S) (n : Text) (removed : Bool) (t : S)
      → UnitOf s n t
      → (removed ≡ false) ⊎ NoCredential input.share_id t
      → Always (on_call qt numbers root) (IsOrdered s input.share_id n) (units_next input removed) t
  unfolding units_next IsOrdered
  units_next-IsOrdered input s n false t h gone = inr h
  units_next-IsOrdered input s n true t h (inl e) = cc
  units_next-IsOrdered input s n true t h (inr gone) =
      let next = call open_units (λ opened. unlink_units input.unit_name opened) in
      Always-map (on_call qt numbers root) (NoCredential input.share_id)
        (IsOrdered s input.share_id n) next t (λ _ g. inl g)
        (Keeps-Always (on_call qt numbers root) (NoCredential input.share_id) next t
          (Keeps-Quiet qt numbers root laws (NoCredential input.share_id)
            (NoCredential-framed input.share_id) open_units
            (λ opened. unlink_units input.unit_name opened) tt
            (unlink_units-Keeps input.share_id input.unit_name))
          gone)

  after_stop-IsOrdered :
      (input : RemovalInput) (s : S) (n : Text) (down : Bool) (t : S)
      → UnitOf s n t
      → Always (on_call qt numbers root) (IsOrdered s input.share_id n) (after_stop input down) t
  unfolding after_stop IsOrdered units_next
  after_stop-IsOrdered input s n false t h = inr h
  after_stop-IsOrdered input s n true t h =
      let credential_first = stored (Credentials.remove input.share_id) in
      let kept =
        Keeps-Always (on_call qt numbers root) (UnitOf s n) credential_first t
          (Keeps-stored qt numbers root laws (UnitOf s n) (Credentials.remove input.share_id)
            (remove-UnitOf s n input.share_id))
          h in
      Always->>= (on_call qt numbers root) (IsOrdered s input.share_id n) credential_first
        (units_next input) t
        (Always-map (on_call qt numbers root) (UnitOf s n) (IsOrdered s input.share_id n)
          credential_first t (λ _ u. inr u) kept)
        (units_next-IsOrdered input s n (run (on_call qt numbers root) credential_first t).0
          (run (on_call qt numbers root) credential_first t).1
          (Always-end (on_call qt numbers root) (UnitOf s n) credential_first t kept)
          (remove_gone input.share_id t))

  -- In every state that remove passes through, whatever fails on the way and wherever it is
  -- interrupted, the credential of the share is gone or every unit file is as it was at the start.
  pub remove-IsOrdered :
      (input : RemovalInput) (n : Text) (s : S)
      → Always (on_call qt numbers root) (IsOrdered s input.share_id n) (remove input) s
  unfolding remove IsOrdered UnitOf
  remove-IsOrdered input n s =
      let stop_first = stop input.unit_name input.mount_point input.what in
      let down = (on_call qt numbers root stop_first s).1 in
      (
        inr refl,
        after_stop-IsOrdered input s n (is_down (on_call qt numbers root stop_first s).0) down
            ((Quiet-Same qt numbers root laws stop_first tt s).units.unit_same n),
      )
