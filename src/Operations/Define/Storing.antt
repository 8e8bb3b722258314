-- ===== src/Operations/Define/Storing.antt =====
-- From the stored credential on, define keeps: no credential, or both units of its share.
use kde_nasmount.Prelude.{
  ℕ, Bool, true, false, not, List, ◌≡◌, ◌⊎◌, inl, inr, refl, ◌∙◌, Result, ok, err, if◌then◌else◌,
}
use kde_nasmount.Prelude.Program.{
  Program, ret, Always, Always->>=, Always-end, Keeps, Keeps-ret, Keeps-Always, run, or_fail,
  perform,
}
use kde_nasmount.Qt.{Qt}
use kde_nasmount.Text.{Text}
use kde_nasmount.Verify.Runtime.{Numbers}
use kde_nasmount.Arming.{ArmShareResult, needs_attention}
use kde_nasmount.Credentials.{
  Utf8, replace_file, write, file_name_for, replace_in_directory, credential_bytes, assert_absent,
}
use kde_nasmount.Operations.{Call, Answer, daemon_reload, arm, stored}
use kde_nasmount.Operations.Machine.{Root, Same, RootLaws, on_call, may_be_temp, on_credential}
use kde_nasmount.Operations.Machine.Quiet.{Keeps-Quiet, Always-stored, assert_absent-Keeps}
use kde_nasmount.Operations.Define.{
  DefineInput, DefineOutput, failed, undone, is_authenticated, units_made, finish, activate, reload,
  store_credential, after_automount, request_of,
}
use kde_nasmount.Operations.Define.Cleanup.{
  NoCredential, BothUnits, IsDiscoverable, NoCredential-framed, Left, Left-framed, BothUnits-framed,
  undone-Left, name-cases,
}

module _ {S : Type 0} (qt : Qt) (numbers : Numbers) (root : Root S) (laws : RootLaws root)
    (enc : Utf8) (input : DefineInput) (name : Text) (plain : may_be_temp name ≡ false) where
  abbrev pub Clear : S → Type 0
  Clear = NoCredential qt numbers root laws enc input name

  abbrev pub Units : Text → Text → S → Type 0
  Units = BothUnits qt numbers root laws enc input name

  abbrev pub May : Text → Text → Text → S → Type 0
  May = Left qt numbers root laws enc input name

  abbrev pub Found : S → Type 0
  Found = IsDiscoverable qt numbers root laws enc input name

  abbrev pub clear_framed : (s t : S) → Same root s t → Clear s → Clear t
  clear_framed = NoCredential-framed qt numbers root laws enc input name

  abbrev pub may_framed : (id m a : Text) (s t : S) → Same root s t → May id m a s → May id m a t
  may_framed = Left-framed qt numbers root laws enc input name

  -- with what was made, the clean-up knows whether there may be a credential
  may_undo :
      (id m a : Text) (s : S) → May id m a s → (is_authenticated qt enc input ≡ true) ⊎ Clear s
  unfolding Left
  may_undo id m a s (inl h) = inr h
  may_undo id m a s (inr (h, _, _)) = inl h

  undone-Keeps :
      (id m a : Text)
      → Keeps
          (on_call qt numbers root)
          (May id m a)
          (undone input.unit_name id (units_made qt enc input))
  unfolding Keeps
  undone-Keeps id m a s h =
      undone-Left qt numbers root laws enc input name id m a (units_made qt enc input) s h
        (may_undo id m a s h)

  kept_or_undone :
      (id m a : Text) (safe : Bool)
      → Keeps
          (on_call qt numbers root)
          (May id m a)
          (if not safe then ret failed else undone input.unit_name id (units_made qt enc input))
  kept_or_undone id m a false = Keeps-ret (on_call qt numbers root) (May id m a) failed
  kept_or_undone id m a true = undone-Keeps id m a

  finish-Keeps :
      (id m a : Text) (result : ArmShareResult)
      → Keeps (on_call qt numbers root) (May id m a) (finish qt enc input id result)
  unfolding finish
  finish-Keeps id m a result =
      elim (result.outcome)
        as (λ o.
          Keeps (on_call qt numbers root) (May id m a)
            (elim o as (λ _. Program Call Answer DefineOutput) [
              | needs_attention ↦
                  (if not result.definition_cleanup_safe
                    then ret failed
                    else undone input.unit_name id (units_made qt enc input))
              | _ ↦ ret (record { is_ok = true; share_id = id; activated = true })
            ])) [
              | needs_attention ↦ kept_or_undone id m a result.definition_cleanup_safe
              | _ ↦
                  Keeps-ret (on_call qt numbers root) (May id m a)
                    (record { is_ok = true; share_id = id; activated = true })
            ]

  activate-Keeps :
      (id m a : Text) (b : Bool)
      → Keeps (on_call qt numbers root) (May id m a) (activate qt enc input id b)
  unfolding activate
  activate-Keeps id m a false = undone-Keeps id m a
  activate-Keeps id m a true =
      Keeps-Quiet qt numbers root laws (May id m a) (may_framed id m a) (arm (request_of input id))
        _ tt (finish-Keeps id m a)

  reload-Keeps :
      (id m a : Text) (b : Bool)
      → Keeps (on_call qt numbers root) (May id m a) (reload qt enc input id b)
  unfolding reload
  reload-Keeps id m a false = undone-Keeps id m a
  reload-Keeps id m a true =
      Keeps-Quiet qt numbers root laws (May id m a) (may_framed id m a) daemon_reload _ tt
        (activate-Keeps id m a)

  -- Storing the credential starts from both units without one.
  replaced-May :
      (id m a : Text) (bytes : List ℕ) (s : S)
      → is_authenticated qt enc input ≡ true
      → Clear s
      → Units m a s
      → May id m a (root.replace_credential (file_name_for id) bytes s).1
  unfolding Left NoCredential
  replaced-May id m a bytes s auth h units = elim (name-cases name (file_name_for id)) [
    | inl e ↦ inr (
      auth,
      e,
      BothUnits-framed qt numbers root laws enc input name m a s _
          (laws.replace_units (file_name_for id) bytes s).unit_same units,
    )
    | inr other ↦ inl ((laws.replace_wrote (file_name_for id) bytes s).others name other plain ∙ h)
  ]

  pub clear-May : (id m a : Text) (s : S) → Clear s → May id m a s
  unfolding Left
  clear-May id m a s h = inl h

  replace-Always :
      (id m a : Text) (bytes : List ℕ) (opened : Bool) (s : S)
      → is_authenticated qt enc input ≡ true
      → Clear s
      → Units m a s
      → Always
          (on_credential qt numbers root)
          (May id m a)
          (or_fail opened (perform (replace_file (file_name_for id) bytes)))
          s
  replace-Always id m a bytes true s auth h units =
      (clear-May id m a s h, replaced-May id m a bytes s auth h units)
  replace-Always id m a bytes false s auth h units = clear-May id m a s h

  write-Always :
      (id m a : Text) (made : Result (Unit {0}) (List ℕ)) (s : S)
      → is_authenticated qt enc input ≡ true
      → Clear s
      → Units m a s
      → Always (on_credential qt numbers root) (May id m a) (replace_in_directory enc id made) s
  unfolding replace_in_directory
  write-Always id m a (err _) s auth h units = clear-May id m a s h
  write-Always id m a (ok bytes) s auth h units =
      let same = laws.open_credentials_same s in
      let t = (root.open_credential_directory s).1 in
      (
        clear-May id m a s h,
        replace-Always id m a bytes (root.open_credential_directory s).0 t auth
            (clear_framed s t same h)
            (BothUnits-framed qt numbers root laws enc input name m a s t same.units.unit_same
              units),
      )

  store_either :
      (id m a : Text) (b : Bool) (s : S)
      → is_authenticated qt enc input ≡ b
      → Clear s
      → Units m a s
      → Always
          (on_call qt numbers root)
          (May id m a)
          (if b
            then stored (write enc id input.username input.domain input.password)
            else stored (assert_absent id))
          s
  unfolding write
  store_either id m a true s auth h units =
      Always-stored qt numbers root laws (May id m a)
        (write enc id input.username input.domain input.password) s
        (write-Always id m a (credential_bytes enc id input.username input.domain input.password) s
          auth h units)
  store_either id m a false s auth h units =
      Keeps-Always (on_call qt numbers root) (May id m a) (stored (assert_absent id)) s
        (assert_absent-Keeps qt numbers root laws (May id m a) (may_framed id m a) id)
        (clear-May id m a s h)

  pub stored-May :
      (id m a : Text) (s : S)
      → Clear s
      → Units m a s
      → Always (on_call qt numbers root) (May id m a) (after_automount qt enc input id true) s
  unfolding after_automount store_credential
  stored-May id m a s h units =
      let always = store_either id m a (is_authenticated qt enc input) s refl h units in
      Always->>= (on_call qt numbers root) (May id m a) (store_credential qt enc input id)
        (reload qt enc input id) s always
        (Keeps-Always (on_call qt numbers root) (May id m a)
          (reload qt enc input id
            (run (on_call qt numbers root) (store_credential qt enc input id) s).0)
          (run (on_call qt numbers root) (store_credential qt enc input id) s).1
          (reload-Keeps id m a
            (run (on_call qt numbers root) (store_credential qt enc input id) s).0)
          (Always-end (on_call qt numbers root) (May id m a) (store_credential qt enc input id) s
            always))
