-- ===== src/Operations/Define/Success.antt =====
-- What a successful define has made.
use kde_nasmount.Prelude.{
  ℕ, Bool, true, false, Option, none, some, List, ◌≡◌, ◌⊎◌, inl, inr, refl, ap, ◌∙◌, Result, ok,
  err, if◌then◌else◌, Bool-cases,
}
use kde_nasmount.Prelude.Program.{run, run->>=, or_fail, perform, Always-end, Keeps-Always}
use kde_nasmount.Qt.{Qt}
use kde_nasmount.Text.{Text}
use kde_nasmount.UnitValue.Marker.{is_valid_share_id}
use kde_nasmount.Verify.Files.{readable}
use kde_nasmount.Verify.Runtime.{Numbers}
use kde_nasmount.Credentials.{
  Utf8, replace_file, write, file_name_for, replace_in_directory, credential_bytes, assert_absent,
  with_file,
}
use kde_nasmount.Operations.{stored, mount_file, automount_file}
use kde_nasmount.Operations.Machine.{Root, RootLaws, on_call, on_credential, unit_of}
use kde_nasmount.Operations.Machine.Quiet.{assert_absent-Keeps, run-stored}
use kde_nasmount.Operations.Identifier.{generate_unique_share_id}
use kde_nasmount.Operations.Define.{
  DefineInput, DefineOutput, is_authenticated, mount_made, pair_made, reload, store_credential,
  after_automount, after_mount, write_pair, contents_of, refuse_existing, look, with_id, define,
}
use kde_nasmount.Operations.Define.Cleanup.{mount_file-neq-automount_file, may_be_temp-mount_file}
use kde_nasmount.Operations.Define.Reports as Reports
use kde_nasmount.Operations.Define.Reports.{
  HasFiles, HasCredential, IsDefined, reload-Reports, undone-Reports,
}

module _ {S : Type 0} (qt : Qt) (numbers : Numbers) (root : Root S) (laws : RootLaws root)
    (enc : Utf8) (input : DefineInput) where
  abbrev Has : Text → Text → Text → S → Type 0
  Has = HasFiles qt numbers root laws enc input

  abbrev Reported : DefineOutput × S → Type 0
  Reported = Reports.Reports qt numbers root laws enc input

  record HasUnits (m a : Text) (t : S) : Type 0 where
    mount_there : unit_of root t (mount_file input.unit_name) ≡ readable (root.read_back m)
    automount_there : unit_of root t (automount_file input.unit_name) ≡ readable (root.read_back a)

  HasUnits-kept :
      (m a : Text) (s t : S)
      → ((n : Text) → unit_of root t n ≡ unit_of root s n)
      → HasUnits m a s
      → HasUnits m a t
  HasUnits-kept m a s t same units = record {
    mount_there = same (mount_file input.unit_name) ∙ units.mount_there;
    automount_there = same (automount_file input.unit_name) ∙ units.automount_there;
  }

  HasUnits-HasFiles :
      (id m a : Text) (t : S)
      → HasCredential qt numbers root laws enc input id t
      → HasUnits m a t
      → Has id m a t
  HasUnits-HasFiles id m a t credential units = record {
    mount_there = units.mount_there;
    automount_there = units.automount_there;
    credential_there = credential;
  }

  -- a program that has stored the credential, or failed
  Stores : Text → Text → Text → Bool × S → Type 0
  Stores id m a (b, t) = (b ≡ false) ⊎ Has id m a t

  replace-Stores :
      (id m a : Text) (bytes : List ℕ) (opened : Bool) (s : S)
      → credential_bytes enc id input.username input.domain input.password ≡ ok bytes
      → HasUnits m a s
      → Stores id m a (
          run
            (on_credential qt numbers root)
            (or_fail opened (perform (replace_file (file_name_for id) bytes)))
            s)
  unfolding Stores run HasCredential
  replace-Stores id m a bytes false s made units = inl refl
  replace-Stores id m a bytes true s made units =
      elim ((laws.replace_wrote (file_name_for id) bytes s).written) [
        | inl there ↦ inr (
            HasUnits-HasFiles id m a _ (inr (bytes, made, there)) (
              HasUnits-kept m a s _ (laws.replace_units (file_name_for id) bytes s).unit_same
                units))
        | inr (done, kept) ↦ inl done
      ]

  write-Stores :
      (id m a : Text) (made : Result (Unit {0}) (List ℕ)) (s : S)
      → credential_bytes enc id input.username input.domain input.password ≡ made
      → HasUnits m a s
      → Stores id m a (run (on_credential qt numbers root) (replace_in_directory enc id made) s)
  unfolding replace_in_directory run Stores
  write-Stores id m a (err _) s made units = inl refl
  write-Stores id m a (ok bytes) s made units =
      let t = (root.open_credential_directory s).1 in
      replace-Stores id m a bytes (root.open_credential_directory s).0 t made
        (HasUnits-kept m a s t (laws.open_credentials_same s).units.unit_same units)

  assert_absent-valid :
      (id : Text) (s : S)
      → ((run (on_credential qt numbers root) (assert_absent id) s).0 ≡ false)
        ⊎ (is_valid_share_id id ≡ true)
  unfolding assert_absent with_file run
  assert_absent-valid id s = elim (Bool-cases (is_valid_share_id id)) [
    | inl valid ↦ inr valid
    | inr invalid ↦ inl (rw invalid refl)
  ]

  guest-Stores :
      (id m a : Text) (s : S)
      → is_authenticated qt enc input ≡ false
      → HasUnits m a s
      → Stores id m a (run (on_call qt numbers root) (stored (assert_absent id)) s)
  unfolding Stores HasCredential
  guest-Stores id m a s auth units =
      let kept = Always-end (on_call qt numbers root) (HasUnits m a) (stored (assert_absent id)) s (
        Keeps-Always (on_call qt numbers root) (HasUnits m a) (stored (assert_absent id)) s
          (assert_absent-Keeps qt numbers root laws (HasUnits m a)
            (λ x y same. HasUnits-kept m a x y same.units.unit_same) id)
          units) in
      elim (assert_absent-valid id s) [
        | inl refused ↦
            inl (ap (λ r. r.0) (run-stored qt numbers root laws (assert_absent id) s) ∙ refused)
        | inr valid ↦ inr (HasUnits-HasFiles id m a _ (inl (auth, valid)) kept)
      ]

  either-Stores :
      (id m a : Text) (b : Bool) (s : S)
      → is_authenticated qt enc input ≡ b
      → HasUnits m a s
      → Stores id m a (
          run
            (on_call qt numbers root)
            (if b
              then stored (write enc id input.username input.domain input.password)
              else stored (assert_absent id))
            s)
  unfolding write
  either-Stores id m a true s auth units =
      rw
        (run-stored qt numbers root laws (write enc id input.username input.domain input.password)
          s)
        (write-Stores id m a (credential_bytes enc id input.username input.domain input.password) s
          refl units)
  either-Stores id m a false s auth units = guest-Stores id m a s auth units

  after_automount-Reports :
      (id m a : Text) (written : Bool) (s : S)
      → contents_of qt enc input id ≡ some (m, a)
      → (written ≡ false) ⊎ HasUnits m a s
      → Reported (run (on_call qt numbers root) (after_automount qt enc input id written) s)
  unfolding after_automount Stores store_credential
  after_automount-Reports id m a false s c units =
      undone-Reports qt numbers root laws enc input input.unit_name id (pair_made qt enc input) s
  after_automount-Reports id m a true s c (inl e) = cc
  after_automount-Reports id m a true s c (inr units) =
      rw
        (run->>= (on_call qt numbers root) (store_credential qt enc input id)
          (reload qt enc input id) s)
        (reload-Reports qt numbers root laws enc input id m a
          (run (on_call qt numbers root) (store_credential qt enc input id) s).0
          (run (on_call qt numbers root) (store_credential qt enc input id) s).1 c
          (either-Stores id m a (is_authenticated qt enc input) s refl units))

  automount_written :
      (m a : Text) (s : S)
      → unit_of root s (mount_file input.unit_name) ≡ readable (root.read_back m)
      → ((root.write_unit_file (automount_file input.unit_name) a s).0 ≡ false)
        ⊎ HasUnits m a (root.write_unit_file (automount_file input.unit_name) a s).1
  automount_written m a s h =
      let wrote = laws.write_wrote (automount_file input.unit_name) a s in
      elim (wrote.written) [
        | inl e ↦ inr (record {
          mount_there =
              wrote.others (mount_file input.unit_name)
                (mount_file-neq-automount_file input.unit_name)
                (may_be_temp-mount_file input.unit_name)
              ∙ h;
          automount_there = e;
        })
        | inr (done, kept) ↦ inl done
      ]

  after_mount-Reports :
      (id m a : Text) (written : Bool) (s : S)
      → contents_of qt enc input id ≡ some (m, a)
      → (written ≡ false)
        ⊎ (unit_of root s (mount_file input.unit_name) ≡ readable (root.read_back m))
      → Reported (run (on_call qt numbers root) (after_mount qt enc input id a written) s)
  unfolding after_mount run
  after_mount-Reports id m a false s c unit =
      undone-Reports qt numbers root laws enc input input.unit_name id (mount_made qt enc input) s
  after_mount-Reports id m a true s c (inl e) = cc
  after_mount-Reports id m a true s c (inr unit) =
      after_automount-Reports id m a (root.write_unit_file (automount_file input.unit_name) a s).0
        (root.write_unit_file (automount_file input.unit_name) a s).1 c
        (automount_written m a s unit)

  write_pair-Reports :
      (id : Text) (made : Option (Text × Text)) (s : S)
      → contents_of qt enc input id ≡ made
      → Reported (run (on_call qt numbers root) (write_pair qt enc input id made) s)
  unfolding write_pair Reports.Reports run
  write_pair-Reports id none s c = inl refl
  write_pair-Reports id (some (m, a)) s c =
      after_mount-Reports id m a (root.write_unit_file (mount_file input.unit_name) m s).0
        (root.write_unit_file (mount_file input.unit_name) m s).1 c
        (elim ((laws.write_wrote (mount_file input.unit_name) m s).written) [
          | inl e ↦ inr e
          | inr (done, kept) ↦ inl done
        ])

  refuse_existing-Reports :
      (id : Text) (there : Bool) (s : S)
      → Reported (run (on_call qt numbers root) (refuse_existing qt enc input id there) s)
  unfolding refuse_existing Reports.Reports run
  refuse_existing-Reports id true s = inl refl
  refuse_existing-Reports id false s = write_pair-Reports id (contents_of qt enc input id) s refl

  look-Reports :
      (id : Text) (opened : Bool) (s : S)
      → Reported (run (on_call qt numbers root) (look qt enc input id opened) s)
  unfolding look Reports.Reports run
  look-Reports id false s = inl refl
  look-Reports id true s = refuse_existing-Reports id _ _

  with_id-Reports :
      (made : Option Text) (s : S)
      → Reported (run (on_call qt numbers root) (with_id qt enc input made) s)
  unfolding with_id Reports.Reports run
  with_id-Reports none s = inl refl
  with_id-Reports (some id) s = look-Reports id _ _

  -- define fails, or at its end both unit files have the contents built for the share it names, the
  -- credential of an authenticated share is there with the bytes made of the input, and the last
  -- that was done is armShare, which did not ask for attention.
  pub define-Reports :
      (s : S)
      → Reports.Reports qt numbers root laws enc input
          (run (on_call qt numbers root) (define qt enc input) s)
  unfolding define
  define-Reports s =
      rw (run->>= (on_call qt numbers root) generate_unique_share_id (with_id qt enc input) s) (
        with_id-Reports (run (on_call qt numbers root) generate_unique_share_id s).0
          (run (on_call qt numbers root) generate_unique_share_id s).1)
