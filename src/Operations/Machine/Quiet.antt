-- ===== src/Operations/Machine/Quiet.antt =====
-- The calls that leave the unit files and the credentials alone, and the programs made of them.
use kde_nasmount.Prelude.{ℕ, zero, suc, Bool, true, false, none, some, ◌++◌, ◌≡◌, refl}
use kde_nasmount.Prelude.Program.{
  Program, ret, call, Always, Keeps, Keeps-ret, Keeps-call, Keeps->>=, Keeps-or_fail, run,
}
use kde_nasmount.Qt.{Qt}
use kde_nasmount.Text.{Text}
use kde_nasmount.UnitValue.Marker.{is_valid_share_id}
use kde_nasmount.Verify.Runtime.{Numbers}
use kde_nasmount.Credentials as Credentials
use kde_nasmount.Credentials.{
  open_directory, replace_file, unlink_file, open_file, with_file, assert_absent, is_no_entry,
  file_name_for,
}
use kde_nasmount.Operations.{
  Call, Answer, random_number, unit_contents, open_units, read_unit, write_unit, remove_unit,
  credential, remove_automount_id, daemon_reload, arm, stop, stored,
}
use kde_nasmount.Operations.Identifier.{
  attempt, hex_field, share_id_in_use, used_when, generate_unique_share_id, any_claims,
}
use kde_nasmount.Operations.Machine.{Root, Same, RootLaws, on_call, on_credential}
use kde_nasmount.Operations.Machine.Keeps.{arm_share-Same, safe_stop-Same}

abbrev pub QuietCredential : Credentials.Call → Type 0
QuietCredential open_directory = Unit
QuietCredential (open_file _) = Unit
QuietCredential _ = ⊥

abbrev pub Quiet : Call → Type 0
Quiet (write_unit _ _) = ⊥
Quiet (remove_unit _) = ⊥
Quiet (credential c) = QuietCredential c
Quiet _ = Unit

module _ {S : Type 0} (qt : Qt) (numbers : Numbers) (root : Root S) (laws : RootLaws root) where
  QuietCredential-Same :
      (c : Credentials.Call)
      → QuietCredential c
      → (s : S) → Same root s (on_credential qt numbers root c s).1
  QuietCredential-Same open_directory q s = laws.open_credentials_same s
  QuietCredential-Same (open_file n) q s = laws.open_credential_same n s
  QuietCredential-Same (replace_file n b) q s = absurd q
  QuietCredential-Same (unlink_file n) q s = absurd q

  pub Quiet-Same : (c : Call) → Quiet c → (s : S) → Same root s (on_call qt numbers root c s).1
  Quiet-Same random_number q s = laws.random_same s
  Quiet-Same unit_contents q s = laws.list_same s
  Quiet-Same open_units q s = laws.open_units_same s
  Quiet-Same (read_unit n) q s = laws.read_same n s
  Quiet-Same (write_unit n c) q s = absurd q
  Quiet-Same (remove_unit n) q s = absurd q
  Quiet-Same (credential c) q s = QuietCredential-Same c q s
  Quiet-Same (remove_automount_id n) q s = laws.remove_id_same n s
  Quiet-Same daemon_reload q s = laws.reload_same s
  Quiet-Same (arm req) q s = arm_share-Same qt numbers root laws req s
  Quiet-Same (stop u m w) q s = safe_stop-Same qt numbers root laws u m w s

  -- what an operation of the credential store keeps there, it keeps here
  pub Always-stored :
      {A : Type 0} (P : S → Type 0) (m : Program Credentials.Call Credentials.Answer A) (s : S)
      → Always (on_credential qt numbers root) P m s
      → Always (on_call qt numbers root) P (stored m) s
  unfolding stored
  Always-stored P (ret a) s h = h
  Always-stored P (call c k) s h = (
    h.0,
    Always-stored P (k (on_credential qt numbers root c s).0) (on_credential qt numbers root c s).1
        h.1,
  )

  pub Keeps-stored :
      {A : Type 0} (P : S → Type 0) (m : Program Credentials.Call Credentials.Answer A)
      → Keeps (on_credential qt numbers root) P m
      → Keeps (on_call qt numbers root) P (stored m)
  unfolding Keeps
  Keeps-stored P m keeps s h = Always-stored P m s (keeps s h)

  pub run-stored :
      {A : Type 0} (m : Program Credentials.Call Credentials.Answer A) (s : S)
      → run (on_call qt numbers root) (stored m) s ≡ run (on_credential qt numbers root) m s
  unfolding stored run
  run-stored (ret a) s = refl
  run-stored (call c k) s =
      run-stored (k (on_credential qt numbers root c s).0) (on_credential qt numbers root c s).1

  module _ (P : S → Type 0) (framed : (s t : S) → Same root s t → P s → P t) where
    pub Keeps-Quiet :
        {A : Type 0} (c : Call) (k : Answer c → Program Call Answer A)
        → Quiet c
        → ((r : Answer c) → Keeps (on_call qt numbers root) P (k r))
        → Keeps (on_call qt numbers root) P (call c k)
    Keeps-Quiet c k q rest =
        Keeps-call (on_call qt numbers root) P c k
          (λ s h. framed s (on_call qt numbers root c s).1 (Quiet-Same c q s) h) rest

    pub Keeps-QuietCredential :
        {A : Type 0} (c : Credentials.Call)
        (k : Credentials.Answer c → Program Credentials.Call Credentials.Answer A)
        → QuietCredential c
        → ((r : Credentials.Answer c) → Keeps (on_credential qt numbers root) P (k r))
        → Keeps (on_credential qt numbers root) P (call c k)
    Keeps-QuietCredential c k q rest =
        Keeps-call (on_credential qt numbers root) P c k
          (λ s h. framed s (on_credential qt numbers root c s).1 (QuietCredential-Same c q s) h)
          rest

    with_file-Keeps :
        (id : Text) (f : Credentials.Opening → Bool)
        → Keeps (on_credential qt numbers root) P (with_file id f)
    unfolding with_file
    with_file-Keeps id f =
        Keeps-or_fail (on_credential qt numbers root) P (is_valid_share_id id) _ (
          Keeps-QuietCredential open_directory _ tt (λ opened.
            Keeps-or_fail (on_credential qt numbers root) P opened
              (call (open_file (file_name_for id)) (λ file. ret (f file)))
              (Keeps-QuietCredential (open_file (file_name_for id)) (λ file. ret (f file)) tt
                (λ file. Keeps-ret (on_credential qt numbers root) P (f file)))))

    pub assert_absent-Keeps :
        (id : Text) → Keeps (on_call qt numbers root) P (stored (assert_absent id))
    unfolding assert_absent
    assert_absent-Keeps id =
        Keeps-stored P (with_file id is_no_entry) (with_file-Keeps id is_no_entry)

    used_when-Keeps : (id : Text) (b : Bool) → Keeps (on_call qt numbers root) P (used_when id b)
    unfolding used_when
    used_when-Keeps id false = Keeps-ret (on_call qt numbers root) P true
    used_when-Keeps id true =
        Keeps-Quiet unit_contents _ tt
          (λ contents. Keeps-ret (on_call qt numbers root) P (any_claims id contents))

    share_id_in_use-Keeps : (id : Text) → Keeps (on_call qt numbers root) P (share_id_in_use id)
    unfolding share_id_in_use
    share_id_in_use-Keeps id =
        Keeps->>= (on_call qt numbers root) P (stored (assert_absent id)) (used_when id)
          (assert_absent-Keeps id) (used_when-Keeps id)

    attempt-Keeps : (left : ℕ) → Keeps (on_call qt numbers root) P (attempt left)
    unfolding attempt
    attempt-Keeps zero = Keeps-ret (on_call qt numbers root) P none
    attempt-Keeps (suc left) = Keeps-Quiet random_number _ tt (λ high.
        Keeps-Quiet random_number _ tt (λ low.
          Keeps->>= (on_call qt numbers root) P (share_id_in_use (hex_field high ++ hex_field low))
            _ (share_id_in_use-Keeps (hex_field high ++ hex_field low))
            (elim [
              | true ↦ attempt-Keeps left
              | false ↦
                  Keeps-ret (on_call qt numbers root) P (some (hex_field high ++ hex_field low))
            ])))

    pub generate-Keeps : Keeps (on_call qt numbers root) P generate_unique_share_id
    unfolding generate_unique_share_id
    generate-Keeps = attempt-Keeps 8
