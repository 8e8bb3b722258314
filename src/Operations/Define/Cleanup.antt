-- ===== src/Operations/Define/Cleanup.antt =====
-- The order of the steps: a credential that this call makes is there only while both units of its
-- share are, so that no interruption leaves a credential that no unit leads to.
use kde_nasmount.Prelude.{
  Bool, true, false, ◌&&◌, none, some, [], ◌∷◌, ◌≡◌, ◌≢◌, ◌⊎◌, inl, inr, refl, sym, ap, ◌∙◌, arith,
  Bool-cases,
}
use kde_nasmount.Prelude.Program.{
  Program, ret, call, Always, Always->>=, Always-map, Always-end, Keeps, Keeps-ret, Keeps-call,
  Keeps->>=, Keeps-Always, run, or_fail, perform, ◌>>=◌,
}
use kde_nasmount.Qt.{Qt}
use kde_nasmount.Text.{Text, text_eq, starts_with}
use kde_nasmount.Text.Laws.{text_eq_iff}
use kde_nasmount.UnitValue.Marker.{is_valid_share_id}
use kde_nasmount.Verify.Files.{readable}
use kde_nasmount.Verify.Runtime.{Numbers}
use kde_nasmount.Credentials as Credentials
use kde_nasmount.Credentials.{
  Utf8, open_directory, replace_file, unlink_file, write, remove, file_name_for,
  replace_in_directory, credential_bytes,
}
use kde_nasmount.Operations.{
  Call, Answer, open_units, write_unit, remove_unit, remove_automount_id, daemon_reload, mount_file,
  automount_file,
}
use kde_nasmount.Operations.Machine.{
  Root, Same, RootLaws, on_call, on_credential, unit_of, ends_in_hex, may_be_temp,
}
use kde_nasmount.DurableFs.{temp_prefix}
use kde_nasmount.Operations.Machine.Quiet.{Keeps-Quiet, Always-stored, run-stored}
use kde_nasmount.Operations.Define.{
  DefineInput, Made, failed, when, ignore, remove_opened, remove_units, remove_rest,
  remove_credential, clean_up, undone, is_authenticated, contents_of,
}

-- the two files of a unit name are not the same file
pub mount_file-neq-automount_file : (u : Text) → mount_file u ≢ automount_file u
mount_file-neq-automount_file [] h = cc
mount_file-neq-automount_file (c ∷ u) h = mount_file-neq-automount_file u (ground arith)

ends_in_hex-mount_file : (u : Text) → ends_in_hex (mount_file u) ≡ false
unfolding ends_in_hex
ends_in_hex-mount_file [] = refl
ends_in_hex-mount_file (c ∷ []) = refl
ends_in_hex-mount_file (c ∷ d ∷ u) = ends_in_hex-mount_file (d ∷ u)

-- a unit file has no name of a temporary file
pub may_be_temp-mount_file : (u : Text) → may_be_temp (mount_file u) ≡ false
may_be_temp-mount_file u =
    ap (λ b. starts_with temp_prefix (mount_file u) && b) (ends_in_hex-mount_file u)
    ∙ and_false (starts_with temp_prefix (mount_file u))
  where
    and_false : (b : Bool) → (b && false) ≡ false
    and_false b = ground arith

pub name-cases : (a b : Text) → (a ≡ b) ⊎ (a ≢ b)
name-cases a b = elim (Bool-cases (text_eq a b)) [
  | inl h ↦ inl ((text_eq_iff a b).0 h)
  | inr h ↦ inr (λ e. (let h' = (text_eq_iff a b).1 e in cc))
]

module _ {S : Type 0} (qt : Qt) (numbers : Numbers) (root : Root S) (laws : RootLaws root)
    (enc : Utf8) (input : DefineInput) (name : Text) where
  unfoldable pub NoCredential : S → Type 0
  NoCredential s = root.credential_file s name ≡ none

  unfoldable pub BothUnits : Text → Text → S → Type 0
  BothUnits m a s =
      (unit_of root s (mount_file input.unit_name) ≡ readable (root.read_back m))
      × (unit_of root s (automount_file input.unit_name) ≡ readable (root.read_back a))

  -- There is no credential of this name, or both units of its share have the contents built for it.
  unfoldable pub IsDiscoverable : S → Type 0
  unfolding NoCredential BothUnits
  IsDiscoverable s =
      NoCredential s
      ⊎ ((id m a : Text) × (name ≡ file_name_for id)
          × (contents_of qt enc input id ≡ some (m, a))
          × BothUnits m a s)

  pub NoCredential-framed : (s t : S) → Same root s t → NoCredential s → NoCredential t
  unfolding NoCredential
  NoCredential-framed s t same h = same.credentials.credential_same name ∙ h

  pub write_unit-NoCredential :
      (n c : Text) (s : S)
      → NoCredential s
      → NoCredential (on_call qt numbers root (write_unit n c) s).1
  unfolding NoCredential
  write_unit-NoCredential n c s h = (laws.write_credentials n c s).credential_same name ∙ h

  remove_unit-NoCredential :
      (n : Text) (s : S)
      → NoCredential s
      → NoCredential (on_call qt numbers root (remove_unit n) s).1
  unfolding NoCredential
  remove_unit-NoCredential n s h = (laws.remove_credentials n s).credential_same name ∙ h

  when-NoCredential :
      (b : Bool) (p : Program Call Answer (Unit {0}))
      → Keeps (on_call qt numbers root) NoCredential p
      → Keeps (on_call qt numbers root) NoCredential (when b p)
  when-NoCredential true p keeps = keeps
  when-NoCredential false p keeps = Keeps-ret (on_call qt numbers root) NoCredential tt

  ignore-NoCredential :
      (n : Text) → Keeps (on_call qt numbers root) NoCredential (ignore (remove_unit n))
  ignore-NoCredential n =
      Keeps-call (on_call qt numbers root) NoCredential (remove_unit n) (λ r. ret tt)
        (remove_unit-NoCredential n) (λ r. Keeps-ret (on_call qt numbers root) NoCredential tt)

  remove_opened-NoCredential :
      (u : Text) (made : Made) (b : Bool)
      → Keeps (on_call qt numbers root) NoCredential (remove_opened u made b)
  unfolding remove_opened
  remove_opened-NoCredential u made false = Keeps-ret (on_call qt numbers root) NoCredential tt
  remove_opened-NoCredential u made true =
      Keeps->>= (on_call qt numbers root) NoCredential _ _
        (when-NoCredential made.automount_may_exist _ (ignore-NoCredential (automount_file u)))
        (λ _. when-NoCredential made.mount_may_exist _ (ignore-NoCredential (mount_file u)))

  remove_units-NoCredential :
      (u : Text) (made : Made) → Keeps (on_call qt numbers root) NoCredential (remove_units u made)
  unfolding remove_units
  remove_units-NoCredential u made =
      Keeps-Quiet qt numbers root laws NoCredential NoCredential-framed open_units _ tt
        (remove_opened-NoCredential u made)

  remove_rest-NoCredential :
      (u : Text) (made : Made) (b : Bool)
      → Keeps (on_call qt numbers root) NoCredential (remove_rest u made b)
  unfolding remove_rest
  remove_rest-NoCredential u made b =
      Keeps->>= (on_call qt numbers root) NoCredential _ _
        (when-NoCredential _ _ (remove_units-NoCredential u made))
        (λ _.
          Keeps-Quiet qt numbers root laws NoCredential NoCredential-framed (remove_automount_id u)
            _ tt
            (λ r. when-NoCredential _ _ (
              Keeps-Quiet qt numbers root laws NoCredential NoCredential-framed daemon_reload _ tt
                (λ r. Keeps-ret (on_call qt numbers root) NoCredential tt))))

  -- What the call that stores the credential may have left, and what a clean-up starts from.
  unfoldable pub Left : Text → Text → Text → S → Type 0
  unfolding NoCredential BothUnits
  Left id m a s =
      NoCredential s
      ⊎ ((is_authenticated qt enc input ≡ true) × (name ≡ file_name_for id) × BothUnits m a s)

  pub BothUnits-framed :
      (m a : Text) (s t : S)
      → ((n : Text) → unit_of root t n ≡ unit_of root s n)
      → BothUnits m a s
      → BothUnits m a t
  unfolding BothUnits
  BothUnits-framed m a s t same (um, ua) =
      (same (mount_file input.unit_name) ∙ um, same (automount_file input.unit_name) ∙ ua)

  Left-kept :
      (id m a : Text) (s t : S)
      → root.credential_file t name ≡ root.credential_file s name
      → ((n : Text) → unit_of root t n ≡ unit_of root s n)
      → Left id m a s
      → Left id m a t
  unfolding Left NoCredential
  Left-kept id m a s t kept same (inl h) = inl (kept ∙ h)
  Left-kept id m a s t kept same (inr (h, e, units)) =
      inr (h, e, BothUnits-framed m a s t same units)

  pub Left-framed : (id m a : Text) (s t : S) → Same root s t → Left id m a s → Left id m a t
  Left-framed id m a s t same =
      Left-kept id m a s t (same.credentials.credential_same name) same.units.unit_same

  unlinked_other :
      (id m a : Text) (s : S)
      → name ≢ file_name_for id
      → Left id m a s
      → NoCredential (root.unlink_credential (file_name_for id) s).1
  unfolding Left NoCredential
  unlinked_other id m a s other (inl h) =
      (laws.unlink_wrote (file_name_for id) s).others name other ∙ h
  unlinked_other id m a s other (inr (h, e, units)) = absurd (other e)

  unlinked_same :
      (id m a : Text) (s : S)
      → name ≡ file_name_for id
      → Left id m a s
      → NoCredential (root.unlink_credential (file_name_for id) s).1
        ⊎ (((root.unlink_credential (file_name_for id) s).0 ≡ false)
            × Left id m a (root.unlink_credential (file_name_for id) s).1)
  unfolding Left NoCredential
  unlinked_same id m a s e h = elim ((laws.unlink_wrote (file_name_for id) s).written) [
    | inl gone ↦
        inl (ap (root.credential_file (root.unlink_credential (file_name_for id) s).1) e ∙ gone)
    | inr (done, kept) ↦ inr (
      done,
      Left-kept id m a s _
          (ap (root.credential_file (root.unlink_credential (file_name_for id) s).1) e
            ∙ kept
            ∙ sym (ap (root.credential_file s) e))
          (laws.unlink_units (file_name_for id) s).unit_same h,
    )
  ]

  -- CredentialStore::remove leaves the credential as it was, or it is gone
  Removed : Text → Text → Text → Bool × S → Type 0
  unfolding Left NoCredential
  Removed id m a (b, t) = NoCredential t ⊎ ((b ≡ false) × Left id m a t)

  unlinked :
      (id m a : Text) (s : S)
      → Left id m a s
      → Removed id m a (root.unlink_credential (file_name_for id) s)
  unfolding Removed
  unlinked id m a s h = elim (name-cases name (file_name_for id)) [
    | inl e ↦ unlinked_same id m a s e h
    | inr other ↦ inl (unlinked_other id m a s other h)
  ]

  Removed-Left : (id m a : Text) (b : Bool) (t : S) → Removed id m a (b, t) → Left id m a t
  unfolding Removed Left
  Removed-Left id m a b t (inl gone) = inl gone
  Removed-Left id m a b t (inr (done, left)) = left

  -- a program that removes the credential, or fails
  Removes : Text → Text → Text → Program Credentials.Call Credentials.Answer Bool → S → Type 0
  unfolding Left Removed
  Removes id m a p s =
      Always (on_credential qt numbers root) (Left id m a) p s
      × Removed id m a (run (on_credential qt numbers root) p s)

  Removes-or_fail :
      (id m a : Text) (b : Bool) (p : Program Credentials.Call Credentials.Answer Bool) (s : S)
      → Left id m a s
      → Removes id m a p s
      → Removes id m a (or_fail b p) s
  unfolding Removes Removed run
  Removes-or_fail id m a true p s h removes = removes
  Removes-or_fail id m a false p s h removes = (h, inr (refl, h))

  unlink-Removes :
      (id m a : Text) (s : S)
      → Left id m a s
      → Removes id m a (perform (unlink_file (file_name_for id))) s
  unfolding Removes run
  unlink-Removes id m a s h =
      ((h, Removed-Left id m a _ _ (unlinked id m a s h)), unlinked id m a s h)

  opened-Removes :
      (id m a : Text) (s : S)
      → Left id m a s
      → Removes id m a
          (call open_directory
            (λ opened. or_fail opened (perform (unlink_file (file_name_for id)))))
          s
  unfolding Removes run
  opened-Removes id m a s h =
      let t = (root.open_credential_directory s).1 in
      let h' = Left-framed id m a s t (laws.open_credentials_same s) h in
      let rest =
        Removes-or_fail id m a (root.open_credential_directory s).0
          (perform (unlink_file (file_name_for id))) t h' (unlink-Removes id m a t h') in
      ((h, rest.0), rest.1)

  remove-Removes : (id m a : Text) (s : S) → Left id m a s → Removes id m a (remove id) s
  unfolding remove
  remove-Removes id m a s h =
      Removes-or_fail id m a (is_valid_share_id id) _ s h (opened-Removes id m a s h)

  remove_credential-Removed :
      (id m a : Text) (may_exist : Bool) (s : S)
      → Left id m a s
      → (may_exist ≡ true) ⊎ NoCredential s
      → Always (on_call qt numbers root) (Left id m a) (remove_credential id may_exist) s
        × Removed id m a (run (on_call qt numbers root) (remove_credential id may_exist) s)
  unfolding remove_credential Removes Removed run
  remove_credential-Removed id m a true s h k =
      let (always, removed) = remove-Removes id m a s h in
      (
        Always-stored qt numbers root laws (Left id m a) (remove id) s always,
        (rw (run-stored qt numbers root laws (remove id) s) removed),
      )
  remove_credential-Removed id m a false s h (inl e) = cc
  remove_credential-Removed id m a false s h (inr none_there) = (h, inl none_there)

  -- nothing is removed of a definition whose credential may still be there
  remove_rest_kept :
      (id m a u : Text) (made : Made)
      → Keeps (on_call qt numbers root) (Left id m a) (remove_rest u made false)
  unfolding remove_rest
  remove_rest_kept id m a u made =
      Keeps-Quiet qt numbers root laws (Left id m a) (Left-framed id m a) (remove_automount_id u) _
        tt (λ r. Keeps-ret (on_call qt numbers root) (Left id m a) tt)

  remove_rest-Left :
      (id m a u : Text) (made : Made) (b : Bool) (t : S)
      → Removed id m a (b, t)
      → Always (on_call qt numbers root) (Left id m a) (remove_rest u made b) t
  unfolding Removed Left
  remove_rest-Left id m a u made b t (inl gone) =
      Always-map (on_call qt numbers root) NoCredential (Left id m a) (remove_rest u made b) t
        (λ _ h. inl h)
        (Keeps-Always (on_call qt numbers root) NoCredential (remove_rest u made b) t
          (remove_rest-NoCredential u made b) gone)
  remove_rest-Left id m a u made b t (inr (done, left)) = rw done (
      Keeps-Always (on_call qt numbers root) (Left id m a) (remove_rest u made false) t
        (remove_rest_kept id m a u made) left)

  pub undone-Left :
      (id m a : Text) (made : Made) (s : S)
      → Left id m a s
      → (made.credential_may_exist ≡ true) ⊎ NoCredential s
      → Always (on_call qt numbers root) (Left id m a) (undone input.unit_name id made) s
  unfolding undone clean_up
  undone-Left id m a made s h k =
      let (always, removed) = remove_credential-Removed id m a made.credential_may_exist s h k in
      let rest =
        Always->>= (on_call qt numbers root) (Left id m a)
          (remove_credential id made.credential_may_exist) (remove_rest input.unit_name made) s
          always
          (remove_rest-Left id m a input.unit_name made
            (run (on_call qt numbers root) (remove_credential id made.credential_may_exist) s).0
            (run (on_call qt numbers root) (remove_credential id made.credential_may_exist) s).1
            removed) in
      Always->>= (on_call qt numbers root) (Left id m a)
        (remove_credential id made.credential_may_exist >>= remove_rest input.unit_name made)
        (λ _. ret failed) s rest
        (Always-end (on_call qt numbers root) (Left id m a)
          (remove_credential id made.credential_may_exist >>= remove_rest input.unit_name made) s
          rest)
