-- ===== src/Operations/Define/Discoverable.antt =====
-- The order of the steps of define: a credential that the call makes is there only while both units
-- of its share are, so that no interruption leaves a credential that no unit leads to.
use kde_nasmount.Prelude.{Bool, true, false, Option, none, some, ◌≡◌, ◌⊎◌, inl, inr, refl, ◌∙◌}
use kde_nasmount.Prelude.Program.{Always, Always->>=, Always-map, Always-end, Keeps-Always}
use kde_nasmount.Qt.{Qt}
use kde_nasmount.Text.{Text}
use kde_nasmount.Verify.Files.{readable}
use kde_nasmount.Verify.Runtime.{Numbers}
use kde_nasmount.Credentials.{Utf8}
use kde_nasmount.Operations.{open_units, read_unit, mount_file, automount_file}
use kde_nasmount.Operations.Machine.{Root, Same, RootLaws, on_call, may_be_temp, unit_of}
use kde_nasmount.Operations.Machine.Quiet.{generate-Keeps, Quiet-Same}
use kde_nasmount.Operations.Identifier.{generate_unique_share_id}
use kde_nasmount.Operations.Define.{
  DefineInput, Made, undone, pair_made, mount_made, after_automount, after_mount, write_pair,
  contents_of, refuse_existing, look, with_id, define,
}
use kde_nasmount.Operations.Define.Cleanup.{
  NoCredential, BothUnits, IsDiscoverable, write_unit-NoCredential, Left, undone-Left,
  mount_file-neq-automount_file, may_be_temp-mount_file,
}
use kde_nasmount.Operations.Define.Storing as Storing
use kde_nasmount.Operations.Define.Storing.{stored-May, clear-May}

module _ {S : Type 0} (qt : Qt) (numbers : Numbers) (root : Root S) (laws : RootLaws root)
    (enc : Utf8) (input : DefineInput) (name : Text) (plain : may_be_temp name ≡ false) where
  abbrev Clear : S → Type 0
  Clear = NoCredential qt numbers root laws enc input name

  abbrev Units : Text → Text → S → Type 0
  Units = BothUnits qt numbers root laws enc input name

  abbrev May : Text → Text → Text → S → Type 0
  May = Left qt numbers root laws enc input name

  abbrev Found : S → Type 0
  Found = IsDiscoverable qt numbers root laws enc input name

  clear_framed : (s t : S) → Same root s t → Clear s → Clear t
  clear_framed = Storing.clear_framed qt numbers root laws enc input name plain

  clear-Found : (s : S) → Clear s → Found s
  unfolding IsDiscoverable
  clear-Found s h = inl h

  may-Found :
      (id m a : Text) (s : S) → contents_of qt enc input id ≡ some (m, a) → May id m a s → Found s
  unfolding IsDiscoverable Left
  may-Found id m a s c (inl h) = inl h
  may-Found id m a s c (inr (_, e, units)) = inr (id, m, a, e, c, units)

  -- a clean-up before the credential was stored
  undone-Found :
      (id m a : Text) (made : Made) (s : S)
      → contents_of qt enc input id ≡ some (m, a)
      → Clear s
      → Always (on_call qt numbers root) Found (undone input.unit_name id made) s
  undone-Found id m a made s c h =
      Always-map (on_call qt numbers root) (May id m a) Found (undone input.unit_name id made) s
        (λ t. may-Found id m a t c)
        (undone-Left qt numbers root laws enc input name id m a made s
          (clear-May qt numbers root laws enc input name plain id m a s h) (inr h))

  after_automount-Found :
      (id m a : Text) (written : Bool) (s : S)
      → contents_of qt enc input id ≡ some (m, a)
      → Clear s
      → (written ≡ false) ⊎ Units m a s
      → Always (on_call qt numbers root) Found (after_automount qt enc input id written) s
  unfolding after_automount
  after_automount-Found id m a false s c h units =
      undone-Found id m a (pair_made qt enc input) s c h
  after_automount-Found id m a true s c h (inl e) = cc
  after_automount-Found id m a true s c h (inr units) =
      Always-map (on_call qt numbers root) (May id m a) Found (after_automount qt enc input id true)
        s (λ t. may-Found id m a t c)
        (stored-May qt numbers root laws enc input name plain id m a s h units)

  -- the second unit joins the first
  automount_written :
      (m a : Text) (s : S)
      → unit_of root s (mount_file input.unit_name) ≡ readable (root.read_back m)
      → ((root.write_unit_file (automount_file input.unit_name) a s).0 ≡ false)
        ⊎ Units m a (root.write_unit_file (automount_file input.unit_name) a s).1
  unfolding BothUnits
  automount_written m a s h =
      let wrote = laws.write_wrote (automount_file input.unit_name) a s in
      elim (wrote.written) [
        | inl e ↦ inr (
          wrote.others (mount_file input.unit_name) (mount_file-neq-automount_file input.unit_name)
                (may_be_temp-mount_file input.unit_name)
              ∙ h,
          e,
        )
        | inr (done, kept) ↦ inl done
      ]

  after_mount-Found :
      (id m a : Text) (written : Bool) (s : S)
      → contents_of qt enc input id ≡ some (m, a)
      → Clear s
      → (written ≡ false)
        ⊎ (unit_of root s (mount_file input.unit_name) ≡ readable (root.read_back m))
      → Always (on_call qt numbers root) Found (after_mount qt enc input id a written) s
  unfolding after_mount
  after_mount-Found id m a false s c h unit = undone-Found id m a (mount_made qt enc input) s c h
  after_mount-Found id m a true s c h (inl e) = cc
  after_mount-Found id m a true s c h (inr unit) = (
    clear-Found s h,
    after_automount-Found id m a _ _ c
        (write_unit-NoCredential qt numbers root laws enc input name
          (automount_file input.unit_name) a s h)
        (automount_written m a s unit),
  )

  mount_written :
      (m : Text) (s : S)
      → ((root.write_unit_file (mount_file input.unit_name) m s).0 ≡ false)
        ⊎ (unit_of root
              (root.write_unit_file (mount_file input.unit_name) m s).1
              (mount_file input.unit_name)
            ≡ readable (root.read_back m))
  mount_written m s = elim ((laws.write_wrote (mount_file input.unit_name) m s).written) [
    | inl e ↦ inr e
    | inr (done, kept) ↦ inl done
  ]

  write_pair-Found :
      (id : Text) (made : Option (Text × Text)) (s : S)
      → contents_of qt enc input id ≡ made
      → Clear s
      → Always (on_call qt numbers root) Found (write_pair qt enc input id made) s
  unfolding write_pair
  write_pair-Found id none s c h = clear-Found s h
  write_pair-Found id (some (m, a)) s c h = (
    clear-Found s h,
    after_mount-Found id m a _ _ c
        (write_unit-NoCredential qt numbers root laws enc input name (mount_file input.unit_name) m
          s h)
        (mount_written m s),
  )

  refuse_existing-Found :
      (id : Text) (there : Bool) (s : S)
      → Clear s
      → Always (on_call qt numbers root) Found (refuse_existing qt enc input id there) s
  unfolding refuse_existing
  refuse_existing-Found id true s h = clear-Found s h
  refuse_existing-Found id false s h = write_pair-Found id (contents_of qt enc input id) s refl h

  look-Found :
      (id : Text) (opened : Bool) (s : S)
      → Clear s
      → Always (on_call qt numbers root) Found (look qt enc input id opened) s
  unfolding look
  look-Found id false s h = clear-Found s h
  look-Found id true s h =
      let after = (on_call qt numbers root (read_unit (mount_file input.unit_name)) s).1 in
      let h' =
        clear_framed s after
          (Quiet-Same qt numbers root laws (read_unit (mount_file input.unit_name)) tt s) h in
      let last = (on_call qt numbers root (read_unit (automount_file input.unit_name)) after).1 in
      let h'' =
        clear_framed after last
          (Quiet-Same qt numbers root laws (read_unit (automount_file input.unit_name)) tt after)
          h' in
      (clear-Found s h, (clear-Found after h', refuse_existing-Found id _ last h''))

  with_id-Found :
      (made : Option Text) (s : S)
      → Clear s
      → Always (on_call qt numbers root) Found (with_id qt enc input made) s
  unfolding with_id
  with_id-Found none s h = clear-Found s h
  with_id-Found (some id) s h =
      let after = (on_call qt numbers root open_units s).1 in
      (
        clear-Found s h,
        look-Found id _ after
            (clear_framed s after (Quiet-Same qt numbers root laws open_units tt s) h),
      )

  -- In every state that define passes through, whatever fails on the way and wherever it is
  -- interrupted, a credential file that was not there at the start, under a name that no temporary
  -- file of durableReplace can have, is there only while both units of its share read as the contents
  -- that define built for it.
  pub define-IsDiscoverable :
      (s : S)
      → root.credential_file s name ≡ none
      → Always
          (on_call qt numbers root)
          (IsDiscoverable qt numbers root laws enc input name)
          (define qt enc input)
          s
  unfolding define NoCredential
  define-IsDiscoverable s h =
      let always =
        Keeps-Always (on_call qt numbers root) Clear generate_unique_share_id s
          (generate-Keeps qt numbers root laws Clear clear_framed) h in
      Always->>= (on_call qt numbers root) Found generate_unique_share_id (with_id qt enc input) s
        (Always-map (on_call qt numbers root) Clear Found generate_unique_share_id s clear-Found
          always)
        (with_id-Found _ _
          (Always-end (on_call qt numbers root) Clear generate_unique_share_id s always))
