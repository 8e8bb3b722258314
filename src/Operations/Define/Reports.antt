-- ===== src/Operations/Define/Reports.antt =====
-- What define reports from the arming of the share on.
use kde_nasmount.Prelude.{
  ℕ, Bool, true, false, not, some, List, ◌≡◌, ◌≢◌, ◌⊎◌, inl, inr, refl, ap, ◌∙◌, ok, if◌then◌else◌,
}
use kde_nasmount.Prelude.Program.{Program, ret, run, run->>=}
use kde_nasmount.Qt.{Qt}
use kde_nasmount.Text.{Text}
use kde_nasmount.UnitValue.Marker.{is_valid_share_id}
use kde_nasmount.Verify.Files.{readable}
use kde_nasmount.Verify.Runtime.{Numbers}
use kde_nasmount.Arming.{arm_share, ArmShareResult, needs_attention}
use kde_nasmount.Credentials.{Utf8, file_name_for, credential_bytes}
use kde_nasmount.Operations.{Call, Answer, mount_file, automount_file}
use kde_nasmount.Operations.Machine.{Root, Same, RootLaws, on_call, unit_of}
use kde_nasmount.Operations.Machine.Keeps.{arm_share-Same}
use kde_nasmount.Operations.Define.{
  DefineInput, DefineOutput, Made, failed, clean_up, undone, is_authenticated, units_made, finish,
  activate, reload, contents_of, request_of,
}

module _ {S : Type 0} (qt : Qt) (numbers : Numbers) (root : Root S) (laws : RootLaws root)
    (enc : Utf8) (input : DefineInput) where
  -- The credential of an authenticated share is there, with the bytes made of the input; the id of a
  -- guest share is one that the credential store looked for.
  unfoldable pub HasCredential : Text → S → Type 0
  HasCredential id t =
      ((is_authenticated qt enc input ≡ false) × (is_valid_share_id id ≡ true))
      ⊎ ((bytes : List ℕ) × (credential_bytes enc id input.username input.domain input.password
            ≡ ok bytes)
          × (root.credential_file t (file_name_for id) ≡ some bytes))

  pub record HasFiles (id m a : Text) (t : S) : Type 0 where
    pub mount_there : unit_of root t (mount_file input.unit_name) ≡ readable (root.read_back m)
    pub automount_there :
        unit_of root t (automount_file input.unit_name) ≡ readable (root.read_back a)
    pub credential_there : HasCredential id t

  -- The units and the credential of the share are there, and it was armed last.
  pub record IsDefined (id : Text) (t : S) : Type 0 where
    pub mount_content : Text
    pub automount_content : Text
    pub built : contents_of qt enc input id ≡ some (mount_content, automount_content)
    pub files : HasFiles id mount_content automount_content t
    pub before : S
    pub outcome :
        (arm_share qt numbers root.machine (request_of input id) before).0.outcome ≢ needs_attention
    pub ends : t ≡ (arm_share qt numbers root.machine (request_of input id) before).1

  unfoldable pub Reports : DefineOutput × S → Type 0
  Reports (out, t) = (out.is_ok ≡ false) ⊎ ((out.activated ≡ true) × IsDefined out.share_id t)

  HasFiles-framed :
      (id m a : Text) (s t : S) → Same root s t → HasFiles id m a s → HasFiles id m a t
  unfolding HasCredential
  HasFiles-framed id m a s t same there = record {
    mount_there = same.units.unit_same (mount_file input.unit_name) ∙ there.mount_there;
    automount_there = same.units.unit_same (automount_file input.unit_name) ∙ there.automount_there;
    credential_there = elim (there.credential_there) [
      | inl guest_share ↦ inl guest_share
      | inr (bytes, made, stored_there) ↦
          inr (bytes, made, same.credentials.credential_same (file_name_for id) ∙ stored_there)
    ];
  }

  pub undone-Reports :
      (u id : Text) (made : Made) (s : S)
      → Reports (run (on_call qt numbers root) (undone u id made) s)
  unfolding undone Reports run
  undone-Reports u id made s = inl (
      ap (λ r. r.0.is_ok)
        (run->>= (on_call qt numbers root) (clean_up u id made) (λ _. ret failed) s))

  kept_or_undone :
      (id : Text) (safe : Bool) (t : S)
      → Reports (
          run
            (on_call qt numbers root)
            (if not safe then ret failed else undone input.unit_name id (units_made qt enc input))
            t)
  unfolding Reports run
  kept_or_undone id false t = inl refl
  kept_or_undone id true t = undone-Reports input.unit_name id (units_made qt enc input) t

  finish-Reports :
      (id : Text) (result : ArmShareResult) (t : S)
      → (result.outcome ≢ needs_attention → IsDefined id t)
      → Reports (run (on_call qt numbers root) (finish qt enc input id result) t)
  unfolding finish Reports run
  finish-Reports id result t =
      elim (result.outcome)
        as (λ o.
          (o ≢ needs_attention → IsDefined id t)
          → Reports (
              run (on_call qt numbers root)
                (elim o as (λ _. Program Call Answer DefineOutput) [
                  | needs_attention ↦
                      (if not result.definition_cleanup_safe
                        then ret failed
                        else undone input.unit_name id (units_made qt enc input))
                  | _ ↦ ret (record { is_ok = true; share_id = id; activated = true })
                ])
                t)) [
                  | needs_attention ↦ λ done. kept_or_undone id result.definition_cleanup_safe t
                  | _ ↦ λ done. inr (refl, done (λ e. cc))
                ]

  arm-Reports :
      (id m a : Text) (s : S)
      → contents_of qt enc input id ≡ some (m, a)
      → HasFiles id m a s
      → Reports (run (on_call qt numbers root) (activate qt enc input id true) s)
  unfolding activate run
  arm-Reports id m a s c there =
      let armed_state = (arm_share qt numbers root.machine (request_of input id) s).1 in
      finish-Reports id (arm_share qt numbers root.machine (request_of input id) s).0 armed_state
        (λ ready. record {
          mount_content = m;
          automount_content = a;
          built = c;
          files =
              HasFiles-framed id m a s armed_state
                (arm_share-Same qt numbers root laws (request_of input id) s) there;
          before = s;
          outcome = ready;
          ends = refl;
        })

  activate-Reports :
      (id m a : Text) (b : Bool) (s : S)
      → contents_of qt enc input id ≡ some (m, a)
      → HasFiles id m a s
      → Reports (run (on_call qt numbers root) (activate qt enc input id b) s)
  unfolding activate
  activate-Reports id m a false s c there =
      undone-Reports input.unit_name id (units_made qt enc input) s
  activate-Reports id m a true s c there = arm-Reports id m a s c there

  pub reload-Reports :
      (id m a : Text) (b : Bool) (s : S)
      → contents_of qt enc input id ≡ some (m, a)
      → (b ≡ false) ⊎ HasFiles id m a s
      → Reports (run (on_call qt numbers root) (reload qt enc input id b) s)
  unfolding reload run
  reload-Reports id m a false s c there =
      undone-Reports input.unit_name id (units_made qt enc input) s
  reload-Reports id m a true s c (inl e) = cc
  reload-Reports id m a true s c (inr there) =
      activate-Reports id m a (root.reload_daemon s).0 (root.reload_daemon s).1 c
        (HasFiles-framed id m a s (root.reload_daemon s).1 (laws.reload_same s) there)
