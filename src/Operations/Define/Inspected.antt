-- ===== src/Operations/Define/Inspected.antt =====
-- What the inspection says of a share that define has made.
use kde_nasmount.Prelude.{
  ℕ, ◌<◌, ◌^◌, Bool, true, false, some, ◌≡◌, ◌⊎◌, inl, inr, ap, ◌∙◌, Result, ok, err, Bool-cases,
  List, arith,
}
use kde_nasmount.Prelude.Program.{Program, ret, call, run}
use kde_nasmount.Qt.{Qt, QtLaws}
use kde_nasmount.Text.{Text}
use kde_nasmount.UnitValue.Encode.{EncodeError}
use kde_nasmount.UnitSpec.Unc.{validate_unc}
use kde_nasmount.UnitValue.Paths.{paths_of}
use kde_nasmount.UnitValue.Marker.{is_valid_share_id}
use kde_nasmount.UnitSpec.Template.{build_mount_unit_content, build_automount_unit_content}
use kde_nasmount.Verify.Files.{drop_in_exists, readable}
use kde_nasmount.Verify.Definition.{
  Definition, DefinitionCheck, inspect_definition, apply_marker, blank_check,
}
use kde_nasmount.Verify.Definition.Defined.{inspect_definition-build}
use kde_nasmount.Verify.Runtime.{Numbers}
use kde_nasmount.Credentials as Credentials
use kde_nasmount.Credentials.{
  Utf8, credential_bytes, open_directory, replace_file, unlink_file, open_file,
}
use kde_nasmount.Operations.{
  Call, Answer, random_number, unit_contents, open_units, read_unit, write_unit, remove_unit,
  credential, remove_automount_id, daemon_reload, arm, stop,
}
use kde_nasmount.Operations.Machine.{Root, SameRest, RootLaws, on_call, on_credential}
use kde_nasmount.Operations.Machine.Quiet.{Quiet-Same}
use kde_nasmount.Operations.Define.{DefineInput, marker_of, contents_of, both_contents, define}
use kde_nasmount.Operations.Define.Reports.{Reports, IsDefined, HasCredential}
use kde_nasmount.Operations.Define.Success.{define-Reports}

-- an encoded credential is one of a valid id
credential_bytes-is_valid :
    (enc : Utf8) (id username domain password : Text) (bytes : List ℕ)
    → credential_bytes enc id username domain password ≡ ok bytes
    → is_valid_share_id id ≡ true
unfolding credential_bytes
credential_bytes-is_valid enc id username domain password bytes h =
    elim (Bool-cases (is_valid_share_id id)) [ inl valid ↦ valid | inr invalid ↦ ground arith ]

both_contents-eq-some :
    (x y : Result EncodeError Text) (m a : Text)
    → both_contents x y ≡ some (m, a)
    → (x ≡ ok m) × (y ≡ ok a)
unfolding both_contents
both_contents-eq-some (ok x) (ok y) m a h = ground arith
both_contents-eq-some (err _) y m a h = cc
both_contents-eq-some (ok x) (err _) m a h = cc

-- what the inspection is to say of a share
abbrev pub pair_of : DefineInput → Text → DefinitionCheck
pair_of input id =
    record (apply_marker (marker_of input id) (blank_check input.unit_name input.mount_point)) {
      state = Definition.pair;
      what = input.unc;
    }

module _ {S : Type 0} (qt : Qt) (numbers : Numbers) (root : Root S) (laws : RootLaws root) where
  DropIns : (path : Text) → Bool → S → Type 0
  DropIns path there s = drop_in_exists (root.files s) path ≡ there

  on_credential-SameRest :
      (c : Credentials.Call) (s : S) → SameRest root s (on_credential qt numbers root c s).1
  on_credential-SameRest open_directory s = (laws.open_credentials_same s).rest
  on_credential-SameRest (replace_file n b) s = laws.replace_rest n b s
  on_credential-SameRest (unlink_file n) s = laws.unlink_rest n s
  on_credential-SameRest (open_file n) s = (laws.open_credential_same n s).rest

  on_call-SameRest : (c : Call) (s : S) → SameRest root s (on_call qt numbers root c s).1
  on_call-SameRest (write_unit n t) s = laws.write_rest n t s
  on_call-SameRest (remove_unit n) s = laws.remove_rest n s
  on_call-SameRest (credential c) s = on_credential-SameRest c s
  on_call-SameRest random_number s = (Quiet-Same qt numbers root laws random_number tt s).rest
  on_call-SameRest unit_contents s = (Quiet-Same qt numbers root laws unit_contents tt s).rest
  on_call-SameRest open_units s = (Quiet-Same qt numbers root laws open_units tt s).rest
  on_call-SameRest (read_unit n) s = (Quiet-Same qt numbers root laws (read_unit n) tt s).rest
  on_call-SameRest (remove_automount_id n) s =
      (Quiet-Same qt numbers root laws (remove_automount_id n) tt s).rest
  on_call-SameRest daemon_reload s = (Quiet-Same qt numbers root laws daemon_reload tt s).rest
  on_call-SameRest (arm req) s = (Quiet-Same qt numbers root laws (arm req) tt s).rest
  on_call-SameRest (stop u m w) s = (Quiet-Same qt numbers root laws (stop u m w) tt s).rest

  -- no operation makes a drop-in
  program-DropIns :
      {A : Type 0} (path : Text) (there : Bool) (m : Program Call Answer A) (s : S)
      → DropIns path there s
      → DropIns path there (run (on_call qt numbers root) m s).1
  unfolding run DropIns
  program-DropIns path there (ret a) s h = h
  program-DropIns path there (call c k) s h =
      program-DropIns path there (k (on_call qt numbers root c s).0) (on_call qt numbers root c s).1
        ((on_call-SameRest c s).drop_in_same path ∙ h)

  module _ (enc : Utf8) (input : DefineInput) where
    -- What define builds is text that UTF-8 carries.
    unfoldable pub IsEncodable : Type 0
    IsEncodable =
        (id m a : Text)
        → contents_of qt enc input id ≡ some (m, a)
        → (root.read_back m ≡ m) × (root.read_back a ≡ a)

    HasCredential-is_valid :
        (id : Text) (t : S)
        → HasCredential qt numbers root laws enc input id t
        → is_valid_share_id id ≡ true
    unfolding HasCredential
    HasCredential-is_valid id t (inl (_, valid)) = valid
    HasCredential-is_valid id t (inr (bytes, made, _)) =
        credential_bytes-is_valid enc id input.username input.domain input.password bytes made

    contents_of-eq-some :
        (id m a : Text)
        → contents_of qt enc input id ≡ some (m, a)
        → (build_mount_unit_content qt (marker_of input id) input.unc input.mount_point ≡ ok m)
          × (build_automount_unit_content qt (marker_of input id) input.mount_point ≡ ok a)
    unfolding contents_of
    contents_of-eq-some id m a h = both_contents-eq-some _ _ m a h

    IsDefined-inspected :
        (id : Text) (t : S)
        → QtLaws qt
        → input.owner_uid < 2 ^ 32
        → input.owner_gid < 2 ^ 32
        → validate_unc input.unc ≡ ok input.unc
        → drop_in_exists (root.files t) (paths_of input.unit_name).mount_unit_path ≡ false
        → drop_in_exists (root.files t) (paths_of input.unit_name).automount_unit_path ≡ false
        → IsEncodable
        → IsDefined qt numbers root laws enc input id t
        → inspect_definition qt input.owner_uid input.mount_point
            (root.files t)
            (paths_of input.unit_name)
          ≡ pair_of input id
    unfolding IsEncodable
    IsDefined-inspected id t qt_laws u g v dm da encodable defined =
        let (mount_kept, automount_kept) =
          encodable id defined.mount_content defined.automount_content defined.built in
        let (built_mount, built_automount) =
          contents_of-eq-some id defined.mount_content defined.automount_content defined.built in
        inspect_definition-build qt qt_laws (marker_of input id) input.unc input.mount_point
          defined.mount_content defined.automount_content (root.files t) (paths_of input.unit_name)
          (record {
            uid_fits = u;
            gid_fits = g;
            id_valid = HasCredential-is_valid id t defined.files.credential_there;
          })
          v built_mount built_automount
          (defined.files.mount_there ∙ ap (λ c. readable c) mount_kept)
          (defined.files.automount_there ∙ ap (λ c. readable c) automount_kept) dm da

    -- When the uid and the gid fit, the path is a validated one, UTF-8 carries what is built and the two
    -- units have no drop-in, define
    -- fails or leaves a share that the inspection for its owner takes for a Pair, with the marker's
    -- fields, the path and no reason.
    pub inspect_definition-define :
        (s : S)
        → QtLaws qt
        → input.owner_uid < 2 ^ 32
        → input.owner_gid < 2 ^ 32
        → validate_unc input.unc ≡ ok input.unc
        → drop_in_exists (root.files s) (paths_of input.unit_name).mount_unit_path ≡ false
        → drop_in_exists (root.files s) (paths_of input.unit_name).automount_unit_path ≡ false
        → IsEncodable
        → ((run (on_call qt numbers root) (define qt enc input) s).0.is_ok ≡ false)
          ⊎ (inspect_definition qt input.owner_uid input.mount_point
                (root.files (run (on_call qt numbers root) (define qt enc input) s).1)
                (paths_of input.unit_name)
              ≡ pair_of input (run (on_call qt numbers root) (define qt enc input) s).0.share_id)
    unfolding Reports DropIns
    inspect_definition-define s qt_laws u g v dm da encodable =
        elim (define-Reports qt numbers root laws enc input s) [
          | inl refused ↦ inl refused
          | inr (_, defined) ↦ inr (
              IsDefined-inspected _ _ qt_laws u g v
                (program-DropIns (paths_of input.unit_name).mount_unit_path false
                  (define qt enc input) s dm)
                (program-DropIns (paths_of input.unit_name).automount_unit_path false
                  (define qt enc input) s da)
                encodable defined)
        ]
