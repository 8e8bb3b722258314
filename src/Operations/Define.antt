-- ===== src/Operations/Define.antt =====
-- define: the units are written first, then the credential, and the share is armed last; a failure
-- takes back what this call has done.
pub mod Cleanup
pub mod Storing
pub mod Discoverable
pub mod Reports
pub mod Success
pub mod Inspected
use kde_nasmount.Prelude.{
  ℕ, Bool, true, false, not, ◌&&◌, ◌||◌, Option, none, some, List, [], ◌++◌, if◌then◌else◌, Result,
  ok, err,
}
use kde_nasmount.Prelude.Program.{Program, ret, call, perform, ◌>>=◌, ◌>>◌}
use kde_nasmount.Qt.{Qt}
use kde_nasmount.Text.{Text, codes, is_empty}
use kde_nasmount.UnitValue.Access.{AuthenticationKind, credentials, guest, AccessMode}
use kde_nasmount.UnitValue.Encode.{EncodeError}
use kde_nasmount.UnitValue.Marker.{Marker}
use kde_nasmount.UnitSpec.Mountpoint.{MountpointPlan}
use kde_nasmount.UnitSpec.Template.{build_mount_unit_content, build_automount_unit_content}
use kde_nasmount.Credentials.{Utf8, write, remove, assert_absent}
use kde_nasmount.Arming.{
  ArmShareRequest, ArmShareResult, ArmShareOutcome, needs_attention, interactive_create,
}
use kde_nasmount.Operations.{
  Call, Answer, open_units, read_unit, write_unit, remove_unit, remove_automount_id, daemon_reload,
  arm, stored, mount_file, automount_file,
}
use kde_nasmount.Operations.Identifier.{generate_unique_share_id}

pub record DefineInput : Type 0 where
  pub owner_uid : ℕ
  pub owner_gid : ℕ
  pub unc : Text
  pub mount_point : Text
  pub unit_name : Text
  pub username : Text
  pub access : AccessMode
  pub domain : Text
  pub password : Text
  pub mount_plan : MountpointPlan

pub record DefineOutput : Type 0 where
  pub is_ok : Bool
  pub share_id : Text
  pub activated : Bool

abbrev pub failed : DefineOutput
failed = record { is_ok = false; share_id = []; activated = false }

abbrev pub authentication_of : DefineInput → AuthenticationKind
authentication_of input = if is_empty input.username then guest else credentials

abbrev pub marker_of : DefineInput → Text → Marker
marker_of input id = record {
  owner_uid = input.owner_uid;
  owner_gid = input.owner_gid;
  id = id;
  authentication = authentication_of input;
  access = input.access;
}

abbrev pub request_of : DefineInput → Text → ArmShareRequest
request_of input id = record {
  owner_uid = input.owner_uid;
  owner_gid = input.owner_gid;
  share_id = id;
  authentication = authentication_of input;
  plan = input.mount_plan;
  unit_name = input.unit_name;
  what = input.unc;
  path_policy = interactive_create;
}

-- Which artifacts this call may have made.
pub record Made : Type 0 where
  pub mount_may_exist : Bool
  pub automount_may_exist : Bool
  pub credential_may_exist : Bool

abbrev when : Bool → Program Call Answer (Unit {0}) → Program Call Answer (Unit {0})
when true p = p
when false p = ret tt

abbrev ignore : (c : Call) → Program Call Answer (Unit {0})
ignore c = call c (λ r. ret tt)

remove_opened : Text → Made → Bool → Program Call Answer (Unit {0})
remove_opened unit_name made false = ret tt
remove_opened unit_name made true = do
  when made.automount_may_exist (ignore (remove_unit (automount_file unit_name)))
  when made.mount_may_exist (ignore (remove_unit (mount_file unit_name)))

remove_units : Text → Made → Program Call Answer (Unit {0})
unfolding remove_opened
remove_units unit_name made = do opened ← perform open_units; remove_opened unit_name made opened

-- the units go only when the credential is gone
remove_rest : Text → Made → Bool → Program Call Answer (Unit {0})
unfolding remove_units
remove_rest unit_name made may_remove_units = do
  let any = may_remove_units && (made.mount_may_exist || made.automount_may_exist)
  when any (remove_units unit_name made)
  ignore (remove_automount_id unit_name)
  when any (ignore daemon_reload)

remove_credential : Text → Bool → Program Call Answer Bool
unfolding stored remove
remove_credential id true = stored (remove id)
remove_credential id false = ret true

-- the lambda `cleanup`
unfoldable pub clean_up : Text → Text → Made → Program Call Answer (Unit {0})
unfolding remove_credential remove_rest
clean_up unit_name id made = do
  removed ← remove_credential id made.credential_may_exist
  remove_rest unit_name made removed

unfoldable pub undone : Text → Text → Made → Program Call Answer DefineOutput
unfolding clean_up
undone unit_name id made = do clean_up unit_name id made; ret failed

-- the two contents, when both can be encoded
both_contents : Result EncodeError Text → Result EncodeError Text → Option (Text × Text)
both_contents (ok m) (ok a) = some (m, a)
both_contents _ _ = none

module _ (qt : Qt) (enc : Utf8) (input : DefineInput) where
  abbrev pub is_authenticated : Bool
  is_authenticated = not (is_empty input.username)

  -- after the writing of the first unit, of the second, and after the units
  abbrev mount_made : Made
  mount_made = record {
    mount_may_exist = true;
    automount_may_exist = false;
    credential_may_exist = false;
  }

  abbrev pair_made : Made
  pair_made = record {
    mount_may_exist = true;
    automount_may_exist = true;
    credential_may_exist = false;
  }

  abbrev units_made : Made
  units_made = record {
    mount_may_exist = true;
    automount_may_exist = true;
    credential_may_exist = is_authenticated;
  }

  finish : Text → ArmShareResult → Program Call Answer DefineOutput
  unfolding undone
  finish id result = elim (result.outcome) [
    | needs_attention ↦
        (if not result.definition_cleanup_safe
          then ret failed
          else undone input.unit_name id units_made)
    | _ ↦ ret (record { is_ok = true; share_id = id; activated = true })
  ]

  activate : Text → Bool → Program Call Answer DefineOutput
  unfolding undone finish
  activate id false = undone input.unit_name id units_made
  activate id true = do result ← perform (arm (request_of input id)); finish id result

  unfoldable pub reload : Text → Bool → Program Call Answer DefineOutput
  unfolding undone activate
  reload id false = undone input.unit_name id units_made
  reload id true = do reloaded ← perform daemon_reload; activate id reloaded

  store_credential : Text → Program Call Answer Bool
  unfolding stored write assert_absent
  store_credential id =
      if is_authenticated
      then stored (write enc id input.username input.domain input.password)
      else stored (assert_absent id)

  unfoldable pub after_automount : Text → Bool → Program Call Answer DefineOutput
  unfolding undone store_credential reload
  after_automount id false = undone input.unit_name id pair_made
  after_automount id true = do stored_ok ← store_credential id; reload id stored_ok

  after_mount : Text → Text → Bool → Program Call Answer DefineOutput
  unfolding undone after_automount
  after_mount id automount_content false = undone input.unit_name id mount_made
  after_mount id automount_content true = do
    written ← perform (write_unit (automount_file input.unit_name) automount_content)
    after_automount id written

  write_pair : Text → Option (Text × Text) → Program Call Answer DefineOutput
  unfolding after_mount
  write_pair id none = ret failed
  write_pair id (some (mount_content, automount_content)) = do
    written ← perform (write_unit (mount_file input.unit_name) mount_content)
    after_mount id automount_content written

  unfoldable pub contents_of : Text → Option (Text × Text)
  unfolding build_mount_unit_content build_automount_unit_content both_contents
  contents_of id =
      both_contents (build_mount_unit_content qt (marker_of input id) input.unc input.mount_point)
        (build_automount_unit_content qt (marker_of input id) input.mount_point)

  refuse_existing : Text → Bool → Program Call Answer DefineOutput
  unfolding contents_of write_pair
  refuse_existing id true = ret failed
  refuse_existing id false = write_pair id (contents_of id)

  look : Text → Bool → Program Call Answer DefineOutput
  unfolding refuse_existing
  look id false = ret failed
  look id true = do
    mount_exists ← perform (read_unit (mount_file input.unit_name))
    automount_exists ← perform (read_unit (automount_file input.unit_name))
    refuse_existing id (mount_exists || automount_exists)

  with_id : Option Text → Program Call Answer DefineOutput
  unfolding look
  with_id none = ret failed
  with_id (some id) = do opened ← perform open_units; look id opened

  unfoldable pub define : Program Call Answer DefineOutput
  unfolding generate_unique_share_id with_id
  define = do id ← generate_unique_share_id; with_id id
