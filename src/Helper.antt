-- ===== src/Helper.antt =====
-- helper/helper.cpp: the actions of the KAuth helper. Everything in the argument map is untrusted;
-- the caller is who KAuth says. The messages of a reply are left out.
pub mod Handler
pub mod Preparation
pub mod Requested
pub mod Defined
pub mod Undefined
use kde_nasmount.Prelude.{
  ℕ, Bool, true, false, not, ◌&&◌, ◌||◌, Option, none, some, List, [], ltb, if◌then◌else◌, Result,
  ok, err,
}
use kde_nasmount.Prelude.Program.{Program, ret, call, ◌>>=◌, perform}
use kde_nasmount.Qt.{Qt}
use kde_nasmount.Text.{Text, codes, is_empty}
use kde_nasmount.UnitValue.Access.{AccessMode, read_write, access_mode_from_string}
use kde_nasmount.UnitValue.Encode.{has_control_chars}
use kde_nasmount.UnitValue.Paths.{UnitPaths, PathsError, unit_paths_for}
use kde_nasmount.UnitSpec.Unc.{UncError, validate_unc}
use kde_nasmount.UnitSpec.Mountpoint.{MountpointPlan, MountpointError, validate_mountpoint}
use kde_nasmount.Verify.Definition.{Definition, DefinitionCheck}
use kde_nasmount.Credentials.{Utf8, size, max_credential_field_bytes}
use kde_nasmount.Operations as Operations
use kde_nasmount.Operations.Define.{DefineInput, DefineOutput, define}
use kde_nasmount.Operations.Remove.{RemovalInput, remove}

-- the entries of the map, as strings; none for a key that is absent
abbrev pub Args : Type 0
Args = Text → Option Text

-- `args.value(key).toString()`
abbrev pub argument : Args → Text → Text
argument args key = elim (args key) [ none ↦ [] | some value ↦ value ]

pub record CallerInfo : Type 0 where
  pub uid : ℕ
  pub gid : ℕ
  pub home : Text

pub data Call : Type 0 where
  -- RootLock::acquire
  acquire_lock : Call
  -- HelperSupport::callerUid(), none for a negative one, and getpwuid
  caller_uid : Call
  passwd_of : ℕ → Call
  -- the process `systemd-escape -p`
  systemd_escape : Text → Call
  -- Verify::inspectDefinition
  inspect : UnitPaths → ℕ → Text → Call
  -- UnitSpec::openMountpointNoFollow, and the closing of what it opened
  open_mountpoint : MountpointPlan → ℕ → ℕ → Call
  -- a call of Root::Operations
  operation : Operations.Call → Call

abbrev pub Answer : Call → Type 0
Answer acquire_lock = Bool
Answer caller_uid = Option ℕ
Answer (passwd_of _) = Option CallerInfo
Answer (systemd_escape _) = Option Text
Answer (inspect _ _ _) = DefinitionCheck
Answer (open_mountpoint _ _ _) = Bool
Answer (operation c) = Operations.Answer c

-- an operation, called from here
unfoldable pub operated :
    {A : Type 0} → Program Operations.Call Operations.Answer A → Program Call Answer A
operated (ret a) = ret a
operated (call c k) = call (operation c) (λ r. operated (k r))

-- `if (!test) return fail(...);`
abbrev pub or_refuse :
    {A : Type 0} → Bool → Program Call Answer (Option A) → Program Call Answer (Option A)
or_refuse true p = p
or_refuse false p = ret none

abbrev pub with_some :
    {A B : Type 0}
    → Option A
    → (A → Program Call Answer (Option B))
    → Program Call Answer (Option B)
with_some none f = ret none
with_some (some a) f = f a

abbrev pub ok_of : {E A : Type 0} → Result E A → Option A
ok_of (err _) = none
ok_of (ok a) = some a

resolve_caller : Program Call Answer (Option CallerInfo)
resolve_caller = do uid ← perform caller_uid; with_some uid (λ u. perform (passwd_of u))

pub record Prepared : Type 0 where
  pub caller : CallerInfo
  pub plan : MountpointPlan
  pub paths : UnitPaths

-- What define is asked for, once it is checked.
pub record DefineRequest : Type 0 where
  pub unc : Text
  pub username : Text
  pub domain : Text
  pub password : Text
  pub access : AccessMode

-- an absent key means read and write, a value that is not known is refused
unfoldable pub requested_access : Option Text → Option AccessMode
unfolding access_mode_from_string
requested_access none = some read_write
requested_access (some requested) = access_mode_from_string requested

unfoldable pub guest_fields_consistent : Text → Text → Text → Bool
guest_fields_consistent username domain password =
    not (is_empty username) || (is_empty domain && is_empty password)

module _ (qt : Qt) (enc : Utf8) where
  unfoldable pub validate_credential_fields : Text → Text → Text → Bool
  unfolding has_control_chars
  validate_credential_fields username domain password =
      if has_control_chars username || (has_control_chars domain || has_control_chars password)
      then false
      else not (
          ltb max_credential_field_bytes (size (enc.to_utf8 username))
          || (ltb max_credential_field_bytes (size (enc.to_utf8 domain))
              || ltb max_credential_field_bytes (size (enc.to_utf8 password))))

  paths_next : CallerInfo → MountpointPlan → Program Call Answer (Option Prepared)
  unfolding unit_paths_for
  paths_next caller plan = do
    escaped ← perform (systemd_escape plan.path)
    with_some (ok_of (unit_paths_for qt (λ _. escaped) plan.path))
        (λ paths. ret (some (record { caller = caller; plan = plan; paths = paths })))

  unfoldable pub prepare : Args → Program Call Answer (Option Prepared)
  unfolding resolve_caller validate_mountpoint paths_next
  prepare args = do
    resolved ← resolve_caller
    with_some resolved (λ caller.
        with_some (ok_of (validate_mountpoint qt (argument args (codes "path")) caller.home))
          (paths_next caller))

  unfoldable pub request_with : Args → Text → AccessMode → Option DefineRequest
  unfolding validate_credential_fields guest_fields_consistent
  request_with args unc access =
      let username = argument args (codes "username") in
      let domain = argument args (codes "domain") in
      let password = argument args (codes "password") in
      if not (validate_credential_fields username domain password)
      then none
      else if not (guest_fields_consistent username domain password)
      then none
      else some (record {
        unc = unc;
        username = username;
        domain = domain;
        password = password;
        access = access;
      })

  -- the checks of the arguments other than the path
  unfoldable pub request_of : Args → Option DefineRequest
  unfolding validate_unc requested_access request_with
  request_of args = elim (validate_unc (argument args (codes "unc"))) [
    | err _ ↦ none
    | ok unc ↦ elim (requested_access (args (codes "access"))) [
      | none ↦ none
      | some access ↦ request_with args unc access
    ]
  ]

  unfoldable pub input_of : Prepared → DefineRequest → DefineInput
  input_of p r = record {
    owner_uid = p.caller.uid;
    owner_gid = p.caller.gid;
    unc = r.unc;
    mount_point = p.plan.path;
    unit_name = p.paths.unit_name;
    username = r.username;
    access = r.access;
    domain = r.domain;
    password = r.password;
    mount_plan = p.plan;
  }

  define_reply : DefineOutput → Option (Text × Bool)
  define_reply out = if out.is_ok then some (out.share_id, out.activated) else none

  unfoldable pub define_now : DefineInput → Program Call Answer (Option (Text × Bool))
  unfolding operated define define_reply
  define_now input = do out ← operated (define qt enc input); ret (define_reply out)

  after_walk : Prepared → DefineRequest → Bool → Program Call Answer (Option (Text × Bool))
  unfolding input_of define_now
  after_walk p r walked = or_refuse walked (define_now (input_of p r))

  after_inspection :
      Prepared → DefineRequest → DefinitionCheck → Program Call Answer (Option (Text × Bool))
  unfolding after_walk
  after_inspection p r check = elim (check.state) [
    | Definition.none ↦ (do
      walked ← perform (open_mountpoint p.plan p.caller.uid p.caller.gid)
      after_walk p r walked)
    | _ ↦ ret none
  ]

  define_for : Prepared → DefineRequest → Program Call Answer (Option (Text × Bool))
  unfolding after_inspection
  define_for p r = do
    check ← perform (inspect p.paths p.caller.uid p.plan.path)
    after_inspection p r check

  -- the id and whether the share was activated
  unfoldable pub do_define : Args → Program Call Answer (Option (Text × Bool))
  unfolding prepare request_of define_for
  do_define args = do
    locked ← perform acquire_lock
    or_refuse locked (do
      prepared ← prepare args
      with_some prepared (λ p. with_some (request_of args) (define_for p)))

  unfoldable pub removal_of : Prepared → DefinitionCheck → RemovalInput
  removal_of p check = record {
    owner_uid = check.owner_uid;
    owner_gid = check.owner_gid;
    share_id = check.id;
    authentication = check.authentication;
    mount_point = p.plan.path;
    unit_name = p.paths.unit_name;
    what = check.what;
  }

  remove_now : RemovalInput → Program Call Answer (Option (Unit {0}))
  unfolding operated remove
  remove_now input = do removed ← operated (remove input); ret (if removed then some tt else none)

  abbrev pub is_removable : Definition → Bool
  is_removable Definition.pair = true
  is_removable Definition.partial = true
  is_removable _ = false

  undefine_for : Prepared → Program Call Answer (Option (Unit {0}))
  unfolding removal_of remove_now
  undefine_for p = do
    check ← perform (inspect p.paths p.caller.uid p.plan.path)
    or_refuse (is_removable check.state) (remove_now (removal_of p check))

  unfoldable pub do_undefine : Args → Program Call Answer (Option (Unit {0}))
  unfolding prepare undefine_for
  do_undefine args = do
    locked ← perform acquire_lock
    or_refuse locked (do prepared ← prepare args; with_some prepared undefine_for)
