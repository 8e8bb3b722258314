-- ===== src/Tests/Operations.antt =====
-- Runs and instances for the credential store, define, remove and the helper, on the small disk.
use kde_nasmount.Prelude.{
  ℕ, ◌≤◌, true, false, Option, none, some, [], ◌∷◌, ◌≡◌, ◌⊎◌, refl, ap, arith, ok, if◌then◌else◌,
}
use kde_nasmount.Prelude.Program.{Always, run}
use kde_nasmount.Text.{Text, codes, text_eq, chop_end, strip_prefix}
use kde_nasmount.Text.Decimal.{to_uint}
use kde_nasmount.UnitValue.Access.{read_write, credentials}
use kde_nasmount.UnitValue.Marker.{is_valid_share_id}
use kde_nasmount.UnitValue.Encode.{has_control_chars}
use kde_nasmount.UnitSpec.Mountpoint.{MountpointPlan}
use kde_nasmount.Verify.Scan.{extract_assignment}
use kde_nasmount.Arming.{arm_share, safe_stop}
use kde_nasmount.Credentials.{
  size, validate_fields, credential_content, credential_bytes, file_name_for,
  max_credential_file_bytes,
}
use kde_nasmount.Credentials.Content.{credential_bytes-valid, extract_assignment-credential_content}
use kde_nasmount.Operations.{mount_file}
use kde_nasmount.Operations.Identifier.{generate_unique_share_id}
use kde_nasmount.Operations.Identifier.Valid.{generate_unique_share_id-is_valid}
use kde_nasmount.Operations.Machine.{on_call, may_be_temp}
use kde_nasmount.Operations.Define.{DefineInput, define}
use kde_nasmount.Operations.Define.Cleanup.{IsDiscoverable}
use kde_nasmount.Operations.Define.Inspected.{IsEncodable}
use kde_nasmount.Operations.Define.Discoverable.{define-IsDiscoverable}
use kde_nasmount.Operations.Define.Reports as Defining
use kde_nasmount.Operations.Define.Success.{define-Reports}
use kde_nasmount.Operations.Remove.{RemovalInput, remove}
use kde_nasmount.Operations.Remove.Ordered.{IsOrdered, remove-IsOrdered}
use kde_nasmount.Operations.Remove.Removed as Removing
use kde_nasmount.Operations.Remove.Removed.{remove-Reports}
use kde_nasmount.Helper.{Args, CallerInfo, input_of, do_define}
use kde_nasmount.Helper.Handler.{Host, HostLaws, on_helper}
use kde_nasmount.Helper.Defined.{Defines, do_define-Defines}
use kde_nasmount.Tests.Setting.{qt, qt_laws, share_id}
use kde_nasmount.Tests.Machine.{numbers, name, point, source}
use kde_nasmount.Tests.Disk.{Disk, plain, plain_laws, root, root_laws}

abbrev pub empty : Disk
empty = record { units = λ n. none; credentials = λ n. none; active = false }

abbrev pub plan : MountpointPlan
plan = record { path = point; root = codes "/mnt"; suffix = codes "media" ∷ [] }

abbrev pub input : DefineInput
input = record {
  owner_uid = 1000;
  owner_gid = 1000;
  unc = source;
  mount_point = point;
  unit_name = name;
  username = codes "ada";
  access = read_write;
  domain = [];
  password = codes "lovelace";
  mount_plan = plan;
}

abbrev defined : Disk
defined = (run (on_call qt numbers root) (define qt plain input) empty).1

define_succeeds :
    (run (on_call qt numbers root) (define qt plain input) empty).0
    ≡ record { is_ok = true; share_id = codes "0123456789abcdef0123456789abcdef"; activated = true }
unfolding define run chop_end to_uint arm_share
define_succeeds = refl

credential_written :
    defined.credentials (file_name_for share_id) ≡ some (codes "username=ada\npassword=lovelace\n")
unfolding define run chop_end to_uint file_name_for text_eq arm_share
credential_written = refl

not_temp : may_be_temp (file_name_for share_id) ≡ false
unfolding strip_prefix file_name_for
not_temp = refl

define-IsDiscoverable_example :
    Always
      (on_call qt numbers root)
      (IsDiscoverable qt numbers root root_laws plain input (file_name_for share_id))
      (define qt plain input)
      empty
define-IsDiscoverable_example =
    define-IsDiscoverable qt numbers root root_laws plain input (file_name_for share_id) not_temp
      empty refl

define-Reports_example :
    Defining.Reports qt numbers root root_laws plain input
      (run (on_call qt numbers root) (define qt plain input) empty)
define-Reports_example = define-Reports qt numbers root root_laws plain input empty

abbrev removal : RemovalInput
removal = record {
  owner_uid = 1000;
  owner_gid = 1000;
  share_id = share_id;
  authentication = credentials;
  mount_point = point;
  unit_name = name;
  what = source;
}

-- what define made can be removed again
remove_succeeds : (run (on_call qt numbers root) (remove removal) defined).0 ≡ true
unfolding define remove run chop_end to_uint text_eq safe_stop arm_share
remove_succeeds = refl

remove-IsOrdered_example :
    Always
      (on_call qt numbers root)
      (IsOrdered qt numbers root root_laws defined share_id (mount_file name))
      (remove removal)
      defined
remove-IsOrdered_example =
    remove-IsOrdered qt numbers root root_laws removal (mount_file name) defined

remove-Reports_example :
    Removing.Reports qt numbers root root_laws removal defined
      (run (on_call qt numbers root) (remove removal) defined)
remove-Reports_example = remove-Reports qt numbers root root_laws removal defined

abbrev args : Args
args key =
    if text_eq key (codes "path")
    then some point
    else if text_eq key (codes "unc")
    then some source
    else if text_eq key (codes "username")
    then some (codes "ada")
    else if text_eq key (codes "password")
    then some (codes "lovelace")
    else none

abbrev ada : CallerInfo
ada = record { uid = 1000; gid = 1000; home = codes "/home/ada" }

abbrev host : Host Disk
host = record {
  acquire = λ d. (true, d);
  caller = some 1000;
  passwd = λ u. some ada;
  escape = λ path d. (some name, d);
}

abbrev number_of : (CallerInfo → ℕ) → Option CallerInfo → ℕ
number_of field none = 0
number_of field (some c) = field c

host_laws : HostLaws host
host_laws = record {
  uid_fits = λ u c h. (let e : 1000 ≡ c.uid = ap (number_of (λ i. i.uid)) h in omega arith);
  gid_fits = λ u c h. (let e : 1000 ≡ c.gid = ap (number_of (λ i. i.gid)) h in omega arith);
}

-- the small disk keeps every text
encodable : (i : DefineInput) → IsEncodable qt numbers root root_laws plain i
unfolding IsEncodable
encodable i id m a h = (refl, refl)

do_define-Defines_example :
    Defines qt numbers root host plain args empty
      (run (on_helper qt numbers root host) (do_define qt plain args) empty)
do_define-Defines_example =
    do_define-Defines qt numbers root root_laws host plain qt_laws host_laws args empty
      (λ p r prepared requested. encodable (input_of qt plain p r))

id_valid : is_valid_share_id share_id ≡ true
unfolding is_valid_share_id
id_valid = refl

fields_valid : validate_fields plain (codes "ada") [] (codes "lovelace") ≡ true
unfolding validate_fields has_control_chars
fields_valid = refl

ada_plain : has_control_chars (codes "ada") ≡ false
unfolding has_control_chars
ada_plain = refl

nothing_plain : has_control_chars [] ≡ false
unfolding has_control_chars
nothing_plain = refl

lovelace_plain : has_control_chars (codes "lovelace") ≡ false
unfolding has_control_chars
lovelace_plain = refl

credential_bytes-valid_example :
    (credential_bytes plain share_id (codes "ada") [] (codes "lovelace")
      ≡ ok (credential_content (codes "ada") [] (codes "lovelace")))
    × (size (credential_content (codes "ada") [] (codes "lovelace")) ≤ max_credential_file_bytes)
credential_bytes-valid_example =
    credential_bytes-valid plain plain_laws share_id (codes "ada") [] (codes "lovelace") id_valid
      fields_valid

extract_assignment-credential_content_example :
    (extract_assignment (credential_content (codes "ada") [] (codes "lovelace")) (codes "username")
      ≡ some (codes "ada"))
    × (extract_assignment
          (credential_content (codes "ada") [] (codes "lovelace"))
          (codes "password")
        ≡ some (codes "lovelace"))
    × (extract_assignment (credential_content (codes "ada") [] (codes "lovelace")) (codes "domain")
        ≡ none)
extract_assignment-credential_content_example =
    extract_assignment-credential_content (codes "ada") [] (codes "lovelace") ada_plain
      nothing_plain lovelace_plain

generate_unique_share_id-is_valid_example :
    ((run (on_call qt numbers root) generate_unique_share_id empty).0 ≡ none)
    ⊎ ((id : Text) × ((run (on_call qt numbers root) generate_unique_share_id empty).0 ≡ some id)
        × (is_valid_share_id id ≡ true))
generate_unique_share_id-is_valid_example =
    generate_unique_share_id-is_valid (on_call qt numbers root) empty
