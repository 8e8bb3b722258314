-- ===== src/Operations/Machine.antt =====
-- The machine that the operations run on: its calls, what can be seen of a state, and what each call
-- is asked to do. Arming and stopping are armShare and safeStop on the same machine.
pub mod Keeps
pub mod Quiet
use kde_nasmount.Prelude.{
  ℕ, ◌<◌, ◌^◌, Bool, true, false, Option, none, some, List, [], ◌∷◌, ◌≡◌, ◌≢◌, ◌⊎◌, ◌++◌, ◌&&◌,
}
use kde_nasmount.Qt.{Qt}
use kde_nasmount.Text.{Text, starts_with}
use kde_nasmount.UnitValue.Marker.{is_hex}
use kde_nasmount.DurableFs.{temp_prefix}
use kde_nasmount.UnitValue.Paths.{unit_directory}
use kde_nasmount.UnitSpec.Mountpoint.{MountpointPlan}
use kde_nasmount.Verify.Files.{Files, FileProbe, missing, readable, probe_unit_file, drop_in_exists}
use kde_nasmount.Verify.Runtime.{Numbers}
use kde_nasmount.Arming.{Machine, ArmShareRequest, arm_share, safe_stop}
use kde_nasmount.Credentials as Credentials
use kde_nasmount.Credentials.{open_directory, replace_file, unlink_file, open_file}
use kde_nasmount.Operations.{
  Call, Answer, random_number, unit_contents, open_units, read_unit, write_unit, remove_unit,
  credential, remove_automount_id, daemon_reload, arm, stop,
}

-- The names that durableReplace gives temporary files end in a hexadecimal digit.
unfoldable pub ends_in_hex : Text → Bool
ends_in_hex [] = false
ends_in_hex (c ∷ []) = is_hex c
ends_in_hex (c ∷ d ∷ t) = ends_in_hex (d ∷ t)

abbrev pub may_be_temp : Text → Bool
may_be_temp name = starts_with temp_prefix name && ends_in_hex name

pub record Root (S : Type 0) : Type 0 where
  pub machine : Machine S
  -- the file system as the inspection sees it
  pub files : S → Files
  -- the entries of /etc/nasmount
  pub credential_file : S → Text → Option (List ℕ)
  pub random : S → ℕ × S
  pub list_contents : S → List (Option Text) × S
  pub open_unit_directory : S → Bool × S
  pub read_unit_file : Text → S → Bool × S
  -- a text after toUtf8 and fromUtf8, which keep every valid UTF-16
  pub read_back : Text → Text
  pub write_unit_file : Text → Text → S → Bool × S
  pub remove_unit_file : Text → S → Bool × S
  pub open_credential_directory : S → Bool × S
  pub replace_credential : Text → List ℕ → S → Bool × S
  pub unlink_credential : Text → S → Bool × S
  pub open_credential : Text → S → Credentials.Opening × S
  pub reload_daemon : S → Bool × S

module _ {S : Type 0} (qt : Qt) (numbers : Numbers) (root : Root S) where
  abbrev pub on_credential : (c : Credentials.Call) → S → Credentials.Answer c × S
  on_credential open_directory = root.open_credential_directory
  on_credential (replace_file name bytes) = root.replace_credential name bytes
  on_credential (unlink_file name) = root.unlink_credential name
  on_credential (open_file name) = root.open_credential name

  abbrev pub on_call : (c : Call) → S → Answer c × S
  on_call random_number = root.random
  on_call unit_contents = root.list_contents
  on_call open_units = root.open_unit_directory
  on_call (read_unit name) = root.read_unit_file name
  on_call (write_unit name content) = root.write_unit_file name content
  on_call (remove_unit name) = root.remove_unit_file name
  on_call (credential c) = on_credential c
  on_call (remove_automount_id name) = root.machine.remove_automount_id name
  on_call daemon_reload = root.reload_daemon
  on_call (arm req) = arm_share qt numbers root.machine req
  on_call (stop unit_name mount_point what) =
      safe_stop qt numbers root.machine unit_name mount_point what

module _ {S : Type 0} (root : Root S) where
  -- the unit file of a name, as the inspection probes it
  abbrev pub unit_of : S → Text → FileProbe
  unit_of s name = probe_unit_file (root.files s) (unit_directory ++ name)

  pub record SameUnits (s after : S) : Type 0 where
    pub unit_same : (name : Text) → unit_of after name ≡ unit_of s name

  pub record SameRest (s after : S) : Type 0 where
    pub drop_in_same :
        (path : Text) → drop_in_exists (root.files after) path ≡ drop_in_exists (root.files s) path

  pub record SameCredentials (s after : S) : Type 0 where
    pub credential_same :
        (name : Text) → root.credential_file after name ≡ root.credential_file s name

  -- All that is seen of the files stays as it is.
  pub record Same (s after : S) : Type 0 where
    pub units : SameUnits s after
    pub rest : SameRest s after
    pub credentials : SameCredentials s after

  -- An entry was removed or, when the call failed, may have been; the other entries stay.
  pub record Wrote {V : Type 0} (view : S → Text → V) (name : Text) (new : V) (done : Bool)
      (s after : S) : Type 0 where
    pub others : (other : Text) → other ≢ name → view after other ≡ view s other
    pub written : (view after name ≡ new) ⊎ ((done ≡ false) × (view after name ≡ view s name))

  -- An entry was replaced or, when the call failed, may have been. A temporary file may be left; every
  -- entry that no temporary file has the name of stays.
  pub record Replaced {V : Type 0} (view : S → Text → V) (name : Text) (new : V) (done : Bool)
      (s after : S) : Type 0 where
    pub others :
        (other : Text) → other ≢ name → may_be_temp other ≡ false → view after other ≡ view s other
    pub written : (view after name ≡ new) ⊎ ((done ≡ false) × (view after name ≡ view s name))

  -- What DurableFs and the other callees promise.
  pub record RootLaws : Type 0 where
    pub random_same : (s : S) → Same s (root.random s).1
    pub random_fits : (s : S) → (root.random s).0 < 2 ^ 64
    pub list_same : (s : S) → Same s (root.list_contents s).1
    pub open_units_same : (s : S) → Same s (root.open_unit_directory s).1
    pub read_same : (n : Text) (s : S) → Same s (root.read_unit_file n s).1
    pub write_wrote :
        (n c : Text) (s : S)
        → Replaced unit_of n
            (readable (root.read_back c))
            (root.write_unit_file n c s).0
            s
            (root.write_unit_file n c s).1
    pub write_rest : (n c : Text) (s : S) → SameRest s (root.write_unit_file n c s).1
    pub write_credentials : (n c : Text) (s : S) → SameCredentials s (root.write_unit_file n c s).1
    pub remove_wrote :
        (n : Text) (s : S)
        → Wrote unit_of n missing (root.remove_unit_file n s).0 s (root.remove_unit_file n s).1
    pub remove_rest : (n : Text) (s : S) → SameRest s (root.remove_unit_file n s).1
    pub remove_credentials : (n : Text) (s : S) → SameCredentials s (root.remove_unit_file n s).1
    pub open_credentials_same : (s : S) → Same s (root.open_credential_directory s).1
    pub replace_wrote :
        (n : Text) (b : List ℕ) (s : S)
        → Replaced root.credential_file n
            (some b)
            (root.replace_credential n b s).0
            s
            (root.replace_credential n b s).1
    pub replace_units :
        (n : Text) (b : List ℕ) (s : S) → SameUnits s (root.replace_credential n b s).1
    pub replace_rest :
        (n : Text) (b : List ℕ) (s : S) → SameRest s (root.replace_credential n b s).1
    pub unlink_wrote :
        (n : Text) (s : S)
        → Wrote root.credential_file n none
            (root.unlink_credential n s).0
            s
            (root.unlink_credential n s).1
    pub unlink_units : (n : Text) (s : S) → SameUnits s (root.unlink_credential n s).1
    pub unlink_rest : (n : Text) (s : S) → SameRest s (root.unlink_credential n s).1
    pub open_credential_same : (n : Text) (s : S) → Same s (root.open_credential n s).1
    pub reload_same : (s : S) → Same s (root.reload_daemon s).1
    pub stop_same : (u : Text) (s : S) → Same s (root.machine.stop u s).1
    pub start_same : (u : Text) (s : S) → Same s (root.machine.start u s).1
    pub write_id_same :
        (u : Text) (i : ℕ) (s : S) → Same s (root.machine.write_automount_id u i s).1
    pub remove_id_same : (u : Text) (s : S) → Same s (root.machine.remove_automount_id u s).1
    pub healthy_same : (i : Text) (s : S) → Same s (root.machine.credential_healthy i s).1
    pub absent_same : (i : Text) (s : S) → Same s (root.machine.credential_absent i s).1
    pub follow_same :
        (p : MountpointPlan) (u g : ℕ) (s : S)
        → Same s (root.machine.open_mountpoint_no_follow p u g s).1
    pub create_same :
        (p : MountpointPlan) (u g : ℕ) (s : S)
        → Same s (root.machine.open_mountpoint_no_create p u g s).1
