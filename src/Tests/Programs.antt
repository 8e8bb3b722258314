-- ===== src/Tests/Programs.antt =====
-- Runs and instances for purge and for the boot program, on the small disk.
use kde_nasmount.Prelude.{◌+◌, true, false, some, List, [], ◌∷◌, ◌≡◌, refl}
use kde_nasmount.Prelude.Program.{Always, run}
use kde_nasmount.Text.{Text, codes, text_eq, chop_end}
use kde_nasmount.Text.Decimal.{to_uint}
use kde_nasmount.UnitValue.Access.{credentials, read_write}
use kde_nasmount.Verify.Definition.{Definition, inspect_definition}
use kde_nasmount.Verify.Scan.{enumerate_managed_units}
use kde_nasmount.Verify.Halves.{OwnedUnit}
use kde_nasmount.Arming.{arm_share, safe_stop}
use kde_nasmount.Operations.{mount_file, automount_file}
use kde_nasmount.Operations.Machine.{on_call}
use kde_nasmount.Operations.Machine.Keeps.{Same-refl}
use kde_nasmount.Operations.Define.{define}
use kde_nasmount.Operations.Purge.{purge}
use kde_nasmount.Operations.Purge.Handler as Purging
use kde_nasmount.Operations.Purge.Handler.{on_purge}
use kde_nasmount.Operations.Purge.Gated.{IsGated, purge-IsGated}
use kde_nasmount.Boot.{boot}
use kde_nasmount.Boot.Handler as Booting
use kde_nasmount.Boot.Handler.{on_boot}
use kde_nasmount.Boot.Attempted.{
  pairs_of, others_of, count, attempt_each, managed_at, boot-attempt_each,
}
use kde_nasmount.Tests.Setting.{qt, escape_html}
use kde_nasmount.Tests.Machine.{numbers, name, point, source}
use kde_nasmount.Tests.Disk.{Disk, plain, root, root_laws, files_of, unit_entry}
use kde_nasmount.Tests.Operations.{input, empty}

abbrev defined : Disk
defined = (run (on_call qt numbers root) (define qt plain input) empty).1

-- the same disk before anything runs
abbrev rebooted : Disk
rebooted = record defined { active = false }

abbrev listed : List Text
listed = mount_file name ∷ automount_file name ∷ []

abbrev purge_host : Purging.Host Disk
purge_host = record {
  names = λ d. listed;
  entries = λ d.
      (mount_file name, d.units (mount_file name))
      ∷ (automount_file name, d.units (automount_file name))
      ∷ [];
  escape = λ path d. (some name, d);
  open_system_root = λ path d. (true, d);
  durable_remove_tree = λ path d. (true, d);
}

purge-IsGated_example :
    Always
      (on_purge qt numbers root purge_host)
      (IsGated qt numbers root purge_host 1000 defined)
      (purge qt 1000)
      defined
purge-IsGated_example =
    purge-IsGated qt numbers root root_laws purge_host (λ path d. Same-refl root d) 1000 defined

-- the share of another user stops the purge
purge_refused :
    (run (on_purge qt numbers root purge_host) (purge qt 1001) defined).0
    ≡ record { is_ok = false; removed_shares = 0 }
unfolding define purge run chop_end to_uint text_eq arm_share enumerate_managed_units unit_entry
    escape_html
purge_refused = refl

purge_succeeds :
    (run (on_purge qt numbers root purge_host) (purge qt 1000) defined).0
    ≡ record { is_ok = true; removed_shares = 1 }
unfolding define purge run chop_end to_uint text_eq arm_share safe_stop enumerate_managed_units
    unit_entry escape_html inspect_definition
purge_succeeds = refl

abbrev boot_host : Booting.Host Disk
boot_host = record {
  machine = root.machine;
  files = files_of;
  names = λ d. listed;
  acquire = λ d. (true, d);
  home = λ uid. some (codes "/home/ada");
  escape = λ path d. (some name, d);
}

boot-attempt_each_example :
    (run (on_boot qt numbers boot_host) (boot qt) rebooted ≡ (
      some (
        count (pairs_of (managed_at qt numbers boot_host rebooted)),
        count (others_of (managed_at qt numbers boot_host rebooted)),
      ),
      attempt_each qt numbers boot_host
          (pairs_of (managed_at qt numbers boot_host rebooted))
          rebooted,
    ))
    × (count (pairs_of (managed_at qt numbers boot_host rebooted))
          + count (others_of (managed_at qt numbers boot_host rebooted))
        ≡ count (managed_at qt numbers boot_host rebooted))
boot-attempt_each_example = boot-attempt_each qt numbers boot_host rebooted refl

-- the one share that define made is found, and its trigger runs again
boot_arms : (run (on_boot qt numbers boot_host) (boot qt) rebooted).0 ≡ some (1, 0)
unfolding define boot run chop_end to_uint text_eq arm_share enumerate_managed_units unit_entry
    escape_html inspect_definition
boot_arms = refl

boot_active : (run (on_boot qt numbers boot_host) (boot qt) rebooted).1.active ≡ true
unfolding define boot run chop_end to_uint text_eq arm_share enumerate_managed_units unit_entry
    escape_html inspect_definition
boot_active = refl

abbrev unit : OwnedUnit
unit = record {
  mount_point = point;
  unit_name = name;
  id = codes "0123456789abcdef0123456789abcdef";
  owner_uid = 1000;
  owner_gid = 1000;
  authentication = credentials;
  access = read_write;
  state = Definition.pair;
  what = source;
}
