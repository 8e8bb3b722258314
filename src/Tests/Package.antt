-- ===== src/Tests/Package.antt =====
-- Runs and an instance for the package gate.
use kde_nasmount.Prelude.{true, false, some, List, [], ◌∷◌, ◌≡◌, ◌⊎◌, refl}
use kde_nasmount.Text.{Text, codes, text_eq, chop_end}
use kde_nasmount.PackageState.{empty, unsafe, Candidate, Host, under_root, classify}
use kde_nasmount.PackageState.Empty.{AllUnmarked, NoState, classify-empty}
use kde_nasmount.UnitSpec.Options.{mount_options_for}
use kde_nasmount.Tests.Setting.{qt}
use kde_nasmount.Tests.Core.{mount_unit}

abbrev unit_file : Text → Candidate
unit_file content = record { is_sym_link = false; is_file = true; opened = some (100, content) }

abbrev host : List Candidate → Host
host cs = record {
  info = λ path. record {
    exists = text_eq path (codes "/sysroot/etc/systemd/system");
    is_dir = true;
    is_sym_link = false;
  };
  is_readable = λ path. true;
  candidates = λ path. cs;
}

abbrev foreign : Candidate
foreign = unit_file (codes "[Mount]\nWhat=/dev/sda1\n")

-- The test root is cleaned to itself, so the classifier runs as on the real host.
abbrev root : Text
root = codes "/sysroot"

foreign_only : classify qt (host (foreign ∷ [])) root ≡ empty
unfolding classify chop_end mount_options_for
foreign_only = refl

-- A valid share does not hide a malformed sibling.
malformed_sibling :
    classify qt
      (host (foreign ∷ unit_file mount_unit ∷ unit_file (codes "# X-Nasmount-Managed=2\n") ∷ []))
      root
    ≡ unsafe
unfolding classify chop_end mount_options_for
malformed_sibling = refl

classify-empty_example :
    (NoState qt (host (foreign ∷ [])) root (codes "/etc/nasmount")
      × NoState qt (host (foreign ∷ [])) root (codes "/run/nasmount")
      × NoState qt (host (foreign ∷ [])) root (codes "/run/nasmount-ids"))
    × ((((host (foreign ∷ [])).info
            (under_root qt (host (foreign ∷ [])) root (codes "/etc/systemd/system"))).exists
          ≡ false)
        ⊎ AllUnmarked (
            (host (foreign ∷ [])).candidates
              (under_root qt (host (foreign ∷ [])) root (codes "/etc/systemd/system"))))
classify-empty_example = classify-empty qt (host (foreign ∷ [])) root foreign_only
