-- ===== src/UnitValue/Paths.antt =====
-- UnitPaths and unitPathsFor. `systemd-escape -p` is an argument: none when the command fails,
-- otherwise what it prints.
use kde_nasmount.Prelude.{Option, none, some, ◌++◌, if◌then◌else◌, Result, ok, err}
use kde_nasmount.Qt.{Qt, trimmed}
use kde_nasmount.Text.{Text, codes, is_empty}

pub record UnitPaths : Type 0 where
  pub unit_name : Text
  pub mount_unit_path : Text
  pub automount_unit_path : Text

pub data PathsError : Type 0 where
  escape_failed empty_name : PathsError

abbrev pub unit_directory : Text
unit_directory = codes "/etc/systemd/system/"

abbrev pub paths_of : Text → UnitPaths
paths_of name = record {
  unit_name = name;
  mount_unit_path = unit_directory ++ (name ++ codes ".mount");
  automount_unit_path = unit_directory ++ (name ++ codes ".automount");
}

unfoldable pub unit_paths_for : Qt → (Text → Option Text) → Text → Result PathsError UnitPaths
unfolding trimmed
unit_paths_for qt systemd_escape mount_point = elim (systemd_escape mount_point) [
  | none ↦ err escape_failed
  | some output ↦
      (let name = trimmed qt output in if is_empty name then err empty_name else ok (paths_of name))
]
