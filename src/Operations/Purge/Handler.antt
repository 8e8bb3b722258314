-- ===== src/Operations/Purge/Handler.antt =====
-- What purge runs on: the root, and the names and processes it asks the host for.
use kde_nasmount.Prelude.{Bool, Option, List}
use kde_nasmount.Qt.{Qt}
use kde_nasmount.Text.{Text}
use kde_nasmount.Verify.Definition.{inspect_definition}
use kde_nasmount.Verify.Halves.{OwnedUnit}
use kde_nasmount.Verify.Scan.{enumerate_managed_units}
use kde_nasmount.Verify.Runtime.{Numbers}
use kde_nasmount.Operations.Machine.{Root, on_call}
use kde_nasmount.Operations.Purge.{
  Call, Answer, managed_units, unit_entries, systemd_escape, inspect, operation, open_root,
  remove_tree,
}

pub record Host (S : Type 0) : Type 0 where
  -- the names in the unit directory
  pub names : S → List Text
  pub entries : S → List (Text × Option Text)
  pub escape : Text → S → Option Text × S
  pub open_system_root : Text → S → Bool × S
  pub durable_remove_tree : Text → S → Bool × S

module _ {S : Type 0} (qt : Qt) (numbers : Numbers) (root : Root S) (host : Host S) where
  abbrev pub on_purge : (c : Call) → S → Answer c × S
  on_purge managed_units = λ s. (enumerate_managed_units (root.files s) (host.names s), s)
  on_purge unit_entries = λ s. (host.entries s, s)
  on_purge (systemd_escape path) = host.escape path
  on_purge (inspect paths uid path) = λ s. (inspect_definition qt uid path (root.files s) paths, s)
  on_purge (operation c) = on_call qt numbers root c
  on_purge (open_root path) = host.open_system_root path
  on_purge (remove_tree path) = host.durable_remove_tree path

  abbrev pub managed_of : S → List OwnedUnit
  managed_of s = enumerate_managed_units (root.files s) (host.names s)
