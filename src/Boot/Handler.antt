-- ===== src/Boot/Handler.antt =====
-- What the boot program runs on.
use kde_nasmount.Prelude.{ℕ, Bool, Option, List}
use kde_nasmount.Qt.{Qt}
use kde_nasmount.Text.{Text}
use kde_nasmount.Verify.Files.{Files}
use kde_nasmount.Verify.Definition.{inspect_definition}
use kde_nasmount.Verify.Scan.{enumerate_managed_units}
use kde_nasmount.Verify.Runtime.{Numbers}
use kde_nasmount.Arming.{Machine, arm_share}
use kde_nasmount.Boot.{
  Call, Answer, acquire_lock, managed_units, home_of, systemd_escape, inspect, arm,
}

pub record Host (S : Type 0) : Type 0 where
  pub machine : Machine S
  pub files : S → Files
  -- the names in the unit directory
  pub names : S → List Text
  pub acquire : S → Bool × S
  pub home : ℕ → Option Text
  pub escape : Text → S → Option Text × S

module _ {S : Type 0} (qt : Qt) (numbers : Numbers) (host : Host S) where
  abbrev pub on_boot : (c : Call) → S → Answer c × S
  on_boot acquire_lock = host.acquire
  on_boot managed_units = λ s. (enumerate_managed_units (host.files s) (host.names s), s)
  on_boot (home_of uid) = λ s. (host.home uid, s)
  on_boot (systemd_escape path) = host.escape path
  on_boot (inspect paths uid path) = λ s. (inspect_definition qt uid path (host.files s) paths, s)
  on_boot (arm req) = arm_share qt numbers host.machine req
