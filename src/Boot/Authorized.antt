-- ===== src/Boot/Authorized.antt =====
-- What is armed at boot is a validated pair at an authorized mount point of an existing account.
use kde_nasmount.Prelude.{some, ◌≡◌, ◌⊎◌, ok}
use kde_nasmount.Qt.{Qt}
use kde_nasmount.Text.{Text}
use kde_nasmount.UnitValue.Paths.{UnitPaths, unit_paths_for}
use kde_nasmount.UnitSpec.Mountpoint.{MountpointPlan, validate_mountpoint}
use kde_nasmount.Verify.Definition.{Definition, DefinitionCheck, inspect_definition}
use kde_nasmount.Verify.Halves.{OwnedUnit}
use kde_nasmount.Verify.Runtime.{Numbers}
use kde_nasmount.Arming.{arm_share}
use kde_nasmount.Boot.{request_of}
use kde_nasmount.Boot.Handler.{Host}

module _ {S : Type 0} (qt : Qt) (numbers : Numbers) (host : Host S) where
  -- The owner has an account, the unit's mount point is authorized for its home, the unit name is the one
  -- of the path, the inspection in that state takes the definition for the owner's Pair, and armShare is
  -- what was done.
  pub record IsAuthorized (unit : OwnedUnit) (s t : S) : Type 0 where
    pub home : Text
    pub account : host.home unit.owner_uid ≡ some home
    pub plan : MountpointPlan
    pub authorized : validate_mountpoint qt unit.mount_point home ≡ ok plan
    pub paths : UnitPaths
    pub named : unit_paths_for qt (λ _. (host.escape plan.path s).0) plan.path ≡ ok paths
    pub same_name : paths.unit_name ≡ unit.unit_name
    pub pair :
        (inspect_definition qt unit.owner_uid plan.path
          (host.files (host.escape plan.path s).1)
          paths).state
        ≡ Definition.pair
    pub armed :
        t
        ≡ (arm_share qt numbers host.machine
            (request_of unit plan (
              inspect_definition qt unit.owner_uid plan.path
                (host.files (host.escape plan.path s).1)
                paths))
            (host.escape plan.path s).1).1

  -- nothing but systemd-escape was run
  unfoldable pub Escaped : S → S → Type 0
  Escaped s t = (t ≡ s) ⊎ ((path : Text) × (t ≡ (host.escape path s).1))

  Outcome : OwnedUnit → S → S → Type 0
  Outcome unit s t = Escaped s t ⊎ IsAuthorized unit s t

  module _ (unit : OwnedUnit) (s : S) (home : Text)
      (account : host.home unit.owner_uid ≡ some home) where
    module _ (plan : MountpointPlan)
        (authorized : validate_mountpoint qt unit.mount_point home ≡ ok plan) where
      abbrev escaped : S
      escaped = (host.escape plan.path s).1

      module _ (paths : UnitPaths)
          (named : unit_paths_for qt (λ _. (host.escape plan.path s).0) plan.path ≡ ok paths)
          (same_name : paths.unit_name ≡ unit.unit_name) where
        abbrev check : DefinitionCheck
        check = inspect_definition qt unit.owner_uid plan.path (host.files escaped) paths
