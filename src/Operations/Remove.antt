-- ===== src/Operations/Remove.antt =====
-- remove: nothing is taken back before the share is safely stopped; then the credential goes first and
-- the units after it.
pub mod Ordered
pub mod Removed
use kde_nasmount.Prelude.{ℕ, Bool, true, false}
use kde_nasmount.Prelude.Program.{Program, ret, call, ◌>>=◌, perform, or_fail}
use kde_nasmount.Text.{Text}
use kde_nasmount.UnitValue.Access.{AuthenticationKind}
use kde_nasmount.Arming.{StopResult, stopped, busy}
use kde_nasmount.Credentials as Credentials
use kde_nasmount.Operations.{
  Call, Answer, open_units, remove_unit, remove_automount_id, daemon_reload, stop, stored,
  mount_file, automount_file,
}

pub record RemovalInput : Type 0 where
  pub owner_uid : ℕ
  pub owner_gid : ℕ
  pub share_id : Text
  pub authentication : AuthenticationKind
  pub mount_point : Text
  pub unit_name : Text
  pub what : Text

-- what may follow a stop
unfoldable pub is_down : StopResult → Bool
is_down stopped = true
is_down StopResult.already_inactive = true
is_down _ = false

unlink_automount : Text → Bool → Program Call Answer Bool
unlink_automount unit_name removed =
    or_fail removed (perform (remove_unit (automount_file unit_name)))

forget : Text → Bool → Program Call Answer Bool
forget unit_name removed = or_fail removed (do
  forgotten ← perform (remove_automount_id unit_name)
  or_fail forgotten (perform daemon_reload))

unfoldable pub unlink_units : Text → Bool → Program Call Answer Bool
unfolding unlink_automount forget
unlink_units unit_name opened = or_fail opened (do
  mount_removed ← perform (remove_unit (mount_file unit_name))
  removed ← unlink_automount unit_name mount_removed
  forget unit_name removed)

unfoldable pub after_stop : RemovalInput → Bool → Program Call Answer Bool
unfolding stored Credentials.remove unlink_units
after_stop input down = or_fail down (do
  removed ← stored (Credentials.remove input.share_id)
  or_fail removed (do opened ← perform open_units; unlink_units input.unit_name opened))

unfoldable pub remove : RemovalInput → Program Call Answer Bool
unfolding is_down after_stop
remove input = do
  result ← perform (stop input.unit_name input.mount_point input.what)
  after_stop input (is_down result)
