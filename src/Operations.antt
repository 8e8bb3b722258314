-- ===== src/Operations.antt =====
-- root/operations.h and root/operations.cpp: define, remove and purge as programs that call the unit
-- directory, the credential store, systemd and the arming of shares. The error messages are left out.
pub mod Machine
pub mod Identifier
pub mod Define
pub mod Remove
pub mod Purge
use kde_nasmount.Prelude.{ℕ, Bool, Option, List, ◌++◌}
use kde_nasmount.Prelude.Program.{Program, ret, call}
use kde_nasmount.Text.{Text, codes}
use kde_nasmount.Arming.{ArmShareRequest, ArmShareResult, StopResult}
use kde_nasmount.Credentials as Credentials

pub data Call : Type 0 where
  -- QRandomGenerator64::global()->generate64()
  random_number : Call
  -- the entries *.mount and *.automount of the unit directory, none for one that cannot be opened
  unit_contents : Call
  -- openUnitsDir, readUnitFile, writeUnitFile, removeUnitFile
  open_units : Call
  read_unit : Text → Call
  write_unit : Text → Text → Call
  remove_unit : Text → Call
  -- a call of the credential store
  credential : Credentials.Call → Call
  -- RuntimeFiles::removeAutomountId, SystemdOps::daemonReload
  remove_automount_id : Text → Call
  daemon_reload : Call
  -- Arming::armShare, Arming::safeStop
  arm : ArmShareRequest → Call
  stop : Text → Text → Text → Call

abbrev pub Answer : Call → Type 0
Answer random_number = ℕ
Answer unit_contents = List (Option Text)
Answer open_units = Bool
Answer (read_unit _) = Bool
Answer (write_unit _ _) = Bool
Answer (remove_unit _) = Bool
Answer (credential c) = Credentials.Answer c
Answer (remove_automount_id _) = Bool
Answer daemon_reload = Bool
Answer (arm _) = ArmShareResult
Answer (stop _ _ _) = StopResult

-- an operation of the credential store, called from here
unfoldable pub stored :
    {A : Type 0} → Program Credentials.Call Credentials.Answer A → Program Call Answer A
stored (ret a) = ret a
stored (call c k) = call (credential c) (λ r. stored (k r))

abbrev pub mount_file : Text → Text
mount_file unit_name = unit_name ++ codes ".mount"

abbrev pub automount_file : Text → Text
automount_file unit_name = unit_name ++ codes ".automount"
