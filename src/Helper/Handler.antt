-- ===== src/Helper/Handler.antt =====
-- What the helper runs on: the root, and the host that says who called.
use kde_nasmount.Prelude.{ℕ, ◌<◌, ◌^◌, Bool, Option, some, ◌≡◌, refl}
use kde_nasmount.Prelude.Program.{Program, ret, call, run}
use kde_nasmount.Qt.{Qt}
use kde_nasmount.Text.{Text}
use kde_nasmount.Verify.Definition.{inspect_definition}
use kde_nasmount.Verify.Runtime.{Numbers}
use kde_nasmount.Operations as Operations
use kde_nasmount.Operations.Machine.{Root, on_call}
use kde_nasmount.Helper.{
  Call, Answer, CallerInfo, acquire_lock, caller_uid, passwd_of, systemd_escape, inspect,
  open_mountpoint, operation, operated,
}

pub record Host (S : Type 0) : Type 0 where
  pub acquire : S → Bool × S
  -- HelperSupport::callerUid() and the accounts
  pub caller : Option ℕ
  pub passwd : ℕ → Option CallerInfo
  pub escape : Text → S → Option Text × S

-- uid_t and gid_t are 32 bits wide
pub record HostLaws {S : Type 0} (host : Host S) : Type 0 where
  pub uid_fits : (u : ℕ) (c : CallerInfo) → host.passwd u ≡ some c → c.uid < 2 ^ 32
  pub gid_fits : (u : ℕ) (c : CallerInfo) → host.passwd u ≡ some c → c.gid < 2 ^ 32

module _ {S : Type 0} (qt : Qt) (numbers : Numbers) (root : Root S) (host : Host S) where
  abbrev pub on_helper : (c : Call) → S → Answer c × S
  on_helper acquire_lock = host.acquire
  on_helper caller_uid = λ s. (host.caller, s)
  on_helper (passwd_of u) = λ s. (host.passwd u, s)
  on_helper (systemd_escape path) = host.escape path
  on_helper (inspect paths uid path) = λ s. (inspect_definition qt uid path (root.files s) paths, s)
  on_helper (open_mountpoint plan uid gid) = root.machine.open_mountpoint_no_follow plan uid gid
  on_helper (operation c) = on_call qt numbers root c

  pub run-operated :
      {A : Type 0} (m : Program Operations.Call Operations.Answer A) (s : S)
      → run on_helper (operated m) s ≡ run (on_call qt numbers root) m s
  unfolding operated run
  run-operated (ret a) s = refl
  run-operated (call c k) s =
      run-operated (k (on_call qt numbers root c s).0) (on_call qt numbers root c s).1
