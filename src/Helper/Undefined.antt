-- ===== src/Helper/Undefined.antt =====
-- What the undefine action has done when it succeeds.
use kde_nasmount.Prelude.{Option, none, ◌≡◌, ◌⊎◌}
use kde_nasmount.Qt.{Qt}
use kde_nasmount.Verify.Definition.{Definition, DefinitionCheck, inspect_definition}
use kde_nasmount.Verify.Runtime.{Numbers}
use kde_nasmount.Credentials.{Utf8}
use kde_nasmount.Operations.Machine.{Root, RootLaws}
use kde_nasmount.Operations.Remove.Removed.{IsRemoved}
use kde_nasmount.Helper.{Args, Prepared, removal_of}
use kde_nasmount.Helper.Handler.{Host}
use kde_nasmount.Helper.Preparation.{IsPrepared}

module _ {S : Type 0} (qt : Qt) (numbers : Numbers) (root : Root S) (laws : RootLaws root)
    (host : Host S) (enc : Utf8) where
  -- What the inspection for the caller finds in the state that systemd-escape leaves.
  abbrev found_in : S → Prepared → DefinitionCheck
  found_in s p =
      inspect_definition qt p.caller.uid p.plan.path (root.files (host.escape p.plan.path s).1)
        p.paths

  -- The inspection for the caller finds a Pair or a half of one at a checked path, and the credential
  -- and both units of what it finds are gone.
  pub record IsUndefinedFor (args : Args) (s t : S) : Type 0 where
    pub prepared : Prepared
    pub is_prepared : IsPrepared qt numbers root host enc args s prepared
    pub removable :
        ((found_in s prepared).state ≡ Definition.pair)
        ⊎ ((found_in s prepared).state ≡ Definition.partial)
    pub removed :
        IsRemoved qt numbers root laws (removal_of qt enc prepared (found_in s prepared)) t

  -- the reply to the arguments, with the state once the lock is held and the state at the end
  unfoldable pub Undefines : Args → S → Option (Unit {0}) × S → Type 0
  Undefines args s (reply, t) = (reply ≡ none) ⊎ IsUndefinedFor args s t
