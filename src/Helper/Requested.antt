-- ===== src/Helper/Requested.antt =====
-- The request the define action makes of its arguments, and the place it finds free.
use kde_nasmount.Prelude.{
  ℕ, Bool, true, false, ◌||◌, Option, none, some, ◌≡◌, refl, ap, arith, Result, ok, err,
  if◌then◌else◌,
}
use kde_nasmount.Qt.{Qt}
use kde_nasmount.Text.{Text, codes}
use kde_nasmount.UnitValue.Access.{AccessMode}
use kde_nasmount.UnitValue.Paths.{UnitPaths}
use kde_nasmount.UnitSpec.Unc.{UncError, validate_unc}
use kde_nasmount.Verify.Files.{Files, drop_in_exists}
use kde_nasmount.Verify.Definition.{Definition, DefinitionCheck, inspect_definition, inspect_probes}
use kde_nasmount.Credentials.{Utf8}
use kde_nasmount.Helper.{Args, argument, DefineRequest, request_of, request_with, requested_access}

pub or_false : (a b : Bool) → (a || b) ≡ false → (a ≡ false) × (b ≡ false)
or_false a b h = ground arith

no_drop_in :
    (unsafe there : Bool) (u v rest : DefinitionCheck)
    → u.state ≡ Definition.tampered
    → v.state ≡ Definition.tampered
    → (if unsafe then u else if there then v else rest).state ≡ Definition.none
    → there ≡ false
no_drop_in unsafe false u v rest eu ev h = refl
no_drop_in true true u v rest eu ev h = cc
no_drop_in false true u v rest eu ev h = cc

-- where there is no definition there is no drop-in either
pub inspect_definition-none :
    (qt : Qt) (uid : ℕ) (path : Text) (files : Files) (paths : UnitPaths)
    → (inspect_definition qt uid path files paths).state ≡ Definition.none
    → (drop_in_exists files paths.mount_unit_path || drop_in_exists files paths.automount_unit_path)
      ≡ false
unfolding inspect_definition inspect_probes
inspect_definition-none qt uid path files paths h = no_drop_in _ _ _ _ _ refl refl h

unrefused :
    {A : Type 0} (a b : Bool) (q r : A)
    → (if a then none else if b then none else some q) ≡ some r
    → q ≡ r
unrefused true b q r h = cc
unrefused false true q r h = cc
unrefused false false q r h = cc

request_with-unc :
    (qt : Qt) (enc : Utf8) (args : Args) (unc : Text) (access : AccessMode) (r : DefineRequest)
    → request_with qt enc args unc access ≡ some r
    → unc ≡ r.unc
unfolding request_with
request_with-unc qt enc args unc access r h = ap (λ q. q.unc) (unrefused _ _ _ r h)

-- the path of a request is the validated one
pub request_of-unc :
    (qt : Qt) (enc : Utf8) (args : Args) (r : DefineRequest)
    → request_of qt enc args ≡ some r
    → validate_unc (argument args (codes "unc")) ≡ ok r.unc
unfolding request_of
request_of-unc qt enc args r =
    unc_next (validate_unc (argument args (codes "unc"))) (requested_access (args (codes "access")))
  where
    unc_next :
        (v : Result UncError Text) (a : Option AccessMode)
        → (elim v as (λ _. Option DefineRequest) [
          | err _ ↦ none
          | ok unc ↦ elim a as (λ _. Option DefineRequest) [
            | none ↦ none
            | some access ↦ request_with qt enc args unc access
          ]
        ])
          ≡ some r
        → v ≡ ok r.unc
    unc_next (err _) a h = cc
    unc_next (ok unc) none h = cc
    unc_next (ok unc) (some access) h = ap (λ u. ok u) (request_with-unc qt enc args unc access r h)
