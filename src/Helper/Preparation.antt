-- ===== src/Helper/Preparation.antt =====
-- What the first step of every action has established.
use kde_nasmount.Prelude.{
  ℕ, Bool, true, false, Option, none, some, ◌≡◌, ◌⊎◌, inl, inr, refl, Result, ok, err,
  if◌then◌else◌, sym, ap, ◌∙◌,
}
use kde_nasmount.Prelude.Program.{Program, ret, run, perform, ◌>>=◌}
use kde_nasmount.Qt.{Qt, trimmed}
use kde_nasmount.Text.{Text, codes, is_empty}
use kde_nasmount.UnitValue.Paths.{
  UnitPaths, PathsError, escape_failed, empty_name, unit_paths_for, paths_of,
}
use kde_nasmount.UnitSpec.Mountpoint.{MountpointPlan, MountpointError, validate_mountpoint}
use kde_nasmount.Verify.Runtime.{Numbers}
use kde_nasmount.Credentials.{Utf8}
use kde_nasmount.Operations.Machine.{Root}
use kde_nasmount.Helper.{
  Call, Answer, passwd_of, CallerInfo, Args, argument, Prepared, ok_of, with_some, paths_next,
  resolve_caller, prepare,
}
use kde_nasmount.Helper.Handler.{Host, on_helper}

named_next :
    (unnamed : Bool) (name : Text) (paths : UnitPaths)
    → (if unnamed then err empty_name else ok (paths_of name)) ≡ ok paths
    → paths_of name ≡ paths
named_next true name paths h = cc
named_next false name paths h = cc

pub unit_paths_for-paths_of :
    (qt : Qt) (escape : Text → Option Text) (path : Text) (paths : UnitPaths)
    → unit_paths_for qt escape path ≡ ok paths
    → paths ≡ paths_of paths.unit_name
unfolding unit_paths_for
unit_paths_for-paths_of qt escape path paths = output_next (escape path)
  where
    output_next :
        (o : Option Text)
        → (elim o as (λ _. Result PathsError UnitPaths) [
          | none ↦ err escape_failed
          | some output ↦
              (if is_empty (trimmed qt output)
                then err empty_name
                else ok (paths_of (trimmed qt output)))
        ])
          ≡ ok paths
        → paths ≡ paths_of paths.unit_name
    output_next none h = cc
    output_next (some output) h =
        let e = named_next (is_empty (trimmed qt output)) (trimmed qt output) paths h in
        sym e ∙ ap (λ p. paths_of p.unit_name) e

module _ {S : Type 0} (qt : Qt) (numbers : Numbers) (root : Root S) (host : Host S)
    (enc : Utf8) where
  -- The caller is the one that KAuth names, the plan is authorized for the caller's home, and the unit
  -- names are what systemd-escape, asked in the state, makes of the plan's path.
  pub record IsPrepared (args : Args) (s : S) (p : Prepared) : Type 0 where
    pub uid : ℕ
    pub called : host.caller ≡ some uid
    pub known : host.passwd uid ≡ some p.caller
    pub authorized : validate_mountpoint qt (argument args (codes "path")) p.caller.home ≡ ok p.plan
    pub named : unit_paths_for qt (λ path. (host.escape path s).0) p.plan.path ≡ ok p.paths

  -- Nothing, or what is as it should be in the state that systemd-escape leaves.
  unfoldable pub Prepares : Args → S → Option Prepared × S → Type 0
  Prepares args s (r, t) =
      (r ≡ none)
      ⊎ ((p : Prepared) × (r ≡ some p) × IsPrepared args s p × (t ≡ (host.escape p.plan.path s).1))

  paths_of_escaped :
      (args : Args) (uid : ℕ) (caller : CallerInfo) (plan : MountpointPlan)
      (made : Result PathsError UnitPaths) (s : S)
      → host.caller ≡ some uid
      → host.passwd uid ≡ some caller
      → validate_mountpoint qt (argument args (codes "path")) caller.home ≡ ok plan
      → unit_paths_for qt (λ path. (host.escape path s).0) plan.path ≡ made
      → Prepares args s (
          run
            (on_helper qt numbers root host)
            (with_some
              (ok_of made)
              (λ paths. ret (some (record { caller = caller; plan = plan; paths = paths }))))
            (host.escape plan.path s).1)
  unfolding Prepares run
  paths_of_escaped args uid caller plan (err _) s c k a n = inl refl
  paths_of_escaped args uid caller plan (ok paths) s c k a n = inr (
    record { caller = caller; plan = plan; paths = paths },
    refl,
    record { uid = uid; called = c; known = k; authorized = a; named = n },
    refl,
  )

  unit_paths_for-answer :
      (path : Text) (s : S)
      → unit_paths_for qt (λ path. (host.escape path s).0) path
        ≡ unit_paths_for qt (λ _. (host.escape path s).0) path
  unfolding unit_paths_for
  unit_paths_for-answer path s = refl

  plan_next :
      (args : Args) (uid : ℕ) (caller : CallerInfo) (made : Result MountpointError MountpointPlan)
      (s : S)
      → host.caller ≡ some uid
      → host.passwd uid ≡ some caller
      → validate_mountpoint qt (argument args (codes "path")) caller.home ≡ made
      → Prepares args s (
          run
            (on_helper qt numbers root host)
            (with_some (ok_of made) (paths_next qt enc caller))
            s)
  unfolding Prepares run paths_next
  plan_next args uid caller (err _) s c k a = inl refl
  plan_next args uid caller (ok plan) s c k a =
      paths_of_escaped args uid caller plan
        (unit_paths_for qt (λ _. (host.escape plan.path s).0) plan.path) s c k a
        (unit_paths_for-answer plan.path s)

  caller_next :
      (args : Args) (uid : ℕ) (known : Option CallerInfo) (s : S)
      → host.caller ≡ some uid
      → host.passwd uid ≡ known
      → Prepares args s (
          run
            (on_helper qt numbers root host)
            (with_some known (λ caller.
              with_some
                (ok_of (validate_mountpoint qt (argument args (codes "path")) caller.home))
                (paths_next qt enc caller)))
            s)
  unfolding Prepares run
  caller_next args uid none s c k = inl refl
  caller_next args uid (some caller) s c k =
      plan_next args uid caller (validate_mountpoint qt (argument args (codes "path")) caller.home)
        s c k refl

  resolved_next : Args → Option CallerInfo → Program Call Answer (Option Prepared)
  resolved_next args resolved = with_some resolved (λ caller.
      with_some (ok_of (validate_mountpoint qt (argument args (codes "path")) caller.home))
        (paths_next qt enc caller))

  uid_next :
      (args : Args) (called : Option ℕ) (s : S)
      → host.caller ≡ called
      → Prepares args s (
          run
            (on_helper qt numbers root host)
            (with_some called (λ u. perform (passwd_of u)) >>= resolved_next args)
            s)
  unfolding Prepares run resolved_next
  uid_next args none s c = inl refl
  uid_next args (some uid) s c = caller_next args uid (host.passwd uid) s c refl

  -- prepare gives nothing, or what it gives is as it should be
  pub prepare-IsPrepared :
      (args : Args) (s : S)
      → Prepares args s (run (on_helper qt numbers root host) (prepare qt enc args) s)
  unfolding prepare resolve_caller run Prepares resolved_next
  prepare-IsPrepared args s = uid_next args host.caller s refl
