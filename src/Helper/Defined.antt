-- ===== src/Helper/Defined.antt =====
-- What the define action has done when it succeeds.
use kde_nasmount.Prelude.{
  Bool, true, false, Option, none, some, ◌≡◌, ◌⊎◌, inl, inr, refl, sym, ap, ◌∙◌, ok, Bool-cases,
}
use kde_nasmount.Prelude.Program.{Program, ret, call, run, run->>=, ◌>>=◌}
use kde_nasmount.Qt.{Qt, QtLaws}
use kde_nasmount.Text.{Text, codes}
use kde_nasmount.UnitValue.Paths.{paths_of}
use kde_nasmount.UnitSpec.Unc.{validate_unc}
use kde_nasmount.UnitSpec.Unc.Accepted.{validate_unc-validate_unc}
use kde_nasmount.Verify.Files.{drop_in_exists}
use kde_nasmount.Verify.Definition.{Definition, DefinitionCheck, inspect_definition}
use kde_nasmount.Verify.Runtime.{Numbers}
use kde_nasmount.Credentials.{Utf8}
use kde_nasmount.Operations.Machine.{Root, RootLaws, on_call}
use kde_nasmount.Operations.Define.{DefineInput, DefineOutput, define}
use kde_nasmount.Operations.Define.Reports.{Reports}
use kde_nasmount.Operations.Define.Success.{define-Reports}
use kde_nasmount.Operations.Define.Inspected.{pair_of, IsEncodable, inspect_definition-define}
use kde_nasmount.Helper.{
  Call, Answer, open_mountpoint, Args, argument, Prepared, DefineRequest, or_refuse, with_some,
  operated, prepare, request_of, input_of, define_reply, define_now, after_walk, after_inspection,
  define_for, do_define,
}
use kde_nasmount.Helper.Handler.{Host, HostLaws, on_helper, run-operated}
use kde_nasmount.Helper.Preparation.{
  IsPrepared, Prepares, prepare-IsPrepared, unit_paths_for-paths_of,
}
use kde_nasmount.Helper.Requested.{or_false, inspect_definition-none, request_of-unc}

module _ {S : Type 0} (qt : Qt) (numbers : Numbers) (root : Root S) (host : Host S)
    (enc : Utf8) where
  -- The share was defined for the caller on a checked path, with a validated source, and the inspection
  -- of the state takes it for the caller's Pair.
  pub record IsDefinedFor (args : Args) (s : S) (id : Text) (t : S) : Type 0 where
    pub prepared : Prepared
    pub is_prepared : IsPrepared qt numbers root host enc args s prepared
    pub request : DefineRequest
    pub requested : request_of qt enc args ≡ some request
    pub unc_ok : validate_unc (argument args (codes "unc")) ≡ ok request.unc
    pub seen :
        inspect_definition qt prepared.caller.uid prepared.plan.path (root.files t) prepared.paths
        ≡ pair_of (input_of qt enc prepared request) id

  -- the reply to the arguments, with the state once the lock is held and the state at the end
  unfoldable pub Defines : Args → S → Option (Text × Bool) × S → Type 0
  Defines args s (reply, t) =
      (reply ≡ none) ⊎ ((id : Text) × (reply ≡ some (id, true)) × IsDefinedFor args s id t)

module _ {S : Type 0} (qt : Qt) (numbers : Numbers) (root : Root S) (laws : RootLaws root)
    (host : Host S) (enc : Utf8) (qt_laws : QtLaws qt) (host_laws : HostLaws host) (args : Args)
    (s : S)
    (encodable : (p : Prepared) (r : DefineRequest)
      → IsPrepared qt numbers root host enc args (host.acquire s).1 p
      → request_of qt enc args ≡ some r
      → IsEncodable qt numbers root laws enc (input_of qt enc p r)) where
  abbrev Defined : Option (Text × Bool) × S → Type 0
  Defined = Defines qt numbers root host enc args (host.acquire s).1

  abbrev Ready : Prepared → Type 0
  Ready = IsPrepared qt numbers root host enc args (host.acquire s).1

  run-define_now :
      (input : DefineInput) (t : S)
      → run (on_helper qt numbers root host) (define_now qt enc input) t ≡ (
        define_reply qt enc (run (on_call qt numbers root) (define qt enc input) t).0,
        (run (on_call qt numbers root) (define qt enc input) t).1,
      )
  unfolding define_now run
  run-define_now input t =
      run->>= (on_helper qt numbers root host) (operated (define qt enc input))
        (λ out. ret (define_reply qt enc out)) t
      ∙ ap (λ r. (define_reply qt enc r.0, r.1))
          (run-operated qt numbers root host (define qt enc input) t)

  -- the reply of a define that succeeded
  reply_next :
      (out : DefineOutput) (t : S)
      → (out.is_ok ≡ false) ⊎ (out.activated ≡ true)
      → (out.is_ok ≡ false)
        ⊎ IsDefinedFor qt numbers root host enc args (host.acquire s).1 out.share_id t
      → Defined (define_reply qt enc out, t)
  unfolding Defines define_reply
  reply_next out t (inl refused) defined = inl (rw refused refl)
  reply_next out t (inr active) (inl refused) = inl (rw refused refl)
  reply_next out t (inr active) (inr defined) = elim (Bool-cases out.is_ok) [
    | inl done ↦ inr (out.share_id, (rw done (ap (λ a. some (out.share_id, a)) active)), defined)
    | inr refused ↦ inl (rw refused refl)
  ]

  module _ (p : Prepared) (r : DefineRequest) (prepared : Ready p)
      (requested : request_of qt enc args ≡ some r) where
    -- neither unit has a drop-in
    Bare : S → Type 0
    Bare t =
        (drop_in_exists (root.files t) p.paths.mount_unit_path ≡ false)
        × (drop_in_exists (root.files t) p.paths.automount_unit_path ≡ false)

    paths_named : p.paths ≡ paths_of p.paths.unit_name
    paths_named =
        unit_paths_for-paths_of qt (λ path. (host.escape path (host.acquire s).1).0) p.plan.path
          p.paths prepared.named

    inspected_or_failed :
        (t : S)
        → Bare t
        → ((run (on_call qt numbers root) (define qt enc (input_of qt enc p r)) t).0.is_ok ≡ false)
          ⊎ (inspect_definition qt p.caller.uid p.plan.path
                (root.files
                  (run (on_call qt numbers root) (define qt enc (input_of qt enc p r)) t).1)
                p.paths
              ≡ pair_of
                  (input_of qt enc p r)
                  (run
                    (on_call qt numbers root)
                    (define qt enc (input_of qt enc p r))
                    t).0.share_id)
    unfolding input_of Bare
    inspected_or_failed t (dm, da) =
        let unc_ok = request_of-unc qt enc args r requested in
        rw paths_named (
          inspect_definition-define qt numbers root laws enc (input_of qt enc p r) t qt_laws
            (host_laws.uid_fits prepared.uid p.caller prepared.known)
            (host_laws.gid_fits prepared.uid p.caller prepared.known)
            (validate_unc-validate_unc (argument args (codes "unc")) r.unc unc_ok)
            (sym (ap (λ q. drop_in_exists (root.files t) q.mount_unit_path) paths_named) ∙ dm)
            (sym (ap (λ q. drop_in_exists (root.files t) q.automount_unit_path) paths_named) ∙ da)
            (encodable p r prepared requested))

    activated_or_failed :
        (t : S)
        → ((run (on_call qt numbers root) (define qt enc (input_of qt enc p r)) t).0.is_ok ≡ false)
          ⊎ ((run (on_call qt numbers root) (define qt enc (input_of qt enc p r)) t).0.activated
              ≡ true)
    unfolding Reports
    activated_or_failed t = elim (define-Reports qt numbers root laws enc (input_of qt enc p r) t) [
      | inl refused ↦ inl refused
      | inr (active, _) ↦ inr active
    ]

    define_now-Defined :
        (t : S)
        → Bare t
        → Defined (run (on_helper qt numbers root host) (define_now qt enc (input_of qt enc p r)) t)
    define_now-Defined t bare = rw (run-define_now (input_of qt enc p r) t) (
        reply_next (run (on_call qt numbers root) (define qt enc (input_of qt enc p r)) t).0
          (run (on_call qt numbers root) (define qt enc (input_of qt enc p r)) t).1
          (activated_or_failed t)
          (elim (inspected_or_failed t bare) [
            | inl refused ↦ inl refused
            | inr seen ↦ inr (record {
              prepared = p;
              is_prepared = prepared;
              request = r;
              requested = requested;
              unc_ok = request_of-unc qt enc args r requested;
              seen = seen;
            })
          ]))

    after_walk-Defined :
        (walked : Bool) (t : S)
        → Bare t
        → Defined (run (on_helper qt numbers root host) (after_walk qt enc p r walked) t)
    unfolding after_walk Defines run
    after_walk-Defined false t bare = inl refl
    after_walk-Defined true t bare = define_now-Defined t bare

    walk-Defined :
        (t : S)
        → Bare t
        → Defined (
            run
              (on_helper qt numbers root host)
              (call (open_mountpoint p.plan p.caller.uid p.caller.gid) (after_walk qt enc p r))
              t)
    unfolding run Bare
    walk-Defined t (dm, da) =
        let walked = root.machine.open_mountpoint_no_follow p.plan p.caller.uid p.caller.gid t in
        let same = (laws.follow_same p.plan p.caller.uid p.caller.gid t).rest in
        after_walk-Defined walked.0 walked.1 (
          same.drop_in_same p.paths.mount_unit_path ∙ dm,
          same.drop_in_same p.paths.automount_unit_path ∙ da,
        )

    after_inspection-Defined :
        (check : DefinitionCheck) (t : S)
        → (check.state ≡ Definition.none → Bare t)
        → Defined (run (on_helper qt numbers root host) (after_inspection qt enc p r check) t)
    unfolding after_inspection Defines run
    after_inspection-Defined check t =
        elim (check.state)
          as (λ d.
            (d ≡ Definition.none → Bare t)
            → Defined (
                run (on_helper qt numbers root host)
                  (elim d as (λ _. Program Call Answer (Option (Text × Bool))) [
                    | Definition.none ↦
                        call (open_mountpoint p.plan p.caller.uid p.caller.gid)
                          (after_walk qt enc p r)
                    | _ ↦ ret none
                  ])
                  t)) [
                    | Definition.none ↦ λ bare. walk-Defined t (bare refl)
                    | _ ↦ λ bare. inl refl
                  ]

    define_for-Defined :
        (t : S) → Defined (run (on_helper qt numbers root host) (define_for qt enc p r) t)
    unfolding define_for run Bare
    define_for-Defined t =
        after_inspection-Defined
          (inspect_definition qt p.caller.uid p.plan.path (root.files t) p.paths) t
          (λ none_there.
            or_false (drop_in_exists (root.files t) p.paths.mount_unit_path)
              (drop_in_exists (root.files t) p.paths.automount_unit_path)
              (inspect_definition-none qt p.caller.uid p.plan.path (root.files t) p.paths
                none_there))

  request_next-Defined :
      (p : Prepared) (made : Option DefineRequest) (t : S)
      → Ready p
      → request_of qt enc args ≡ made
      → Defined (run (on_helper qt numbers root host) (with_some made (define_for qt enc p)) t)
  unfolding Defines run
  request_next-Defined p none t prepared requested = inl refl
  request_next-Defined p (some r) t prepared requested = define_for-Defined p r prepared requested t

  prepared_next-Defined :
      (made : Option Prepared) (t : S)
      → Prepares qt numbers root host enc args (host.acquire s).1 (made, t)
      → Defined (
          run
            (on_helper qt numbers root host)
            (with_some made (λ p. with_some (request_of qt enc args) (define_for qt enc p)))
            t)
  unfolding Defines run Prepares
  prepared_next-Defined made t (inl e) = rw e (inl refl)
  prepared_next-Defined made t (inr (p, e, prepared, _)) =
      rw e (request_next-Defined p (request_of qt enc args) t prepared refl)

  locked_next-Defined :
      (locked : Bool)
      → Defined (
          run
            (on_helper qt numbers root host)
            (or_refuse locked (
              prepare qt enc args >>= (λ prepared.
                with_some prepared
                  (λ p. with_some (request_of qt enc args) (define_for qt enc p)))))
            (host.acquire s).1)
  unfolding Defines run
  locked_next-Defined false = inl refl
  locked_next-Defined true =
      let t = (host.acquire s).1 in
      rw
        (run->>= (on_helper qt numbers root host) (prepare qt enc args)
          (λ prepared.
            with_some prepared (λ p. with_some (request_of qt enc args) (define_for qt enc p)))
          t)
        (prepared_next-Defined (run (on_helper qt numbers root host) (prepare qt enc args) t).0
          (run (on_helper qt numbers root host) (prepare qt enc args) t).1
          (prepare-IsPrepared qt numbers root host enc args t))

  -- Where UTF-8 carries the unit files that would be built for these arguments, the define action fails,
  -- or it replies the id of the share and that it is active, and then: the path was authorized for the
  -- home of the caller that KAuth names, the unit is the one that systemd-escape names for that path
  -- once the lock is held, the source is what the validation made of the argument, and in the state it
  -- leaves the inspection for the caller takes the share for a Pair.
  pub do_define-Defines :
      Defines qt numbers root host enc args
        (host.acquire s).1
        (run (on_helper qt numbers root host) (do_define qt enc args) s)
  unfolding do_define run
  do_define-Defines = locked_next-Defined (host.acquire s).0
