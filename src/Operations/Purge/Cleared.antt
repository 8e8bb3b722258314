-- ===== src/Operations/Purge/Cleared.antt =====
-- What has to be known of every managed definition before purge removes anything, and that the checks of
-- purge establish it.
use kde_nasmount.Prelude.{
  ℕ, Bool, true, false, Option, none, some, List, [], ◌∷◌, ◌≡◌, ◌⊎◌, inl, inr, refl, sym, ◌∙◌,
  Result, ok, err, if◌then◌else◌,
}
use kde_nasmount.Prelude.Program.{Program, ret, call, run, run->>=, ◌>>=◌}
use kde_nasmount.Qt.{Qt}
use kde_nasmount.Text.{Text, text_eq}
use kde_nasmount.Text.Laws.{text_eq_iff}
use kde_nasmount.UnitValue.Paths.{UnitPaths, PathsError, unit_paths_for}
use kde_nasmount.Verify.Definition.{inspect_definition}
use kde_nasmount.Verify.Halves.{OwnedUnit}
use kde_nasmount.Verify.Runtime.{Numbers}
use kde_nasmount.Arming.{StopResult, stopped, safe_stop}
use kde_nasmount.Operations.Machine.{Root}
use kde_nasmount.Operations.Remove.{is_down}
use kde_nasmount.Operations.Purge.{
  Call, Answer, inspect, all_owned, valid_bases, all_known, ValidatedUnit, is_unchanged, also,
  with_some, or_none, ok_of, validate_at, validate_unit, validate_all, stop_all,
}
use kde_nasmount.Operations.Purge.Handler.{Host, on_purge, managed_of}
use kde_nasmount.Operations.Purge.Known.{
  AllOwned, AllAccounted, all_owned-AllOwned, all_known-AllAccounted, IsUnchanged,
  is_unchanged-IsUnchanged, is_down-cases,
}

module _ {S : Type 0} (qt : Qt) (numbers : Numbers) (root : Root S) (host : Host S) (uid : ℕ) where
  -- systemd-escape still names the unit after the mount point, and the inspection right after it finds
  -- the definition that was enumerated.
  pub record IsValidated (u : OwnedUnit) (s : S) (v : ValidatedUnit) (t : S) : Type 0 where
    pub ends : t ≡ (host.escape u.mount_point s).1
    pub named : unit_paths_for qt (λ path. (host.escape path s).0) u.mount_point ≡ ok v.paths
    pub same_name : v.paths.unit_name ≡ u.unit_name
    pub inspected : v.definition ≡ inspect_definition qt uid u.mount_point (root.files t) v.paths
    pub unchanged : IsUnchanged uid u v.definition

  -- each unit in turn, from one state to another
  pub AllValidated : List OwnedUnit → S → List ValidatedUnit → S → Type 0
  AllValidated [] s [] t = t ≡ s
  AllValidated (u ∷ us) s (v ∷ vs) t = (m : S) × IsValidated u s v m × AllValidated us m vs t
  AllValidated [] s (v ∷ vs) t = ⊥
  AllValidated (u ∷ us) s [] t = ⊥

  -- safeStop has said of each, one after the other, that it is down
  pub AllDown : List ValidatedUnit → S → Type 0
  AllDown [] s = Unit
  AllDown (v ∷ vs) s =
      let r =
        safe_stop qt numbers root.machine v.paths.unit_name v.definition.canonical_mount_point
          v.definition.what s in
      ((r.0 ≡ stopped) ⊎ (r.0 ≡ StopResult.already_inactive)) × AllDown vs r.1

  abbrev Run : {A : Type 0} → Program Call Answer A → S → A × S
  Run m s = run (on_purge qt numbers root host) m s

  Validates : OwnedUnit → S → Option ValidatedUnit × S → Type 0
  Validates u s (r, t) = (r ≡ none) ⊎ ((v : ValidatedUnit) × (r ≡ some v) × IsValidated u s v t)

  unchanged_next :
      (u : OwnedUnit) (paths : UnitPaths) (s : S) (b : Bool)
      → unit_paths_for qt (λ path. (host.escape path s).0) u.mount_point ≡ ok paths
      → paths.unit_name ≡ u.unit_name
      → is_unchanged uid u (
          inspect_definition qt uid u.mount_point
            (root.files (host.escape u.mount_point s).1)
            paths)
        ≡ b
      → Validates u s (
          Run
            (or_none b (
              ret (
                some (record {
                  definition =
                      inspect_definition qt uid u.mount_point
                        (root.files (host.escape u.mount_point s).1)
                        paths;
                  paths = paths;
                }))))
            (host.escape u.mount_point s).1)
  unfolding Validates run
  unchanged_next u paths s false named same e = inl refl
  unchanged_next u paths s true named same e =
      let def =
        inspect_definition qt uid u.mount_point (root.files (host.escape u.mount_point s).1)
          paths in
      inr (
        record { definition = def; paths = paths },
        refl,
        record {
          ends = refl;
          named = named;
          same_name = same;
          inspected = refl;
          unchanged = is_unchanged-IsUnchanged uid u def e;
        },
      )

  named_next :
      (u : OwnedUnit) (paths : UnitPaths) (s : S) (b : Bool)
      → unit_paths_for qt (λ path. (host.escape path s).0) u.mount_point ≡ ok paths
      → text_eq paths.unit_name u.unit_name ≡ b
      → Validates u s (
          Run
            (or_none b (
              call (inspect paths uid u.mount_point) (λ def.
                or_none
                  (is_unchanged uid u def)
                  (ret (some (record { definition = def; paths = paths }))))))
            (host.escape u.mount_point s).1)
  unfolding Validates run
  named_next u paths s false named e = inl refl
  named_next u paths s true named e =
      unchanged_next u paths s _ named ((text_eq_iff paths.unit_name u.unit_name).0 e) refl

  paths_found :
      (u : OwnedUnit) (s : S) (made : Result PathsError UnitPaths)
      → unit_paths_for qt (λ path. (host.escape path s).0) u.mount_point ≡ made
      → Validates u s
          (Run (with_some (ok_of made) (validate_at qt uid u)) (host.escape u.mount_point s).1)
  unfolding Validates run validate_at
  paths_found u s (err _) named = inl refl
  paths_found u s (ok paths) named =
      named_next u paths s (text_eq paths.unit_name u.unit_name) named refl

  unit_paths_for-answer :
      (path : Text) (s : S)
      → unit_paths_for qt (λ path. (host.escape path s).0) path
        ≡ unit_paths_for qt (λ _. (host.escape path s).0) path
  unfolding unit_paths_for
  unit_paths_for-answer path s = refl

  validate_unit-Validates : (u : OwnedUnit) (s : S) → Validates u s (Run (validate_unit qt uid u) s)
  unfolding validate_unit run
  validate_unit-Validates u s =
      paths_found u s (unit_paths_for qt (λ _. (host.escape u.mount_point s).0) u.mount_point)
        (unit_paths_for-answer u.mount_point s)

  ValidatesAll : List OwnedUnit → S → Option (List ValidatedUnit) × S → Type 0
  ValidatesAll us s (r, t) =
      (r ≡ none) ⊎ ((vs : List ValidatedUnit) × (r ≡ some vs) × AllValidated us s vs t)

  rest_next :
      (u : OwnedUnit) (us : List OwnedUnit) (s m : S) (v : ValidatedUnit)
      (rest : Option (List ValidatedUnit) × S)
      → IsValidated u s v m
      → ValidatesAll us m rest
      → ValidatesAll (u ∷ us) s (also v rest.0, rest.1)
  unfolding ValidatesAll AllValidated
  rest_next u us s m v (r, t) one (inl e) = inl (rw e refl)
  rest_next u us s m v (r, t) one (inr (vs, e, all)) = inr (v ∷ vs, rw e refl, (m, one, all))

  unit_next :
      (u : OwnedUnit) (us : List OwnedUnit) (s : S) (made : Option ValidatedUnit × S)
      → Validates u s made
      → ((m : S) → ValidatesAll us m (Run (validate_all qt uid us) m))
      → ValidatesAll (u ∷ us) s (
          Run
            (with_some (made.0) (λ v. validate_all qt uid us >>= λ rest. ret (also v rest)))
            made.1)
  unfolding Validates ValidatesAll run
  unit_next u us s (r, m) (inl e) all = rw e (inl refl)
  unit_next u us s (r, m) (inr (v, e, one)) all = rw e (
      rw
        (run->>= (on_purge qt numbers root host) (validate_all qt uid us)
          (λ rest. ret (also v rest)) m)
        (rest_next u us s m v (Run (validate_all qt uid us) m) one (all m)))

  validate_all-ValidatesAll :
      (us : List OwnedUnit) (s : S) → ValidatesAll us s (Run (validate_all qt uid us) s)
  unfolding validate_all ValidatesAll AllValidated run
  validate_all-ValidatesAll [] s = inr ([], refl, refl)
  validate_all-ValidatesAll (u ∷ us) s =
      rw
        (run->>= (on_purge qt numbers root host) (validate_unit qt uid u)
          (λ made. with_some made (λ v. validate_all qt uid us >>= λ rest. ret (also v rest))) s)
        (unit_next u us s (Run (validate_unit qt uid u) s) (validate_unit-Validates u s)
          (λ m. validate_all-ValidatesAll us m))

  some_list : (a b : List ValidatedUnit) → some a ≡ some b → b ≡ a
  some_list a b h = cc

  validate_all-AllValidated :
      (us : List OwnedUnit) (s : S) (vs : List ValidatedUnit)
      → (Run (validate_all qt uid us) s).0 ≡ some vs
      → AllValidated us s vs (Run (validate_all qt uid us) s).1
  unfolding ValidatesAll
  validate_all-AllValidated us s vs h = elim (validate_all-ValidatesAll us s) [
    | inl e ↦ cc
    | inr (ws, e, all) ↦ rw (some_list ws vs (sym e ∙ h)) all
  ]

  stop_all-AllDown :
      (vs : List ValidatedUnit) (s : S) → (Run (stop_all qt uid vs) s).0 ≡ true → AllDown vs s
  unfolding stop_all AllDown run
  stop_all-AllDown [] s = λ h. tt
  stop_all-AllDown (v ∷ vs) s =
      let r =
        safe_stop qt numbers root.machine v.paths.unit_name v.definition.canonical_mount_point
          v.definition.what s in
      down_next (is_down r.0) r.0 r.1 refl (stop_all-AllDown vs r.1)
    where
      down_next :
          (b : Bool) (result : StopResult) (t : S)
          → is_down result ≡ b
          → ((Run (stop_all qt uid vs) t).0 ≡ true → AllDown vs t)
          → (Run (if b then stop_all qt uid vs else ret false) t).0 ≡ true
          → ((result ≡ stopped) ⊎ (result ≡ StopResult.already_inactive)) × AllDown vs t
      down_next true result t e rest h = (is_down-cases result e, rest h)
      down_next false result t e rest h = cc

  -- All that is known before anything is removed, on the state that purge started from.
  pub record IsCleared (s : S) : Type 0 where
    pub owned : AllOwned uid (managed_of qt numbers root host s)
    pub accounted : AllAccounted (managed_of qt numbers root host s) (host.entries s)
    pub validated : List ValidatedUnit
    pub inspected : S
    pub validation : AllValidated (managed_of qt numbers root host s) s validated inspected
    pub down : AllDown validated inspected

  pub checks-IsCleared :
      (s : S) (vs : List ValidatedUnit)
      → all_owned uid (managed_of qt numbers root host s) ≡ true
      → all_known (valid_bases (managed_of qt numbers root host s)) (host.entries s) ≡ true
      → (Run (validate_all qt uid (managed_of qt numbers root host s)) s).0 ≡ some vs
      → (Run
          (stop_all qt uid vs)
          (Run (validate_all qt uid (managed_of qt numbers root host s)) s).1).0
        ≡ true
      → IsCleared s
  checks-IsCleared s vs owned known made down =
      let units = managed_of qt numbers root host s in
      record {
        owned = all_owned-AllOwned uid units owned;
        accounted = all_known-AllAccounted units (host.entries s) known;
        validated = vs;
        inspected = (Run (validate_all qt uid units) s).1;
        validation = validate_all-AllValidated units s vs made;
        down = stop_all-AllDown vs (Run (validate_all qt uid units) s).1 down;
      }
