-- ===== src/Operations/Purge/Gated.antt =====
-- The gates of purge: no file goes before every managed definition was found to be the caller's, every
-- marked file was accounted for, and every share was safely stopped.
use kde_nasmount.Prelude.{
  ℕ, Bool, true, false, Option, none, some, List, [], ◌∷◌, ◌≡◌, ◌⊎◌, inl, inr, refl, Result, ok,
  err, if◌then◌else◌, Bool-cases,
}
use kde_nasmount.Prelude.Program.{
  Program, ret, call, Always, Always-all, Always-map, Always->>=, Always-end, Keeps, Keeps-ret,
  Keeps-call, Keeps->>=, Keeps-Always, run, ◌>>=◌,
}
use kde_nasmount.Qt.{Qt}
use kde_nasmount.Text.{Text, text_eq}
use kde_nasmount.UnitValue.Paths.{UnitPaths, PathsError, unit_paths_for}
use kde_nasmount.Verify.Halves.{OwnedUnit}
use kde_nasmount.Verify.Runtime.{Numbers}
use kde_nasmount.Operations.{stop}
use kde_nasmount.Operations.Machine.{Root, Same, RootLaws}
use kde_nasmount.Operations.Machine.Keeps.{Same-refl, Same-trans, safe_stop-Same}
use kde_nasmount.Operations.Remove.{is_down}
use kde_nasmount.Operations.Purge.Handler.{Host, on_purge, managed_of}
use kde_nasmount.Operations.Purge.Cleared.{IsCleared, checks-IsCleared}
use kde_nasmount.Operations.Purge.{
  Call, Answer, unit_entries, systemd_escape, inspect, operation, all_owned, valid_bases, all_known,
  ValidatedUnit, is_unchanged, also, with_some, or_none, ok_of, or_stop, validate_at, validate_unit,
  validate_all, stop_all, after_stop, stop_then_remove, check_entries, check_units, purge,
}

module _ {S : Type 0} (qt : Qt) (numbers : Numbers) (root : Root S) (host : Host S) where
  -- The files are as they were, or purge was cleared.
  unfoldable pub IsGated : ℕ → S → S → Type 0
  IsGated uid s t = Same root s t ⊎ IsCleared qt numbers root host uid s

module _ {S : Type 0} (qt : Qt) (numbers : Numbers) (root : Root S) (laws : RootLaws root)
    (host : Host S) (escape_same : (path : Text) (s : S) → Same root s (host.escape path s).1)
    (uid : ℕ) (s : S) where
  abbrev Kept : {A : Type 0} → Program Call Answer A → Type 0
  Kept = Keeps (on_purge qt numbers root host) (Same root s)

  Kept-call :
      {A : Type 0} (c : Call) (k : Answer c → Program Call Answer A)
      → ((t : S) → Same root t (on_purge qt numbers root host c t).1)
      → ((r : Answer c) → Kept (k r))
      → Kept (call c k)
  Kept-call c k same rest =
      Keeps-call (on_purge qt numbers root host) (Same root s) c k
        (λ t h. Same-trans root s t (on_purge qt numbers root host c t).1 h (same t)) rest

  Kept-ret : {A : Type 0} (a : A) → Kept (ret a)
  Kept-ret a = Keeps-ret (on_purge qt numbers root host) (Same root s) a

  or_none-Kept :
      {B : Type 0} (b : Bool) (p : Program Call Answer (Option B)) → Kept p → Kept (or_none b p)
  or_none-Kept true p kept = kept
  or_none-Kept false p kept = Kept-ret none

  validate_at-Kept : (u : OwnedUnit) (paths : UnitPaths) → Kept (validate_at qt uid u paths)
  unfolding validate_at
  validate_at-Kept u paths = or_none-Kept (text_eq paths.unit_name u.unit_name) _ (
      Kept-call (inspect paths uid u.mount_point)
        (λ def.
          or_none (is_unchanged uid u def)
            (ret (some (record { definition = def; paths = paths }))))
        (λ t. Same-refl root t)
        (λ def.
          or_none-Kept (is_unchanged uid u def) _
            (Kept-ret (some (record { definition = def; paths = paths })))))

  paths_next-Kept :
      (u : OwnedUnit) (made : Result PathsError UnitPaths)
      → Kept (with_some (ok_of made) (validate_at qt uid u))
  paths_next-Kept u (err _) = Kept-ret none
  paths_next-Kept u (ok paths) = validate_at-Kept u paths

  validate_unit-Kept : (u : OwnedUnit) → Kept (validate_unit qt uid u)
  unfolding validate_unit
  validate_unit-Kept u =
      Kept-call (systemd_escape u.mount_point)
        (λ escaped.
          with_some (ok_of (unit_paths_for qt (λ _. escaped) u.mount_point)) (validate_at qt uid u))
        (λ t. escape_same u.mount_point t)
        (λ escaped. paths_next-Kept u (unit_paths_for qt (λ _. escaped) u.mount_point))

  validate_all-Kept : (us : List OwnedUnit) → Kept (validate_all qt uid us)
  unfolding validate_all
  validate_all-Kept [] = Kept-ret (some [])
  validate_all-Kept (u ∷ us) =
      Keeps->>= (on_purge qt numbers root host) (Same root s) (validate_unit qt uid u)
        (λ made. with_some made (λ v. validate_all qt uid us >>= λ rest. ret (also v rest)))
        (validate_unit-Kept u)
        (elim [
          | none ↦ Kept-ret none
          | some v ↦
              Keeps->>= (on_purge qt numbers root host) (Same root s) (validate_all qt uid us)
                (λ rest. ret (also v rest)) (validate_all-Kept us) (λ rest. Kept-ret (also v rest))
        ])

  stop_all-Kept : (vs : List ValidatedUnit) → Kept (stop_all qt uid vs)
  unfolding stop_all
  stop_all-Kept [] = Kept-ret true
  stop_all-Kept (v ∷ vs) =
      Kept-call
        (operation (stop v.paths.unit_name v.definition.canonical_mount_point v.definition.what))
        (λ result. if is_down result then stop_all qt uid vs else ret false)
        (λ t.
          safe_stop-Same qt numbers root laws v.paths.unit_name v.definition.canonical_mount_point
            v.definition.what t)
        (λ result. down_next (is_down result) vs (stop_all-Kept vs))
    where
      down_next :
          (b : Bool) (vs : List ValidatedUnit)
          → Kept (stop_all qt uid vs)
          → Kept (if b then stop_all qt uid vs else ret false)
      down_next true vs kept = kept
      down_next false vs kept = Kept-ret false

  -- removing starts only when all is down
  after_stop-IsGated :
      (vs : List ValidatedUnit) (down : Bool) (t : S)
      → Same root s t
      → (down ≡ false) ⊎ IsCleared qt numbers root host uid s
      → Always
          (on_purge qt numbers root host)
          (IsGated qt numbers root host uid s)
          (after_stop qt uid vs down)
          t
  unfolding after_stop IsGated
  after_stop-IsGated vs false t same cleared = inl same
  after_stop-IsGated vs true t same (inl e) = cc
  after_stop-IsGated vs true t same (inr cleared) =
      Always-all (on_purge qt numbers root host) (IsGated qt numbers root host uid s)
        (after_stop qt uid vs true) t (λ _. inr cleared)

  Same-IsGated : (t : S) → Same root s t → IsGated qt numbers root host uid s t
  unfolding IsGated
  Same-IsGated t same = inl same

  stop_then_remove-IsGated :
      (owned : all_owned uid (managed_of qt numbers root host s) ≡ true)
      (known : all_known (valid_bases (managed_of qt numbers root host s)) (host.entries s) ≡ true)
      (made : Option (List ValidatedUnit))
      → (run
          (on_purge qt numbers root host)
          (validate_all qt uid (managed_of qt numbers root host s))
          s).0
        ≡ made
      → Same root s
          (run
            (on_purge qt numbers root host)
            (validate_all qt uid (managed_of qt numbers root host s))
            s).1
      → Always
          (on_purge qt numbers root host)
          (IsGated qt numbers root host uid s)
          (stop_then_remove qt uid made)
          (run
            (on_purge qt numbers root host)
            (validate_all qt uid (managed_of qt numbers root host s))
            s).1
  unfolding stop_then_remove
  stop_then_remove-IsGated owned known none e same = Same-IsGated _ same
  stop_then_remove-IsGated owned known (some vs) e same =
      let t =
        (run (on_purge qt numbers root host)
          (validate_all qt uid (managed_of qt numbers root host s)) s).1 in
      let always =
        Keeps-Always (on_purge qt numbers root host) (Same root s) (stop_all qt uid vs) t
          (stop_all-Kept vs) same in
      Always->>= (on_purge qt numbers root host) (IsGated qt numbers root host uid s)
        (stop_all qt uid vs) (after_stop qt uid vs) t
        (Always-map (on_purge qt numbers root host) (Same root s)
          (IsGated qt numbers root host uid s) (stop_all qt uid vs) t Same-IsGated always)
        (after_stop-IsGated vs (run (on_purge qt numbers root host) (stop_all qt uid vs) t).0
          (run (on_purge qt numbers root host) (stop_all qt uid vs) t).1
          (Always-end (on_purge qt numbers root host) (Same root s) (stop_all qt uid vs) t always)
          (elim (Bool-cases (run (on_purge qt numbers root host) (stop_all qt uid vs) t).0) [
            | inl down ↦ inr (checks-IsCleared qt numbers root host uid s vs owned known e down)
            | inr up ↦ inl up
          ]))

  check_entries-IsGated :
      (known : Bool)
      → all_owned uid (managed_of qt numbers root host s) ≡ true
      → all_known (valid_bases (managed_of qt numbers root host s)) (host.entries s) ≡ known
      → Always
          (on_purge qt numbers root host)
          (IsGated qt numbers root host uid s)
          (or_stop 0 known
            (validate_all qt uid (managed_of qt numbers root host s) >>= stop_then_remove qt uid))
          s
  check_entries-IsGated false owned e = Same-IsGated s (Same-refl root s)
  check_entries-IsGated true owned e =
      let units = managed_of qt numbers root host s in
      let always =
        Keeps-Always (on_purge qt numbers root host) (Same root s) (validate_all qt uid units) s
          (validate_all-Kept units) (Same-refl root s) in
      Always->>= (on_purge qt numbers root host) (IsGated qt numbers root host uid s)
        (validate_all qt uid units) (stop_then_remove qt uid) s
        (Always-map (on_purge qt numbers root host) (Same root s)
          (IsGated qt numbers root host uid s) (validate_all qt uid units) s Same-IsGated always)
        (stop_then_remove-IsGated owned e
          (run (on_purge qt numbers root host) (validate_all qt uid units) s).0 refl
          (Always-end (on_purge qt numbers root host) (Same root s) (validate_all qt uid units) s
            always))

  check_units-IsGated :
      (owned : Bool)
      → all_owned uid (managed_of qt numbers root host s) ≡ owned
      → Always
          (on_purge qt numbers root host)
          (IsGated qt numbers root host uid s)
          (or_stop 0 owned
            (call unit_entries (check_entries qt uid (managed_of qt numbers root host s))))
          s
  unfolding check_entries
  check_units-IsGated false e = Same-IsGated s (Same-refl root s)
  check_units-IsGated true e = (
    Same-IsGated s (Same-refl root s),
    check_entries-IsGated
        (all_known (valid_bases (managed_of qt numbers root host s)) (host.entries s)) e refl,
  )

  -- Running systemd-escape leaves the files alone. Then in every state that purge passes through, the
  -- unit files, the drop-ins and the credentials are as at the start, unless at the start every managed
  -- unit is the caller's and not tampered with and every file that was read and has a line of a marker
  -- has a whole one and the name of such a unit, and then, one unit after the other, systemd-escape
  -- names the unit after its mount point, the inspection for the caller finds a Pair or one of its
  -- halves with the id, owner, group and authentication that were enumerated, and after all of these
  -- safeStop says of one after the other that it was stopped or is inactive.
  pub purge-IsGated :
      Always (on_purge qt numbers root host) (IsGated qt numbers root host uid s) (purge qt uid) s
  unfolding purge check_units
  purge-IsGated = (
    Same-IsGated s (Same-refl root s),
    check_units-IsGated (all_owned uid (managed_of qt numbers root host s)) refl,
  )
