-- ===== src/PackageState/Empty.antt =====
-- The verdict Empty, the only one that lets the package go.
use kde_nasmount.Prelude.{
  ℕ, ◌≤◌, Bool, true, false, ◌||◌, Option, none, some, List, [], ◌∷◌, ◌≡◌, ◌≢◌, ◌⊎◌, inl, inr, refl,
  ap, subst, arith, if◌then◌else◌, Result, ok, err, ◌>>=◌, >>=-eq-ok, Bool-cases,
}
use kde_nasmount.Qt.{Qt}
use kde_nasmount.Text.{Text, codes}
use kde_nasmount.UnitValue.Marker.{has_marker}
use kde_nasmount.PackageState.{
  Classification, empty, managed, Candidate, Host, check_content, check_opened, check_candidate,
  scan_candidates, max_candidate_bytes, state_roots, under_root, any_state, scan_units, conclude,
  classify,
}

-- A regular file that was read, is not too large and has no line of a marker.
pub Unmarked : Candidate → Type 0
Unmarked c =
    (c.is_sym_link ≡ false)
    × (c.is_file ≡ true)
    × ((size : ℕ) × (content : Text) × (c.opened ≡ some (size, content))
        × (size ≤ max_candidate_bytes)
        × (has_marker content ≡ false))

pub AllUnmarked : List Candidate → Type 0
AllUnmarked [] = Unit
AllUnmarked (c ∷ cs) = Unmarked c × AllUnmarked cs

check_content-eq-false :
    (content : Text) → check_content content ≡ ok false → has_marker content ≡ false
unfolding check_content
check_content-eq-false content h = ground arith

check_opened-eq-false :
    (o : Option (ℕ × Text))
    → check_opened o ≡ ok false
    → (size : ℕ) × (content : Text) × (o ≡ some (size, content))
      × (size ≤ max_candidate_bytes)
      × (has_marker content ≡ false)
unfolding check_opened
check_opened-eq-false none h = cc
check_opened-eq-false (some (size, content)) h =
    (size, content, refl, ground arith, check_content-eq-false content (ground arith))

check_candidate-Unmarked : (c : Candidate) → check_candidate c ≡ ok false → Unmarked c
unfolding check_candidate Unmarked
check_candidate-Unmarked c h =
    (ground arith, ground arith, check_opened-eq-false c.opened (ground arith))

scan_found : (cs : List Candidate) → scan_candidates cs true ≢ ok false
unfolding scan_candidates
scan_found [] h = cc
scan_found (c ∷ cs) h =
    let (m, _, later) = >>=-eq-ok (check_candidate c) _ {b = false} h in
    scan_found cs (subst (λ b. scan_candidates cs b ≡ ok false) (or_true m) later)
  where
    or_true : (b : Bool) → (b || true) ≡ true
    or_true b = ground arith

scan_candidates-AllUnmarked :
    (cs : List Candidate) → scan_candidates cs false ≡ ok false → AllUnmarked cs
unfolding scan_candidates AllUnmarked
scan_candidates-AllUnmarked [] h = tt
scan_candidates-AllUnmarked (c ∷ cs) h =
    let (m, first, later) = >>=-eq-ok (check_candidate c) _ {b = false} h in
    split_on m first later (λ e. scan_candidates-AllUnmarked cs e)
  where
    split_on :
        (m : Bool)
        → check_candidate c ≡ ok m
        → scan_candidates cs (m || false) ≡ ok false
        → (scan_candidates cs false ≡ ok false → AllUnmarked cs)
        → Unmarked c × AllUnmarked cs
    split_on true first later rest = absurd (scan_found cs later)
    split_on false first later rest = (check_candidate-Unmarked c first, rest later)

check_content-err : (content : Text) → check_content content ≢ err empty
unfolding check_content
check_content-err content e = ground arith

check_candidate-err : (c : Candidate) → check_candidate c ≢ err empty
unfolding check_candidate
check_candidate-err c e = ground (arith, check_opened-err c.opened)
  where
    check_opened-err : (o : Option (ℕ × Text)) → check_opened o ≢ err empty
    check_opened-err none e = cc
    check_opened-err (some (size, content)) e = ground (arith, check_content-err content)

scan_candidates-err : (cs : List Candidate) (found : Bool) → scan_candidates cs found ≢ err empty
unfolding scan_candidates
scan_candidates-err [] found e = cc
scan_candidates-err (c ∷ cs) found e =
    go (check_candidate c) (check_candidate-err c) (λ b. scan_candidates-err cs b) e
  where
    go :
        (r : Result Classification Bool)
        → r ≢ err empty
        → ((b : Bool) → scan_candidates cs b ≢ err empty)
        → (r >>= λ m. scan_candidates cs (m || found)) ≢ err empty
    go (ok m) n rest e = rest (m || found) e
    go (err v) n rest e = n e

module _ (qt : Qt) (host : Host) where
  scan_units-eq-false :
      (unit_path : Text)
      → scan_units qt host unit_path ≡ ok false
      → ((host.info unit_path).exists ≡ false) ⊎ AllUnmarked (host.candidates unit_path)
  unfolding scan_units
  scan_units-eq-false unit_path h = elim (Bool-cases (host.info unit_path).exists) [
    | inl e ↦ inr (scan_candidates-AllUnmarked (host.candidates unit_path) (reached e h))
    | inr e ↦ inl e
  ]
    where
      reached :
          (host.info unit_path).exists ≡ true
          → scan_units qt host unit_path ≡ ok false
          → scan_candidates (host.candidates unit_path) false ≡ ok false
      reached e h = ground arith

  conclude-eq-empty :
      (root : Text) (scanned : Result Classification Bool)
      → scanned ≢ err empty
      → conclude qt host root scanned ≡ empty
      → (scanned ≡ ok false) × (any_state qt host root state_roots ≡ false)
  unfolding conclude
  conclude-eq-empty root (err v) n h = absurd (n (ap (λ x. err x) h))
  conclude-eq-empty root (ok found) n h =
      let (unmarked, clear) = neither (any_state qt host root state_roots) found h in
      (ap (λ b. ok b) unmarked, clear)
    where
      neither :
          (a f : Bool)
          → ◌≡◌ {A = Classification} (if a || f then managed else empty) empty
          → (f ≡ false) × (a ≡ false)
      neither a f h = ground arith

  scan_units-err : (unit_path : Text) → scan_units qt host unit_path ≢ err empty
  unfolding scan_units
  scan_units-err unit_path e = ground (arith, scan_candidates-err (host.candidates unit_path) false)

  classify_lem :
      (root : Text)
      → classify qt host root ≡ empty
      → conclude qt host root
          (scan_units qt host (under_root qt host root (codes "/etc/systemd/system")))
        ≡ empty
  unfolding classify
  classify_lem root h = ground arith

  -- nothing of this name, not even a dangling link
  pub record NoState (root path : Text) : Type 0 where
    pub no_entry : (host.info (under_root qt host root path)).exists ≡ false
    pub no_link : (host.info (under_root qt host root path)).is_sym_link ≡ false

  any_state-NoState :
      (root r : Text) (rs : List Text)
      → any_state qt host root (r ∷ rs) ≡ false
      → NoState root r × (any_state qt host root rs ≡ false)
  unfolding any_state
  any_state-NoState root r rs h =
      (record { no_entry = ground arith; no_link = ground arith }, ground arith)

  -- The host is classified as empty only when none of /etc/nasmount, /run/nasmount and
  -- /run/nasmount-ids exists below the root, not even as a dangling link, and either there is no unit directory or every candidate in it is a regular
  -- file of at most one megabyte that was read and has no line of a marker.
  pub classify-empty :
      (root : Text)
      → classify qt host root ≡ empty
      → (NoState root (codes "/etc/nasmount")
          × NoState root (codes "/run/nasmount")
          × NoState root (codes "/run/nasmount-ids"))
        × (((host.info (under_root qt host root (codes "/etc/systemd/system"))).exists ≡ false)
            ⊎ AllUnmarked (host.candidates (under_root qt host root (codes "/etc/systemd/system"))))
  classify-empty root h =
      let (scanned, clear) =
        conclude-eq-empty root _
          (scan_units-err (under_root qt host root (codes "/etc/systemd/system")))
          (classify_lem root h) in
      let (etc, rest) = any_state-NoState root _ _ clear in
      let (run, last) = any_state-NoState root _ _ rest in
      let (ids, _) = any_state-NoState root _ _ last in
      ((etc, run, ids), scan_units-eq-false _ scanned)
