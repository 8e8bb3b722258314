-- ===== src/Boot/Attempted.antt =====
-- Every pair is attempted at boot, whatever becomes of the others.
use kde_nasmount.Prelude.{
  ℕ, ◌+◌, Bool, true, false, some, List, [], ◌∷◌, ◌≡◌, refl, ap, ◌∙◌, arith, if◌then◌else◌,
}
use kde_nasmount.Prelude.Program.{ret, run, run->>=, ◌>>◌}
use kde_nasmount.Qt.{Qt}
use kde_nasmount.Verify.Halves.{OwnedUnit}
use kde_nasmount.Verify.Scan.{enumerate_managed_units}
use kde_nasmount.Verify.Runtime.{Numbers}
use kde_nasmount.Boot.{is_pair, arm_one_share, arm_all, arm_managed, boot}
use kde_nasmount.Boot.Handler.{Host, on_boot}

abbrev pub pairs_of : List OwnedUnit → List OwnedUnit
pairs_of [] = []
pairs_of (u ∷ us) = if is_pair u.state then u ∷ pairs_of us else pairs_of us

abbrev pub others_of : List OwnedUnit → List OwnedUnit
others_of [] = []
others_of (u ∷ us) = if is_pair u.state then others_of us else u ∷ others_of us

abbrev pub count : List OwnedUnit → ℕ
count [] = 0
count (_ ∷ us) = count us + 1

plus_none : (a : ℕ) → a ≡ a + 0
plus_none a = omega arith

zero_plus : (n : ℕ) → 0 + n ≡ n
zero_plus n = omega arith

shift : (a n : ℕ) → (a + 1) + n ≡ a + (n + 1)
shift a n = omega arith

pairs_and_others : (us : List OwnedUnit) → count (pairs_of us) + count (others_of us) ≡ count us
pairs_and_others [] = refl
pairs_and_others (u ∷ us) = ground (arith, pairs_and_others us)

module _ {S : Type 0} (qt : Qt) (numbers : Numbers) (host : Host S) where
  -- one share after the other, each from the state that the one before has left
  abbrev pub attempt_each : List OwnedUnit → S → S
  attempt_each [] s = s
  attempt_each (u ∷ us) s = attempt_each us (run (on_boot qt numbers host) (arm_one_share qt u) s).1

  run-arm_all :
      (us : List OwnedUnit) (a k : ℕ) (s : S)
      → run (on_boot qt numbers host) (arm_all qt us a k) s
        ≡ ((a + count (pairs_of us), k + count (others_of us)), attempt_each (pairs_of us) s)
  unfolding arm_all run
  run-arm_all [] a k s =
      ap (λ n. ((n, k), s)) (plus_none a) ∙ ap (λ n. ((a + 0, n), s)) (plus_none k)
  run-arm_all (u ∷ us) a k s =
      step (is_pair u.state)
        (run-arm_all us (a + 1) k (run (on_boot qt numbers host) (arm_one_share qt u) s).1)
        (run-arm_all us a (k + 1) s)
    where
      step :
          (b : Bool)
          → run
              (on_boot qt numbers host)
              (arm_all qt us (a + 1) k)
              (run (on_boot qt numbers host) (arm_one_share qt u) s).1
            ≡ (
              ((a + 1) + count (pairs_of us), k + count (others_of us)),
              attempt_each (pairs_of us) (run (on_boot qt numbers host) (arm_one_share qt u) s).1,
            )
          → run (on_boot qt numbers host) (arm_all qt us a (k + 1)) s ≡ (
            (a + count (pairs_of us), (k + 1) + count (others_of us)),
            attempt_each (pairs_of us) s,
          )
          → run
              (on_boot qt numbers host)
              (if b then arm_one_share qt u >> arm_all qt us (a + 1) k else arm_all qt us a (k + 1))
              s
            ≡ (
              (
                a + count (if b then u ∷ pairs_of us else pairs_of us),
                k + count (if b then others_of us else u ∷ others_of us),
              ),
              attempt_each (if b then u ∷ pairs_of us else pairs_of us) s,
            )
      step true next past =
          run->>= (on_boot qt numbers host) (arm_one_share qt u) (λ _. arm_all qt us (a + 1) k) s
          ∙ next
          ∙ ap
              (λ n. (
                (n, k + count (others_of us)),
                attempt_each (pairs_of us) (run (on_boot qt numbers host) (arm_one_share qt u) s).1,
              ))
              (shift a (count (pairs_of us)))
      step false next past =
          past
          ∙ ap (λ n. ((a + count (pairs_of us), n), attempt_each (pairs_of us) s))
              (shift k (count (others_of us)))

  run-from_zero :
      (us : List OwnedUnit) (s : S)
      → run (on_boot qt numbers host) (arm_all qt us 0 0) s
        ≡ ((count (pairs_of us), count (others_of us)), attempt_each (pairs_of us) s)
  run-from_zero us s =
      run-arm_all us 0 0 s
      ∙ ap (λ n. ((n, 0 + count (others_of us)), attempt_each (pairs_of us) s))
          (zero_plus (count (pairs_of us)))
      ∙ ap (λ n. ((count (pairs_of us), n), attempt_each (pairs_of us) s))
          (zero_plus (count (others_of us)))

  arm_managed-attempt_each :
      (locked : Bool) (t : S)
      → locked ≡ true
      → run (on_boot qt numbers host) (arm_managed qt locked) t ≡ (
        some (
          count (pairs_of (enumerate_managed_units (host.files t) (host.names t))),
          count (others_of (enumerate_managed_units (host.files t) (host.names t))),
        ),
        attempt_each (pairs_of (enumerate_managed_units (host.files t) (host.names t))) t,
      )
  unfolding arm_managed run
  arm_managed-attempt_each false t h = cc
  arm_managed-attempt_each true t h =
      run->>= (on_boot qt numbers host)
        (arm_all qt (enumerate_managed_units (host.files t) (host.names t)) 0 0)
        (λ counts. ret (some counts)) t
      ∙ ap (λ r. (some r.0, r.1))
          (run-from_zero (enumerate_managed_units (host.files t) (host.names t)) t)

  -- the units that the enumeration finds once the lock is held
  abbrev pub managed_at : S → List OwnedUnit
  managed_at s =
      enumerate_managed_units (host.files (host.acquire s).1) (host.names (host.acquire s).1)

  -- When the root lock is acquired, the boot program ends with success after it has tried to arm every
  -- unit that is enumerated as a Pair, in their order and each from the state the one before has left,
  -- whatever the outcome of the others; it counts those, and the other units as skipped.
  pub boot-attempt_each :
      (s : S)
      → (host.acquire s).0 ≡ true
      → (run (on_boot qt numbers host) (boot qt) s ≡ (
        some (count (pairs_of (managed_at s)), count (others_of (managed_at s))),
        attempt_each (pairs_of (managed_at s)) (host.acquire s).1,
      ))
        × (count (pairs_of (managed_at s)) + count (others_of (managed_at s))
            ≡ count (managed_at s))
  unfolding boot run
  boot-attempt_each s locked = (
    arm_managed-attempt_each (host.acquire s).0 (host.acquire s).1 locked,
    pairs_and_others (managed_at s),
  )
