-- ===== src/Verify/Halves/Distinct.antt =====
-- The collision pass leaves no two trusted units with one id or one mount point.
use kde_nasmount.Prelude.{
  ℕ, ◌+◌, ◌≤◌, Bool, true, false, List, [], ◌∷◌, ◌≡◌, refl, arith, if◌then◌else◌, Bool-cases, ◌⊎◌,
  inl, inr,
}
use kde_nasmount.Text.{Text, text_eq}
use kde_nasmount.Text.Laws.{text_eq_iff, text_eq_refl}
use kde_nasmount.Verify.Halves.{
  OwnedUnit, ScannedHalf, is_trusted, claims, demoted, has_collided, demote_collided, group_halves,
  units_of, pair_scanned_halves,
}

-- No later unit of the list that is not Tampered has this unit's id or mount point.
pub NoneLike : OwnedUnit → List OwnedUnit → Type 0
NoneLike u [] = Unit
NoneLike u (v ∷ vs) =
    ((is_trusted v ≡ false)
      ⊎ ((text_eq u.id v.id ≡ false) × (text_eq u.mount_point v.mount_point ≡ false)))
    × NoneLike u vs

-- Any two units of the list that are not Tampered differ in id and in mount point.
pub AllDistinct : List OwnedUnit → Type 0
unfolding NoneLike
AllDistinct [] = Unit
AllDistinct (u ∷ us) = ((is_trusted u ≡ false) ⊎ NoneLike u us) × AllDistinct us

module _ (key_of : OwnedUnit → Text) where
  claims_self :
      (u : OwnedUnit) (us : List OwnedUnit)
      → is_trusted u ≡ true
      → claims key_of (key_of u) (u ∷ us) ≡ 1 + claims key_of (key_of u) us
  unfolding claims
  claims_self u us t = rw (t, text_eq_refl (key_of u))

  claims_grow :
      (k : Text) (u : OwnedUnit) (us : List OwnedUnit)
      → claims key_of k us ≤ claims key_of k (u ∷ us)
  unfolding claims
  claims_grow k u us = ground arith

  claims_like :
      (u v : OwnedUnit) (vs : List OwnedUnit)
      → is_trusted v ≡ true
      → text_eq (key_of u) (key_of v) ≡ true
      → 1 ≤ claims key_of (key_of u) (v ∷ vs)
  unfolding claims
  claims_like u v vs t e =
      rw ((text_eq_iff (key_of u) (key_of v)).0 e) (rw (t, text_eq_refl (key_of v)) (omega arith))

  unlike :
      (u v : OwnedUnit) (vs : List OwnedUnit)
      → is_trusted v ≡ true
      → claims key_of (key_of u) (v ∷ vs) ≤ 0
      → text_eq (key_of u) (key_of v) ≡ false
  unlike u v vs t n = elim (Bool-cases (text_eq (key_of u) (key_of v))) [
    | inl e ↦ absurd (none_below _ (claims_like u v vs t e) n)
    | inr e ↦ e
  ]
    where
      none_below : (n : ℕ) → 1 ≤ n → n ≤ 0 → ⊥
      none_below n p q = omega arith

le_trans : {a b c : ℕ} → a ≤ b → b ≤ c → a ≤ c
le_trans p q = omega arith

unless : (b : Bool) {P : Type 0} → (b ≡ true → P) → (b ≡ false) ⊎ P
unless true f = inr (f refl)
unless false f = inl refl

le_refl : (a : ℕ) → a ≤ a
le_refl a = omega arith

module _ (units : List OwnedUnit) where
  -- what is left of one unit
  after_pass : OwnedUnit → OwnedUnit
  after_pass u = if has_collided units u then demoted u else u

  demote-cons :
      (u : OwnedUnit) (us : List OwnedUnit)
      → demote_collided units (u ∷ us) ≡ after_pass u ∷ demote_collided units us
  unfolding demote_collided after_pass
  demote-cons u us = refl

  still_trusted :
      (u : OwnedUnit)
      → is_trusted (after_pass u) ≡ true
      → (after_pass u ≡ u)
        × (is_trusted u ≡ true)
        × (claims (λ v. v.id) u.id units ≤ 1)
        × (claims (λ v. v.mount_point) u.mount_point units ≤ 1)
  unfolding after_pass has_collided
  still_trusted u t = ground arith

  unlike_next :
      (u v : OwnedUnit) (vs : List OwnedUnit)
      → claims (λ w. w.id) u.id (v ∷ vs) ≤ 0
      → claims (λ w. w.mount_point) u.mount_point (v ∷ vs) ≤ 0
      → is_trusted (after_pass v) ≡ true
      → (text_eq u.id (after_pass v).id ≡ false)
        × (text_eq u.mount_point (after_pass v).mount_point ≡ false)
  unlike_next u v vs p q t =
      let (same, trusted, _, _) = still_trusted v t in
      rw same (unlike (λ w. w.id) u v vs trusted p, unlike (λ w. w.mount_point) u v vs trusted q)

  none_like :
      (u : OwnedUnit) (us : List OwnedUnit)
      → claims (λ v. v.id) u.id us ≤ 0
      → claims (λ v. v.mount_point) u.mount_point us ≤ 0
      → NoneLike u (demote_collided units us)
  unfolding NoneLike demote_collided after_pass
  none_like u [] p q = tt
  none_like u (v ∷ vs) p q = (
    unless (is_trusted (after_pass v)) (unlike_next u v vs p q),
    none_like u vs (le_trans (claims_grow (λ w. w.id) u.id v vs) p)
        (le_trans (claims_grow (λ w. w.mount_point) u.mount_point v vs) q),
  )

  -- the claims of a part of the list are among those of the whole
  Part : List OwnedUnit → Type 0
  Part us =
      (k : Text)
      → (claims (λ v. v.id) k us ≤ claims (λ v. v.id) k units)
        × (claims (λ v. v.mount_point) k us ≤ claims (λ v. v.mount_point) k units)

  alone :
      (key_of : OwnedUnit → Text) (u : OwnedUnit) (us : List OwnedUnit)
      → is_trusted u ≡ true
      → claims key_of (key_of u) (u ∷ us) ≤ claims key_of (key_of u) units
      → claims key_of (key_of u) units ≤ 1
      → claims key_of (key_of u) us ≤ 0
  alone key_of u us t part one = none_more _ _ _ (claims_self key_of u us t) part one
    where
      none_more : (a b n : ℕ) → a ≡ 1 + b → a ≤ n → n ≤ 1 → b ≤ 0
      none_more a b n e p q = omega arith

  first_unlike :
      (u : OwnedUnit) (us : List OwnedUnit)
      → Part (u ∷ us)
      → is_trusted (after_pass u) ≡ true
      → NoneLike (after_pass u) (demote_collided units us)
  unfolding Part
  first_unlike u us part t =
      let (same, trusted, ids, points) = still_trusted u t in
      rw same (
        none_like u us (alone (λ v. v.id) u us trusted (part u.id).0 ids)
          (alone (λ v. v.mount_point) u us trusted (part u.mount_point).1 points))

  demote-AllDistinct : (us : List OwnedUnit) → Part us → AllDistinct (demote_collided units us)
  unfolding AllDistinct demote_collided after_pass Part
  demote-AllDistinct [] part = tt
  demote-AllDistinct (u ∷ us) part = (
    unless (is_trusted (after_pass u)) (first_unlike u us part),
    demote-AllDistinct us (λ k. (
      le_trans (claims_grow (λ v. v.id) k u us) (part k).0,
      le_trans (claims_grow (λ v. v.mount_point) k u us) (part k).1,
    )),
  )

-- In the result of pairing any scanned halves, two units that are not Tampered never have the
-- same id and never have the same mount point.
pub pair_scanned_halves-AllDistinct :
    (halves : List ScannedHalf) → AllDistinct (pair_scanned_halves halves)
unfolding pair_scanned_halves Part
pair_scanned_halves-AllDistinct halves =
    demote-AllDistinct (units_of (group_halves halves [])) (units_of (group_halves halves []))
      (λ k. (le_refl _, le_refl _))
