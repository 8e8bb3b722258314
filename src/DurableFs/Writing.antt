-- ===== src/DurableFs/Writing.antt =====
-- The loop over short writes: it ends within its fuel, and a success has written everything.
use kde_nasmount.Prelude.{
  ℕ, zero, suc, ◌-◌, ◌≤◌, Bool, true, false, Option, some, List, [], ◌∷◌, ◌++◌, ◌≡◌, ◌≢◌, ◌⊎◌, inl,
  inr, refl, sym, ap, ◌∙◌, arith, ◌==◌, Bool-cases, if◌then◌else◌,
}
use mathlib.Core.List.{append-nil, append_assoc}
use kde_nasmount.Prelude.Program.{Program, ret, Keeps, Keeps-ret, Keeps-call, run}
use kde_nasmount.Text.{Text}
use kde_nasmount.Credentials.{size}
use kde_nasmount.DurableFs.{Call, Answer, write_some, drop_bytes, write_all}
use kde_nasmount.DurableFs.Directory.{Directory, DirectoryLaws, take_bytes}

drop_bytes-shorter : (n : ℕ) (bs : List ℕ) → size (drop_bytes n bs) ≤ size bs
unfolding drop_bytes
drop_bytes-shorter n [] = omega arith
drop_bytes-shorter n (b ∷ bs) = ground (arith, drop_bytes-shorter (n - 1) bs)

drop_bytes-smaller :
    (n : ℕ) (b : ℕ) (bs : List ℕ) → (n == 0) ≡ false → size (drop_bytes n (b ∷ bs)) ≤ size bs
unfolding drop_bytes
drop_bytes-smaller n b bs h = ground (arith, drop_bytes-shorter (n - 1) bs)

take_bytes-drop_bytes : (n : ℕ) (bs : List ℕ) → take_bytes n bs ++ drop_bytes n bs ≡ bs
unfolding take_bytes drop_bytes
take_bytes-drop_bytes n [] = refl
take_bytes-drop_bytes n (b ∷ bs) = elim (Bool-cases (n == 0)) [
  | inl z ↦ rw z refl
  | inr z ↦ rw z (ap (λ l. b ∷ l) (take_bytes-drop_bytes (n - 1) bs))
]

module _ {S : Type 0} (dir : Directory S) (laws : DirectoryLaws dir) where
  written_next :
      (stop : Bool) (fuel : ℕ) (tmp : Text) (rest total : List ℕ) (t : S)
      → ((run dir.handle (write_all fuel tmp rest) t).0 ≡ false)
        ⊎ (dir.entry (run dir.handle (write_all fuel tmp rest) t).1 tmp ≡ some total)
      → ((run dir.handle (if stop then ret false else write_all fuel tmp rest) t).0 ≡ false)
        ⊎ (dir.entry (run dir.handle (if stop then ret false else write_all fuel tmp rest) t).1 tmp
            ≡ some total)
  unfolding run
  written_next true fuel tmp rest total t h = inl refl
  written_next false fuel tmp rest total t h = h

  -- a success has written the rest after what was there
  pub write_all-written :
      (fuel : ℕ) (tmp : Text) (rest before : List ℕ) (s : S)
      → dir.entry s tmp ≡ some before
      → ((run dir.handle (write_all fuel tmp rest) s).0 ≡ false)
        ⊎ (dir.entry (run dir.handle (write_all fuel tmp rest) s).1 tmp ≡ some (before ++ rest))
  unfolding write_all run
  write_all-written fuel tmp [] before s h = inr (h ∙ ap (λ l. some l) (sym (append-nil before)))
  write_all-written zero tmp (b ∷ bs) before s h = inl refl
  write_all-written (suc fuel) tmp (b ∷ bs) before s h =
      let wrote = dir.handle (write_some tmp (b ∷ bs)) s in
      let rest = drop_bytes wrote.0 (b ∷ bs) in
      let taken = take_bytes wrote.0 (b ∷ bs) in
      let all : (before ++ taken) ++ rest ≡ before ++ (b ∷ bs) =
        append_assoc before taken rest
        ∙ ap (λ l. before ++ l) (take_bytes-drop_bytes wrote.0 (b ∷ bs)) in
      written_next (wrote.0 == 0) fuel tmp rest (before ++ (b ∷ bs)) wrote.1
        (elim (write_all-written fuel tmp rest (before ++ taken) wrote.1
          (laws.write_adds tmp (b ∷ bs) before s h)) [
            | inl failed ↦ inl failed
            | inr written ↦ inr (written ∙ ap (λ l. some l) all)
          ])

  same_next :
      (stop : Bool) (f g : ℕ) (tmp : Text) (rest : List ℕ) (t : S)
      → (stop ≡ true)
        ⊎ (run dir.handle (write_all f tmp rest) t ≡ run dir.handle (write_all g tmp rest) t)
      → run dir.handle (if stop then ret false else write_all f tmp rest) t
        ≡ run dir.handle (if stop then ret false else write_all g tmp rest) t
  same_next true f g tmp rest t h = refl
  same_next false f g tmp rest t (inl e) = cc
  same_next false f g tmp rest t (inr same) = same

  -- The loop ends by itself: a write takes at least one byte or the loop stops, so every fuel that is
  -- at least the number of bytes left gives the same outcome.
  pub write_all-enough_fuel :
      (f g : ℕ) (tmp : Text) (rest : List ℕ) (s : S)
      → size rest ≤ f
      → size rest ≤ g
      → run dir.handle (write_all f tmp rest) s ≡ run dir.handle (write_all g tmp rest) s
  unfolding write_all run
  write_all-enough_fuel f g tmp [] s hf hg = refl
  write_all-enough_fuel zero g tmp (b ∷ bs) s hf hg = absurd (omega arith)
  write_all-enough_fuel (suc f) zero tmp (b ∷ bs) s hf hg = absurd (omega arith)
  write_all-enough_fuel (suc f) (suc g) tmp (b ∷ bs) s hf hg =
      let wrote = dir.handle (write_some tmp (b ∷ bs)) s in
      same_next (wrote.0 == 0) f g tmp (drop_bytes wrote.0 (b ∷ bs)) wrote.1
        (elim (Bool-cases (wrote.0 == 0)) [
          | inl stop ↦ inl stop
          | inr more ↦ inr (
              let smaller = drop_bytes-smaller wrote.0 b bs more in
              write_all-enough_fuel f g tmp (drop_bytes wrote.0 (b ∷ bs)) wrote.1 (omega arith)
                (omega arith))
        ])

  if-Keeps :
      (other : Text) (old : Option (List ℕ)) (stop : Bool) (p : Program Call Answer Bool)
      → Keeps dir.handle (λ t. dir.entry t other ≡ old) p
      → Keeps dir.handle (λ t. dir.entry t other ≡ old) (if stop then ret false else p)
  if-Keeps other old true p keeps = Keeps-ret dir.handle (λ t. dir.entry t other ≡ old) false
  if-Keeps other old false p keeps = keeps

  -- writing changes the temporary file only
  pub write_all-Keeps :
      (fuel : ℕ) (tmp other : Text) (rest : List ℕ) (old : Option (List ℕ))
      → other ≢ tmp
      → Keeps dir.handle (λ t. dir.entry t other ≡ old) (write_all fuel tmp rest)
  unfolding write_all
  write_all-Keeps fuel tmp other [] old h = Keeps-ret dir.handle (λ t. dir.entry t other ≡ old) true
  write_all-Keeps zero tmp other (b ∷ bs) old h =
      Keeps-ret dir.handle (λ t. dir.entry t other ≡ old) false
  write_all-Keeps (suc fuel) tmp other (b ∷ bs) old h =
      Keeps-call dir.handle (λ t. dir.entry t other ≡ old) (write_some tmp (b ∷ bs))
        (λ n. if n == 0 then ret false else write_all fuel tmp (drop_bytes n (b ∷ bs)))
        (λ t e. (laws.write_only tmp (b ∷ bs) t).others other h ∙ e)
        (λ n.
          if-Keeps other old (n == 0) (write_all fuel tmp (drop_bytes n (b ∷ bs)))
            (write_all-Keeps fuel tmp other (drop_bytes n (b ∷ bs)) old h))
