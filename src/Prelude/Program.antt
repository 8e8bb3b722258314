-- ===== src/Prelude/Program.antt =====
-- Programs that call an environment: a tree of calls, each continued by what it answers. Running one
-- on a handler passes the state from call to call, and `Always` looks at every state on the way, so
-- that a theorem can speak of a program that is interrupted between two calls.
use mathlib.Core.Path.{◌≡◌, refl}
use mathlib.Core.Bool.{Bool, true, false}

pub data Program (C : Type 0) (R : C → Type 0) (A : Type 0) : Type 0 where
  ret : A → Program C R A
  call : (c : C) → (R c → Program C R A) → Program C R A

module _ {C : Type 0} {R : C → Type 0} where
  infixl 5 ◌>>=◌ ◌>>◌
  abbrev pub ◌>>=◌ : {A B : Type 0} → Program C R A → (A → Program C R B) → Program C R B
  ret a >>= f = f a
  call c k >>= f = call c (λ r. k r >>= f)

  abbrev pub ◌>>◌ : {A B : Type 0} → Program C R A → Program C R B → Program C R B
  m >> n = m >>= λ _. n

  abbrev pub perform : (c : C) → Program C R (R c)
  perform c = call c (λ r. ret r)

  -- `if (!test) return false;`
  abbrev pub or_fail : Bool → Program C R Bool → Program C R Bool
  or_fail true p = p
  or_fail false p = ret false

module _ {C : Type 0} {R : C → Type 0} {S : Type 0} (handle : (c : C) → S → R c × S) where
  unfoldable pub run : {A : Type 0} → Program C R A → S → A × S
  run (ret a) s = (a, s)
  run (call c k) s = run (k (handle c s).0) (handle c s).1

  -- The predicate holds at the start, after each call, and so at the end.
  abbrev pub Always : {A : Type 0} → (S → Type 0) → Program C R A → S → Type 0
  Always I (ret a) s = I s
  Always I (call c k) s = I s × Always I (k (handle c s).0) (handle c s).1

  pub run->>= :
      {A B : Type 0} (m : Program C R A) (f : A → Program C R B) (s : S)
      → run (m >>= f) s ≡ run (f (run m s).0) (run m s).1
  unfolding run
  run->>= (ret a) f s = refl
  run->>= (call c k) f s = run->>= (k (handle c s).0) f (handle c s).1

  -- What two programs keep, their sequence keeps.
  pub Always->>= :
      {A B : Type 0} (I : S → Type 0) (m : Program C R A) (f : A → Program C R B) (s : S)
      → Always I m s
      → Always I (f (run m s).0) (run m s).1
      → Always I (m >>= f) s
  unfolding run
  Always->>= I (ret a) f s h k = k
  Always->>= I (call c g) f s h k = (h.0, Always->>= I (g (handle c s).0) f (handle c s).1 h.1 k)

  pub Always-end :
      {A : Type 0} (I : S → Type 0) (m : Program C R A) (s : S) → Always I m s → I (run m s).1
  unfolding run
  Always-end I (ret a) s h = h
  Always-end I (call c k) s h = Always-end I (k (handle c s).0) (handle c s).1 h.1

  -- A program keeps what holds where it starts.
  unfoldable pub Keeps : {A : Type 0} → (S → Type 0) → Program C R A → Type 0
  Keeps I m = (s : S) → I s → Always I m s

  pub Keeps-Always :
      {A : Type 0} (I : S → Type 0) (m : Program C R A) (s : S) → Keeps I m → I s → Always I m s
  unfolding Keeps
  Keeps-Always I m s keeps h = keeps s h

  pub Keeps-ret : {A : Type 0} (I : S → Type 0) (a : A) → Keeps I (ret a)
  unfolding Keeps
  Keeps-ret I a s h = h

  pub Keeps-call :
      {A : Type 0} (I : S → Type 0) (c : C) (k : R c → Program C R A)
      → ((s : S) → I s → I (handle c s).1)
      → ((r : R c) → Keeps I (k r))
      → Keeps I (call c k)
  unfolding Keeps
  Keeps-call I c k step rest s h = (h, rest (handle c s).0 (handle c s).1 (step s h))

  pub Keeps->>= :
      {A B : Type 0} (I : S → Type 0) (m : Program C R A) (f : A → Program C R B)
      → Keeps I m
      → ((a : A) → Keeps I (f a))
      → Keeps I (m >>= f)
  unfolding Keeps
  Keeps->>= I m f first rest s h =
      let kept = first s h in
      Always->>= I m f s kept (rest (run m s).0 (run m s).1 (Always-end I m s kept))

  pub Keeps-or_fail :
      (I : S → Type 0) (b : Bool) (p : Program C R Bool) → Keeps I p → Keeps I (or_fail b p)
  Keeps-or_fail I true p keeps = keeps
  Keeps-or_fail I false p keeps = Keeps-ret I false

  -- What always holds may be weakened.
  pub Always-map :
      {A : Type 0} (I J : S → Type 0) (m : Program C R A) (s : S)
      → ((t : S) → I t → J t)
      → Always I m s
      → Always J m s
  Always-map I J (ret a) s f h = f s h
  Always-map I J (call c k) s f h =
      (f s h.0, Always-map I J (k (handle c s).0) (handle c s).1 f h.1)

  pub Always-all :
      {A : Type 0} (I : S → Type 0) (m : Program C R A) (s : S) → ((t : S) → I t) → Always I m s
  Always-all I (ret a) s h = h s
  Always-all I (call c k) s h = (h s, Always-all I (k (handle c s).0) (handle c s).1 h)
