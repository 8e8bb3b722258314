-- ===== src/DurableFs/Atomic.antt =====
-- durableReplace shows the old content or the new, never a part of it.
use kde_nasmount.Prelude.{
  ℕ, zero, suc, Bool, true, false, Option, none, some, List, [], ◌++◌, ◌≡◌, ◌≢◌, ◌⊎◌, inl, inr,
  refl, ap, ◌∙◌, Bool-cases,
}
use kde_nasmount.Prelude.Program.{
  Program, ret, call, Always, Always-map, Always->>=, Always-end, Keeps-Always, run, run->>=,
  or_fail, perform, ◌>>=◌,
}
use kde_nasmount.Text.{Text, is_some, starts_with}
use kde_nasmount.Text.Laws.{strip_prefix-append}
use kde_nasmount.Credentials.{size}
use kde_nasmount.Operations.Identifier.{hex_field}
use kde_nasmount.DurableFs.{
  Call, Answer, Created, opened, exists_already, not_created, random_number, create, secure,
  fsync_file, rename, unlink, fsync_directory, is_single_component, temp_prefix, open_temp,
  write_all, abandon, after_rename, after_sync, after_secure, after_write, after_open,
  durable_replace,
}
use kde_nasmount.DurableFs.Directory.{Directory, DirectoryLaws, OnlyAt, Untouched}
use kde_nasmount.DurableFs.Writing.{write_all-written, write_all-Keeps}

neq-temp : (name x : Text) → starts_with temp_prefix name ≡ false → name ≢ temp_prefix ++ x
neq-temp name x plain e =
    let there : starts_with temp_prefix name ≡ true =
      ap (starts_with temp_prefix) e ∙ ap is_some (strip_prefix-append temp_prefix x) in
    cc

some-injective : (a b : Text) → some a ≡ some b → a ≡ b
some-injective a b e = cc

module _ {S : Type 0} (dir : Directory S) (laws : DirectoryLaws dir) (name : Text)
    (content : List ℕ) (other : Text) (distinct : other ≢ name) (s : S) where
  -- before the rename
  record IsBefore (t : S) : Type 0 where
    at_name : dir.entry t name ≡ dir.entry s name
    at_other : dir.entry t other ≡ dir.entry s other

  -- after it
  record IsAfter (t : S) : Type 0 where
    at_name : dir.entry t name ≡ some content
    at_other : dir.entry t other ≡ dir.entry s other

  -- The old content or the whole of the new one, and another name is as it was.
  unfoldable pub IsWhole : S → Type 0
  IsWhole t =
      ((dir.entry t name ≡ dir.entry s name) ⊎ (dir.entry t name ≡ some content))
      × (dir.entry t other ≡ dir.entry s other)

  before-IsWhole : (t : S) → IsBefore t → IsWhole t
  unfolding IsWhole
  before-IsWhole t h = (inl h.at_name, h.at_other)

  after-IsWhole : (t : S) → IsAfter t → IsWhole t
  unfolding IsWhole
  after-IsWhole t h = (inr h.at_name, h.at_other)

  untouched-IsBefore : (t u : S) → Untouched dir t u → IsBefore t → IsBefore u
  untouched-IsBefore t u same h = record {
    at_name = same.same name ∙ h.at_name;
    at_other = same.same other ∙ h.at_other;
  }

  Always-both :
      {A : Type 0} (m : Program Call Answer A) (t : S)
      → Always dir.handle (λ u. dir.entry u name ≡ dir.entry s name) m t
      → Always dir.handle (λ u. dir.entry u other ≡ dir.entry s other) m t
      → Always dir.handle IsBefore m t
  Always-both (ret a) t h k = record { at_name = h; at_other = k }
  Always-both (call c m) t (h, hs) (k, ks) = (
    record { at_name = h; at_other = k },
    Always-both (m (dir.handle c t).0) (dir.handle c t).1 hs ks,
  )

  module _ (tmp : Text) (name_plain : name ≢ tmp) (other_plain : other ≢ tmp) where
    only-IsBefore : (t u : S) → OnlyAt dir tmp t u → IsBefore t → IsBefore u
    only-IsBefore t u only h = record {
      at_name = only.others name name_plain ∙ h.at_name;
      at_other = only.others other other_plain ∙ h.at_other;
    }

    -- a program that keeps the file whole, and replaces it when it succeeds
    IsGood : Program Call Answer Bool → S → Type 0
    IsGood p t =
        Always dir.handle IsWhole p t
        × (((run dir.handle p t).0 ≡ false)
            ⊎ (dir.entry (run dir.handle p t).1 name ≡ some content))

    abandon-IsGood : (t : S) → IsBefore t → IsGood (abandon tmp) t
    unfolding IsGood abandon run
    abandon-IsGood t h =
        let gone = (dir.handle (unlink tmp) t).1 in
        (
          (
            before-IsWhole t h,
            before-IsWhole gone (only-IsBefore t gone (laws.unlink_only tmp t) h),
          ),
          inl refl,
        )

    synced-IsGood : (t : S) → IsAfter t → IsGood (perform fsync_directory) t
    unfolding IsGood run
    synced-IsGood t h =
        let end = (dir.handle fsync_directory t).1 in
        let same = laws.directory_same t in
        let still : IsAfter end = record {
          at_name = same.same name ∙ h.at_name;
          at_other = same.same other ∙ h.at_other;
        } in
        ((after-IsWhole t h, after-IsWhole end still), inr still.at_name)

    -- one call before the rest
    call-IsGood :
        (c : Call) (k : Answer c → Program Call Answer Bool) (t : S)
        → IsBefore t
        → IsGood (k (dir.handle c t).0) (dir.handle c t).1
        → IsGood (call c k) t
    unfolding IsGood run
    call-IsGood c k t h (always, ends) = ((before-IsWhole t h, always), ends)

    after_rename-IsGood :
        (renamed : Bool) (t : S)
        → ((renamed ≡ false) × IsBefore t) ⊎ ((renamed ≡ true) × IsAfter t)
        → IsGood (after_rename tmp renamed) t
    unfolding after_rename
    after_rename-IsGood false t (inl (_, h)) = abandon-IsGood t h
    after_rename-IsGood false t (inr (e, _)) = cc
    after_rename-IsGood true t (inl (e, _)) = cc
    after_rename-IsGood true t (inr (_, h)) = synced-IsGood t h

    renamed_state :
        (t : S)
        → IsBefore t
        → dir.entry t tmp ≡ some content
        → (((dir.handle (rename tmp name) t).0 ≡ false)
            × IsBefore (dir.handle (rename tmp name) t).1)
          ⊎ (((dir.handle (rename tmp name) t).0 ≡ true)
              × IsAfter (dir.handle (rename tmp name) t).1)
    renamed_state t h full = elim (Bool-cases (dir.handle (rename tmp name) t).0) [
      | inl moved ↦ inr (
        moved,
        record {
          at_name = laws.rename_moves tmp name t moved ∙ full;
          at_other = laws.rename_others tmp name other t other_plain distinct ∙ h.at_other;
        },
      )
      | inr refused ↦ inl (refused, untouched-IsBefore t _ (laws.rename_fails tmp name t refused) h)
    ]

    after_sync-IsGood :
        (synced : Bool) (t : S)
        → IsBefore t
        → dir.entry t tmp ≡ some content
        → IsGood (after_sync name tmp synced) t
    unfolding after_sync
    after_sync-IsGood false t h full = abandon-IsGood t h
    after_sync-IsGood true t h full = call-IsGood (rename tmp name) (after_rename tmp) t h (
        after_rename-IsGood (dir.handle (rename tmp name) t).0 (dir.handle (rename tmp name) t).1
          (renamed_state t h full))

    after_secure-IsGood :
        (secured : Bool) (t : S)
        → IsBefore t
        → dir.entry t tmp ≡ some content
        → IsGood (after_secure name tmp secured) t
    unfolding after_secure
    after_secure-IsGood false t h full = abandon-IsGood t h
    after_secure-IsGood true t h full =
        let next = (dir.handle (fsync_file tmp) t).1 in
        let same = laws.fsync_same tmp t in
        call-IsGood (fsync_file tmp) (after_sync name tmp) t h (
          after_sync-IsGood (dir.handle (fsync_file tmp) t).0 next
            (untouched-IsBefore t next same h) (same.same tmp ∙ full))

    after_write-IsGood :
        (written : Bool) (t : S)
        → IsBefore t
        → (written ≡ false) ⊎ (dir.entry t tmp ≡ some content)
        → IsGood (after_write name tmp written) t
    unfolding after_write
    after_write-IsGood false t h full = abandon-IsGood t h
    after_write-IsGood true t h (inl e) = cc
    after_write-IsGood true t h (inr full) =
        let next = (dir.handle (secure tmp) t).1 in
        let same = laws.secure_same tmp t in
        call-IsGood (secure tmp) (after_secure name tmp) t h (
          after_secure-IsGood (dir.handle (secure tmp) t).0 next (untouched-IsBefore t next same h)
            (same.same tmp ∙ full))

    -- the loop of writes leaves the two names alone
    write_all-IsBefore :
        (t : S) → IsBefore t → Always dir.handle IsBefore (write_all (size content) tmp content) t
    write_all-IsBefore t h =
        Always-both (write_all (size content) tmp content) t
          (Keeps-Always dir.handle (λ u. dir.entry u name ≡ dir.entry s name)
            (write_all (size content) tmp content) t
            (write_all-Keeps dir laws (size content) tmp name content (dir.entry s name) name_plain)
            h.at_name)
          (Keeps-Always dir.handle (λ u. dir.entry u other ≡ dir.entry s other)
            (write_all (size content) tmp content) t
            (write_all-Keeps dir laws (size content) tmp other content (dir.entry s other)
              other_plain)
            h.at_other)

    written-IsGood :
        (t : S)
        → IsBefore t
        → dir.entry t tmp ≡ some []
        → IsGood (write_all (size content) tmp content >>= after_write name tmp) t
    unfolding IsGood
    written-IsGood t h empty =
        let writes = write_all (size content) tmp content in
        let always = write_all-IsBefore t h in
        let next =
          after_write-IsGood (run dir.handle writes t).0 (run dir.handle writes t).1
            (Always-end dir.handle IsBefore writes t always)
            (write_all-written dir laws (size content) tmp content [] t empty) in
        (
          Always->>= dir.handle IsWhole writes (after_write name tmp) t
              (Always-map dir.handle IsBefore IsWhole writes t before-IsWhole always) next.0,
          (rw (run->>= dir.handle writes (after_write name tmp) t) next.1),
        )

  -- the names that are tried are not the two names
  module _ (name_plain : starts_with temp_prefix name ≡ false)
      (other_plain : starts_with temp_prefix other ≡ false) where
    Opens : Option Text × S → Type 0
    Opens (made, t) =
        (made ≡ none)
        ⊎ ((x : Text) × (made ≡ some (temp_prefix ++ x))
            × (dir.entry t (temp_prefix ++ x) ≡ some []))

    CanOpen : Program Call Answer (Option Text) → S → Type 0
    unfolding Opens
    CanOpen p t = Always dir.handle IsBefore p t × Opens (run dir.handle p t)

    created_next :
        (c : Created) (x : Text) (left : ℕ) (t : S)
        → IsBefore t
        → (c ≡ opened → dir.entry t (temp_prefix ++ x) ≡ some [])
        → CanOpen (open_temp left) t
        → CanOpen
            (elim c as (λ _. Program Call Answer (Option Text)) [
              | opened ↦ ret (some (temp_prefix ++ x))
              | exists_already ↦ open_temp left
              | not_created ↦ ret none
            ])
            t
    unfolding CanOpen Opens run
    created_next opened x left t h empty again = (h, inr (x, refl, empty refl))
    created_next exists_already x left t h empty again = again
    created_next not_created x left t h empty again = (h, inl refl)

    open_temp-CanOpen : (left : ℕ) (t : S) → IsBefore t → CanOpen (open_temp left) t
    unfolding CanOpen Opens open_temp run
    open_temp-CanOpen zero t h = (h, inl refl)
    open_temp-CanOpen (suc left) t h =
        let drawn = dir.handle random_number t in
        let x = hex_field drawn.0 in
        let made = dir.handle (create (temp_prefix ++ x)) drawn.1 in
        let h' = untouched-IsBefore t drawn.1 (laws.random_same t) h in
        let h'' =
          only-IsBefore (temp_prefix ++ x) (neq-temp name x name_plain)
            (neq-temp other x other_plain) drawn.1 made.1
            (laws.create_only (temp_prefix ++ x) drawn.1) h' in
        let rest =
          created_next made.0 x left made.1 h'' (laws.create_empty (temp_prefix ++ x) drawn.1)
            (open_temp-CanOpen left made.1 h'') in
        ((h, (h', rest.0)), rest.1)

    AllGood : Program Call Answer Bool → S → Type 0
    AllGood p t =
        Always dir.handle IsWhole p t
        × (((run dir.handle p t).0 ≡ false)
            ⊎ (dir.entry (run dir.handle p t).1 name ≡ some content))

    after_open-AllGood :
        (made : Option Text) (t : S)
        → IsBefore t
        → Opens (made, t)
        → AllGood (after_open name content made) t
    unfolding AllGood Opens after_open run IsGood
    after_open-AllGood none t h o = (before-IsWhole t h, inl refl)
    after_open-AllGood (some tmp) t h (inl e) = cc
    after_open-AllGood (some tmp) t h (inr (x, e, empty)) =
        let same : tmp ≡ temp_prefix ++ x = some-injective tmp (temp_prefix ++ x) e in
        written-IsGood tmp (λ d. neq-temp name x name_plain (d ∙ same))
          (λ d. neq-temp other x other_plain (d ∙ same)) t h (ap (dir.entry t) same ∙ empty)

    opened-AllGood : (t : S) → IsBefore t → AllGood (open_temp 8 >>= after_open name content) t
    unfolding AllGood CanOpen
    opened-AllGood t h =
        let opens = open_temp-CanOpen 8 t h in
        let next =
          after_open-AllGood (run dir.handle (open_temp 8) t).0 (run dir.handle (open_temp 8) t).1
            (Always-end dir.handle IsBefore (open_temp 8) t opens.0) opens.1 in
        (
          Always->>= dir.handle IsWhole (open_temp 8) (after_open name content) t
              (Always-map dir.handle IsBefore IsWhole (open_temp 8) t before-IsWhole opens.0)
              next.0,
          (rw (run->>= dir.handle (open_temp 8) (after_open name content) t) next.1),
        )

    start : IsBefore s
    start = record { at_name = refl; at_other = refl }

    component-AllGood :
        (single : Bool) → AllGood (or_fail single (open_temp 8 >>= after_open name content)) s
    unfolding AllGood run
    component-AllGood false = (before-IsWhole s start, inl refl)
    component-AllGood true = opened-AllGood s start

    -- A name that is no temporary name: in every state that durableReplace passes through, its file has the
    -- content it had at the start or the whole new content, and every other file that has no temporary
    -- name is as it was; and when durableReplace reports success the file has the new content.
    pub durable_replace-IsWhole :
        Always dir.handle IsWhole (durable_replace name content) s
        × (((run dir.handle (durable_replace name content) s).0 ≡ false)
            ⊎ (dir.entry (run dir.handle (durable_replace name content) s).1 name ≡ some content))
    unfolding durable_replace AllGood
    durable_replace-IsWhole = component-AllGood (is_single_component name)
