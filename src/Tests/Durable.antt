-- ===== src/Tests/Durable.antt =====
-- Runs and instances for the durable files, on a directory whose writes take two bytes at a time.
use kde_nasmount.Prelude.{
  ℕ, Bool, true, false, Option, none, some, List, [], ◌∷◌, ◌++◌, ◌≡◌, ◌≢◌, ◌⊎◌, refl, ap, ◌∙◌,
  arith,
}
use kde_nasmount.Prelude.Program.{Always, run}
use kde_nasmount.Text.{Text, codes, text_eq, strip_prefix}
use kde_nasmount.Text.Laws.{text_eq_iff}
use kde_nasmount.DurableFs.{
  Call, Answer, Created, opened, exists_already, Unlinked, unlinked, no_entry, not_unlinked,
  random_number, create, write_some, secure, fsync_file, rename, unlink, fsync_directory,
  durable_replace, write_all,
}
use kde_nasmount.DurableFs.Directory.{Directory, DirectoryLaws, OnlyAt, Untouched, take_bytes}
use kde_nasmount.DurableFs.Atomic.{IsWhole, durable_replace-IsWhole}
use kde_nasmount.DurableFs.Writing.{write_all-enough_fuel}
use kde_nasmount.Tests.Disk.{put, put_same, put_other}

abbrev Entries : Type 0
Entries = Text → Option (List ℕ)

abbrev create_at : Entries → Text → Option (List ℕ) → Created × Entries
create_at d n none = (opened, put d n (some []))
create_at d n (some _) = (exists_already, d)

abbrev append_to : Option (List ℕ) → List ℕ → Option (List ℕ)
append_to none bs = some bs
append_to (some old) bs = some (old ++ bs)

abbrev rename_at : Entries → Text → Text → Option (List ℕ) → Bool × Entries
rename_at d n m none = (false, d)
rename_at d n m (some b) = (true, put (put d n none) m (some b))

abbrev unlink_at : Entries → Text → Option (List ℕ) → Unlinked × Entries
unlink_at d n none = (no_entry, d)
unlink_at d n (some _) = (unlinked, put d n none)

abbrev handle : (c : Call) → Entries → Answer c × Entries
handle random_number d = (7, d)
handle (create n) d = create_at d n (d n)
handle (write_some n b) d = (2, put d n (append_to (d n) (take_bytes 2 b)))
handle (secure n) d = (true, d)
handle (fsync_file n) d = (true, d)
handle (rename n m) d = rename_at d n m (d n)
handle (unlink n) d = unlink_at d n (d n)
handle fsync_directory d = (true, d)

abbrev directory : Directory Entries
directory = record { entry = λ d n. d n; handle = handle }

only_put : (d : Entries) (n : Text) (v : Option (List ℕ)) → OnlyAt directory n d (put d n v)
only_put d n v = record { others = λ other h. put_other d n other v h }

untouched : (d : Entries) → Untouched directory d d
untouched d = record { same = λ other. refl }

only_same : (d : Entries) (n : Text) → OnlyAt directory n d d
only_same d n = record { others = λ other h. refl }

create_only_of :
    (d : Entries) (n : Text) (o : Option (List ℕ)) → OnlyAt directory n d (create_at d n o).1
create_only_of d n none = only_put d n (some [])
create_only_of d n (some _) = only_same d n

create_empty_of :
    (d : Entries) (n : Text) (o : Option (List ℕ))
    → (create_at d n o).0 ≡ opened
    → (create_at d n o).1 n ≡ some []
create_empty_of d n none h = put_same d n (some [])
create_empty_of d n (some _) h = cc

rename_moves_of :
    (d : Entries) (n m : Text) (o : Option (List ℕ))
    → (rename_at d n m o).0 ≡ true
    → (rename_at d n m o).1 m ≡ o
rename_moves_of d n m none h = cc
rename_moves_of d n m (some b) h = put_same (put d n none) m (some b)

rename_others_of :
    (d : Entries) (n m other : Text) (o : Option (List ℕ))
    → other ≢ n
    → other ≢ m
    → (rename_at d n m o).1 other ≡ d other
rename_others_of d n m other none hn hm = refl
rename_others_of d n m other (some b) hn hm =
    put_other (put d n none) m other (some b) hm ∙ put_other d n other none hn

rename_fails_of :
    (d : Entries) (n m : Text) (o : Option (List ℕ))
    → (rename_at d n m o).0 ≡ false
    → Untouched directory d (rename_at d n m o).1
rename_fails_of d n m none h = untouched d
rename_fails_of d n m (some b) h = cc

unlink_only_of :
    (d : Entries) (n : Text) (o : Option (List ℕ)) → OnlyAt directory n d (unlink_at d n o).1
unlink_only_of d n none = only_same d n
unlink_only_of d n (some _) = only_put d n none

unlink_gone_of :
    (d : Entries) (n : Text) (o : Option (List ℕ))
    → (unlink_at d n o).0 ≡ unlinked
    → (unlink_at d n o).1 n ≡ none
unlink_gone_of d n none h = cc
unlink_gone_of d n (some _) h = put_same d n none

unlink_missing_of :
    (d : Entries) (n : Text) (o : Option (List ℕ))
    → d n ≡ o
    → (unlink_at d n o).0 ≡ no_entry
    → (unlink_at d n o).1 n ≡ none
unlink_missing_of d n none e h = e
unlink_missing_of d n (some _) e h = cc

unlink_fails_of :
    (d : Entries) (n : Text) (o : Option (List ℕ))
    → (unlink_at d n o).0 ≡ not_unlinked
    → Untouched directory d (unlink_at d n o).1
unlink_fails_of d n none h = cc
unlink_fails_of d n (some _) h = cc

directory_laws : DirectoryLaws directory
directory_laws = record {
  random_same = untouched;
  create_only = λ n d. create_only_of d n (d n);
  create_empty = λ n d h. create_empty_of d n (d n) h;
  write_only = λ n b d. only_put d n (append_to (d n) (take_bytes 2 b));
  write_adds = λ n b before d h.
      put_same d n (append_to (d n) (take_bytes 2 b)) ∙ ap (λ o. append_to o (take_bytes 2 b)) h;
  secure_same = λ n d. untouched d;
  fsync_same = λ n d. untouched d;
  directory_same = untouched;
  rename_moves = λ n m d h. rename_moves_of d n m (d n) h;
  rename_others = λ n m other d hn hm. rename_others_of d n m other (d n) hn hm;
  rename_fails = λ n m d h. rename_fails_of d n m (d n) h;
  unlink_only = λ n d. unlink_only_of d n (d n);
  unlink_gone = λ n d h. unlink_gone_of d n (d n) h;
  unlink_missing = λ n d h. unlink_missing_of d n (d n) refl h;
  unlink_fails = λ n d h. unlink_fails_of d n (d n) h;
}

abbrev old : Entries
old = put (λ n. none) (codes "a.mount") (some (1 ∷ []))

abbrev bytes : List ℕ
bytes = 10 ∷ 20 ∷ 30 ∷ []

replaced :
    (run handle (durable_replace (codes "a.mount") bytes) old).1 (codes "a.mount") ≡ some bytes
unfolding durable_replace run text_eq take_bytes
replaced = refl

distinct_names : codes "b.mount" ≢ codes "a.mount"
unfolding text_eq
distinct_names h = (let e = (text_eq_iff (codes "b.mount") (codes "a.mount")).1 h in cc)

durable_replace-IsWhole_example :
    Always handle
      (IsWhole directory directory_laws
        (codes "a.mount")
        bytes
        (codes "b.mount")
        distinct_names
        old)
      (durable_replace (codes "a.mount") bytes)
      old
    × (((run handle (durable_replace (codes "a.mount") bytes) old).0 ≡ false)
        ⊎ ((run handle (durable_replace (codes "a.mount") bytes) old).1 (codes "a.mount")
            ≡ some bytes))
unfolding strip_prefix
durable_replace-IsWhole_example =
    durable_replace-IsWhole directory directory_laws (codes "a.mount") bytes (codes "b.mount")
      distinct_names old refl refl

write_all-enough_fuel_example :
    run handle (write_all 3 (codes "t") bytes) old ≡ run handle (write_all 9 (codes "t") bytes) old
write_all-enough_fuel_example =
    write_all-enough_fuel directory directory_laws 3 9 (codes "t") bytes old (omega arith)
      (omega arith)
