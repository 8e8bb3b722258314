-- ===== src/DurableFs/Directory.antt =====
-- The directory that the system calls act on, with what they are documented to do.
use kde_nasmount.Prelude.{
  ℕ, ◌-◌, ◌==◌, if◌then◌else◌, true, false, Option, none, some, List, [], ◌∷◌, ◌++◌, ◌≡◌, ◌≢◌,
}
use kde_nasmount.Text.{Text}
use kde_nasmount.DurableFs.{
  opened, unlinked, no_entry, not_unlinked, Call, Answer, random_number, create, write_some, secure,
  fsync_file, rename, unlink, fsync_directory,
}

pub record Directory (S : Type 0) : Type 0 where
  -- the content of the file of a name
  pub entry : S → Text → Option (List ℕ)
  pub handle : (c : Call) → S → Answer c × S

unfoldable pub take_bytes : ℕ → List ℕ → List ℕ
take_bytes n [] = []
take_bytes n (b ∷ bs) = let rest = take_bytes (n - 1) bs in if n == 0 then [] else b ∷ rest

module _ {S : Type 0} (dir : Directory S) where
  -- at most the entry of one name has changed
  pub record OnlyAt (name : Text) (s t : S) : Type 0 where
    pub others : (other : Text) → other ≢ name → dir.entry t other ≡ dir.entry s other

  pub record Untouched (s t : S) : Type 0 where
    pub same : (other : Text) → dir.entry t other ≡ dir.entry s other

  pub record DirectoryLaws : Type 0 where
    pub random_same : (s : S) → Untouched s (dir.handle random_number s).1
    pub create_only : (n : Text) (s : S) → OnlyAt n s (dir.handle (create n) s).1
    -- O_EXCL makes an empty file
    pub create_empty :
        (n : Text) (s : S)
        → (dir.handle (create n) s).0 ≡ opened
        → dir.entry (dir.handle (create n) s).1 n ≡ some []
    pub write_only : (n : Text) (b : List ℕ) (s : S) → OnlyAt n s (dir.handle (write_some n b) s).1
    pub write_adds :
        (n : Text) (b before : List ℕ) (s : S)
        → dir.entry s n ≡ some before
        → dir.entry (dir.handle (write_some n b) s).1 n
          ≡ some (before ++ take_bytes (dir.handle (write_some n b) s).0 b)
    pub secure_same : (n : Text) (s : S) → Untouched s (dir.handle (secure n) s).1
    pub fsync_same : (n : Text) (s : S) → Untouched s (dir.handle (fsync_file n) s).1
    pub directory_same : (s : S) → Untouched s (dir.handle fsync_directory s).1
    -- rename puts the file under the new name in one step
    pub rename_moves :
        (n m : Text) (s : S)
        → (dir.handle (rename n m) s).0 ≡ true
        → dir.entry (dir.handle (rename n m) s).1 m ≡ dir.entry s n
    pub rename_others :
        (n m other : Text) (s : S)
        → other ≢ n
        → other ≢ m
        → dir.entry (dir.handle (rename n m) s).1 other ≡ dir.entry s other
    pub rename_fails :
        (n m : Text) (s : S)
        → (dir.handle (rename n m) s).0 ≡ false
        → Untouched s (dir.handle (rename n m) s).1
    pub unlink_only : (n : Text) (s : S) → OnlyAt n s (dir.handle (unlink n) s).1
    pub unlink_gone :
        (n : Text) (s : S)
        → (dir.handle (unlink n) s).0 ≡ unlinked
        → dir.entry (dir.handle (unlink n) s).1 n ≡ none
    pub unlink_missing :
        (n : Text) (s : S)
        → (dir.handle (unlink n) s).0 ≡ no_entry
        → dir.entry (dir.handle (unlink n) s).1 n ≡ none
    pub unlink_fails :
        (n : Text) (s : S)
        → (dir.handle (unlink n) s).0 ≡ not_unlinked
        → Untouched s (dir.handle (unlink n) s).1
