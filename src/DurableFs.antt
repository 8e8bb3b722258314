-- ===== src/DurableFs.antt =====
-- root/durablefs.cpp: durableReplace and durableUnlink as programs of system calls on one directory. The
-- mode and the owner of the file are left to one call.
pub mod Directory
pub mod Writing
pub mod Atomic
use kde_nasmount.Prelude.{
  ℕ, zero, suc, ◌-◌, Bool, true, false, not, ◌&&◌, ◌||◌, Option, none, some, List, [], ◌∷◌, ◌++◌,
  ◌==◌, if◌then◌else◌,
}
use kde_nasmount.Prelude.Program.{Program, ret, call, ◌>>=◌, perform, or_fail}
use kde_nasmount.Text.{Text, codes, text_eq, is_empty, contains}
use kde_nasmount.Credentials.{size}
use kde_nasmount.Operations.Identifier.{hex_field}

-- openat with O_CREAT and O_EXCL: a descriptor, EEXIST, or another error
pub data Created : Type 0 where
  opened exists_already not_created : Created

-- unlinkat: 0, ENOENT, or another error
pub data Unlinked : Type 0 where
  unlinked no_entry not_unlinked : Unlinked

pub data Call : Type 0 where
  random_number : Call
  create : Text → Call
  -- write(2) on the file of a name, with how many bytes it took; 0 for an error
  write_some : Text → List ℕ → Call
  -- fchown and fchmod
  secure : Text → Call
  fsync_file : Text → Call
  rename : Text → Text → Call
  unlink : Text → Call
  fsync_directory : Call

abbrev pub Answer : Call → Type 0
Answer random_number = ℕ
Answer (create _) = Created
Answer (write_some _ _) = ℕ
Answer (secure _) = Bool
Answer (fsync_file _) = Bool
Answer (rename _ _) = Bool
Answer (unlink _) = Unlinked
Answer fsync_directory = Bool

unfoldable pub is_single_component : Text → Bool
unfolding text_eq contains
is_single_component name =
    not (is_empty name)
    && (not (contains name b'/')
        && (not (text_eq name (codes ".")) && not (text_eq name (codes ".."))))

abbrev pub temp_prefix : Text
temp_prefix = codes ".nasmount-tmp-"

unfoldable pub drop_bytes : ℕ → List ℕ → List ℕ
drop_bytes n [] = []
drop_bytes n (b ∷ bs) = let rest = drop_bytes (n - 1) bs in if n == 0 then b ∷ bs else rest

-- at most eight names are tried; none for a failure
unfoldable pub open_temp : ℕ → Program Call Answer (Option Text)
unfolding hex_field
open_temp zero = ret none
open_temp (suc left) = do
  r ← perform random_number
  created ← perform (create (temp_prefix ++ hex_field r))
  elim created [
    | opened ↦ ret (some (temp_prefix ++ hex_field r))
    | exists_already ↦ open_temp left
    | not_created ↦ ret none
  ]

-- the loop over short writes; the first argument is fuel
unfoldable pub write_all : ℕ → Text → List ℕ → Program Call Answer Bool
unfolding drop_bytes
write_all fuel tmp [] = ret true
write_all zero tmp (b ∷ bs) = ret false
write_all (suc fuel) tmp (b ∷ bs) =
    call (write_some tmp (b ∷ bs))
      (λ n. if n == 0 then ret false else write_all fuel tmp (drop_bytes n (b ∷ bs)))

-- the lambda `abandon`
abandon : Text → Program Call Answer Bool
abandon tmp = call (unlink tmp) (λ _. ret false)

after_rename : Text → Bool → Program Call Answer Bool
unfolding abandon
after_rename tmp true = perform fsync_directory
after_rename tmp false = abandon tmp

after_sync : Text → Text → Bool → Program Call Answer Bool
unfolding abandon after_rename
after_sync name tmp true = call (rename tmp name) (after_rename tmp)
after_sync name tmp false = abandon tmp

after_secure : Text → Text → Bool → Program Call Answer Bool
unfolding abandon after_sync
after_secure name tmp true = call (fsync_file tmp) (after_sync name tmp)
after_secure name tmp false = abandon tmp

after_write : Text → Text → Bool → Program Call Answer Bool
unfolding abandon after_secure
after_write name tmp true = call (secure tmp) (after_secure name tmp)
after_write name tmp false = abandon tmp

after_open : Text → List ℕ → Option Text → Program Call Answer Bool
unfolding write_all after_write
after_open name content none = ret false
after_open name content (some tmp) = write_all (size content) tmp content >>= after_write name tmp

unfoldable pub durable_replace : Text → List ℕ → Program Call Answer Bool
unfolding is_single_component open_temp after_open
durable_replace name content =
    or_fail (is_single_component name) (open_temp 8 >>= after_open name content)

after_unlink : Bool → Unlinked → Program Call Answer Bool
after_unlink allow_missing unlinked = perform fsync_directory
after_unlink allow_missing no_entry = ret allow_missing
after_unlink allow_missing not_unlinked = ret false

unfoldable pub durable_unlink : Text → Bool → Program Call Answer Bool
unfolding is_single_component after_unlink
durable_unlink name allow_missing =
    or_fail (is_single_component name) (call (unlink name) (after_unlink allow_missing))
