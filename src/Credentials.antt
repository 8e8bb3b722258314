-- ===== src/Credentials.antt =====
-- root/credentialstore.h and root/credentialstore.cpp: the credential file of a share. The error
-- messages are left out; a result is whether the operation succeeded.
pub mod Content
use kde_nasmount.Prelude.{
  ℕ, ◌+◌, ◌*◌, ◌<◌, Bool, true, false, not, ◌&&◌, ◌||◌, List, [], ◌∷◌, ◌++◌, ◌≡◌, ltb,
  if◌then◌else◌, Result, ok, err,
}
use kde_nasmount.Prelude.Program.{Program, ret, call, ◌>>=◌, perform, or_fail}
use kde_nasmount.Text.{Text, codes, is_empty}
use kde_nasmount.UnitValue.Encode.{has_control_chars}
use kde_nasmount.UnitValue.Marker.{is_valid_share_id}

-- QString::toUtf8, and what UTF-8 says of the units below 128.
pub record Utf8 : Type 0 where
  pub to_utf8 : Text → List ℕ

pub record Utf8Laws (enc : Utf8) : Type 0 where
  pub nil : enc.to_utf8 [] ≡ []
  pub ascii : (c : ℕ) (t : Text) → c < 128 → enc.to_utf8 (c ∷ t) ≡ c ∷ enc.to_utf8 t
  pub before_ascii :
      (t : Text) (c : ℕ) (u : Text)
      → c < 128
      → enc.to_utf8 (t ++ (c ∷ u)) ≡ enc.to_utf8 t ++ enc.to_utf8 (c ∷ u)

abbrev pub size : List ℕ → ℕ
size [] = 0
size (_ ∷ bs) = size bs + 1

abbrev pub max_credential_field_bytes : ℕ
max_credential_field_bytes = 4096

abbrev pub max_credential_file_bytes : ℕ
max_credential_file_bytes = 3 * max_credential_field_bytes + 256

-- The calls of DurableFs on /etc/nasmount, and openat of one entry of it.
pub data Call : Type 0 where
  open_directory : Call
  replace_file : Text → List ℕ → Call
  unlink_file : Text → Call
  open_file : Text → Call

-- openat: ENOENT, another error, or a descriptor with the outcome of verifyDescriptor
pub data Opening : Type 0 where
  no_entry refused : Opening
  descriptor : Bool → Opening

abbrev pub Answer : Call → Type 0
Answer open_directory = Bool
Answer (replace_file _ _) = Bool
Answer (unlink_file _) = Bool
Answer (open_file _) = Opening

unfoldable pub file_name_for : Text → Text
file_name_for id = id ++ codes ".cred"

abbrev pub line_of : Text → Text → Text
line_of key value = key ++ (value ++ codes "\n")

abbrev pub optional_line : Text → Text → Text
optional_line key value = if is_empty value then [] else line_of key value

unfoldable pub credential_content : Text → Text → Text → Text
credential_content username domain password =
    line_of (codes "username=") username
    ++ (optional_line (codes "password=") password ++ optional_line (codes "domain=") domain)

module _ (enc : Utf8) where
  unfoldable pub validate_fields : Text → Text → Text → Bool
  unfolding has_control_chars
  validate_fields username domain password =
      if has_control_chars username || (has_control_chars domain || has_control_chars password)
      then false
      else if ltb max_credential_field_bytes (size (enc.to_utf8 username))
          || (ltb max_credential_field_bytes (size (enc.to_utf8 domain))
              || ltb max_credential_field_bytes (size (enc.to_utf8 password)))
      then false
      else not (not (is_empty username) && is_empty password)

  -- the bytes to be written, when everything that can be checked before is right
  unfoldable pub credential_bytes : Text → Text → Text → Text → Result (Unit {0}) (List ℕ)
  unfolding is_valid_share_id validate_fields credential_content
  credential_bytes id username domain password =
      if not (is_valid_share_id id)
      then err tt
      else if not (validate_fields username domain password)
      then err tt
      else if ltb max_credential_file_bytes
          (size (enc.to_utf8 (credential_content username domain password)))
      then err tt
      else ok (enc.to_utf8 (credential_content username domain password))

  unfoldable pub replace_in_directory : Text → Result (Unit {0}) (List ℕ) → Program Call Answer Bool
  unfolding file_name_for
  replace_in_directory id (err _) = ret false
  replace_in_directory id (ok bytes) = do
    opened ← perform open_directory
    or_fail opened (perform (replace_file (file_name_for id) bytes))

  unfoldable pub write : Text → Text → Text → Text → Program Call Answer Bool
  unfolding credential_bytes replace_in_directory
  write id username domain password =
      replace_in_directory id (credential_bytes id username domain password)

-- remove, always called with allowMissing
unfoldable pub remove : Text → Program Call Answer Bool
unfolding is_valid_share_id file_name_for
remove id =
    or_fail (is_valid_share_id id) (do
      opened ← perform open_directory
      or_fail opened (perform (unlink_file (file_name_for id))))

abbrev pub is_verified : Opening → Bool
is_verified (descriptor verified) = verified
is_verified _ = false

abbrev pub is_no_entry : Opening → Bool
is_no_entry no_entry = true
is_no_entry _ = false

unfoldable pub with_file : Text → (Opening → Bool) → Program Call Answer Bool
unfolding is_valid_share_id file_name_for
with_file id answer = or_fail (is_valid_share_id id) (do
  opened ← perform open_directory
  or_fail opened (do file ← perform (open_file (file_name_for id)); ret (answer file)))

unfoldable pub healthy : Text → Program Call Answer Bool
unfolding with_file
healthy id = with_file id is_verified

unfoldable pub assert_absent : Text → Program Call Answer Bool
unfolding with_file
assert_absent id = with_file id is_no_entry
