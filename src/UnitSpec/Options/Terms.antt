-- ===== src/UnitSpec/Options/Terms.antt =====
-- The option string as the list of its terms, as mount.cifs reads it.
use kde_nasmount.Prelude.{ℕ, Bool, true, false, List, ◌≡◌, refl, ◌∙◌}
use kde_nasmount.Text.{Text, codes, contains, list_contains}
use kde_nasmount.Text.Laws.{contains-append}
use kde_nasmount.Text.Split.{split}
use kde_nasmount.UnitValue.Access.{
  AuthenticationKind, credentials, guest, AccessMode, read_write, read_only, read_write_executable,
}
use kde_nasmount.UnitValue.Marker.{Marker, IsValidMarker, is_valid_share_id}
use kde_nasmount.Text.Lines.{AllLack, split-join}
use kde_nasmount.UnitValue.Marker.Lines.{id-lack, decimal-lack}
use kde_nasmount.UnitSpec.Options.{
  mount_terms, mount_options_for, access_terms, credential_path_for, cred_path_of, credential_term,
}

credential_term-lack :
    (k : AuthenticationKind) (id : Text)
    → is_valid_share_id id ≡ true
    → contains (credential_term (cred_path_of k id)) b',' ≡ false
unfolding credential_path_for contains
credential_term-lack guest id v = refl
credential_term-lack credentials id v =
    contains-append id (codes ".cred") b',' ∙ rw (id-lack id b',' v refl)

access_terms-AllLack : (a : AccessMode) → AllLack b',' (access_terms a)
unfolding contains
access_terms-AllLack read_write = (refl, (refl, tt))
access_terms-AllLack read_only = (refl, (refl, (refl, tt)))
access_terms-AllLack read_write_executable = (refl, (refl, tt))

terms_of : Marker → List Text
terms_of m = mount_terms m.owner_uid m.owner_gid (cred_path_of m.authentication m.id) m.access

terms_of-AllLack : (m : Marker) → IsValidMarker m → AllLack b',' (terms_of m)
unfolding terms_of mount_terms contains
terms_of-AllLack m v = (
  credential_term-lack m.authentication m.id v.id_valid,
  (
    refl,
    (
      refl,
      (
        refl,
        (
          refl,
          (
            decimal-lack m.owner_uid b',' v.uid_fits refl,
            (
              decimal-lack m.owner_gid b',' v.gid_fits refl,
              (refl, (refl, access_terms-AllLack m.access)),
            ),
          ),
        ),
      ),
    ),
  ),
)

-- Splitting the option string at its commas gives the terms back: no term can be cut in two or
-- smuggle in another one.
pub split-mount_options_for :
    (m : Marker)
    → IsValidMarker m
    → split b',' (mount_options_for m)
      ≡ mount_terms m.owner_uid m.owner_gid (cred_path_of m.authentication m.id) m.access
unfolding mount_options_for terms_of
split-mount_options_for m v = split-join b',' _ _ (terms_of-AllLack m v)

abbrev pub is_read_only : AccessMode → Bool
is_read_only read_only = true
is_read_only _ = false

abbrev pub is_guest : AuthenticationKind → Bool
is_guest guest = true
is_guest credentials = false

terms_hardened :
    (uid gid : ℕ) (k : AuthenticationKind) (id : Text) (a : AccessMode)
    → (list_contains (mount_terms uid gid (cred_path_of k id) a) (codes "nosuid") ≡ true)
      × (list_contains (mount_terms uid gid (cred_path_of k id) a) (codes "nodev") ≡ true)
      × (list_contains (mount_terms uid gid (cred_path_of k id) a) (codes "forceuid") ≡ true)
      × (list_contains (mount_terms uid gid (cred_path_of k id) a) (codes "forcegid") ≡ true)
      × (list_contains (mount_terms uid gid (cred_path_of k id) a) (codes "nounix") ≡ true)
      × (list_contains (mount_terms uid gid (cred_path_of k id) a) (codes "suid") ≡ false)
      × (list_contains (mount_terms uid gid (cred_path_of k id) a) (codes "dev") ≡ false)
      × (list_contains (mount_terms uid gid (cred_path_of k id) a) (codes "ro") ≡ is_read_only a)
      × (list_contains (mount_terms uid gid (cred_path_of k id) a) (codes "guest") ≡ is_guest k)
unfolding mount_terms list_contains credential_path_for
terms_hardened uid gid guest id read_write = (refl, refl, refl, refl, refl, refl, refl, refl, refl)
terms_hardened uid gid guest id read_only = (refl, refl, refl, refl, refl, refl, refl, refl, refl)
terms_hardened uid gid guest id read_write_executable =
    (refl, refl, refl, refl, refl, refl, refl, refl, refl)
terms_hardened uid gid credentials id read_write =
    (refl, refl, refl, refl, refl, refl, refl, refl, refl)
terms_hardened uid gid credentials id read_only =
    (refl, refl, refl, refl, refl, refl, refl, refl, refl)
terms_hardened uid gid credentials id read_write_executable =
    (refl, refl, refl, refl, refl, refl, refl, refl, refl)

-- The option `term` stands in the option string of a marker's unit.
pub has_option : Marker → Text → Bool
has_option m term = list_contains (split b',' (mount_options_for m)) term

-- For every valid marker the mount is nosuid and nodev, ownership is forced and the server's modes
-- are refused, and no option takes nosuid or nodev back; it is read-only exactly in the mode for
-- that, and a guest mount exactly for guest authentication.
pub mount_options_for_hardened :
    (m : Marker)
    → IsValidMarker m
    → (has_option m (codes "nosuid") ≡ true)
      × (has_option m (codes "nodev") ≡ true)
      × (has_option m (codes "forceuid") ≡ true)
      × (has_option m (codes "forcegid") ≡ true)
      × (has_option m (codes "nounix") ≡ true)
      × (has_option m (codes "suid") ≡ false)
      × (has_option m (codes "dev") ≡ false)
      × (has_option m (codes "ro") ≡ is_read_only m.access)
      × (has_option m (codes "guest") ≡ is_guest m.authentication)
unfolding has_option
mount_options_for_hardened m v =
    rw (split-mount_options_for m v)
      (terms_hardened m.owner_uid m.owner_gid m.authentication m.id m.access)
