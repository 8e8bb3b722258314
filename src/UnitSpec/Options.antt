-- ===== src/UnitSpec/Options.antt =====
-- mountOptions, credentialDirectory, credentialPathFor and mountOptionsFor.
pub mod Terms
pub mod Injective
use kde_nasmount.Prelude.{ℕ, List, [], ◌∷◌, ◌++◌, if◌then◌else◌}
use kde_nasmount.Text.{Text, codes, is_empty, join}
use kde_nasmount.Text.Decimal.{decimal}
use kde_nasmount.UnitValue.Access.{
  AuthenticationKind, credentials, guest, AccessMode, read_write, read_only, read_write_executable,
}
use kde_nasmount.UnitValue.Marker.{Marker}

-- The last `switch`: `ro` and the permission bits.
abbrev pub access_terms : AccessMode → List Text
access_terms read_write = codes "file_mode=0600" ∷ codes "dir_mode=0700" ∷ []
access_terms read_only = codes "ro" ∷ codes "file_mode=0400" ∷ codes "dir_mode=0500" ∷ []
access_terms read_write_executable = codes "file_mode=0700" ∷ codes "dir_mode=0700" ∷ []

abbrev pub credential_term : Text → Text
credential_term cred_path =
    if is_empty cred_path then codes "guest" else codes "credentials=" ++ cred_path

-- `opts` before it is joined
unfoldable pub mount_terms : ℕ → ℕ → Text → AccessMode → List Text
unfolding decimal
mount_terms uid gid cred_path access =
    credential_term cred_path
    ∷ codes "nosuid"
    ∷ codes "nodev"
    ∷ codes "forceuid"
    ∷ codes "forcegid"
    ∷ (codes "uid=" ++ decimal uid)
    ∷ (codes "gid=" ++ decimal gid)
    ∷ codes "nounix"
    ∷ codes "iocharset=utf8"
    ∷ access_terms access

unfoldable pub mount_options : ℕ → ℕ → Text → AccessMode → Text
unfolding mount_terms join
mount_options uid gid cred_path access = join (codes ",") (mount_terms uid gid cred_path access)

abbrev pub credential_directory : Text
credential_directory = codes "/etc/nasmount"

unfoldable pub credential_path_for : Text → Text
credential_path_for id = credential_directory ++ (codes "/" ++ (id ++ codes ".cred"))

abbrev pub cred_path_of : AuthenticationKind → Text → Text
cred_path_of guest id = []
cred_path_of credentials id = credential_path_for id

unfoldable pub mount_options_for : Marker → Text
unfolding mount_options credential_path_for
mount_options_for m =
    mount_options m.owner_uid m.owner_gid (cred_path_of m.authentication m.id) m.access
