-- ===== src/UnitValue/Access.antt =====
-- AuthenticationKind and AccessMode, and the one spelling of an access mode.
use kde_nasmount.Prelude.{Option, none, some, ◌≡◌, refl, arith, if◌then◌else◌}
use kde_nasmount.Text.{Text, codes, text_eq}
use kde_nasmount.Text.Laws.{text_eq_iff}

pub data AuthenticationKind : Type 0 where
  credentials guest : AuthenticationKind

pub data AccessMode : Type 0 where
  read_write read_only read_write_executable : AccessMode

unfoldable pub access_mode_to_string : AccessMode → Text
access_mode_to_string read_only = codes "readonly"
access_mode_to_string read_write_executable = codes "readwrite-executable"
access_mode_to_string read_write = codes "readwrite"

-- `none` is the result `false`
unfoldable pub access_mode_from_string : Text → Option AccessMode
unfolding text_eq
access_mode_from_string text =
    if text_eq text (codes "readwrite")
    then some read_write
    else if text_eq text (codes "readonly")
    then some read_only
    else if text_eq text (codes "readwrite-executable")
    then some read_write_executable
    else none

-- Every access mode is read back from its spelling.
pub from_string-to_string :
    (access : AccessMode) → access_mode_from_string (access_mode_to_string access) ≡ some access
unfolding access_mode_from_string access_mode_to_string
from_string-to_string read_write = refl
from_string-to_string read_only = refl
from_string-to_string read_write_executable = refl

-- A text that is read as an access mode is the spelling of that mode: the decoder accepts nothing
-- else, the empty text included.
pub to_string-from_string :
    (text : Text) (access : AccessMode)
    → access_mode_from_string text ≡ some access
    → access_mode_to_string access ≡ text
unfolding access_mode_from_string access_mode_to_string
to_string-from_string text access h = ground (
  arith,
  text_eq_iff text (codes "readwrite"),
  text_eq_iff text (codes "readonly"),
  text_eq_iff text (codes "readwrite-executable"),
)
