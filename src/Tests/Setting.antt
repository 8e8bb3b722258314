-- ===== src/Tests/Setting.antt =====
-- A concrete Qt for the tests, with the laws that the theorems ask for, and sample data.
use mathlib.Core.List.{append-nil}
use kde_nasmount.Prelude.{
  ◌≢◌, ℕ, ◌<◌, false, ◌&&◌, ◌||◌, [], ◌∷◌, ◌++◌, ◌≡◌, refl, arith, leb, ◌==◌, if◌then◌else◌, ◌∙◌,
}
use kde_nasmount.Qt.{Qt, QtLaws}
use kde_nasmount.Text.{Text, codes, contains, ends_with, chop_end}
use kde_nasmount.Text.Laws.{contains-append, ends_with-append}
use kde_nasmount.UnitValue.Access.{credentials, guest, read_write, read_only}
use kde_nasmount.UnitValue.Marker.{Marker, IsValidMarker, is_valid_share_id}

abbrev escaped_unit : ℕ → Text
escaped_unit c =
    if c == b'<'
    then codes "&lt;"
    else if c == b'>'
    then codes "&gt;"
    else if c == b'&'
    then codes "&amp;"
    else if c == b'"'
    then codes "&quot;"
    else c ∷ []

unfoldable pub escape_html : Text → Text
escape_html [] = []
escape_html (c ∷ t) = escaped_unit c ++ escape_html t

abbrev pub qt : Qt
qt = record {
  is_space = λ c. c == b' ' || ((leb 9 c && leb c 13) || (c == 0x85 || c == 0xA0));
  html_escaped = escape_html;
  clean_path = chop_end b'/';
}

escaped_unit_lacks : (c d : ℕ) → d < 32 → (c == d) ≡ false → contains (escaped_unit c) d ≡ false
unfolding contains
escaped_unit_lacks c d h n = ground arith

escape_html_lacks :
    (t : Text) (d : ℕ) → d < 32 → contains t d ≡ false → contains (escape_html t) d ≡ false
unfolding escape_html contains
escape_html_lacks [] d h n = refl
escape_html_lacks (c ∷ t) d h n =
    contains-append (escaped_unit c) (escape_html t) d
    ∙ ground (arith, escaped_unit_lacks c d h, escape_html_lacks t d h)

escaped_unit_end : (c : ℕ) → (c == b'\\') ≡ false → ends_with (escaped_unit c) b'\\' ≡ false
unfolding ends_with
escaped_unit_end c n = ground arith

escape_html_filled : (c : ℕ) (t : Text) → escape_html (c ∷ t) ≢ []
unfolding escape_html
escape_html_filled c t e = ground arith

escape_html_end : (t : Text) → ends_with t b'\\' ≡ false → ends_with (escape_html t) b'\\' ≡ false
unfolding escape_html ends_with
escape_html_end [] h = refl
escape_html_end (c ∷ []) h = rw append-nil (escaped_unit_end c h)
escape_html_end (c ∷ d ∷ t) h =
    ends_with-append (escaped_unit c) (escape_html (d ∷ t)) b'\\' (escape_html_filled d t)
    ∙ escape_html_end (d ∷ t) h

space_law : (c : ℕ) → c < 128 → qt.is_space c ≡ (c == b' ' || (leb 9 c && leb c 13))
space_law c h = ground arith

pub qt_laws : QtLaws qt
qt_laws = record {
  ascii_space = space_law;
  escaped_lacks = λ t c. escape_html_lacks t c;
  escaped_end = escape_html_end;
}

abbrev pub share_id : Text
share_id = codes "0123456789abcdef0123456789abcdef"

abbrev pub media : Marker
media = record {
  owner_uid = 1000;
  owner_gid = 1000;
  id = share_id;
  authentication = credentials;
  access = read_only;
}

abbrev pub guest_share : Marker
guest_share = record {
  owner_uid = 1001;
  owner_gid = 100;
  id = share_id;
  authentication = guest;
  access = read_write;
}

pub media-IsValidMarker : IsValidMarker media
unfolding is_valid_share_id
media-IsValidMarker = record { uid_fits = omega arith; gid_fits = omega arith; id_valid = refl }

abbrev pub nas : Text
nas = codes "//nas.local/100% Media/films"

abbrev pub mount_dir : Text
mount_dir = codes "/mnt/media 100%"
