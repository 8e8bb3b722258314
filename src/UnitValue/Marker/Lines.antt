-- ===== src/UnitValue/Marker/Lines.antt =====
-- The marker block as the list of its lines.
use mathlib.Core.List.{append_assoc}
use kde_nasmount.Prelude.{ℕ, ◌<◌, ◌^◌, true, false, List, [], ◌∷◌, ◌++◌, ◌≡◌, refl, arith}
use kde_nasmount.Text.{Text, codes, line_feed, contains}
use kde_nasmount.Text.Decimal.{all_units, is_digit, decimal, decimal_digits, digits_lack}
use kde_nasmount.Text.Lines.{AllLack, unlines}
use kde_nasmount.UnitValue.Access.{
  AccessMode, read_write, read_only, read_write_executable, AuthenticationKind, credentials, guest,
}
use kde_nasmount.UnitValue.Marker.{
  Marker, IsValidMarker, is_hex, is_valid_share_id, marker_comment, authentication_text,
  access_line,
}

unfoldable pub access_lines : AccessMode → List Text
access_lines read_write = []
access_lines read_only = codes "# X-Nasmount-Access=readonly" ∷ []
access_lines read_write_executable = codes "# X-Nasmount-Access=readwrite-executable" ∷ []

unfoldable pub marker_lines : Marker → List Text
marker_lines m =
    codes "# X-Nasmount-Managed=1"
    ∷ (codes "# X-Nasmount-Owner-Uid=" ++ decimal m.owner_uid)
    ∷ (codes "# X-Nasmount-Owner-Gid=" ++ decimal m.owner_gid)
    ∷ (codes "# X-Nasmount-Id=" ++ m.id)
    ∷ codes "# X-Nasmount-Mode=system"
    ∷ (codes "# X-Nasmount-Authentication=" ++ authentication_text m.authentication)
    ∷ access_lines m.access

access_line-unlines :
    (a : AccessMode) (rest : Text) → access_line a ++ rest ≡ unlines (access_lines a) rest
unfolding unlines access_lines
access_line-unlines read_write rest = refl
access_line-unlines read_only rest = refl
access_line-unlines read_write_executable rest = refl

pub marker_comment-unlines :
    (m : Marker) (rest : Text) → marker_comment m ++ rest ≡ unlines (marker_lines m) rest
unfolding marker_comment unlines marker_lines
marker_comment-unlines m rest = simp append_assoc (rw (access_line-unlines m.access rest))

hex_lack : (t : Text) (c : ℕ) → all_units is_hex t ≡ true → is_hex c ≡ false → contains t c ≡ false
unfolding contains
hex_lack [] c h n = refl
hex_lack (x ∷ t) c h n = ground (arith, hex_lack t c)

-- A valid id holds hexadecimal digits and nothing else.
pub id-lack :
    (t : Text) (c : ℕ) → is_valid_share_id t ≡ true → is_hex c ≡ false → contains t c ≡ false
unfolding is_valid_share_id
id-lack t c v n = hex_lack t c (ground arith) n

pub decimal-lack : (n c : ℕ) → n < 2 ^ 32 → is_digit c ≡ false → contains (decimal n) c ≡ false
decimal-lack n c h d = digits_lack (decimal n) c (decimal_digits n h) d

access_lines-AllLack : (a : AccessMode) → AllLack line_feed (access_lines a)
unfolding contains access_lines
access_lines-AllLack read_write = tt
access_lines-AllLack read_only = (refl, tt)
access_lines-AllLack read_write_executable = (refl, tt)

authentication_text-lack :
    (k : AuthenticationKind) → contains (authentication_text k) line_feed ≡ false
unfolding contains
authentication_text-lack guest = refl
authentication_text-lack credentials = refl

pub marker_lines-AllLack : (m : Marker) → IsValidMarker m → AllLack line_feed (marker_lines m)
unfolding marker_lines contains
marker_lines-AllLack m v = (
  refl,
  (
    decimal-lack m.owner_uid line_feed v.uid_fits refl,
    (
      decimal-lack m.owner_gid line_feed v.gid_fits refl,
      (
        id-lack m.id line_feed v.id_valid refl,
        (refl, (authentication_text-lack m.authentication, access_lines-AllLack m.access)),
      ),
    ),
  ),
)
