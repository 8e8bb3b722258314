-- ===== src/Operations/Identifier.antt =====
-- shareIdInUse and generateUniqueShareId.
pub mod Valid
use kde_nasmount.Prelude.{
  ℕ, zero, suc, ◌+◌, ◌-◌, ◌/◌, ◌%◌, Bool, true, false, ◌||◌, Option, none, some, List, [], ◌∷◌,
  ◌++◌, ltb, if◌then◌else◌, ok, err,
}
use kde_nasmount.Prelude.Program.{Program, ret, ◌>>=◌, perform}
use kde_nasmount.Text.{Text, text_eq}
use kde_nasmount.UnitValue.Marker.{parse_marker}
use kde_nasmount.Credentials.{assert_absent}
use kde_nasmount.Operations.{Call, Answer, random_number, unit_contents, stored}

hex_digit : ℕ → ℕ
hex_digit d = if ltb d 10 then b'0' + d else b'a' + (d - 10)

hex_onto : ℕ → ℕ → Text → Text
unfolding hex_digit
hex_onto zero n acc = acc
hex_onto (suc digits) n acc = hex_onto digits (n / 16) (hex_digit (n % 16) ∷ acc)

-- arg(n, 16, 16, '0') for a number below 2 ^ 64, which has no more than sixteen digits
unfoldable pub hex_field : ℕ → Text
unfolding hex_onto
hex_field n = hex_onto 16 n []

claims_id : Text → Option Text → Bool
unfolding parse_marker text_eq
claims_id id none = false
claims_id id (some content) = elim (parse_marker content) [ err _ ↦ false | ok m ↦ text_eq m.id id ]

unfoldable pub any_claims : Text → List (Option Text) → Bool
unfolding claims_id
any_claims id [] = false
any_claims id (c ∷ cs) = claims_id id c || any_claims id cs

unfoldable pub used_when : Text → Bool → Program Call Answer Bool
used_when id false = ret true
used_when id true = do contents ← perform unit_contents; ret (any_claims id contents)

unfoldable pub share_id_in_use : Text → Program Call Answer Bool
unfolding stored assert_absent any_claims used_when
share_id_in_use id = do absent ← stored (assert_absent id); used_when id absent

unfoldable pub attempt : ℕ → Program Call Answer (Option Text)
unfolding hex_field share_id_in_use
attempt zero = ret none
attempt (suc left) = do
  high ← perform random_number
  low ← perform random_number
  used ← share_id_in_use (hex_field high ++ hex_field low)
  elim used [ true ↦ attempt left | false ↦ ret (some (hex_field high ++ hex_field low)) ]

unfoldable pub generate_unique_share_id : Program Call Answer (Option Text)
unfolding attempt
generate_unique_share_id = attempt 8
