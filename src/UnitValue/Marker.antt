-- ===== src/UnitValue/Marker.antt =====
-- The marker block: Marker, fieldSpecs, isValidShareId, markerComment, hasMarker, parseMarker.
pub mod Lines
pub mod RoundTrip
pub mod Spec
pub mod Sound
pub mod Valid
pub mod Present
use kde_nasmount.Prelude.{
  ℕ, ◌+◌, ◌<◌, ◌^◌, Bool, true, false, not, ◌&&◌, ◌||◌, Option, none, some, List, [], ◌∷◌, ◌++◌,
  ◌≡◌, leb, ◌==◌, if◌then◌else◌, Result, ok, err, ◌>>=◌, ◌>>◌,
}
use kde_nasmount.Text.{
  Text, codes, line_feed, is_empty, text_eq, strip_prefix, starts_with, list_contains,
}
use kde_nasmount.Text.Decimal.{is_digit, all_units, decimal, to_uint}
use kde_nasmount.Text.Split.{split}
use kde_nasmount.UnitValue.Access.{
  AuthenticationKind, credentials, guest, AccessMode, read_write, read_only, read_write_executable,
  access_mode_from_string,
}

pub record Marker : Type 0 where
  pub owner_uid : ℕ
  pub owner_gid : ℕ
  pub id : Text
  pub authentication : AuthenticationKind
  pub access : AccessMode

abbrev pub length : Text → ℕ
length [] = 0
length (_ ∷ t) = length t + 1

abbrev pub is_hex : ℕ → Bool
is_hex u = is_digit u || (leb b'a' u && leb u b'f')

unfoldable pub is_valid_share_id : Text → Bool
is_valid_share_id id = length id == 32 && all_units is_hex id

abbrev pub marker_prefix : Text
marker_prefix = codes "# X-Nasmount-"

-- The entries of fieldSpecs, in their order.
pub data Field : Type 0 where
  managed owner_uid owner_gid id mode authentication access : Field

abbrev pub field_specs : List Field
field_specs =
    Field.managed ∷ Field.owner_uid ∷ Field.owner_gid ∷ Field.id ∷ Field.mode ∷ Field.authentication
    ∷ Field.access ∷ []

abbrev pub field_key : Field → Text
field_key Field.managed = codes "Managed"
field_key Field.owner_uid = codes "Owner-Uid"
field_key Field.owner_gid = codes "Owner-Gid"
field_key Field.id = codes "Id"
field_key Field.mode = codes "Mode"
field_key Field.authentication = codes "Authentication"
field_key Field.access = codes "Access"

abbrev pub field_required : Field → Bool
field_required Field.access = false
field_required _ = true

-- The group of the field's expression: what may stand between "=" and the end of the line.
unfoldable pub field_value_matches : Field → Text → Bool
unfolding text_eq is_valid_share_id list_contains
field_value_matches Field.managed v = text_eq v (codes "1")
field_value_matches Field.owner_uid v = not (is_empty v) && all_units is_digit v
field_value_matches Field.owner_gid v = not (is_empty v) && all_units is_digit v
field_value_matches Field.id v = is_valid_share_id v
field_value_matches Field.mode v = text_eq v (codes "system")
field_value_matches Field.authentication v =
    list_contains (codes "credentials" ∷ codes "guest" ∷ []) v
field_value_matches Field.access v =
    list_contains (codes "readwrite-executable" ∷ codes "readwrite" ∷ codes "readonly" ∷ []) v

checked_value : Field → Option Text → Option Text
checked_value f none = none
checked_value f (some v) = if field_value_matches f v then some v else none

-- `spec.pattern.match(line)`, with the text that the group captures
unfoldable pub field_match : Field → Text → Option Text
unfolding field_value_matches strip_prefix checked_value
field_match f line =
    checked_value f (strip_prefix (marker_prefix ++ (field_key f ++ codes "=")) line)

-- the inner loop up to its `break`
unfoldable pub first_match : List Field → Text → Option (Field × Text)
unfolding field_match
first_match [] line = none
first_match (f ∷ fs) line =
    let rest = first_match fs line in
    elim (field_match f line) [ none ↦ rest | some v ↦ some (f, v) ]

-- The local variables of parseMarker.
pub record Scan : Type 0 where
  pub seen : List Text
  pub owner_uid_value : Text
  pub owner_gid_value : Text
  pub id_value : Text
  pub auth_value : Text
  pub access_value : Text

abbrev pub empty_scan : Scan
empty_scan = record {
  seen = [];
  owner_uid_value = [];
  owner_gid_value = [];
  id_value = [];
  auth_value = [];
  access_value = [];
}

pub data MarkerError : Type 0 where
  duplicate_field missing_field : Field → MarkerError
  unknown_or_malformed : Text → MarkerError
  invalid_owner_uid invalid_owner_gid invalid_access : MarkerError

unfoldable pub store_value : Field → Text → Scan → Scan
store_value Field.owner_uid v s = record s { owner_uid_value = v }
store_value Field.owner_gid v s = record s { owner_gid_value = v }
store_value Field.id v s = record s { id_value = v }
store_value Field.authentication v s = record s { auth_value = v }
store_value Field.access v s = record s { access_value = v }
store_value _ v s = s

accept : Text → Option (Field × Text) → Scan → Result MarkerError Scan
accept line none s = err (unknown_or_malformed line)
accept line (some (f, v)) s =
    if list_contains s.seen (field_key f)
    then err (duplicate_field f)
    else ok (store_value f v (record s { seen = field_key f ∷ s.seen }))

-- one round of the loop over the lines
unfoldable pub scan_line : Text → Scan → Result MarkerError Scan
unfolding strip_prefix first_match list_contains store_value accept
scan_line line s =
    if not (starts_with marker_prefix line)
    then ok s
    else accept line (first_match field_specs line) s

unfoldable pub scan_lines : List Text → Scan → Result MarkerError Scan
unfolding scan_line
scan_lines [] s = ok s
scan_lines (line ∷ lines) s = do s' ← scan_line line s; scan_lines lines s'

unfoldable pub check_required : List Field → List Text → Result MarkerError (Unit {0})
unfolding list_contains
check_required [] seen = ok tt
check_required (f ∷ fs) seen =
    if field_required f && not (list_contains seen (field_key f))
    then err (missing_field f)
    else check_required fs seen

-- `!accessValue.isEmpty() && !accessModeFromString(accessValue, &result.access)`
unfoldable pub decode_access : Text → Result MarkerError AccessMode
unfolding access_mode_from_string
decode_access [] = ok read_write
decode_access (c ∷ v) = elim (access_mode_from_string (c ∷ v)) [
  | none ↦ err invalid_access
  | some a ↦ ok a
]

unfoldable pub decode_uint : MarkerError → Text → Result MarkerError ℕ
unfolding to_uint
decode_uint e v = elim (to_uint v) [ none ↦ err e | some n ↦ ok n ]

-- what follows the two loops
unfoldable pub decode_scan : Scan → Result MarkerError Marker
unfolding decode_uint decode_access text_eq
decode_scan s = do
  uid_value ← decode_uint invalid_owner_uid s.owner_uid_value
  gid_value ← decode_uint invalid_owner_gid s.owner_gid_value
  a ← decode_access s.access_value
  ok (record {
    owner_uid = uid_value;
    owner_gid = gid_value;
    id = s.id_value;
    authentication = if text_eq s.auth_value (codes "guest") then guest else credentials;
    access = a;
  })

unfoldable pub parse_marker : Text → Result MarkerError Marker
unfolding split scan_lines check_required decode_scan
parse_marker content = do
  s ← scan_lines (split line_feed content) empty_scan
  check_required field_specs s.seen
  decode_scan s

any_marker_line : List Text → Bool
any_marker_line [] = false
any_marker_line (line ∷ lines) = starts_with marker_prefix line || any_marker_line lines

unfoldable pub has_marker : Text → Bool
unfolding split strip_prefix any_marker_line
has_marker content = any_marker_line (split line_feed content)

abbrev pub authentication_text : AuthenticationKind → Text
authentication_text guest = codes "guest"
authentication_text credentials = codes "credentials"

abbrev pub access_line : AccessMode → Text
access_line read_write = []
access_line read_only = codes "# X-Nasmount-Access=readonly\n"
access_line read_write_executable = codes "# X-Nasmount-Access=readwrite-executable\n"

-- The assertion that the id is valid is a premise of the theorems.
unfoldable pub marker_comment : Marker → Text
unfolding decimal
marker_comment m =
    codes "# X-Nasmount-Managed=1\n# X-Nasmount-Owner-Uid="
    ++ (decimal m.owner_uid
        ++ (codes "\n# X-Nasmount-Owner-Gid="
            ++ (decimal m.owner_gid
                ++ (codes "\n# X-Nasmount-Id="
                    ++ (m.id
                        ++ (codes "\n# X-Nasmount-Mode=system\n# X-Nasmount-Authentication="
                            ++ (authentication_text m.authentication
                                ++ (codes "\n" ++ access_line m.access))))))))

-- uid_t and gid_t are 32 bits wide.
pub record IsValidMarker (m : Marker) : Type 0 where
  pub uid_fits : m.owner_uid < 2 ^ 32
  pub gid_fits : m.owner_gid < 2 ^ 32
  pub id_valid : is_valid_share_id m.id ≡ true
