-- ===== src/Verify/Scan.antt =====
-- The scan of the unit directory: scanManagedHalves, enumerateOwnedUnits, enumerateManagedUnits.
use kde_nasmount.Prelude.{
  ℕ, Bool, true, false, not, Option, none, some, List, [], ◌∷◌, ◌++◌, ◌==◌, if◌then◌else◌, ok, err,
}
use kde_nasmount.Text.{Text, codes, line_feed, text_eq, strip_prefix}
use kde_nasmount.Text.Percent.{undouble_percent}
use kde_nasmount.Text.Split.{split}
use kde_nasmount.UnitValue.Marker.{Marker, parse_marker}
use kde_nasmount.Verify.Files.{Files, FileProbe, readable, probe_unit_file}
use kde_nasmount.Verify.Halves.{ScannedHalf, OwnedUnit, pair_scanned_halves}

-- extractAssignment: the last line that assigns the key
unfoldable pub last_assignment : Text → List Text → Option Text
unfolding strip_prefix
last_assignment prefix [] = none
last_assignment prefix (line ∷ lines) = elim (last_assignment prefix lines) [
  | some value ↦ some value
  | none ↦ strip_prefix prefix line
]

unfoldable pub extract_assignment : Text → Text → Option Text
unfolding last_assignment split
extract_assignment content key = last_assignment (key ++ codes "=") (split line_feed content)

-- The directory entry without its suffix; the name filter lets no other entry through.
unfoldable pub chopped : Text → Text → Option Text
unfolding text_eq
chopped suffix [] = none
chopped suffix (c ∷ t) =
    let rest = chopped suffix t in
    if text_eq (c ∷ t) suffix then some [] else elim (rest) [ none ↦ none | some b ↦ some (c ∷ b) ]

or_empty : Option Text → Text
or_empty none = []
or_empty (some t) = undouble_percent t

owned_by : Option ℕ → Marker → Bool
owned_by none m = true
owned_by (some uid) m = m.owner_uid == uid

half_of : Text → Bool → Text → Marker → Text → ScannedHalf
unfolding extract_assignment undouble_percent or_empty
half_of base mount_ content m where_raw = record {
  base_name = base;
  is_mount = mount_;
  marker = m;
  where_ = undouble_percent where_raw;
  what = if mount_ then or_empty (extract_assignment content (codes "What")) else [];
}

unfoldable pub half_of_content : Option ℕ → Text → Bool → Text → Option ScannedHalf
unfolding parse_marker owned_by extract_assignment half_of
half_of_content only_uid base mount_ content = elim (parse_marker content) [
  | err _ ↦ none
  | ok m ↦
      if not (owned_by only_uid m)
      then none
      else elim (extract_assignment content (codes "Where")) [
        | none ↦ none
        | some where_raw ↦ some (half_of base mount_ content m where_raw)
      ]
]

unfoldable pub half_of_probe : Option ℕ → Text → Bool → FileProbe → Option ScannedHalf
unfolding half_of_content
half_of_probe only_uid base mount_ (readable content) = half_of_content only_uid base mount_ content
half_of_probe only_uid base mount_ _ = none

half_of_entry : Option ℕ → FileProbe → Option Text → Option Text → Option ScannedHalf
half_of_entry only_uid probe (some base) _ = half_of_probe only_uid base true probe
half_of_entry only_uid probe none (some base) = half_of_probe only_uid base false probe
half_of_entry only_uid probe none none = none

keep_half : Option ScannedHalf → List ScannedHalf → List ScannedHalf
keep_half none halves = halves
keep_half (some half) halves = half ∷ halves

-- The entries *.mount and *.automount of the directory, as QDir lists them.
unfoldable pub scan_managed_halves : Files → Option ℕ → List Text → List ScannedHalf
unfolding chopped probe_unit_file half_of_probe half_of_entry keep_half
scan_managed_halves files only_uid [] = []
scan_managed_halves files only_uid (name ∷ names) =
    keep_half
      (half_of_entry only_uid (probe_unit_file files (codes "/etc/systemd/system/" ++ name))
        (chopped (codes ".mount") name) (chopped (codes ".automount") name))
      (scan_managed_halves files only_uid names)

unfoldable pub enumerate_owned_units : Files → List Text → ℕ → List OwnedUnit
unfolding pair_scanned_halves scan_managed_halves
enumerate_owned_units files names uid =
    pair_scanned_halves (scan_managed_halves files (some uid) names)

unfoldable pub enumerate_managed_units : Files → List Text → List OwnedUnit
unfolding pair_scanned_halves scan_managed_halves
enumerate_managed_units files names = pair_scanned_halves (scan_managed_halves files none names)
