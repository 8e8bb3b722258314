-- ===== src/UnitValue/Marker/Present.antt =====
-- hasMarker and parseMarker: a complete block is a block.
use kde_nasmount.Prelude.{
  Bool, true, false, ◌||◌, List, [], ◌∷◌, ◌≡◌, refl, sym, ◌∙◌, arith, Result, ok, err, Bool-cases,
  inl, inr,
}
use kde_nasmount.Text.{Text, line_feed, starts_with}
use kde_nasmount.Text.Split.{split}
use kde_nasmount.UnitValue.Marker.{
  Marker, MarkerError, Scan, marker_prefix, scan_line, scan_lines, check_required, parse_marker,
  any_marker_line, has_marker, empty_scan, missing_field, Field,
}

scan_lines-plain :
    (lines : List Text) (s : Scan) → any_marker_line lines ≡ false → scan_lines lines s ≡ ok s
unfolding scan_lines scan_line any_marker_line
scan_lines-plain [] s h = refl
scan_lines-plain (l ∷ ls) s h = elim (Bool-cases (starts_with marker_prefix l)) [
  | inl e ↦ absurd (marked (starts_with marker_prefix l) (any_marker_line ls) e h)
  | inr e ↦
      rw e (scan_lines-plain ls s (unmarked (starts_with marker_prefix l) (any_marker_line ls) e h))
]
  where
    marked : (a b : Bool) → a ≡ true → (a || b) ≡ false → ⊥
    marked a b e h = ground arith

    unmarked : (a b : Bool) → a ≡ false → (a || b) ≡ false → b ≡ false
    unmarked a b e h = ground arith

parse_plain :
    (content : Text)
    → has_marker content ≡ false
    → parse_marker content ≡ err (missing_field Field.managed)
unfolding parse_marker has_marker check_required
parse_plain content h = rw (scan_lines-plain (split line_feed content) empty_scan h)

-- A content whose marker parses has a marker line.
pub parse_marker-has_marker :
    (content : Text) (m : Marker) → parse_marker content ≡ ok m → has_marker content ≡ true
parse_marker-has_marker content m h = elim (Bool-cases (has_marker content)) [
  | inl e ↦ e
  | inr e ↦ absurd (refused (sym (parse_plain content e) ∙ h))
]
  where
    refused : {e : MarkerError} → ◌≡◌ {A = Result MarkerError Marker} (err e) (ok m) → ⊥
    refused h = cc
