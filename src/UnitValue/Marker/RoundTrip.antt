-- ===== src/UnitValue/Marker/RoundTrip.antt =====
-- A generated marker block is parsed back as the marker that it was generated from.
use mathlib.Core.List.{append-nil}
use kde_nasmount.Prelude.{
  sym, ℕ, ◌<◌, ◌^◌, true, false, List, [], ◌∷◌, ◌++◌, ◌≡◌, refl, arith, ap, ◌∙◌, ok,
}
use kde_nasmount.Text.{Text, codes, line_feed, list_contains, starts_with}
use kde_nasmount.Text.Decimal.{decimal, to_uint-decimal, decimal_digits, decimal_nonempty}
use kde_nasmount.Text.Split.{split}
use kde_nasmount.UnitValue.Access.{
  AuthenticationKind, credentials, guest, AccessMode, read_write, read_only, read_write_executable,
}
use kde_nasmount.UnitValue.Marker.{
  Marker, IsValidMarker, Scan, empty_scan, field_specs, marker_prefix, scan_line, scan_lines,
  check_required, decode_scan, parse_marker, marker_comment, authentication_text, is_valid_share_id,
}
use kde_nasmount.Text.Lines.{AllLack, unlines, split-unlines}
use kde_nasmount.UnitValue.Marker.Lines.{
  access_lines, marker_lines, marker_comment-unlines, marker_lines-AllLack,
}

-- None of these lines lies in the marker's namespace.
abbrev pub NoMarkerLines : List Text → Type 0
NoMarkerLines [] = Unit
NoMarkerLines (l ∷ ls) = (starts_with marker_prefix l ≡ false) × NoMarkerLines ls

scan_lines-NoMarkerLines :
    (ls more : List Text) (s : Scan)
    → NoMarkerLines ls
    → scan_lines (ls ++ more) s ≡ scan_lines more s
unfolding scan_lines scan_line
scan_lines-NoMarkerLines [] more s h = refl
scan_lines-NoMarkerLines (l ∷ ls) more s (h, hs) = rw h (scan_lines-NoMarkerLines ls more s hs)

scan_lines-cons :
    (l : Text) (ls : List Text) (s s' : Scan)
    → scan_line l s ≡ ok s'
    → scan_lines (l ∷ ls) s ≡ scan_lines ls s'
unfolding scan_lines
scan_lines-cons l ls s s' h = rw h

scan_managed :
    scan_line (codes "# X-Nasmount-Managed=1") empty_scan
    ≡ ok (record empty_scan { seen = codes "Managed" ∷ [] })
unfolding scan_line
scan_managed = refl

scan_mode :
    (s : Scan)
    → list_contains s.seen (codes "Mode") ≡ false
    → scan_line (codes "# X-Nasmount-Mode=system") s
      ≡ ok (record s { seen = codes "Mode" ∷ s.seen })
unfolding scan_line
scan_mode s h = ground arith

scan_uid :
    (n : ℕ) (s : Scan)
    → n < 2 ^ 32
    → list_contains s.seen (codes "Owner-Uid") ≡ false
    → scan_line (codes "# X-Nasmount-Owner-Uid=" ++ decimal n) s
      ≡ ok (record s { seen = codes "Owner-Uid" ∷ s.seen; owner_uid_value = decimal n })
unfolding scan_line
scan_uid n s b h = ground (arith, decimal_nonempty n, decimal_digits n b)

scan_gid :
    (n : ℕ) (s : Scan)
    → n < 2 ^ 32
    → list_contains s.seen (codes "Owner-Gid") ≡ false
    → scan_line (codes "# X-Nasmount-Owner-Gid=" ++ decimal n) s
      ≡ ok (record s { seen = codes "Owner-Gid" ∷ s.seen; owner_gid_value = decimal n })
unfolding scan_line
scan_gid n s b h = ground (arith, decimal_nonempty n, decimal_digits n b)

scan_id :
    (t : Text) (s : Scan)
    → is_valid_share_id t ≡ true
    → list_contains s.seen (codes "Id") ≡ false
    → scan_line (codes "# X-Nasmount-Id=" ++ t) s
      ≡ ok (record s { seen = codes "Id" ∷ s.seen; id_value = t })
unfolding scan_line
scan_id t s v h = ground arith

scan_authentication :
    (k : AuthenticationKind) (s : Scan)
    → list_contains s.seen (codes "Authentication") ≡ false
    → scan_line (codes "# X-Nasmount-Authentication=" ++ authentication_text k) s
      ≡ ok (record s { seen = codes "Authentication" ∷ s.seen; auth_value = authentication_text k })
unfolding scan_line
scan_authentication guest s h = ground arith
scan_authentication credentials s h = ground arith

-- What the loop has collected after the six required lines of a generated block.
collected : Marker → Scan
collected m = record {
  seen =
      codes "Authentication"
      ∷ codes "Mode"
      ∷ codes "Id"
      ∷ codes "Owner-Gid"
      ∷ codes "Owner-Uid"
      ∷ codes "Managed"
      ∷ [];
  owner_uid_value = decimal m.owner_uid;
  owner_gid_value = decimal m.owner_gid;
  id_value = m.id;
  auth_value = authentication_text m.authentication;
  access_value = [];
}

scan_required :
    (m : Marker) (ls : List Text)
    → IsValidMarker m
    → scan_lines (marker_lines m ++ ls) empty_scan
      ≡ scan_lines (access_lines m.access ++ ls) (collected m)
unfolding marker_lines collected list_contains
scan_required m ls v =
    scan_lines-cons _ _ _ _ scan_managed
    ∙ scan_lines-cons _ _ _ _ (scan_uid m.owner_uid _ v.uid_fits refl)
    ∙ scan_lines-cons _ _ _ _ (scan_gid m.owner_gid _ v.gid_fits refl)
    ∙ scan_lines-cons _ _ _ _ (scan_id m.id _ v.id_valid refl)
    ∙ scan_lines-cons _ _ _ _ (scan_mode _ refl)
    ∙ scan_lines-cons _ _ _ _ (scan_authentication m.authentication _ refl)

-- The seventh line, or none.
with_access : AccessMode → Scan → Scan
with_access read_write s = s
with_access read_only s = record s {
  seen = codes "Access" ∷ s.seen;
  access_value = codes "readonly";
}
with_access read_write_executable s = record s {
  seen = codes "Access" ∷ s.seen;
  access_value = codes "readwrite-executable";
}

scan_access :
    (m : Marker) (a : AccessMode) (ls : List Text)
    → scan_lines (access_lines a ++ ls) (collected m) ≡ scan_lines ls (with_access a (collected m))
unfolding access_lines with_access
scan_access m read_write ls = refl
scan_access m read_only ls = scan_lines-cons _ _ _ _ (unfold scan_line collected in refl)
scan_access m read_write_executable ls =
    scan_lines-cons _ _ _ _ (unfold scan_line collected in refl)

check_collected :
    (m : Marker) (a : AccessMode)
    → check_required field_specs (with_access a (collected m)).seen ≡ ok tt
unfolding with_access collected check_required
check_collected m read_write = refl
check_collected m read_only = refl
check_collected m read_write_executable = refl

decode_collected :
    (m : Marker) (k : AuthenticationKind) (a : AccessMode)
    → IsValidMarker m
    → m.authentication ≡ k
    → decode_scan (with_access a (collected m)) ≡ ok (record m { authentication = k; access = a })
unfolding with_access collected decode_scan
decode_collected m k a v e =
    ground (arith, to_uint-decimal m.owner_uid v.uid_fits, to_uint-decimal m.owner_gid v.gid_fits)

outside_only : (ls : List Text) (s : Scan) → NoMarkerLines ls → scan_lines ls s ≡ ok s
unfolding scan_lines
outside_only ls s h =
    ap (λ r. scan_lines r s) (sym (append-nil ls)) ∙ scan_lines-NoMarkerLines ls [] s h

-- The lines of a generated block, followed by lines outside the marker's namespace.
parse_lines :
    (m : Marker) (ls : List Text)
    → IsValidMarker m
    → NoMarkerLines ls
    → scan_lines (marker_lines m ++ ls) empty_scan ≡ ok (with_access m.access (collected m))
parse_lines m ls v plain =
    scan_required m ls v ∙ scan_access m m.access ls ∙ outside_only ls _ plain

-- A block generated for a valid marker that follows other lines and is followed by others, none of them in the
-- marker's namespace, is parsed back as the marker that it was generated from.
pub parse_marker-marker_comment :
    (m : Marker) (before : List Text) (rest : Text)
    → IsValidMarker m
    → AllLack line_feed before
    → NoMarkerLines before
    → NoMarkerLines (split line_feed rest)
    → parse_marker (unlines before (marker_comment m ++ rest)) ≡ ok m
unfolding parse_marker
parse_marker-marker_comment m before rest v clean outside plain =
    let lines =
      split-unlines before (marker_comment m ++ rest) clean
      ∙ ap (λ r. before ++ r)
          (ap (split line_feed) (marker_comment-unlines m rest)
            ∙ split-unlines (marker_lines m) rest (marker_lines-AllLack m v)) in
    let scanned =
      ap (λ r. scan_lines r empty_scan) lines
      ∙ scan_lines-NoMarkerLines before _ empty_scan outside
      ∙ parse_lines m (split line_feed rest) v plain in
    rw (scanned, check_collected m m.access) (decode_collected m m.authentication m.access v refl)
