-- ===== src/UnitSpec/Template/Generated.antt =====
-- The generated unit files pass their own validators and carry their own marker.
use kde_nasmount.Prelude.{
  false, List, [], ◌∷◌, ◌++◌, ◌≡◌, refl, arith, ap, ◌∙◌, sym, Result, ok, >>=-eq-ok,
}
use kde_nasmount.Qt.{Qt, QtLaws}
use kde_nasmount.Text.{Text, line_feed, contains, strip_prefix}
use kde_nasmount.Text.Lines.{AllLack, unlines, split-unlines}
use kde_nasmount.Text.Split.{split}
use kde_nasmount.UnitValue.Encode.{
  EncodeError, encode_unit_value, encode_unit_value-IsUnitValue, encode_unit_value-eq-ok,
  has_control_chars-lacks,
}
use kde_nasmount.UnitValue.Marker.{Marker, IsValidMarker, parse_marker, marker_comment}
use kde_nasmount.UnitValue.Marker.RoundTrip.{parse_marker-marker_comment, NoMarkerLines}
use kde_nasmount.UnitSpec.Template.Layout.{
  managed_text, mount_tail, automount_tail, mount_tail-unlines, automount_tail-unlines,
  mount_tail-AllLack, automount_tail-AllLack,
}
use kde_nasmount.UnitSpec.Options.{mount_options_for}
use kde_nasmount.UnitSpec.Template.{
  managed_line, build_mount_unit_content, build_automount_unit_content,
}

ok_injective : {a b : Text} → ◌≡◌ {A = Result EncodeError Text} (ok a) (ok b) → a ≡ b
ok_injective h = cc

module _ (qt : Qt) where
  -- What a built mount unit is made of.
  pub build_mount-eq-ok :
      (m : Marker) (unc mount_point : Text) {content : Text}
      → build_mount_unit_content qt m unc mount_point ≡ ok content
      → (what : Text) × (place : Text) × (options : Text) × (encode_unit_value qt unc ≡ ok what)
        × (encode_unit_value qt mount_point ≡ ok place)
        × (encode_unit_value qt (mount_options_for m) ≡ ok options)
        × (content
            ≡ managed_line
              ++ (marker_comment m
                  ++ unlines (mount_tail (qt.html_escaped unc) what place options) []))
  unfolding build_mount_unit_content
  build_mount-eq-ok m unc mount_point {content} h =
      let (what, hw, h₁) = >>=-eq-ok (encode_unit_value qt unc) _ {b = content} h in
      let (place, hp, h₂) = >>=-eq-ok (encode_unit_value qt mount_point) _ {b = content} h₁ in
      let (options, ho, h₃) =
        >>=-eq-ok (encode_unit_value qt (mount_options_for m)) _ {b = content} h₂ in
      let tail = mount_tail-unlines (qt.html_escaped unc) what place options in
      (
        what,
        place,
        options,
        hw,
        hp,
        ho,
        ok_injective (sym h₃) ∙ ap (λ r. managed_line ++ (marker_comment m ++ r)) tail,
      )

  -- What a built automount unit is made of.
  pub build_automount-eq-ok :
      (m : Marker) (mount_point : Text) {content : Text}
      → build_automount_unit_content qt m mount_point ≡ ok content
      → (place : Text) × (encode_unit_value qt mount_point ≡ ok place)
        × (content
            ≡ managed_line
              ++ (marker_comment m
                  ++ unlines (automount_tail (qt.html_escaped mount_point) place) []))
  unfolding build_automount_unit_content
  build_automount-eq-ok m mount_point {content} h =
      let (place, hp, h₁) = >>=-eq-ok (encode_unit_value qt mount_point) _ {b = content} h in
      (
        place,
        hp,
        ok_injective (sym h₁)
            ∙ ap (λ r. managed_line ++ (marker_comment m ++ r))
                (automount_tail-unlines (qt.html_escaped mount_point) place),
      )

mount_tail-NoMarkerLines : (d w p o : Text) → NoMarkerLines (mount_tail d w p o ++ ([] ∷ []))
unfolding mount_tail strip_prefix
mount_tail-NoMarkerLines d w p o =
    (refl, (refl, (refl, (refl, (refl, (refl, (refl, (refl, (refl, (refl, tt))))))))))

automount_tail-NoMarkerLines : (d p : Text) → NoMarkerLines (automount_tail d p ++ ([] ∷ []))
unfolding automount_tail strip_prefix
automount_tail-NoMarkerLines d p =
    (refl, (refl, (refl, (refl, (refl, (refl, (refl, (refl, (refl, tt)))))))))

split-tail :
    (tail : List Text)
    → AllLack line_feed tail
    → split line_feed (unlines tail []) ≡ tail ++ ([] ∷ [])
split-tail tail clean = split-unlines tail [] clean ∙ (unfold split in refl)

parse-unit :
    (m : Marker) (tail : List Text)
    → IsValidMarker m
    → AllLack line_feed tail
    → NoMarkerLines (tail ++ ([] ∷ []))
    → parse_marker (managed_line ++ (marker_comment m ++ unlines tail [])) ≡ ok m
unfolding unlines managed_text contains strip_prefix
parse-unit m tail v clean plain =
    parse_marker-marker_comment m (managed_text ∷ []) (unlines tail []) v (refl, tt) (refl, tt)
      (rw (split-tail tail clean) plain)

module _ (qt : Qt) (laws : QtLaws qt) where
  pub encoded_lacks :
      (value encoded : Text)
      → encode_unit_value qt value ≡ ok encoded
      → contains encoded line_feed ≡ false
  encoded_lacks value encoded h =
      has_control_chars-lacks encoded line_feed
        (encode_unit_value-IsUnitValue qt value encoded h).one_line (omega arith)

  pub described_lacks :
      (value encoded : Text)
      → encode_unit_value qt value ≡ ok encoded
      → contains (qt.html_escaped value) line_feed ≡ false
  described_lacks value encoded h =
      laws.escaped_lacks value line_feed (omega arith) (
        has_control_chars-lacks value line_feed (encode_unit_value-eq-ok qt value h).0
          (omega arith))

  -- The marker block of a mount unit generated for a valid marker is parsed back as that marker.
  pub parse_marker-build_mount :
      (m : Marker) (unc mount_point content : Text)
      → IsValidMarker m
      → build_mount_unit_content qt m unc mount_point ≡ ok content
      → parse_marker content ≡ ok m
  parse_marker-build_mount m unc mount_point content v h =
      let (what, place, options, hw, hp, ho, is) = build_mount-eq-ok qt m unc mount_point h in
      rw is (
        parse-unit m _ v
          (mount_tail-AllLack _ _ _ _ (described_lacks unc what hw) (encoded_lacks _ _ hw)
            (encoded_lacks _ _ hp) (encoded_lacks _ _ ho))
          (mount_tail-NoMarkerLines _ _ _ _))

  -- The marker block of an automount unit generated for a valid marker is parsed back as it.
  pub parse_marker-build_automount :
      (m : Marker) (mount_point content : Text)
      → IsValidMarker m
      → build_automount_unit_content qt m mount_point ≡ ok content
      → parse_marker content ≡ ok m
  parse_marker-build_automount m mount_point content v h =
      let (place, hp, is) = build_automount-eq-ok qt m mount_point h in
      rw is (
        parse-unit m _ v
          (automount_tail-AllLack _ _ (described_lacks mount_point place hp) (encoded_lacks _ _ hp))
          (automount_tail-NoMarkerLines _ _))
