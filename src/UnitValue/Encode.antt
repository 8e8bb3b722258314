-- ===== src/UnitValue/Encode.antt =====
-- encodeUnitValue, and hasControlChars of core/unitspec.cpp that it calls.
use kde_nasmount.Prelude.{
  some, ◌<◌, ℕ, Bool, false, not, ◌||◌, [], ◌∷◌, ◌≡◌, refl, arith, ltb, ◌==◌, if◌then◌else◌, Result,
  ok, err, ◌∙◌,
}
use kde_nasmount.Qt.{Qt, trimmed}
use kde_nasmount.Text.{Text, text_eq, is_empty, ends_with, contains}
use kde_nasmount.Text.Laws.{text_eq_iff}
use kde_nasmount.Text.Percent.{
  double_percent, undouble_percent, undouble-double, specifier_free, specifier_free-double,
  ends_with-double,
}

unfoldable pub has_control_chars : Text → Bool
has_control_chars [] = false
has_control_chars (u ∷ t) = (ltb u 0x20 || u == 0x7F) || has_control_chars t

-- The refusals, one to each message.
pub data EncodeError : Type 0 where
  control_characters outer_whitespace empty_value trailing_backslash leading_quote : EncodeError

abbrev starts_with_unit : Text → ℕ → Bool
starts_with_unit [] c = false
starts_with_unit (x ∷ _) c = x == c

module _ (qt : Qt) where
  unfoldable pub encode_unit_value : Text → Result EncodeError Text
  unfolding has_control_chars text_eq trimmed ends_with double_percent
  encode_unit_value value =
      if has_control_chars value
      then err control_characters
      else if not (text_eq value (trimmed qt value))
      then err outer_whitespace
      else if is_empty value
      then err empty_value
      else if ends_with value b'\\'
      then err trailing_backslash
      else if starts_with_unit value b'"' || starts_with_unit value b'\''
      then err leading_quote
      else ok (double_percent value)

pub has_control_chars-lacks :
    (t : Text) (c : ℕ) → has_control_chars t ≡ false → c < 32 → contains t c ≡ false
unfolding has_control_chars contains
has_control_chars-lacks [] c h b = refl
has_control_chars-lacks (u ∷ t) c h b = ground (arith, has_control_chars-lacks t c)

has_control_chars-double : (t : Text) → has_control_chars (double_percent t) ≡ has_control_chars t
unfolding has_control_chars double_percent
has_control_chars-double [] = refl
has_control_chars-double (u ∷ t) = ground (arith, has_control_chars-double t)

starts_with_unit-double :
    (t : Text) (c : ℕ) → starts_with_unit (double_percent t) c ≡ starts_with_unit t c
unfolding double_percent
starts_with_unit-double [] c = refl
starts_with_unit-double (x ∷ t) c = ground arith

-- What systemd may be given as a value: it stands on one line, is not continued on the next, does
-- not open a quoted token, and is read as `meaning`, with no specifier to expand.
pub record IsUnitValue (encoded meaning : Text) : Type 0 where
  pub one_line : has_control_chars encoded ≡ false
  pub not_continued : ends_with encoded b'\\' ≡ false
  pub not_quoted : (starts_with_unit encoded b'"' || starts_with_unit encoded b'\'') ≡ false
  pub not_empty : is_empty meaning ≡ false
  pub reads_as : specifier_free encoded ≡ some meaning
  pub decodes_to : undouble_percent encoded ≡ meaning

module _ (qt : Qt) where
  -- What a successful call says of its argument, and what it returns.
  pub encode_unit_value-eq-ok :
      (value : Text) {encoded : Text}
      → encode_unit_value qt value ≡ ok encoded
      → (has_control_chars value ≡ false)
        × (value ≡ trimmed qt value)
        × (is_empty value ≡ false)
        × (ends_with value b'\\' ≡ false)
        × ((starts_with_unit value b'"' || starts_with_unit value b'\'') ≡ false)
        × (encoded ≡ double_percent value)
  unfolding encode_unit_value
  encode_unit_value-eq-ok value h = ground (arith, text_eq_iff value (trimmed qt value))

  -- Every value that the encoder returns is safe in a unit file and stands for the text that was
  -- given: no control character, no continuation, no quoting, no live specifier, and decoding by
  -- the validators gives the text back.
  pub encode_unit_value-IsUnitValue :
      (value encoded : Text) → encode_unit_value qt value ≡ ok encoded → IsUnitValue encoded value
  encode_unit_value-IsUnitValue value encoded h =
      let (plain, trim, filled, ended, quoted, is) = encode_unit_value-eq-ok value h in
      rw is (record {
        one_line = has_control_chars-double value ∙ plain;
        not_continued = ends_with-double value b'\\' ∙ ended;
        not_quoted =
            rw (starts_with_unit-double value b'"', starts_with_unit-double value b'\'') quoted;
        not_empty = filled;
        reads_as = specifier_free-double value;
        decodes_to = undouble-double value;
      })
