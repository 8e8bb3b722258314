-- ===== src/UnitSpec/Template/Strict.antt =====
-- What the validator of mount units lets pass.
use kde_nasmount.Prelude.{
  Bool, true, false, not, List, [], ◌∷◌, ◌≡◌, ◌⊎◌, arith, ap, ◌∙◌, sym, Result, ok, err, >>=-eq-ok,
  ◌>>◌,
}
use kde_nasmount.Qt.{Qt}
use kde_nasmount.Text.{Text, codes, line_feed}
use kde_nasmount.Text.Laws.{text_eq_iff}
use kde_nasmount.Text.Percent.{undouble_percent}
use kde_nasmount.UnitValue.Access.{guest}
use kde_nasmount.UnitValue.Encode.{encode_unit_value, encode_unit_value-IsUnitValue}
use kde_nasmount.UnitValue.Marker.{Marker, IsValidMarker}
use kde_nasmount.UnitSpec.Unc.{validate_unc}
use kde_nasmount.UnitSpec.Options.{mount_options_for}
use kde_nasmount.UnitSpec.Options.Injective.{mount_options_for_injective}
use kde_nasmount.UnitSpec.Template.Section.{
  Values, SectionError, extract_section_assignments, value_lookup, has_value,
}
use kde_nasmount.UnitSpec.Template.Section.Read.{IsRead, extract_section_assignments-IsRead}
use kde_nasmount.Text.Split.{split}
use kde_nasmount.UnitSpec.Template.{
  validate_mount_unit_body, check_mount_values, mount_keys, lift, guard, TemplateError,
  has_line_continuation, section_error, check_present, line_continuation, not_cifs,
  unexpected_timeout, where_disagrees, options_mismatch, invalid_what, encoding_error,
  validate_automount_unit_body, check_automount_values, automount_keys, unit_keys,
  missing_directive, condition_disagrees, unexpected_idle_timeout, unexpected_directory_mode,
}

guard-eq-ok : (b : Bool) (e : TemplateError) → guard b e ≡ ok tt → b ≡ true
guard-eq-ok b e h = ground arith

guard-bind :
    {A : Type 0} (b : Bool) (e : TemplateError) (k : Result TemplateError A) {a : A}
    → (guard b e >> k) ≡ ok a
    → (b ≡ true) × (k ≡ ok a)
guard-bind b e k h = ground arith

lift-eq-ok :
    {E A : Type 0} (f : E → TemplateError) (r : Result E A) {a : A} → lift f r ≡ ok a → r ≡ ok a
lift-eq-ok f (ok b) h = cc
lift-eq-ok f (err e) h = cc

ok_injective : {a b : Text} → ◌≡◌ {A = Result TemplateError Text} (ok a) (ok b) → a ≡ b
ok_injective h = cc

values_injective : {a b : Values} → ◌≡◌ {A = Result SectionError Values} (ok a) (ok b) → a ≡ b
values_injective h = cc

not-eq-true : (b : Bool) → not b ≡ true → b ≡ false
not-eq-true b h = ground arith

-- The encoding determines the value.
encoded_injective :
    (qt : Qt) (a b : Text) {e : Text}
    → encode_unit_value qt a ≡ ok e
    → encode_unit_value qt b ≡ ok e
    → a ≡ b
encoded_injective qt a b {e} ha hb =
    sym (encode_unit_value-IsUnitValue qt a e ha).decodes_to
    ∙ (encode_unit_value-IsUnitValue qt b e hb).decodes_to

-- every key has a value
pub HasAll : List Text → Values → Type 0
HasAll [] values = Unit
HasAll (key ∷ keys) values = (has_value key values ≡ true) × HasAll keys values

check_present-HasAll :
    (keys : List Text) (values : Values) → check_present keys values ≡ ok tt → HasAll keys values
unfolding check_present HasAll
check_present-HasAll [] values h = tt
check_present-HasAll (key ∷ keys) values h =
    let (there, h') = guard-bind (has_value key values) (missing_directive key) _ {a = tt} h in
    (there, check_present-HasAll keys values h')

-- The values of a [Mount] section that the validator accepts. Where= and What= are compared once "%%"
-- is replaced by "%", so a single "%", which systemd reads as a specifier, passes like a doubled one.
pub record ReadsAsTemplate (qt : Qt) (m : Marker) (mount_point what : Text) (lines : List Text)
    (values : Values) : Type 0 where
  pub read : IsRead mount_keys lines values
  pub complete : HasAll mount_keys values
  pub cifs : value_lookup (codes "Type") values ≡ codes "cifs"
  pub timeout : value_lookup (codes "TimeoutSec") values ≡ codes "30"
  pub place : undouble_percent (value_lookup (codes "Where") values) ≡ mount_point
  pub source : undouble_percent (value_lookup (codes "What") values) ≡ what
  pub source_valid : (normalised : Text) × (validate_unc what ≡ ok normalised)
  pub options :
      encode_unit_value qt (mount_options_for m) ≡ ok (value_lookup (codes "Options") values)

-- The values of the [Automount] and [Unit] sections that the validator accepts.
pub record ReadsAsAutomount (qt : Qt) (mount_point : Text) (lines : List Text)
    (values unit_values : Values) : Type 0 where
  pub read : IsRead automount_keys lines values
  pub unit_read : IsRead unit_keys lines unit_values
  pub complete : HasAll automount_keys values
  pub place : encode_unit_value qt mount_point ≡ ok (value_lookup (codes "Where") values)
  pub condition :
      encode_unit_value qt mount_point
      ≡ ok (value_lookup (codes "ConditionPathIsDirectory") unit_values)
  pub idle_timeout : value_lookup (codes "TimeoutIdleSec") values ≡ codes "60"
  pub mode : value_lookup (codes "DirectoryMode") values ≡ codes "0700"

module _ (qt : Qt) where
  check_mount-ReadsAsTemplate :
      (m : Marker) (mount_point : Text) (lines : List Text) (values : Values) {what : Text}
      → IsRead mount_keys lines values
      → check_mount_values qt m mount_point values ≡ ok what
      → ReadsAsTemplate qt m mount_point what lines values
  unfolding check_mount_values
  check_mount-ReadsAsTemplate m mount_point lines values {what} read h =
      let (_, present, h₁) = >>=-eq-ok (check_present mount_keys values) _ {b = what} h in
      let (cifs, h₂) = guard-bind _ not_cifs _ {a = what} h₁ in
      let (timeout, h₃) = guard-bind _ unexpected_timeout _ {a = what} h₂ in
      let (place, h₄) = guard-bind _ where_disagrees _ {a = what} h₃ in
      let decoded = undouble_percent (value_lookup (codes "What") values) in
      let (normalised, valid, h₅) =
        >>=-eq-ok (lift invalid_what (validate_unc decoded)) _ {b = what} h₄ in
      let (expected, encoded, h₆) =
        >>=-eq-ok (lift encoding_error (encode_unit_value qt (mount_options_for m))) _ {b = what}
          h₅ in
      let (options, h₇) = guard-bind _ options_mismatch _ {a = what} h₆ in
      record {
        read = read;
        complete = check_present-HasAll mount_keys values present;
        cifs = (text_eq_iff _ _).0 cifs;
        timeout = (text_eq_iff _ _).0 timeout;
        place = (text_eq_iff _ _).0 place;
        source = ok_injective h₇;
        source_valid =
            (normalised, ap validate_unc (sym (ok_injective h₇)) ∙ lift-eq-ok invalid_what _ valid);
        options =
            lift-eq-ok encoding_error _ encoded
            ∙ ap (λ t. ok t)
                (sym ((text_eq_iff (value_lookup (codes "Options") values) expected).0 options));
      }

  pub validate_mount-ReadsAsTemplate :
      (content : Text) (m : Marker) (mount_point what : Text)
      → validate_mount_unit_body qt content m mount_point ≡ ok what
      → (has_line_continuation content ≡ false)
        × ((values : Values) × (extract_section_assignments qt content (codes "Mount") mount_keys
              ≡ ok values)
            × ReadsAsTemplate qt m mount_point what (split line_feed content) values)
  unfolding validate_mount_unit_body
  validate_mount-ReadsAsTemplate content m mount_point what h =
      let (plain, h₁) =
        guard-bind (not (has_line_continuation content)) line_continuation _ {a = what} h in
      let (values, extracted, h₂) =
        >>=-eq-ok
          (lift section_error (extract_section_assignments qt content (codes "Mount") mount_keys)) _
          {b = what} h₁ in
      (
        not-eq-true _ plain,
        (
          values,
          lift-eq-ok section_error _ extracted,
          check_mount-ReadsAsTemplate m mount_point (split line_feed content) values
              (extract_section_assignments-IsRead qt content (codes "Mount") mount_keys values
                (lift-eq-ok section_error _ extracted))
              h₂,
        ),
      )

  check_automount-ReadsAsAutomount :
      (mount_point : Text) (lines : List Text) (values unit_values : Values)
      → IsRead automount_keys lines values
      → IsRead unit_keys lines unit_values
      → check_present automount_keys values ≡ ok tt
      → check_automount_values qt mount_point values unit_values ≡ ok tt
      → ReadsAsAutomount qt mount_point lines values unit_values
  unfolding check_automount_values
  check_automount-ReadsAsAutomount mount_point lines values unit_values read units present h =
      let (conditioned, h₁) =
        guard-bind _ (missing_directive (codes "ConditionPathIsDirectory")) _ {a = tt} h in
      let (expected, encoded, h₂) =
        >>=-eq-ok (lift encoding_error (encode_unit_value qt mount_point)) _ {b = tt} h₁ in
      let (place, h₃) = guard-bind _ where_disagrees _ {a = tt} h₂ in
      let (condition, h₄) = guard-bind _ condition_disagrees _ {a = tt} h₃ in
      let (idle, h₅) = guard-bind _ unexpected_idle_timeout _ {a = tt} h₄ in
      let encodes = lift-eq-ok encoding_error (encode_unit_value qt mount_point) encoded in
      record {
        read = read;
        unit_read = units;
        complete = check_present-HasAll automount_keys values present;
        place = encodes ∙ ap (λ t. ok t) (sym ((text_eq_iff _ _).0 place));
        condition = encodes ∙ ap (λ t. ok t) (sym ((text_eq_iff _ _).0 condition));
        idle_timeout = (text_eq_iff _ _).0 idle;
        mode = (text_eq_iff _ _).0 (guard-eq-ok _ unexpected_directory_mode h₅);
      }

  -- an accepted automount unit has the template's values
  pub validate_automount-ReadsAsAutomount :
      (content : Text) (m : Marker) (mount_point : Text)
      → validate_automount_unit_body qt content m mount_point ≡ ok tt
      → (has_line_continuation content ≡ false)
        × ((values unit_values : Values) × (extract_section_assignments qt content
                (codes "Automount")
                automount_keys
              ≡ ok values)
            × (extract_section_assignments qt content (codes "Unit") unit_keys ≡ ok unit_values)
            × ReadsAsAutomount qt mount_point (split line_feed content) values unit_values)
  unfolding validate_automount_unit_body
  validate_automount-ReadsAsAutomount content m mount_point h =
      let (plain, h₁) =
        guard-bind (not (has_line_continuation content)) line_continuation _ {a = tt} h in
      let (values, extracted, h₂) =
        >>=-eq-ok
          (lift section_error
            (extract_section_assignments qt content (codes "Automount") automount_keys))
          _ {b = tt} h₁ in
      let (_, present, h₃) = >>=-eq-ok (check_present automount_keys values) _ {b = tt} h₂ in
      let (unit_values, units, h₄) =
        >>=-eq-ok
          (lift section_error (extract_section_assignments qt content (codes "Unit") unit_keys)) _
          {b = tt} h₃ in
      (
        not-eq-true _ plain,
        (
          values,
          unit_values,
          lift-eq-ok section_error _ extracted,
          lift-eq-ok section_error _ units,
          check_automount-ReadsAsAutomount mount_point (split line_feed content) values unit_values
              (extract_section_assignments-IsRead qt content (codes "Automount") automount_keys
                values (lift-eq-ok section_error _ extracted))
              (extract_section_assignments-IsRead qt content (codes "Unit") unit_keys unit_values
                (lift-eq-ok section_error _ units))
              present h₄,
        ),
      )

  -- One unit file is accepted for one share only: whichever two valid markers and mount points it
  -- is checked against, they agree on the mount point, owner, group, access mode and
  -- authentication, and on the id unless they are guests.
  pub validate_mount_unique :
      (content : Text) (m n : Marker) (p q what source : Text)
      → IsValidMarker m
      → IsValidMarker n
      → validate_mount_unit_body qt content m p ≡ ok what
      → validate_mount_unit_body qt content n q ≡ ok source
      → (p ≡ q)
        × (what ≡ source)
        × (m.owner_uid ≡ n.owner_uid)
        × (m.owner_gid ≡ n.owner_gid)
        × (m.access ≡ n.access)
        × (m.authentication ≡ n.authentication)
        × ((m.authentication ≡ guest) ⊎ (m.id ≡ n.id))
  validate_mount_unique content m n p q what source v w hm hn =
      let (_, (vs, em, tm)) = validate_mount-ReadsAsTemplate content m p what hm in
      let (_, (ws, en, tn)) = validate_mount-ReadsAsTemplate content n q source hn in
      let same = values_injective (sym em ∙ en) in
      let options =
        encoded_injective qt _ _ (tm.options ∙ ap (λ t. ok (value_lookup (codes "Options") t)) same)
          tn.options in
      let (uid, gid, access, kind, id) = mount_options_for_injective m n v w options in
      (
        sym tm.place ∙ ap (λ t. undouble_percent (value_lookup (codes "Where") t)) same ∙ tn.place,
        sym tm.source ∙ ap (λ t. undouble_percent (value_lookup (codes "What") t)) same ∙ tn.source,
        uid,
        gid,
        access,
        kind,
        id,
      )
