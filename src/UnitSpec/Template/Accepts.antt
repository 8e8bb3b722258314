-- ===== src/UnitSpec/Template/Accepts.antt =====
-- The validators accept what the builders generate, for the same marker and mount point.
use kde_nasmount.Prelude.{
  ℕ, true, false, not, ◌||◌, none, some, List, [], ◌∷◌, ◌++◌, ◌≡◌, refl, arith, ◌∙◌, ok, err,
  if◌then◌else◌,
}
use kde_nasmount.Qt.{Qt, QtLaws, trimmed, trimmed_nonempty, trimmed_empty}
use kde_nasmount.Text.{Text, codes, list_contains, is_empty, text_eq}
use kde_nasmount.UnitValue.Access.{AccessMode, read_write, read_only, read_write_executable}
use kde_nasmount.UnitValue.Marker.{Marker}
use kde_nasmount.UnitValue.Marker.Lines.{marker_lines, access_lines}
use kde_nasmount.UnitSpec.Template.Section.{
  SectionScan, section_start, section_header, section_lines, at_line, assignment, add_assignment,
  has_value, unknown_directive, duplicate_assignment,
}
use kde_nasmount.UnitSpec.Template.Layout.{managed_text, mount_tail, automount_tail}
use kde_nasmount.UnitSpec.Template.{mount_keys, automount_keys, unit_keys}

-- No section begins on these lines.
abbrev NoHeaders : List Text → Type 0
NoHeaders [] = Unit
NoHeaders (l ∷ ls) = (section_header l ≡ none) × NoHeaders ls

access_lines-NoHeaders : (a : AccessMode) → NoHeaders (access_lines a)
unfolding access_lines section_header
access_lines-NoHeaders read_write = tt
access_lines-NoHeaders read_only = (refl, tt)
access_lines-NoHeaders read_write_executable = (refl, tt)

block-NoHeaders : (m : Marker) → NoHeaders (managed_text ∷ marker_lines m)
unfolding marker_lines managed_text section_header
block-NoHeaders m =
    (refl, (refl, (refl, (refl, (refl, (refl, (refl, access_lines-NoHeaders m.access)))))))

module _ (qt : Qt) (section : Text) (allowed : List Text) where
  section_lines-cons :
      (l : Text) (ls : List Text) (s s' : SectionScan)
      → at_line qt section allowed l (section_header l) s ≡ ok s'
      → section_lines qt section allowed (l ∷ ls) s ≡ section_lines qt section allowed ls s'
  unfolding section_lines
  section_lines-cons l ls s s' h = rw h

  section_lines-nil : (s : SectionScan) → section_lines qt section allowed [] s ≡ ok s
  unfolding section_lines
  section_lines-nil s = refl

  -- Outside the section every line is passed over.
  skip_lines :
      (ls more : List Text) (s : SectionScan)
      → NoHeaders ls
      → s.in_section ≡ false
      → section_lines qt section allowed (ls ++ more) s ≡ section_lines qt section allowed more s
  skip_lines [] more s h out = refl
  skip_lines (l ∷ ls) more s (h, hs) out =
      section_lines-cons l (ls ++ more) s s (rw h (unfold at_line in rw out))
      ∙ skip_lines ls more s hs out

  at_line_lem :
      (line : Text) (s : SectionScan)
      → at_line qt section allowed line none s ≡ (
          if not s.in_section || is_empty (trimmed qt line)
          then ok s
          else add_assignment qt section allowed line (assignment line) s)
  unfolding at_line
  at_line_lem line s = refl

  add_assignment_lem :
      (line key v : Text) (s : SectionScan)
      → add_assignment qt section allowed line (some (key, v)) s ≡ (
          if not (list_contains allowed key)
          then err (unknown_directive section key)
          else if has_value key s.values
          then err (duplicate_assignment section key)
          else ok (record s { values = (key, v) ∷ s.values }))
  unfolding add_assignment
  add_assignment_lem line key v s = refl

  -- An assignment in the section is recorded.
  assign :
      (c : ℕ) (t k v : Text) (s : SectionScan)
      → qt.is_space c ≡ false
      → section_header (c ∷ t) ≡ none
      → s.in_section ≡ true
      → assignment (c ∷ t) ≡ some (k, v)
      → list_contains allowed k ≡ true
      → has_value k s.values ≡ false
      → at_line qt section allowed (c ∷ t) (section_header (c ∷ t)) s
        ≡ ok (record s { values = (k, v) ∷ s.values })
  assign c t k v s space header inside assigns known fresh = ground (
    arith,
    at_line_lem (c ∷ t) s,
    trimmed_nonempty qt c t space,
    add_assignment_lem (c ∷ t) k v s,
  )

  blank_line : (s : SectionScan) → at_line qt section allowed [] (section_header []) s ≡ ok s
  unfolding section_header
  blank_line s = ground (arith, at_line_lem [] s, trimmed_empty qt)

  step_assign :
      (c : ℕ) (t k v : Text) (ls : List Text) (s : SectionScan)
      → qt.is_space c ≡ false
      → section_header (c ∷ t) ≡ none
      → s.in_section ≡ true
      → assignment (c ∷ t) ≡ some (k, v)
      → list_contains allowed k ≡ true
      → has_value k s.values ≡ false
      → section_lines qt section allowed ((c ∷ t) ∷ ls) s
        ≡ section_lines qt section allowed ls (record s { values = (k, v) ∷ s.values })
  step_assign c t k v ls s space header inside assigns known fresh =
      section_lines-cons (c ∷ t) ls s _ (assign c t k v s space header inside assigns known fresh)

  step_header :
      (l name : Text) (ls : List Text) (s : SectionScan)
      → section_header l ≡ some name
      → section_lines qt section allowed (l ∷ ls) s
        ≡ section_lines qt section allowed ls (record s {
          in_section = text_eq name section;
          section_seen = s.section_seen || text_eq name section;
        })
  step_header l name ls s h = section_lines-cons l ls s _ (rw h (unfold at_line in refl))

  -- A blank line is passed over, in the section too.
  step_blank :
      (ls : List Text) (s : SectionScan)
      → section_lines qt section allowed ([] ∷ ls) s ≡ section_lines qt section allowed ls s
  step_blank ls s = section_lines-cons [] ls s s (blank_line s)

module _ (qt : Qt) (laws : QtLaws qt) where
  -- The values read from the [Mount] section of a generated unit.
  pub mount_values :
      (m : Marker) (described what place options : Text)
      → section_lines qt
          (codes "Mount")
          mount_keys
          (managed_text
            ∷ (marker_lines m ++ (mount_tail described what place options ++ ([] ∷ []))))
          section_start
        ≡ ok (record {
          in_section = true;
          section_seen = true;
          values =
              (codes "TimeoutSec", codes "30")
              ∷ (codes "Options", options)
              ∷ (codes "Type", codes "cifs")
              ∷ (codes "Where", place)
              ∷ (codes "What", what)
              ∷ [];
        })
  unfolding mount_tail section_header text_eq assignment list_contains has_value
  mount_values m described what place options =
      skip_lines qt (codes "Mount") mount_keys (managed_text ∷ marker_lines m)
        (mount_tail described what place options ++ ([] ∷ [])) section_start (block-NoHeaders m)
        refl
      ∙ step_header qt (codes "Mount") mount_keys _ (codes "Unit") _ _ refl
      ∙ skip_lines qt (codes "Mount") mount_keys
          ((codes "Description=nasmount: " ++ described) ∷ [] ∷ []) _ _ (refl, (refl, tt)) refl
      ∙ step_header qt (codes "Mount") mount_keys _ (codes "Mount") _ _ refl
      ∙ step_assign qt (codes "Mount") mount_keys b'W' _ (codes "What") what _ _
          (laws.ascii_space b'W' (omega arith)) refl refl refl refl refl
      ∙ step_assign qt (codes "Mount") mount_keys b'W' _ (codes "Where") place _ _
          (laws.ascii_space b'W' (omega arith)) refl refl refl refl refl
      ∙ step_assign qt (codes "Mount") mount_keys b'T' _ (codes "Type") (codes "cifs") _ _
          (laws.ascii_space b'T' (omega arith)) refl refl refl refl refl
      ∙ step_assign qt (codes "Mount") mount_keys b'O' _ (codes "Options") options _ _
          (laws.ascii_space b'O' (omega arith)) refl refl refl refl refl
      ∙ step_assign qt (codes "Mount") mount_keys b'T' _ (codes "TimeoutSec") (codes "30") _ _
          (laws.ascii_space b'T' (omega arith)) refl refl refl refl refl
      ∙ step_blank qt (codes "Mount") mount_keys [] _
      ∙ section_lines-nil qt (codes "Mount") mount_keys _

  -- The values read from the [Automount] section of a generated unit.
  pub automount_values :
      (m : Marker) (described place : Text)
      → section_lines qt
          (codes "Automount")
          automount_keys
          (managed_text ∷ (marker_lines m ++ (automount_tail described place ++ ([] ∷ []))))
          section_start
        ≡ ok (record {
          in_section = true;
          section_seen = true;
          values =
              (codes "DirectoryMode", codes "0700")
              ∷ (codes "TimeoutIdleSec", codes "60")
              ∷ (codes "Where", place)
              ∷ [];
        })
  unfolding automount_tail section_header text_eq assignment list_contains has_value
  automount_values m described place =
      skip_lines qt (codes "Automount") automount_keys (managed_text ∷ marker_lines m)
        (automount_tail described place ++ ([] ∷ [])) section_start (block-NoHeaders m) refl
      ∙ step_header qt (codes "Automount") automount_keys _ (codes "Unit") _ _ refl
      ∙ skip_lines qt (codes "Automount") automount_keys
          ((codes "Description=nasmount automount: " ++ described)
            ∷ (codes "ConditionPathIsDirectory=" ++ place)
            ∷ []
            ∷ [])
          _ _ (refl, (refl, (refl, tt))) refl
      ∙ step_header qt (codes "Automount") automount_keys _ (codes "Automount") _ _ refl
      ∙ step_assign qt (codes "Automount") automount_keys b'W' _ (codes "Where") place _ _
          (laws.ascii_space b'W' (omega arith)) refl refl refl refl refl
      ∙ step_assign qt (codes "Automount") automount_keys b'T' _ (codes "TimeoutIdleSec")
          (codes "60") _ _ (laws.ascii_space b'T' (omega arith)) refl refl refl refl refl
      ∙ step_assign qt (codes "Automount") automount_keys b'D' _ (codes "DirectoryMode")
          (codes "0700") _ _ (laws.ascii_space b'D' (omega arith)) refl refl refl refl refl
      ∙ step_blank qt (codes "Automount") automount_keys [] _
      ∙ section_lines-nil qt (codes "Automount") automount_keys _

  -- The values read from the [Unit] section of a generated automount unit.
  pub unit_values :
      (m : Marker) (described place : Text)
      → section_lines qt
          (codes "Unit")
          unit_keys
          (managed_text ∷ (marker_lines m ++ (automount_tail described place ++ ([] ∷ []))))
          section_start
        ≡ ok (record {
          in_section = false;
          section_seen = true;
          values =
              (codes "ConditionPathIsDirectory", place)
              ∷ (codes "Description", codes "nasmount automount: " ++ described)
              ∷ [];
        })
  unfolding automount_tail section_header text_eq assignment list_contains has_value
  unit_values m described place =
      skip_lines qt (codes "Unit") unit_keys (managed_text ∷ marker_lines m)
        (automount_tail described place ++ ([] ∷ [])) section_start (block-NoHeaders m) refl
      ∙ step_header qt (codes "Unit") unit_keys _ (codes "Unit") _ _ refl
      ∙ step_assign qt (codes "Unit") unit_keys b'D' _ (codes "Description") _ _ _
          (laws.ascii_space b'D' (omega arith)) refl refl refl refl refl
      ∙ step_assign qt (codes "Unit") unit_keys b'C' _ (codes "ConditionPathIsDirectory") place _ _
          (laws.ascii_space b'C' (omega arith)) refl refl refl refl refl
      ∙ step_blank qt (codes "Unit") unit_keys _ _
      ∙ step_header qt (codes "Unit") unit_keys _ (codes "Automount") _ _ refl
      ∙ skip_lines qt (codes "Unit") unit_keys
          ((codes "Where=" ++ place)
            ∷ codes "TimeoutIdleSec=60"
            ∷ codes "DirectoryMode=0700"
            ∷ []
            ∷ [])
          [] _ (refl, (refl, (refl, (refl, tt)))) refl
      ∙ section_lines-nil qt (codes "Unit") unit_keys _
