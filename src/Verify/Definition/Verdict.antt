-- ===== src/Verify/Definition/Verdict.antt =====
-- The verdict Pair, and what the other verdicts leave out.
use kde_nasmount.Prelude.{
  ℕ, Bool, true, false, ◌&&◌, ◌||◌, ◌≡◌, refl, sym, ap, subst, ◌∙◌, if◌then◌else◌, ok, ◌++◌, arith,
}
use kde_nasmount.Qt.{Qt}
use kde_nasmount.Text.{Text, codes, line_feed}
use kde_nasmount.UnitValue.Marker.{Marker, parse_marker}
use kde_nasmount.UnitValue.Paths.{UnitPaths}
use kde_nasmount.UnitSpec.Template.{
  validate_mount_unit_body, validate_automount_unit_body, mount_keys, automount_keys, unit_keys,
}
use kde_nasmount.UnitSpec.Template.Section.{Values, extract_section_assignments}
use kde_nasmount.UnitSpec.Template.Strict.{
  ReadsAsTemplate, ReadsAsAutomount, validate_mount-ReadsAsTemplate,
  validate_automount-ReadsAsAutomount,
}
use kde_nasmount.UnitValue.Marker.Spec.{IsMarkerOf}
use kde_nasmount.UnitValue.Marker.Sound.{parse_marker-IsMarkerOf}
use kde_nasmount.Text.Split.{split}
use kde_nasmount.Verify.Files.{
  Files, FileProbe, readable, probe_unit_file, drop_in_exists, is_missing, is_tampered,
}
use kde_nasmount.Verify.Files.RootFile.{IsRootFile, probe_unit_file-IsRootFile, drop_in_absent}
use kde_nasmount.Verify.Definition.{
  mount_side, automount_side, Definition, DefinitionCheck, SideCheck, valid, marker_eq, blank_check,
  verdict, unsafe_file, drop_in_present, apply_marker, combine_sides, decide_sides, checked_mount,
  checked_automount, evaluate_side, evaluate_mount_side, evaluate_automount_side, inspect_probes,
  inspect_definition,
}
use kde_nasmount.Verify.Definition.Pair.{
  marker_eq→≡, decide_sides-eq-pair, evaluate_side-eq-valid, mount_side-eq-valid,
  automount_side-eq-valid,
}

-- Both files are root's, without drop-ins; the lines of both make one complete marker of the owner, and
-- the sections of both have the values of the template.
pub record IsPair (qt : Qt) (uid : ℕ) (mount_point : Text) (files : Files) (paths : UnitPaths)
    (what : Text) (m : Marker) : Type 0 where
  pub mount_content : Text
  pub automount_content : Text
  pub mount_read : IsRootFile files paths.mount_unit_path mount_content
  pub automount_read : IsRootFile files paths.automount_unit_path automount_content
  pub no_mount_drop_in : files.entry_exists (paths.mount_unit_path ++ codes ".d") ≡ false
  pub no_automount_drop_in : files.entry_exists (paths.automount_unit_path ++ codes ".d") ≡ false
  pub mount_marker : IsMarkerOf (split line_feed mount_content) m
  pub automount_marker : IsMarkerOf (split line_feed automount_content) m
  pub owned : m.owner_uid ≡ uid
  pub mount_values : Values
  pub mount_section :
      extract_section_assignments qt mount_content (codes "Mount") mount_keys ≡ ok mount_values
  pub mount_body :
      ReadsAsTemplate qt m mount_point what (split line_feed mount_content) mount_values
  pub automount_values : Values
  pub automount_section :
      extract_section_assignments qt automount_content (codes "Automount") automount_keys
      ≡ ok automount_values
  pub unit_values : Values
  pub unit_section :
      extract_section_assignments qt automount_content (codes "Unit") unit_keys ≡ ok unit_values
  pub automount_body :
      ReadsAsAutomount qt mount_point
        (split line_feed automount_content)
        automount_values
        unit_values

or-eq-false : (a b : Bool) → (a || b) ≡ false → (a ≡ false) × (b ≡ false)
or-eq-false a b h = ground arith

abbrev pub HasFields : Marker → DefinitionCheck → Type 0
HasFields m check =
    (check.id ≡ m.id)
    × (check.owner_uid ≡ m.owner_uid)
    × (check.owner_gid ≡ m.owner_gid)
    × (check.authentication ≡ m.authentication)
    × (check.access ≡ m.access)

passed_guards :
    (t₁ t₂ drop_in gone : Bool) (u v n d : DefinitionCheck)
    → u.state ≡ Definition.tampered
    → v.state ≡ Definition.tampered
    → n.state ≡ Definition.none
    → (if t₁ || t₂ then u else if drop_in then v else if gone then n else d).state ≡ Definition.pair
    → (t₁ ≡ false)
      × (t₂ ≡ false)
      × (drop_in ≡ false)
      × ((if t₁ || t₂ then u else if drop_in then v else if gone then n else d) ≡ d)
passed_guards false false false false u v n d eu ev en h = (refl, refl, refl, refl)
passed_guards false false false true u v n d eu ev en h = cc
passed_guards false false true _ u v n d eu ev en h = cc
passed_guards false true _ _ u v n d eu ev en h = cc
passed_guards true _ _ _ u v n d eu ev en h = cc

module _ (qt : Qt) (uid : ℕ) (mount_point : Text) where
  inspect_probes_lem :
      (name : Text) (a b : FileProbe) (drop_in : Bool)
      → inspect_probes qt uid mount_point name a b drop_in ≡ (
          if is_tampered a || is_tampered b
          then verdict Definition.tampered unsafe_file (blank_check name mount_point)
          else if drop_in
          then verdict Definition.tampered drop_in_present (blank_check name mount_point)
          else if is_missing a && is_missing b
          then blank_check name mount_point
          else decide_sides
              (evaluate_mount_side qt uid mount_point a)
              (evaluate_automount_side qt uid mount_point b)
              (blank_check name mount_point))
  unfolding inspect_probes
  inspect_probes_lem name a b drop_in = refl

  inspect_probes-eq-pair :
      (name : Text) (a b : FileProbe) (drop_in : Bool)
      → (inspect_probes qt uid mount_point name a b drop_in).state ≡ Definition.pair
      → (is_tampered a ≡ false)
        × (is_tampered b ≡ false)
        × (drop_in ≡ false)
        × (inspect_probes qt uid mount_point name a b drop_in
            ≡ decide_sides
                (evaluate_mount_side qt uid mount_point a)
                (evaluate_automount_side qt uid mount_point b)
                (blank_check name mount_point))
  inspect_probes-eq-pair name a b drop_in h =
      let e = inspect_probes_lem name a b drop_in in
      let (ta, tb, dropped, is) =
        passed_guards (is_tampered a) (is_tampered b) drop_in (is_missing a && is_missing b) _ _ _ _
          refl refl refl (sym (ap (λ c. c.state) e) ∙ h) in
      (ta, tb, dropped, e ∙ is)

  decided_pair :
      (a b : SideCheck) (m am : Marker) (what rest : Text) (check : DefinitionCheck)
      → a ≡ valid m what
      → b ≡ valid am rest
      → marker_eq m am ≡ true
      → decide_sides a b check
        ≡ record (apply_marker m check) { state = Definition.pair; what = what }
  unfolding decide_sides combine_sides
  decided_pair a b m am what rest check ea eb e = rw (ea, eb) (rw e refl)

  applied_fields :
      (m : Marker) (what : Text) (check : DefinitionCheck)
      → HasFields m (record (apply_marker m check) { state = Definition.pair; what = what })
  unfolding apply_marker
  applied_fields m what check = (refl, refl, refl, refl, refl)

  inspect_definition_lem :
      (files : Files) (paths : UnitPaths)
      → inspect_definition qt uid mount_point files paths
        ≡ inspect_probes qt uid mount_point paths.unit_name
            (probe_unit_file files paths.mount_unit_path)
            (probe_unit_file files paths.automount_unit_path)
            (drop_in_exists files paths.mount_unit_path
              || drop_in_exists files paths.automount_unit_path)
  unfolding inspect_definition
  inspect_definition_lem files paths = refl

  evaluate_mount_lem :
      (p : FileProbe)
      → evaluate_mount_side qt uid mount_point p
        ≡ evaluate_side qt uid mount_point (checked_mount qt uid mount_point) p
  unfolding evaluate_mount_side
  evaluate_mount_lem p = refl

  evaluate_automount_lem :
      (p : FileProbe)
      → evaluate_automount_side qt uid mount_point p
        ≡ evaluate_side qt uid mount_point (checked_automount qt uid mount_point) p
  unfolding evaluate_automount_side
  evaluate_automount_lem p = refl

  checked_mount_lem :
      (c : Text) (m : Marker)
      → checked_mount qt uid mount_point c m
        ≡ mount_side m (validate_mount_unit_body qt c m mount_point)
  unfolding checked_mount
  checked_mount_lem c m = refl

  checked_automount_lem :
      (c : Text) (m : Marker)
      → checked_automount qt uid mount_point c m
        ≡ automount_side m (validate_automount_unit_body qt c m mount_point)
  unfolding checked_automount
  checked_automount_lem c m = refl

  mount_side_read :
      (p : FileProbe) (m : Marker) (what : Text)
      → is_tampered p ≡ false
      → evaluate_mount_side qt uid mount_point p ≡ valid m what
      → (content : Text) × (p ≡ readable content)
        × (parse_marker content ≡ ok m)
        × (m.owner_uid ≡ uid)
        × (validate_mount_unit_body qt content m mount_point ≡ ok what)
  mount_side_read p m what t h =
      let (content, found, read, parsed, owned, body) =
        evaluate_side-eq-valid qt uid mount_point (checked_mount qt uid mount_point) p m what t
          (sym (evaluate_mount_lem p) ∙ h) in
      let (same, valid_body) =
        mount_side-eq-valid found m _ what (sym (checked_mount_lem content found) ∙ body) in
      rw (sym same) (content, read, parsed, owned, valid_body)

  automount_side_read :
      (p : FileProbe) (m : Marker) (rest : Text)
      → is_tampered p ≡ false
      → evaluate_automount_side qt uid mount_point p ≡ valid m rest
      → (content : Text) × (p ≡ readable content)
        × (parse_marker content ≡ ok m)
        × (m.owner_uid ≡ uid)
        × (validate_automount_unit_body qt content m mount_point ≡ ok tt)
  automount_side_read p m rest t h =
      let (content, found, read, parsed, owned, body) =
        evaluate_side-eq-valid qt uid mount_point (checked_automount qt uid mount_point) p m rest t
          (sym (evaluate_automount_lem p) ∙ h) in
      let (same, valid_body) =
        automount_side-eq-valid found m _ rest (sym (checked_automount_lem content found) ∙ body) in
      rw (sym same) (content, read, parsed, owned, valid_body)

  -- The verdict Pair is given only when both unit files are regular files of root that neither group
  -- nor others may write, neither has a drop-in, the lines of each are a complete marker block and both
  -- say the same marker, of the expected owner, and the sections have the template's values, where the
  -- Where= and What= of the mount unit are read with each "%%" replaced by "%"; the fields of the result
  -- are the marker's and the What= that the mount unit reads as.
  pub inspect_definition-IsPair :
      (files : Files) (paths : UnitPaths) (check : DefinitionCheck)
      → inspect_definition qt uid mount_point files paths ≡ check
      → check.state ≡ Definition.pair
      → (m : Marker) × HasFields m check × IsPair qt uid mount_point files paths check.what m
  inspect_definition-IsPair files paths check e h =
      let run = sym (inspect_definition_lem files paths) ∙ e in
      let (ta, tb, dropped, decided) = inspect_probes-eq-pair _ _ _ _ (ap (λ c. c.state) run ∙ h) in
      let is = sym run ∙ decided in
      let (m, am, what, rest, ea, eb, same) =
        decide_sides-eq-pair _ _ _ refl (sym (ap (λ c. c.state) is) ∙ h) in
      let final = is ∙ decided_pair _ _ m am what rest _ ea eb same in
      let one = marker_eq→≡ m am same in
      let (mc, mr, mp, mo, mb) = mount_side_read _ m what ta ea in
      let (ac, ar, ap₁, ao, ab) = automount_side_read _ am rest tb eb in
      let (dm, da) =
        or-eq-false (drop_in_exists files paths.mount_unit_path)
          (drop_in_exists files paths.automount_unit_path) dropped in
      let amp = ap₁ ∙ ap (λ x. ok x) (sym one) in
      let (_, (mv, ms, mt)) =
        validate_mount-ReadsAsTemplate qt mc m mount_point check.what
          (mb ∙ ap (λ x. ok x) (sym (ap (λ c. c.what) final))) in
      let (_, (av, uv, as_, us, at)) =
        validate_automount-ReadsAsAutomount qt ac am mount_point ab in
      (
        m,
        subst (HasFields m) (sym final) (applied_fields m what _),
        record {
          mount_content = mc;
          automount_content = ac;
          mount_read = probe_unit_file-IsRootFile files paths.mount_unit_path mc mr;
          automount_read = probe_unit_file-IsRootFile files paths.automount_unit_path ac ar;
          no_mount_drop_in = drop_in_absent files paths.mount_unit_path dm;
          no_automount_drop_in = drop_in_absent files paths.automount_unit_path da;
          mount_marker = parse_marker-IsMarkerOf mc m mp;
          automount_marker = parse_marker-IsMarkerOf ac m amp;
          owned = mo;
          mount_values = mv;
          mount_section = ms;
          mount_body = mt;
          automount_values = av;
          automount_section = as_;
          unit_values = uv;
          unit_section = us;
          automount_body = at;
        },
      )
