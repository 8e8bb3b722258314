-- ===== src/Verify/Definition/Pair.antt =====
-- What a verdict on the pair of unit files rests on.
use kde_nasmount.Prelude.{
  ℕ, true, false, not, ◌≡◌, inl, inr, refl, sym, ◌∙◌, arith, ==_refl, if◌then◌else◌, Result, ok,
  err, Bool-cases,
}
use kde_nasmount.Qt.{Qt}
use kde_nasmount.Text.{Text}
use kde_nasmount.Text.Laws.{text_eq_iff, text_eq_refl}
use kde_nasmount.UnitValue.Access.{
  AuthenticationKind, credentials, guest, AccessMode, read_write, read_only, read_write_executable,
}
use kde_nasmount.UnitValue.Marker.{Marker, parse_marker, has_marker}
use kde_nasmount.UnitSpec.Template.{TemplateError}
use kde_nasmount.Verify.Files.{FileProbe, readable, missing, tampered, is_tampered}
use kde_nasmount.Verify.Definition.{
  Definition, DefinitionCheck, SideCheck, no_marker, valid, marker_eq, same_authentication,
  same_access, parse_owned_marker, apply_marker, combine_sides, decide_sides, marker_side,
  mount_side, automount_side, evaluate_side,
}

same_authentication_iff : (a b : AuthenticationKind) → (same_authentication a b ≡ true) → (a ≡ b)
same_authentication_iff credentials credentials h = refl
same_authentication_iff guest guest h = refl
same_authentication_iff credentials guest h = cc
same_authentication_iff guest credentials h = cc

same_access_iff : (a b : AccessMode) → (same_access a b ≡ true) → (a ≡ b)
same_access_iff a b h = ground arith

same_authentication_refl : (a : AuthenticationKind) → same_authentication a a ≡ true
same_authentication_refl credentials = refl
same_authentication_refl guest = refl

same_access_refl : (a : AccessMode) → same_access a a ≡ true
same_access_refl read_write = refl
same_access_refl read_only = refl
same_access_refl read_write_executable = refl

pub marker_eq→≡ : (m other : Marker) → marker_eq m other ≡ true → m ≡ other
unfolding marker_eq
marker_eq→≡ m other h = ground (
  arith,
  text_eq_iff m.id other.id,
  same_authentication_iff m.authentication other.authentication,
  same_access_iff m.access other.access,
)

pub marker_eq_refl : (m : Marker) → marker_eq m m ≡ true
unfolding marker_eq
marker_eq_refl m =
    rw
      (
        ==_refl m.owner_uid,
        ==_refl m.owner_gid,
        text_eq_refl m.id,
        same_authentication_refl m.authentication,
      )
      (same_access_refl m.access)

pub decide_sides-eq-pair :
    (a b : SideCheck) (check : DefinitionCheck)
    → check.state ≡ Definition.none
    → (decide_sides a b check).state ≡ Definition.pair
    → (m : Marker) × (am : Marker) × (what : Text) × (rest : Text) × (a ≡ valid m what)
      × (b ≡ valid am rest)
      × (marker_eq m am ≡ true)
unfolding decide_sides combine_sides apply_marker
decide_sides-eq-pair (valid m what) (valid am rest) check n h =
    (m, am, what, rest, refl, refl, ground arith)
decide_sides-eq-pair a b check n h = ground arith

parse_owned_marker-eq-ok :
    (content : Text) (uid : ℕ) {m : Marker}
    → parse_owned_marker content uid ≡ ok m
    → (parse_marker content ≡ ok m) × (m.owner_uid ≡ uid)
unfolding parse_owned_marker
parse_owned_marker-eq-ok content uid {m} h = ground arith

marker_side-eq-valid :
    (parsed : Result (Unit {0}) Marker) (body : Marker → SideCheck) (m : Marker) (what : Text)
    → marker_side parsed body ≡ valid m what
    → (found : Marker) × (parsed ≡ ok found) × (body found ≡ valid m what)
unfolding marker_side
marker_side-eq-valid (ok found) body m what h = (found, refl, h)
marker_side-eq-valid (err e) body m what h = cc

pub mount_side-eq-valid :
    (found m : Marker) (checked : Result TemplateError Text) (what : Text)
    → mount_side found checked ≡ valid m what
    → (found ≡ m) × (checked ≡ ok what)
unfolding mount_side
mount_side-eq-valid found m (ok w) what h = ground arith
mount_side-eq-valid found m (err e) what h = cc

pub automount_side-eq-valid :
    (found m : Marker) (checked : Result TemplateError (Unit {0})) (rest : Text)
    → automount_side found checked ≡ valid m rest
    → (found ≡ m) × (checked ≡ ok tt)
unfolding automount_side
automount_side-eq-valid found m (ok tt) rest h = ground arith
automount_side-eq-valid found m (err e) rest h = cc

module _ (qt : Qt) (uid : ℕ) (mount_point : Text) where
  pub evaluate_readable_lem :
      (body : Text → Marker → SideCheck) (content : Text)
      → evaluate_side qt uid mount_point body (readable content) ≡ (
          if not (has_marker content)
          then no_marker
          else marker_side (parse_owned_marker content uid) (body content))
  unfolding evaluate_side
  evaluate_readable_lem body content = refl

  pub evaluate_side-eq-valid :
      (body : Text → Marker → SideCheck) (probe : FileProbe) (m : Marker) (what : Text)
      → is_tampered probe ≡ false
      → evaluate_side qt uid mount_point body probe ≡ valid m what
      → (content : Text) × (found : Marker) × (probe ≡ readable content)
        × (parse_marker content ≡ ok found)
        × (found.owner_uid ≡ uid)
        × (body content found ≡ valid m what)
  unfolding evaluate_side
  evaluate_side-eq-valid body (readable content) m what t h =
      elim (Bool-cases (has_marker content)) [
        | inl marked ↦
            (let (found, parsed, run) =
                marker_side-eq-valid (parse_owned_marker content uid) (body content) m what
                  (sym (evaluate_readable_lem body content ∙ rw marked) ∙ h) in
              let (read, owned) = parse_owned_marker-eq-ok content uid parsed in
              (content, found, refl, read, owned, run))
        | inr n ↦ absurd (not_valid (sym (evaluate_readable_lem body content ∙ rw n) ∙ h))
      ]
    where
      not_valid : no_marker ≡ valid m what → ⊥
      not_valid e = cc
  evaluate_side-eq-valid body missing m what t h = cc
  evaluate_side-eq-valid body tampered m what t h = cc
