-- ===== src/Operations/Purge/Known.antt =====
-- What the checks of purge say of the enumerated units and of the entries of the unit directory.
use kde_nasmount.Prelude.{
  ℕ, Bool, true, false, ◌&&◌, Option, none, some, List, [], ◌∷◌, ◌≡◌, ◌≢◌, ◌⊎◌, inl, inr, refl,
  arith, ==_iff, Result, ok, err, if◌then◌else◌, ◌==◌, Bool-cases,
}
use kde_nasmount.Text.{Text, text_eq, list_contains}
use kde_nasmount.Text.Laws.{text_eq_iff}
use kde_nasmount.UnitValue.Access.{AuthenticationKind, credentials, guest}
use kde_nasmount.UnitValue.Marker.{Marker, MarkerError, has_marker, parse_marker}
use kde_nasmount.Verify.Definition.{Definition, DefinitionCheck, same_authentication}
use kde_nasmount.Verify.Halves.{OwnedUnit}
use kde_nasmount.Arming.{StopResult, stopped}
use kde_nasmount.Operations.Remove.{is_down}
use kde_nasmount.Operations.Purge.{
  all_owned, is_tampered, valid_bases, base_of, entry_known, all_known, is_pair_or_partial,
  is_unchanged,
}

-- Every unit is well formed and of this user.
pub AllOwned : ℕ → List OwnedUnit → Type 0
AllOwned uid [] = Unit
AllOwned uid (u ∷ us) = (u.state ≢ Definition.tampered) × (u.owner_uid ≡ uid) × AllOwned uid us

-- one of the units has this name
pub IsNamed : Text → List OwnedUnit → Type 0
IsNamed base [] = ⊥
IsNamed base (u ∷ us) = (u.unit_name ≡ base) ⊎ IsNamed base us

-- An entry that was read has no line of a marker, or a whole marker and the name of a unit.
pub IsAccounted : List OwnedUnit → Text × Option Text → Type 0
IsAccounted units (name, none) = Unit
IsAccounted units (name, some content) =
    (has_marker content ≡ false)
    ⊎ (((m : Marker) × (parse_marker content ≡ ok m)) × IsNamed (base_of name) units)

pub AllAccounted : List OwnedUnit → List (Text × Option Text) → Type 0
AllAccounted units [] = Unit
AllAccounted units (e ∷ es) = IsAccounted units e × AllAccounted units es

both : (a b : Bool) → (a && b) ≡ true → (a ≡ true) × (b ≡ true)
both a b h = ground arith

untampered : (d : Definition) → is_tampered d ≡ false → d ≢ Definition.tampered
untampered Definition.tampered h e = cc
untampered Definition.pair h e = cc
untampered Definition.partial h e = cc
untampered Definition.none h e = cc
untampered Definition.not_ours h e = cc

pub all_owned-AllOwned : (uid : ℕ) (us : List OwnedUnit) → all_owned uid us ≡ true → AllOwned uid us
unfolding all_owned AllOwned
all_owned-AllOwned uid [] h = tt
all_owned-AllOwned uid (u ∷ us) h = (
  untampered u.state (ground arith),
  (==_iff u.owner_uid uid).0 (ground arith),
  all_owned-AllOwned uid us (ground arith),
)

list_contains-IsNamed :
    (us : List OwnedUnit) (base : Text)
    → list_contains (valid_bases us) base ≡ true
    → IsNamed base us
unfolding list_contains valid_bases IsNamed
list_contains-IsNamed [] base h = cc
list_contains-IsNamed (u ∷ us) base h = elim (Bool-cases (text_eq u.unit_name base)) [
  | inl e ↦ inl ((text_eq_iff u.unit_name base).0 e)
  | inr e ↦ inr (list_contains-IsNamed us base (ground arith))
]

entry_known-IsAccounted :
    (us : List OwnedUnit) (e : Text × Option Text)
    → entry_known (valid_bases us) e ≡ true
    → IsAccounted us e
unfolding entry_known IsAccounted
entry_known-IsAccounted us (name, none) = λ h. tt
entry_known-IsAccounted us (name, some content) =
    marked (has_marker content) (parse_marker content) refl refl
  where
    marked :
        (b : Bool) (r : Result MarkerError Marker)
        → has_marker content ≡ b
        → parse_marker content ≡ r
        → (if b
            then (elim r as (λ _. Bool) [
              | err _ ↦ false
              | ok _ ↦ list_contains (valid_bases us) (base_of name)
            ])
            else true)
          ≡ true
        → (has_marker content ≡ false)
          ⊎ (((m : Marker) × (parse_marker content ≡ ok m)) × IsNamed (base_of name) us)
    marked false r e p h = inl e
    marked true (err _) e p h = cc
    marked true (ok m) e p h = inr ((m, p), list_contains-IsNamed us (base_of name) h)

pub all_known-AllAccounted :
    (us : List OwnedUnit) (es : List (Text × Option Text))
    → all_known (valid_bases us) es ≡ true
    → AllAccounted us es
unfolding all_known AllAccounted
all_known-AllAccounted us [] h = tt
all_known-AllAccounted us (e ∷ es) h =
    (entry_known-IsAccounted us e (ground arith), all_known-AllAccounted us es (ground arith))

same_authentication-eq : (a b : AuthenticationKind) → same_authentication a b ≡ true → a ≡ b
same_authentication-eq credentials credentials h = refl
same_authentication-eq guest guest h = refl
same_authentication-eq credentials guest h = cc
same_authentication-eq guest credentials h = cc

pair_or_partial :
    (d : Definition)
    → is_pair_or_partial d ≡ true
    → (d ≡ Definition.pair) ⊎ (d ≡ Definition.partial)
pair_or_partial Definition.pair h = inl refl
pair_or_partial Definition.partial h = inr refl
pair_or_partial Definition.none h = cc
pair_or_partial Definition.not_ours h = cc
pair_or_partial Definition.tampered h = cc

-- The definition is the caller's and the one that was enumerated.
pub record IsUnchanged (uid : ℕ) (u : OwnedUnit) (def : DefinitionCheck) : Type 0 where
  pub found : (def.state ≡ Definition.pair) ⊎ (def.state ≡ Definition.partial)
  pub same_id : def.id ≡ u.id
  pub owned : def.owner_uid ≡ uid
  pub same_group : def.owner_gid ≡ u.owner_gid
  pub same_kind : def.authentication ≡ u.authentication

pub is_unchanged-IsUnchanged :
    (uid : ℕ) (u : OwnedUnit) (def : DefinitionCheck)
    → is_unchanged uid u def ≡ true
    → IsUnchanged uid u def
unfolding is_unchanged
is_unchanged-IsUnchanged uid u def h =
    let (found, h₁) = both (is_pair_or_partial def.state) _ h in
    let (id, h₂) = both (text_eq def.id u.id) _ h₁ in
    let (owner, h₃) = both (def.owner_uid == uid) _ h₂ in
    let (group, kind) = both (def.owner_gid == u.owner_gid) _ h₃ in
    record {
      found = pair_or_partial def.state found;
      same_id = (text_eq_iff def.id u.id).0 id;
      owned = (==_iff def.owner_uid uid).0 owner;
      same_group = (==_iff def.owner_gid u.owner_gid).0 group;
      same_kind = same_authentication-eq def.authentication u.authentication kind;
    }

pub is_down-cases :
    (r : StopResult) → is_down r ≡ true → (r ≡ stopped) ⊎ (r ≡ StopResult.already_inactive)
unfolding is_down
is_down-cases stopped h = inl refl
is_down-cases StopResult.already_inactive h = inr refl
is_down-cases StopResult.busy h = cc
is_down-cases StopResult.correlation_mismatch h = cc
is_down-cases StopResult.indeterminate h = cc
