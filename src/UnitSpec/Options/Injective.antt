-- ===== src/UnitSpec/Options/Injective.antt =====
-- The option string determines what it was generated from.
use mathlib.Core.List.{append_cancel_right}
use kde_nasmount.Prelude.{ℕ, ◌<◌, ◌^◌, ◌≡◌, ◌⊎◌, inl, inr, refl, arith, ap, ◌∙◌, sym}
use kde_nasmount.Text.{Text, codes}
use kde_nasmount.Text.Decimal.{decimal, to_uint-decimal}
use kde_nasmount.Text.Split.{split}
use kde_nasmount.UnitValue.Access.{AuthenticationKind, credentials, guest, AccessMode}
use kde_nasmount.UnitValue.Marker.{Marker, IsValidMarker}
use kde_nasmount.UnitSpec.Options.Terms.{split-mount_options_for}
use kde_nasmount.UnitSpec.Options.{
  mount_terms, mount_options_for, access_terms, credential_path_for, cred_path_of, credential_term,
}

decimal_injective : (a b : ℕ) → a < 2 ^ 32 → b < 2 ^ 32 → decimal a ≡ decimal b → a ≡ b
decimal_injective a b ha hb e = cc (to_uint-decimal a ha, to_uint-decimal b hb)

access_terms_injective : (a b : AccessMode) → access_terms a ≡ access_terms b → a ≡ b
access_terms_injective a b e = ground arith

credential_term_injective :
    (j k : AuthenticationKind) (a b : Text)
    → credential_term (cred_path_of j a) ≡ credential_term (cred_path_of k b)
    → (j ≡ k) × (j ≡ credentials → a ≡ b)
unfolding credential_path_for
credential_term_injective guest guest a b e = (refl, λ h. cc)
credential_term_injective guest credentials a b e = cc
credential_term_injective credentials guest a b e = cc
credential_term_injective credentials credentials a b e =
    (refl, λ _. append_cancel_right a b (codes ".cred") (cc))

or_guest : (a : AuthenticationKind) {P : Type 0} → (a ≡ credentials → P) → (a ≡ guest) ⊎ P
or_guest credentials f = inr (f refl)
or_guest guest f = inl refl

-- Two valid markers with the same option string have the same owner, group, authentication kind and
-- access mode, and the same id unless they are guests.
pub mount_options_for_injective :
    (m n : Marker)
    → IsValidMarker m
    → IsValidMarker n
    → mount_options_for m ≡ mount_options_for n
    → (m.owner_uid ≡ n.owner_uid)
      × (m.owner_gid ≡ n.owner_gid)
      × (m.access ≡ n.access)
      × (m.authentication ≡ n.authentication)
      × ((m.authentication ≡ guest) ⊎ (m.id ≡ n.id))
unfolding mount_terms
mount_options_for_injective m n v w e =
    let terms =
      sym (split-mount_options_for m v) ∙ ap (split b',') e ∙ split-mount_options_for n w in
    let (kind, id) =
      credential_term_injective m.authentication n.authentication m.id n.id (cc terms) in
    (
      decimal_injective _ _ v.uid_fits w.uid_fits (cc terms),
      decimal_injective _ _ v.gid_fits w.gid_fits (cc terms),
      access_terms_injective _ _ (cc terms),
      kind,
      or_guest m.authentication id,
    )
