-- ===== src/UnitSpec/Template/Continuation.antt =====
-- No line of a generated unit file is continued on the next.
use kde_nasmount.Prelude.{ℕ, ◌<◌, ◌^◌, true, false, List, [], ◌∷◌, ◌++◌, ◌≡◌, refl, ap, ◌∙◌}
use kde_nasmount.Text.{Text, codes, line_feed, ends_with}
use kde_nasmount.Text.Decimal.{decimal}
use kde_nasmount.Text.Laws.{contains-ends_with, ends_with-append_false}
use kde_nasmount.Text.Split.{split}
use kde_nasmount.UnitValue.Access.{
  AuthenticationKind, credentials, guest, AccessMode, read_write, read_only, read_write_executable,
}
use kde_nasmount.UnitValue.Marker.{Marker, IsValidMarker, is_valid_share_id, authentication_text}
use kde_nasmount.UnitValue.Marker.Lines.{marker_lines, access_lines, id-lack, decimal-lack}
use kde_nasmount.UnitSpec.Template.Layout.{managed_text, mount_tail, automount_tail}
use kde_nasmount.UnitSpec.Template.{any_continued, has_line_continuation}

abbrev pub NoneContinued : List Text → Type 0
NoneContinued [] = Unit
NoneContinued (l ∷ ls) = (ends_with l b'\\' ≡ false) × NoneContinued ls

NoneContinued-append :
    (a b : List Text) → NoneContinued a → NoneContinued b → NoneContinued (a ++ b)
NoneContinued-append [] b ha hb = hb
NoneContinued-append (l ∷ a) b (h, ha) hb = (h, NoneContinued-append a b ha hb)

any_continued-false : (ls : List Text) → NoneContinued ls → any_continued ls ≡ false
unfolding any_continued
any_continued-false [] h = refl
any_continued-false (l ∷ ls) (h, hs) = rw h (any_continued-false ls hs)

id_ends : (t : Text) → is_valid_share_id t ≡ true → ends_with t b'\\' ≡ false
id_ends t v = contains-ends_with t b'\\' (id-lack t b'\\' v refl)

decimal_ends : (n : ℕ) → n < 2 ^ 32 → ends_with (decimal n) b'\\' ≡ false
decimal_ends n h = contains-ends_with (decimal n) b'\\' (decimal-lack n b'\\' h refl)

authentication_ends :
    (k : AuthenticationKind)
    → ends_with (codes "# X-Nasmount-Authentication=" ++ authentication_text k) b'\\' ≡ false
unfolding ends_with
authentication_ends guest = refl
authentication_ends credentials = refl

access_lines-NoneContinued : (a : AccessMode) → NoneContinued (access_lines a)
unfolding access_lines ends_with
access_lines-NoneContinued read_write = tt
access_lines-NoneContinued read_only = (refl, tt)
access_lines-NoneContinued read_write_executable = (refl, tt)

block-NoneContinued : (m : Marker) → IsValidMarker m → NoneContinued (managed_text ∷ marker_lines m)
unfolding marker_lines managed_text ends_with
block-NoneContinued m v = (
  refl,
  (
    refl,
    (
      ends_with-append_false (codes "# X-Nasmount-Owner-Uid=") (decimal m.owner_uid) b'\\' refl
          (decimal_ends m.owner_uid v.uid_fits),
      (
        ends_with-append_false (codes "# X-Nasmount-Owner-Gid=") (decimal m.owner_gid) b'\\' refl
            (decimal_ends m.owner_gid v.gid_fits),
        (
          ends_with-append_false (codes "# X-Nasmount-Id=") m.id b'\\' refl
              (id_ends m.id v.id_valid),
          (refl, (authentication_ends m.authentication, access_lines-NoneContinued m.access)),
        ),
      ),
    ),
  ),
)

pub mount_tail-NoneContinued :
    (d w p o : Text)
    → ends_with d b'\\' ≡ false
    → ends_with w b'\\' ≡ false
    → ends_with p b'\\' ≡ false
    → ends_with o b'\\' ≡ false
    → NoneContinued (mount_tail d w p o ++ ([] ∷ []))
unfolding mount_tail ends_with
mount_tail-NoneContinued d w p o hd hw hp ho = (
  refl,
  (
    ends_with-append_false (codes "Description=nasmount: ") d b'\\' refl hd,
    (
      refl,
      (
        refl,
        (
          ends_with-append_false (codes "What=") w b'\\' refl hw,
          (
            ends_with-append_false (codes "Where=") p b'\\' refl hp,
            (refl, (ends_with-append_false (codes "Options=") o b'\\' refl ho, (refl, (refl, tt)))),
          ),
        ),
      ),
    ),
  ),
)

pub automount_tail-NoneContinued :
    (d p : Text)
    → ends_with d b'\\' ≡ false
    → ends_with p b'\\' ≡ false
    → NoneContinued (automount_tail d p ++ ([] ∷ []))
unfolding automount_tail ends_with
automount_tail-NoneContinued d p hd hp = (
  refl,
  (
    ends_with-append_false (codes "Description=nasmount automount: ") d b'\\' refl hd,
    (
      ends_with-append_false (codes "ConditionPathIsDirectory=") p b'\\' refl hp,
      (
        refl,
        (
          refl,
          (ends_with-append_false (codes "Where=") p b'\\' refl hp, (refl, (refl, (refl, tt)))),
        ),
      ),
    ),
  ),
)

pub has_line_continuation-unit :
    (m : Marker) (tail : List Text) (content : Text)
    → IsValidMarker m
    → NoneContinued tail
    → split line_feed content ≡ managed_text ∷ (marker_lines m ++ tail)
    → has_line_continuation content ≡ false
unfolding has_line_continuation
has_line_continuation-unit m tail content v h e =
    ap any_continued e
    ∙ any_continued-false ((managed_text ∷ marker_lines m) ++ tail)
        (NoneContinued-append (managed_text ∷ marker_lines m) tail (block-NoneContinued m v) h)
