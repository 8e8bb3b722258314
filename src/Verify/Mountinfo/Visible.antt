-- ===== src/Verify/Mountinfo/Visible.antt =====
-- classifyMountEntries looks at the one mount that nothing else at the path is mounted on.
use kde_nasmount.Prelude.{
  false, not, ◌&&◌, Option, none, some, List, [], ◌∷◌, ◌++◌, ◌≡◌, refl, if◌then◌else◌,
}
use kde_nasmount.Qt.{Qt}
use kde_nasmount.Text.{Text, is_some}
use kde_nasmount.Verify.Mountinfo.{MountEntry, any_on, ambiguous, find_top}

-- The entry stands in the list, and no other entry of the list is mounted on it.
pub record IsVisible (stack : List MountEntry) (e : MountEntry) : Type 0 where
  pub before : List MountEntry
  pub after : List MountEntry
  pub splits : stack ≡ before ++ (e ∷ after)
  pub uncovered : any_on e.mount_id (before ++ after) ≡ false

-- one step of the search
pub find_top-cons :
    (before : List MountEntry) (found : Option MountEntry) (c : MountEntry)
    (after : List MountEntry)
    → find_top before found (c ∷ after) ≡ (
        if not (any_on c.mount_id (before ++ after)) && is_some found
        then ambiguous
        else find_top
            (before ++ (c ∷ []))
            (if any_on c.mount_id (before ++ after) then found else some c)
            after)
unfolding find_top
find_top-cons before found c after = refl

-- What has been found so far is visible in the whole stack.
FoundIn : List MountEntry → Option MountEntry → Type 0
FoundIn stack none = Unit
FoundIn stack (some e) = IsVisible stack e
