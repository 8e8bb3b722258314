-- ===== src/UnitSpec/Template/Layout.antt =====
-- The two generated unit files as lists of lines, and which of those lines mean what.
use kde_nasmount.Prelude.{false, List, [], ◌∷◌, ◌++◌, ◌≡◌, refl, ap, ◌∙◌}
use kde_nasmount.Text.{Text, codes, line_feed, contains}
use kde_nasmount.Text.Lines.{AllLack, unlines, split-unlines}
use kde_nasmount.Text.Split.{split, split-append}
use kde_nasmount.UnitValue.Marker.{Marker, IsValidMarker, marker_comment}
use kde_nasmount.UnitValue.Marker.Lines.{marker_lines, marker_lines-AllLack, marker_comment-unlines}
use kde_nasmount.UnitSpec.Template.{managed_line}

unfoldable pub managed_text : Text
managed_text = codes "# Managed by nasmount — do not edit by hand; use the KCM or the dialog."

-- What follows the marker block of a mount unit.
unfoldable pub mount_tail : Text → Text → Text → Text → List Text
mount_tail described what place options =
    codes "[Unit]"
    ∷ (codes "Description=nasmount: " ++ described)
    ∷ []
    ∷ codes "[Mount]"
    ∷ (codes "What=" ++ what)
    ∷ (codes "Where=" ++ place)
    ∷ codes "Type=cifs"
    ∷ (codes "Options=" ++ options)
    ∷ codes "TimeoutSec=30"
    ∷ []

-- What follows the marker block of an automount unit.
unfoldable pub automount_tail : Text → Text → List Text
automount_tail described place =
    codes "[Unit]"
    ∷ (codes "Description=nasmount automount: " ++ described)
    ∷ (codes "ConditionPathIsDirectory=" ++ place)
    ∷ []
    ∷ codes "[Automount]"
    ∷ (codes "Where=" ++ place)
    ∷ codes "TimeoutIdleSec=60"
    ∷ codes "DirectoryMode=0700"
    ∷ []

pub mount_tail-unlines :
    (described what place options : Text)
    → codes "[Unit]\nDescription=nasmount: "
        ++ (described
            ++ (codes "\n\n[Mount]\nWhat="
                ++ (what
                    ++ (codes "\nWhere="
                        ++ (place
                            ++ (codes "\nType=cifs\nOptions="
                                ++ (options ++ codes "\nTimeoutSec=30\n")))))))
      ≡ unlines (mount_tail described what place options) []
unfolding unlines mount_tail
mount_tail-unlines described what place options = refl

pub automount_tail-unlines :
    (described place : Text)
    → codes "[Unit]\nDescription=nasmount automount: "
        ++ (described
            ++ (codes "\nConditionPathIsDirectory="
                ++ (place
                    ++ (codes "\n\n[Automount]\nWhere="
                        ++ (place ++ codes "\nTimeoutIdleSec=60\nDirectoryMode=0700\n")))))
      ≡ unlines (automount_tail described place) []
unfolding unlines automount_tail
automount_tail-unlines described place = refl

pub mount_tail-AllLack :
    (described what place options : Text)
    → contains described line_feed ≡ false
    → contains what line_feed ≡ false
    → contains place line_feed ≡ false
    → contains options line_feed ≡ false
    → AllLack line_feed (mount_tail described what place options)
unfolding mount_tail contains
mount_tail-AllLack described what place options d w p o =
    (refl, (d, (refl, (refl, (w, (p, (refl, (o, (refl, tt)))))))))

pub automount_tail-AllLack :
    (described place : Text)
    → contains described line_feed ≡ false
    → contains place line_feed ≡ false
    → AllLack line_feed (automount_tail described place)
unfolding automount_tail contains
automount_tail-AllLack described place d p =
    (refl, (d, (p, (refl, (refl, (p, (refl, (refl, tt))))))))

split-nil : split line_feed [] ≡ [] ∷ []
unfolding split
split-nil = refl

-- A whole unit file is cut into the first line, the block's lines, the tail's and an empty piece.
pub split_unit :
    (m : Marker) (tail : List Text)
    → IsValidMarker m
    → AllLack line_feed tail
    → split line_feed (managed_line ++ (marker_comment m ++ unlines tail []))
      ≡ managed_text ∷ (marker_lines m ++ (tail ++ ([] ∷ [])))
unfolding contains managed_text
split_unit m tail v clean =
    split-append line_feed managed_text (marker_comment m ++ unlines tail []) refl
    ∙ ap (λ r. managed_text ∷ r)
        (ap (split line_feed) (marker_comment-unlines m (unlines tail []))
          ∙ split-unlines (marker_lines m) (unlines tail []) (marker_lines-AllLack m v)
          ∙ ap (λ r. marker_lines m ++ r)
              (split-unlines tail [] clean ∙ (ap (λ r. tail ++ r) split-nil)))
