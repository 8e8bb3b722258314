-- ===== src/Tests/Core.antt =====
-- Runs and instances for the core: values, markers, paths, options, unit files.
use kde_nasmount.Prelude.{ℕ, ◌⊎◌, true, false, [], ◌∷◌, ◌≡◌, refl, ◌++◌, ok, err}
use kde_nasmount.Text.{Text, codes, line_feed, strip_prefix, contains, chop_end}
use kde_nasmount.Text.Lines.{unlines}
use kde_nasmount.Text.Split.{split}
use kde_nasmount.UnitValue.Access.{read_only, credentials, guest}
use kde_nasmount.UnitValue.Encode.{encode_unit_value, IsUnitValue, encode_unit_value-IsUnitValue}
use kde_nasmount.UnitValue.Marker.{IsValidMarker, marker_comment, parse_marker}
use kde_nasmount.UnitValue.Marker.RoundTrip.{parse_marker-marker_comment}
use kde_nasmount.UnitValue.Marker.Sound.{parse_marker-IsMarkerOf}
use kde_nasmount.UnitValue.Marker.Spec.{IsMarkerOf}
use kde_nasmount.UnitValue.Marker.Valid.{parse_marker-IsValidMarker}
use kde_nasmount.UnitSpec.Unc.{validate_unc, UncError}
use kde_nasmount.UnitSpec.Unc.Accepted.{IsUnc, validate_unc-IsUnc, validate_unc_complete}
use kde_nasmount.UnitSpec.Mountpoint.{
  MountpointPlan, validate_mountpoint, validate_mountpoint-IsBelow, IsBelow, allowed_roots,
}
use kde_nasmount.UnitSpec.Options.{mount_options_for}
use kde_nasmount.UnitSpec.Options.Terms.{mount_options_for_hardened, has_option}
use kde_nasmount.UnitSpec.Template.{
  build_mount_unit_content, build_automount_unit_content, validate_mount_unit_body,
}
use kde_nasmount.UnitSpec.Template.Strict.{validate_mount_unique}
use kde_nasmount.Tests.Setting.{
  qt, media, media-IsValidMarker, nas, mount_dir, share_id, escape_html,
}

media_options :
    mount_options_for media
    ≡ codes
        "credentials=/etc/nasmount/0123456789abcdef0123456789abcdef.cred,nosuid,nodev,forceuid,forcegid,uid=1000,gid=1000,nounix,iocharset=utf8,ro,file_mode=0400,dir_mode=0500"
unfolding mount_options_for
media_options = refl

abbrev encoded_dir : Text
encoded_dir = codes "/mnt/media 100%%"

encode_dir : encode_unit_value qt mount_dir ≡ ok encoded_dir
unfolding encode_unit_value
encode_dir = refl

encode_unit_value-IsUnitValue_example : IsUnitValue encoded_dir mount_dir
encode_unit_value-IsUnitValue_example =
    encode_unit_value-IsUnitValue qt mount_dir encoded_dir encode_dir

abbrev block : Text
block = unlines (codes "# first" ∷ []) (marker_comment media ++ codes "[Unit]\n")

parse_block : parse_marker block ≡ ok media
unfolding unlines marker_comment parse_marker
parse_block = refl

parse_marker-marker_comment_example : parse_marker block ≡ ok media
unfolding split strip_prefix contains
parse_marker-marker_comment_example =
    parse_marker-marker_comment media (codes "# first" ∷ []) (codes "[Unit]\n") media-IsValidMarker
      (refl, tt) (refl, tt) (refl, (refl, tt))

parse_marker-IsMarkerOf_example : IsMarkerOf (split line_feed block) media
parse_marker-IsMarkerOf_example = parse_marker-IsMarkerOf block media parse_block

parse_marker-IsValidMarker_example : IsValidMarker media
parse_marker-IsValidMarker_example = parse_marker-IsValidMarker block media parse_block

accept_nas : validate_unc (codes "//nas.local/100% Media/films//") ≡ ok nas
unfolding validate_unc
accept_nas = refl

pub nas_again : validate_unc nas ≡ ok nas
unfolding validate_unc
nas_again = refl

refuse_paths :
    (validate_unc (codes "//nas/a,b") ≡ err UncError.comma)
    × (validate_unc (codes "//nas/a/../b") ≡ err UncError.parent_component)
    × (validate_unc (codes "//nas/") ≡ err UncError.not_unc)
    × (validate_unc (codes "//[::1]/share") ≡ err UncError.not_unc)
unfolding validate_unc
refuse_paths = (refl, refl, refl, refl)

validate_unc-IsUnc_example :
    (nas ≡ chop_end b'/' (codes "//nas.local/100% Media/films//")) × IsUnc nas
validate_unc-IsUnc_example =
    validate_unc-IsUnc (codes "//nas.local/100% Media/films//") nas accept_nas

validate_unc_complete_example : validate_unc nas ≡ ok nas
validate_unc_complete_example = validate_unc_complete nas validate_unc-IsUnc_example.1

abbrev plan : MountpointPlan
plan = record { path = mount_dir; root = codes "/mnt"; suffix = codes "media 100%" ∷ [] }

accept_dir : validate_mountpoint qt (codes "/mnt/media 100%/") (codes "/home/user") ≡ ok plan
unfolding validate_mountpoint chop_end
accept_dir = refl

validate_mountpoint-IsBelow_example :
    (mount_dir ≡ qt.clean_path (codes "/mnt/media 100%/"))
    × IsBelow (allowed_roots qt (codes "/home/user")) plan
validate_mountpoint-IsBelow_example =
    validate_mountpoint-IsBelow qt (codes "/mnt/media 100%/") (codes "/home/user") plan accept_dir

mount_options_for_hardened_example :
    (has_option media (codes "nosuid") ≡ true)
    × (has_option media (codes "nodev") ≡ true)
    × (has_option media (codes "forceuid") ≡ true)
    × (has_option media (codes "forcegid") ≡ true)
    × (has_option media (codes "nounix") ≡ true)
    × (has_option media (codes "suid") ≡ false)
    × (has_option media (codes "dev") ≡ false)
    × (has_option media (codes "ro") ≡ true)
    × (has_option media (codes "guest") ≡ false)
mount_options_for_hardened_example = mount_options_for_hardened media media-IsValidMarker

abbrev pub mount_unit : Text
mount_unit =
    codes "# Managed by nasmount — do not edit by hand; use the KCM or the dialog.\n"
    ++ (codes "# X-Nasmount-Managed=1\n# X-Nasmount-Owner-Uid=1000\n# X-Nasmount-Owner-Gid=1000\n"
        ++ (codes "# X-Nasmount-Id=0123456789abcdef0123456789abcdef\n# X-Nasmount-Mode=system\n"
            ++ (codes "# X-Nasmount-Authentication=credentials\n# X-Nasmount-Access=readonly\n"
                ++ (codes "[Unit]\nDescription=nasmount: //nas.local/100% Media/films\n\n[Mount]\n"
                    ++ (codes
                          "What=//nas.local/100%% Media/films\nWhere=/mnt/media 100%%\nType=cifs\nOptions="
                        ++ (mount_options_for media ++ codes "\nTimeoutSec=30\n"))))))

abbrev pub automount_unit : Text
automount_unit =
    codes "# Managed by nasmount — do not edit by hand; use the KCM or the dialog.\n"
    ++ (codes "# X-Nasmount-Managed=1\n# X-Nasmount-Owner-Uid=1000\n# X-Nasmount-Owner-Gid=1000\n"
        ++ (codes "# X-Nasmount-Id=0123456789abcdef0123456789abcdef\n# X-Nasmount-Mode=system\n"
            ++ (codes "# X-Nasmount-Authentication=credentials\n# X-Nasmount-Access=readonly\n"
                ++ (codes "[Unit]\nDescription=nasmount automount: /mnt/media 100%\n"
                    ++ (codes "ConditionPathIsDirectory=/mnt/media 100%%\n\n[Automount]\n"
                        ++ codes
                            "Where=/mnt/media 100%%\nTimeoutIdleSec=60\nDirectoryMode=0700\n")))))

pub build_mount : build_mount_unit_content qt media nas mount_dir ≡ ok mount_unit
unfolding build_mount_unit_content escape_html
build_mount = refl

pub build_automount : build_automount_unit_content qt media mount_dir ≡ ok automount_unit
unfolding build_automount_unit_content escape_html
build_automount = refl

validate-build_mount_run : validate_mount_unit_body qt mount_unit media mount_dir ≡ ok nas
unfolding validate_mount_unit_body mount_options_for
validate-build_mount_run = refl

validate_mount_unique_example :
    (mount_dir ≡ mount_dir)
    × (nas ≡ nas)
    × ◌≡◌ {A = ℕ} 1000 1000
    × ◌≡◌ {A = ℕ} 1000 1000
    × (read_only ≡ read_only)
    × (credentials ≡ credentials)
    × ((credentials ≡ guest) ⊎ (share_id ≡ share_id))
validate_mount_unique_example =
    validate_mount_unique qt mount_unit media media mount_dir mount_dir nas nas media-IsValidMarker
      media-IsValidMarker validate-build_mount_run validate-build_mount_run
