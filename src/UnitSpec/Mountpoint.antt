-- ===== src/UnitSpec/Mountpoint.antt =====
-- MountpointPlan and validateMountpoint: the lexical authorization of a mount point.
use kde_nasmount.Prelude.{
  true, false, not, Option, none, some, List, [], ◌∷◌, ◌++◌, ◌≡◌, ◌⊎◌, refl, arith, if◌then◌else◌,
  Result, ok, err, ◌∙◌, sym, inl, inr, Option-cases, Bool-cases,
}
use kde_nasmount.Qt.{Qt, trimmed}
use kde_nasmount.Text.{
  Text, codes, contains, is_empty, strip_prefix, list_contains, ends_with, starts_with, text_eq,
}
use kde_nasmount.Text.Laws.{strip_prefix-eq-some, list_contains_self, list_contains_later}
use kde_nasmount.Text.Split.{split, drop_empty}
use kde_nasmount.UnitValue.Encode.{has_control_chars}
use kde_nasmount.Text.Lines.{AllLack, split-AllLack}

pub record MountpointPlan : Type 0 where
  pub path : Text
  pub root : Text
  pub suffix : List Text

pub data MountpointError : Type 0 where
  control_characters not_absolute trailing_backslash outer_whitespace parent_component :
      MountpointError
  onto_root : Text → MountpointError
  not_below : List Text → MountpointError

abbrev pub static_allowed_roots : List Text
static_allowed_roots = codes "/mnt" ∷ codes "/media" ∷ []

plan_below : Text → Text → List Text → Result MountpointError MountpointPlan
plan_below clean root [] = err (onto_root root)
plan_below clean root (c ∷ cs) =
    if list_contains (c ∷ cs) (codes "..")
    then err parent_component
    else ok (record { path = clean; root = root; suffix = c ∷ cs })

found_root :
    Text
    → Text
    → Result MountpointError MountpointPlan
    → Option Text
    → Result MountpointError MountpointPlan
found_root clean root others none = others
found_root clean root others (some rest) = plan_below clean root (drop_empty (split b'/' rest))

-- The loop over the allowed roots; the second list is all of them, for the message.
try_roots : Text → List Text → List Text → Result MountpointError MountpointPlan
unfolding plan_below found_root drop_empty split text_eq list_contains strip_prefix
try_roots clean [] allowed = err (not_below allowed)
try_roots clean (root ∷ roots) allowed =
    let others = try_roots clean roots allowed in
    if text_eq clean root
    then err (onto_root root)
    else found_root clean root others (strip_prefix (root ++ codes "/") clean)

module _ (qt : Qt) where
  abbrev pub allowed_roots : Text → List Text
  allowed_roots home_dir =
      static_allowed_roots ++ (if is_empty home_dir then [] else qt.clean_path home_dir ∷ [])

  unfoldable pub validate_mountpoint : Text → Text → Result MountpointError MountpointPlan
  unfolding has_control_chars strip_prefix ends_with text_eq trimmed try_roots
  validate_mountpoint raw_path home_dir =
      if has_control_chars raw_path
      then err control_characters
      else if not (starts_with (codes "/") raw_path)
      then err not_absolute
      else if ends_with raw_path b'\\'
      then err trailing_backslash
      else if not (text_eq raw_path (trimmed qt raw_path))
      then err outer_whitespace
      else try_roots (qt.clean_path raw_path) (allowed_roots home_dir) (allowed_roots home_dir)

-- The components of a plan: plain names, none of them empty, with a separator, or "..".
abbrev pub AllPlain : List Text → Type 0
AllPlain [] = Unit
AllPlain (c ∷ cs) =
    ((is_empty c ≡ false) × (contains c b'/' ≡ false) × (text_eq c (codes "..") ≡ false))
    × AllPlain cs

pub record IsBelow (allowed : List Text) (plan : MountpointPlan) : Type 0 where
  pub authorized : list_contains allowed plan.root ≡ true
  pub rest : Text
  pub path_is : plan.path ≡ (plan.root ++ codes "/") ++ rest
  pub suffix_is : plan.suffix ≡ drop_empty (split b'/' rest)
  pub suffix_filled : is_empty plan.suffix ≡ false
  pub suffix_plain : AllPlain plan.suffix

plain_pieces :
    (ls : List Text)
    → AllLack b'/' ls
    → list_contains (drop_empty ls) (codes "..") ≡ false
    → AllPlain (drop_empty ls)
unfolding drop_empty list_contains
plain_pieces [] a h = tt
plain_pieces ([] ∷ ls) (a, more) h = plain_pieces ls more h
plain_pieces ((c ∷ l) ∷ ls) (a, more) h =
    ((refl, a, ground arith), plain_pieces ls more (ground arith))

plan_below-eq-ok :
    (clean root : Text) (pieces : List Text) {plan : MountpointPlan}
    → plan_below clean root pieces ≡ ok plan
    → (is_empty pieces ≡ false)
      × (list_contains pieces (codes "..") ≡ false)
      × (plan ≡ record { path = clean; root = root; suffix = pieces })
unfolding plan_below
plan_below-eq-ok clean root [] h = cc
plan_below-eq-ok clean root (c ∷ cs) h = (refl, ground arith, ground arith)

plan_below-IsBelow :
    (clean root rest : Text) (allowed : List Text) {plan : MountpointPlan}
    → list_contains allowed root ≡ true
    → clean ≡ (root ++ codes "/") ++ rest
    → plan_below clean root (drop_empty (split b'/' rest)) ≡ ok plan
    → (plan.path ≡ clean) × IsBelow allowed plan
plan_below-IsBelow clean root rest allowed authorized path h =
    let (filled, parent, is) = plan_below-eq-ok clean root (drop_empty (split b'/' rest)) h in
    rw is (
      refl,
      record {
        authorized = authorized;
        rest = rest;
        path_is = path;
        suffix_is = refl;
        suffix_filled = filled;
        suffix_plain = plain_pieces (split b'/' rest) (split-AllLack b'/' rest) parent;
      },
    )

try_roots_lem :
    (clean root : Text) (roots allowed : List Text)
    → try_roots clean (root ∷ roots) allowed ≡ (
        if text_eq clean root
        then err (onto_root root)
        else found_root clean root
            (try_roots clean roots allowed)
            (strip_prefix (root ++ codes "/") clean))
unfolding try_roots
try_roots_lem clean root roots allowed = refl

refused :
    {e : MountpointError} {plan : MountpointPlan}
    → ◌≡◌ {A = Result MountpointError MountpointPlan} (err e) (ok plan)
    → ⊥
refused h = cc

try_roots-cons :
    (clean root : Text) (roots allowed : List Text) {plan : MountpointPlan}
    → try_roots clean (root ∷ roots) allowed ≡ ok plan
    → (text_eq clean root ≡ false)
      × (((rest : Text) × (clean ≡ (root ++ codes "/") ++ rest)
            × (plan_below clean root (drop_empty (split b'/' rest)) ≡ ok plan))
          ⊎ (try_roots clean roots allowed ≡ ok plan))
unfolding found_root
try_roots-cons clean root roots allowed h = elim (Bool-cases (text_eq clean root)) [
  | inl e ↦
      absurd
        (refused {e = onto_root root} (sym (try_roots_lem clean root roots allowed ∙ rw e) ∙ h))
  | inr e ↦ (
    e,
    elim (Option-cases (strip_prefix (root ++ codes "/") clean)) [
      | inl n ↦ inr (sym (try_roots_lem clean root roots allowed ∙ rw (e, n)) ∙ h)
      | inr (rest, p) ↦ inl (
        rest,
        strip_prefix-eq-some (root ++ codes "/") clean rest p,
        sym (try_roots_lem clean root roots allowed ∙ rw (e, p)) ∙ h,
      )
    ],
  )
]

try_roots-nil :
    (clean : Text) (allowed : List Text) → err (not_below allowed) ≡ try_roots clean [] allowed
unfolding try_roots
try_roots-nil clean allowed = refl

try_roots-IsBelow :
    (clean : Text) (roots allowed : List Text) {plan : MountpointPlan}
    → ((r : Text) → list_contains roots r ≡ true → list_contains allowed r ≡ true)
    → try_roots clean roots allowed ≡ ok plan
    → (plan.path ≡ clean) × IsBelow allowed plan
unfolding found_root
try_roots-IsBelow clean [] allowed sub h = absurd (refused (try_roots-nil clean allowed ∙ h))
try_roots-IsBelow clean (root ∷ roots) allowed sub h =
    let (other, found) = try_roots-cons clean root roots allowed h in
    elim found [
      | inl (rest, path, below) ↦
          plan_below-IsBelow clean root rest allowed (sub root (list_contains_self root roots)) path
            below
      | inr later ↦
          try_roots-IsBelow clean roots allowed (λ r m. sub r (list_contains_later root roots r m))
            later
    ]

module _ (qt : Qt) where
  validate_mountpoint-eq-ok :
      (raw_path home_dir : Text) {plan : MountpointPlan}
      → validate_mountpoint qt raw_path home_dir ≡ ok plan
      → try_roots (qt.clean_path raw_path) (allowed_roots qt home_dir) (allowed_roots qt home_dir)
        ≡ ok plan
  unfolding validate_mountpoint
  validate_mountpoint-eq-ok raw_path home_dir h = ground arith

  -- Every plan that validateMountpoint returns is the cleaned path, lies strictly below one of the
  -- allowed roots, and lists the components between: at least one, none of them empty, with a
  -- slash in it, or "..".
  pub validate_mountpoint-IsBelow :
      (raw_path home_dir : Text) (plan : MountpointPlan)
      → validate_mountpoint qt raw_path home_dir ≡ ok plan
      → (plan.path ≡ qt.clean_path raw_path) × IsBelow (allowed_roots qt home_dir) plan
  validate_mountpoint-IsBelow raw_path home_dir plan h =
      try_roots-IsBelow _ (allowed_roots qt home_dir) (allowed_roots qt home_dir) (λ r m. m)
        (validate_mountpoint-eq-ok raw_path home_dir h)
