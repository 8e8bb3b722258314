-- ===== src/Credentials/Content.antt =====
-- The content of a credential file: what can be read from it, and how large it is.
use kde_nasmount.Prelude.{
  ℕ, ◌+◌, ◌≤◌, ◌<◌, true, false, Option, none, some, List, [], ◌∷◌, ◌++◌, ◌≡◌, refl, sym, ap, ◌∙◌,
  arith, if◌then◌else◌, ok,
}
use mathlib.Core.List.{append-nil, append_assoc}
use kde_nasmount.Text.{Text, codes, line_feed, is_empty, contains, strip_prefix}
use kde_nasmount.Text.Split.{split, split-append}
use kde_nasmount.Text.Laws.{contains-append}
use kde_nasmount.UnitValue.Encode.{has_control_chars, has_control_chars-lacks}
use kde_nasmount.UnitValue.Marker.{is_valid_share_id}
use kde_nasmount.Verify.Scan.{extract_assignment, last_assignment}
use kde_nasmount.Credentials.{
  Utf8, Utf8Laws, size, max_credential_file_bytes, line_of, optional_line, credential_content,
  validate_fields, credential_bytes,
}

module _ (enc : Utf8) (laws : Utf8Laws enc) where
  size-append : (a b : List ℕ) → size (a ++ b) ≡ size a + size b
  size-append [] b = omega arith
  size-append (x ∷ a) b = ground (arith, size-append a b)

  -- A value between a line feed and the end of its line adds its own bytes and one.
  size-value :
      (v rest : Text)
      → size (enc.to_utf8 (v ++ (line_feed ∷ rest)))
        ≡ size (enc.to_utf8 v) + (size (enc.to_utf8 rest) + 1)
  size-value v rest =
      ap size (laws.before_ascii v line_feed rest (omega arith))
      ∙ size-append (enc.to_utf8 v) (enc.to_utf8 (line_feed ∷ rest))
      ∙ ap (λ bs. size (enc.to_utf8 v) + size bs) (laws.ascii line_feed rest (omega arith))

  -- the bytes of a text of ASCII units before another
  AllAscii : Text → Type 0
  AllAscii [] = Unit
  AllAscii (c ∷ t) = (c < 128) × AllAscii t

  size-ascii :
      (k rest : Text)
      → AllAscii k
      → size (enc.to_utf8 (k ++ rest)) ≡ size k + size (enc.to_utf8 rest)
  unfolding AllAscii
  size-ascii [] rest a = omega arith
  size-ascii (c ∷ k) rest (h, a) =
      ap size (laws.ascii c (k ++ rest) h) ∙ ap (λ n. n + 1) (size-ascii k rest a) ∙ omega arith

  size-line_of :
      (key value rest : Text)
      → AllAscii key
      → size (enc.to_utf8 (line_of key value ++ rest))
        ≡ size key + (size (enc.to_utf8 value) + (size (enc.to_utf8 rest) + 1))
  size-line_of key value rest a =
      ap (λ t. size (enc.to_utf8 t))
        (append_assoc key (value ++ codes "\n") rest
          ∙ ap (λ t. key ++ t) (append_assoc value (codes "\n") rest))
      ∙ size-ascii key (value ++ (line_feed ∷ rest)) a
      ∙ ap (λ n. size key + n) (size-value value rest)

  size-optional_line :
      (key value rest : Text)
      → AllAscii key
      → size (enc.to_utf8 (optional_line key value ++ rest))
        ≤ size key + (size (enc.to_utf8 value) + (size (enc.to_utf8 rest) + 1))
  size-optional_line key [] rest a = omega arith
  size-optional_line key (c ∷ v) rest a = ground (arith, size-line_of key (c ∷ v) rest a)

  content_size :
      (username domain password : Text)
      → size (enc.to_utf8 (credential_content username domain password))
        ≤ size (enc.to_utf8 username)
          + (size (enc.to_utf8 password) + (size (enc.to_utf8 domain) + 28))
  unfolding credential_content AllAscii
  content_size username domain password =
      let k =
        size-line_of (codes "username=") username
          (optional_line (codes "password=") password ++ optional_line (codes "domain=") domain)
          (omega arith) in
      let p =
        size-optional_line (codes "password=") password (optional_line (codes "domain=") domain)
          (omega arith) in
      let d = size-optional_line (codes "domain=") domain [] (omega arith) in
      let e : size (enc.to_utf8 []) ≡ 0 = ap size laws.nil in
      let f : size (enc.to_utf8 (optional_line (codes "domain=") domain ++ []))
          ≡ size (enc.to_utf8 (optional_line (codes "domain=") domain)) =
        ap (λ t. size (enc.to_utf8 t)) (append-nil (optional_line (codes "domain=") domain)) in
      omega arith

  field_sizes :
      (username domain password : Text)
      → validate_fields enc username domain password ≡ true
      → (size (enc.to_utf8 username) ≤ 4096)
        × (size (enc.to_utf8 domain) ≤ 4096)
        × (size (enc.to_utf8 password) ≤ 4096)
  unfolding validate_fields
  field_sizes username domain password h = (ground arith, ground arith, ground arith)

  -- Valid fields for a valid id are always encoded: the file they make is never too large, so the
  -- last check of `write` refuses nothing that the checks of the fields let through.
  pub credential_bytes-valid :
      (id username domain password : Text)
      → is_valid_share_id id ≡ true
      → validate_fields enc username domain password ≡ true
      → (credential_bytes enc id username domain password
          ≡ ok (enc.to_utf8 (credential_content username domain password)))
        × (size (enc.to_utf8 (credential_content username domain password))
            ≤ max_credential_file_bytes)
  unfolding credential_bytes
  credential_bytes-valid id username domain password v f =
      let (su, sd, sp) = field_sizes username domain password f in
      let total = content_size username domain password in
      let fits : size (enc.to_utf8 (credential_content username domain password))
          ≤ max_credential_file_bytes =
        omega arith in
      (ground arith, fits)

line_pieces : Text → Text → List Text → List Text
line_pieces key [] ls = ls
line_pieces key (c ∷ v) ls = (key ++ (c ∷ v)) ∷ ls

piece_of :
    (key value rest : Text)
    → contains key line_feed ≡ false
    → contains value line_feed ≡ false
    → split line_feed (line_of key value ++ rest) ≡ (key ++ value) ∷ split line_feed rest
piece_of key value rest hk hv =
    ap (split line_feed) (
      append_assoc key (value ++ codes "\n") rest
      ∙ ap (λ t. key ++ t) (append_assoc value (codes "\n") rest)
      ∙ sym (append_assoc key value (line_feed ∷ rest)))
    ∙ split-append line_feed (key ++ value) rest
        (contains-append key value line_feed ∙ ground (arith, hk, hv))

optional_piece :
    (key value rest : Text)
    → contains key line_feed ≡ false
    → contains value line_feed ≡ false
    → split line_feed (optional_line key value ++ rest)
      ≡ line_pieces key value (split line_feed rest)
unfolding line_pieces
optional_piece key [] rest hk hv = refl
optional_piece key (c ∷ v) rest hk hv = piece_of key (c ∷ v) rest hk hv

content_lines :
    (username domain password : Text)
    → contains username line_feed ≡ false
    → contains domain line_feed ≡ false
    → contains password line_feed ≡ false
    → split line_feed (credential_content username domain password)
      ≡ (codes "username=" ++ username)
        ∷ line_pieces (codes "password=") password (line_pieces (codes "domain=") domain ([] ∷ []))
unfolding credential_content contains split
content_lines username domain password hu hd hp =
    piece_of (codes "username=") username
      (optional_line (codes "password=") password ++ optional_line (codes "domain=") domain) refl hu
    ∙ ap (λ ls. (codes "username=" ++ username) ∷ ls)
        (optional_piece (codes "password=") password (optional_line (codes "domain=") domain) refl
            hp
          ∙ ap (λ ls. line_pieces (codes "password=") password ls)
              (ap (split line_feed) (sym (append-nil (optional_line (codes "domain=") domain)))
                ∙ optional_piece (codes "domain=") domain [] refl hd))

-- What a reader of `key=value` lines finds in the file.
abbrev optional_value : Text → Option Text
optional_value v = if is_empty v then none else some v

read_lines :
    (username domain password : Text)
    → (last_assignment (codes "username=") (
          (codes "username=" ++ username)
          ∷ line_pieces
              (codes "password=")
              password
              (line_pieces (codes "domain=") domain ([] ∷ [])))
        ≡ some username)
      × (last_assignment (codes "password=") (
            (codes "username=" ++ username)
            ∷ line_pieces
                (codes "password=")
                password
                (line_pieces (codes "domain=") domain ([] ∷ [])))
          ≡ optional_value password)
      × (last_assignment (codes "domain=") (
            (codes "username=" ++ username)
            ∷ line_pieces
                (codes "password=")
                password
                (line_pieces (codes "domain=") domain ([] ∷ [])))
          ≡ optional_value domain)
unfolding last_assignment line_pieces strip_prefix
read_lines username [] [] = (refl, refl, refl)
read_lines username (d ∷ ds) [] = (refl, refl, refl)
read_lines username [] (p ∷ ps) = (refl, refl, refl)
read_lines username (d ∷ ds) (p ∷ ps) = (refl, refl, refl)

-- Fields without control characters are read back from the credential file line by line: the
-- user name always, the password and the domain when they are not empty, and no line for them
-- otherwise. No field can pass for another.
pub extract_assignment-credential_content :
    (username domain password : Text)
    → has_control_chars username ≡ false
    → has_control_chars domain ≡ false
    → has_control_chars password ≡ false
    → (extract_assignment (credential_content username domain password) (codes "username")
        ≡ some username)
      × (extract_assignment (credential_content username domain password) (codes "password")
          ≡ (if is_empty password then none else some password))
      × (extract_assignment (credential_content username domain password) (codes "domain")
          ≡ (if is_empty domain then none else some domain))
unfolding extract_assignment
extract_assignment-credential_content username domain password hu hd hp =
    let lines =
      content_lines username domain password
        (has_control_chars-lacks username line_feed hu (omega arith))
        (has_control_chars-lacks domain line_feed hd (omega arith))
        (has_control_chars-lacks password line_feed hp (omega arith)) in
    let (u, p, d) = read_lines username domain password in
    (
      ap (last_assignment (codes "username=")) lines ∙ u,
      ap (last_assignment (codes "password=")) lines ∙ p,
      ap (last_assignment (codes "domain=")) lines ∙ d,
    )
