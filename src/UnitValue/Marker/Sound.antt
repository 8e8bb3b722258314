-- ===== src/UnitValue/Marker/Sound.antt =====
-- parseMarker accepts a text only if it holds a marker, and returns that marker.
use kde_nasmount.Prelude.{
  ℕ, ◌+◌, ◌≤◌, Bool, true, false, not, ◌||◌, Option, none, some, List, [], ◌∷◌, ◌≡◌, refl, arith,
  ap, subst, ◌∙◌, sym, Result, ok, >>=-eq-ok, if◌then◌else◌, Bool-cases, inl, inr,
}
use kde_nasmount.Text.{Text, codes, line_feed, list_contains, starts_with, text_eq, is_some}
use kde_nasmount.Text.Decimal.{to_uint}
use kde_nasmount.Text.Laws.{text_eq_iff}
use kde_nasmount.Text.Split.{split}
use kde_nasmount.UnitValue.Access.{credentials, guest}
use kde_nasmount.UnitValue.Marker.Spec.{
  line_field, sets, count_field, value_in, value_from, value_of, AllRecognised, IsMarkerOf,
}
use kde_nasmount.UnitValue.Marker.{
  Marker, Scan, empty_scan, Field, field_key, field_specs, field_required, marker_prefix,
  first_match, accept, store_value, scan_line, scan_lines, check_required, decode_scan,
  decode_access, decode_uint, parse_marker, MarkerError,
}

scan_line_lem :
    (l : Text) (s : Scan)
    → scan_line l s
      ≡ (if not (starts_with marker_prefix l) then ok s else accept l (first_match field_specs l) s)
unfolding scan_line
scan_line_lem l s = refl

abbrev bit : Bool → ℕ
bit b = if b then 1 else 0

seen-store_value : (f : Field) (v : Text) (s : Scan) → (store_value f v s).seen ≡ s.seen
unfolding store_value
seen-store_value Field.managed v s = refl
seen-store_value _ v s = refl

field_value : Field → Scan → Text
field_value Field.owner_uid s = s.owner_uid_value
field_value Field.owner_gid s = s.owner_gid_value
field_value Field.id s = s.id_value
field_value Field.authentication s = s.auth_value
field_value Field.access s = s.access_value
field_value _ s = []

abbrev field_stored : Field → Bool
field_stored Field.managed = false
field_stored Field.mode = false
field_stored _ = true

value-store_value :
    (f g : Field) (v : Text) (s : Scan) (keys : List Text)
    → field_stored f ≡ true
    → field_value f (store_value g v (record s { seen = keys }))
      ≡ (if text_eq (field_key g) (field_key f) then v else field_value f s)
unfolding store_value field_value text_eq
value-store_value Field.managed Field.managed v s keys h = cc
value-store_value Field.managed _ v s keys h = cc
value-store_value Field.mode Field.managed v s keys h = cc
value-store_value Field.mode _ v s keys h = cc
value-store_value _ Field.managed v s keys h = refl
value-store_value _ _ v s keys h = refl

accept-eq-ok :
    (l : Text) (g : Field) (v : Text) (s : Scan) {s' : Scan}
    → accept l (some (g, v)) s ≡ ok s'
    → (list_contains s.seen (field_key g) ≡ false)
      × (s' ≡ store_value g v (record s { seen = field_key g ∷ s.seen }))
unfolding accept
accept-eq-ok l g v s h = ground arith

list_contains-cons :
    (x t : Text) (xs : List Text) → list_contains (x ∷ xs) t ≡ (text_eq x t || list_contains xs t)
unfolding list_contains
list_contains-cons x t xs = refl

bit-cons :
    (g f : Field) (keys : List Text)
    → list_contains keys (field_key g) ≡ false
    → bit (list_contains (field_key g ∷ keys) (field_key f))
      ≡ bit (list_contains keys (field_key f)) + bit (text_eq (field_key g) (field_key f))
bit-cons g f keys h = elim (Bool-cases (text_eq (field_key g) (field_key f))) [
  | inl e ↦
      let same = (text_eq_iff (field_key g) (field_key f)).0 e in
      let unseen = ap (list_contains keys) (sym same) ∙ h in
      rw (list_contains-cons, e, unseen) (omega arith)
  | inr e ↦ rw (list_contains-cons, e) (omega arith)
]

-- What one accepted line changes.
record Accepted (o : Option (Field × Text)) (s s' : Scan) : Type 0 where
  bits :
      (f : Field)
      → bit (list_contains s'.seen (field_key f))
        ≡ bit (sets f o) + bit (list_contains s.seen (field_key f))
  values : (f : Field) → field_stored f ≡ true → field_value f s' ≡ value_in f o (field_value f s)

accept-Accepted :
    (l : Text) (o : Option (Field × Text)) (s : Scan) {s' : Scan}
    → accept l o s ≡ ok s'
    → (is_some o ≡ true) × Accepted o s s'
unfolding accept
accept-Accepted l none s h = cc
accept-Accepted l (some (g, v)) s h =
    let (unseen, is) = accept-eq-ok l g v s h in
    (
      refl,
      rw is (record {
        bits = λ f. rw seen-store_value (omega (arith, bit-cons g f s.seen unseen));
        values = λ f st. value-store_value f g v s (field_key g ∷ s.seen) st;
      }),
    )

-- What the whole loop changes.
record Scanned (ls : List Text) (s s' : Scan) : Type 0 where
  recognised : AllRecognised ls
  bits :
      (f : Field)
      → bit (list_contains s'.seen (field_key f))
        ≡ count_field f ls + bit (list_contains s.seen (field_key f))
  values :
      (f : Field) → field_stored f ≡ true → field_value f s' ≡ value_from f ls (field_value f s)

Accepted-none : {s s' : Scan} → s ≡ s' → Accepted none s s'
Accepted-none {s} e =
    subst (λ t. Accepted none s t) e (record { bits = λ f. omega arith; values = λ f st. refl })

ok_injective : {s s' : Scan} → ◌≡◌ {A = Result MarkerError Scan} (ok s) (ok s') → s ≡ s'
ok_injective h = cc

Scanned-nil : {s s' : Scan} → s ≡ s' → Scanned [] s s'
unfolding count_field value_from
Scanned-nil {s} e =
    subst (λ t. Scanned [] s t) e
      (record { recognised = tt; bits = λ f. omega arith; values = λ f st. refl })

scan_line-Accepted :
    (l : Text) (s : Scan) {s' : Scan}
    → scan_line l s ≡ ok s'
    → (starts_with marker_prefix l ≡ true → is_some (first_match field_specs l) ≡ true)
      × Accepted (line_field l) s s'
unfolding line_field
scan_line-Accepted l s h = elim (Bool-cases (starts_with marker_prefix l)) [
  | inl e ↦
      let (found, a) =
        accept-Accepted l (first_match field_specs l) s (sym (scan_line_lem l s ∙ rw e) ∙ h) in
      (λ _. found, rw e a)
  | inr e ↦
      (λ t. cc (e, t), rw e (Accepted-none (ok_injective (sym (scan_line_lem l s ∙ rw e) ∙ h))))
]

scan_lines-eq-ok :
    (l : Text) (ls : List Text) (s : Scan) {s' : Scan}
    → scan_lines (l ∷ ls) s ≡ ok s'
    → (s₁ : Scan) × (scan_line l s ≡ ok s₁) × (scan_lines ls s₁ ≡ ok s')
unfolding scan_lines
scan_lines-eq-ok l ls s h = >>=-eq-ok (scan_line l s) (scan_lines ls) h

scan_lines-Scanned :
    (ls : List Text) (s : Scan) {s' : Scan} → scan_lines ls s ≡ ok s' → Scanned ls s s'
unfolding count_field value_from
scan_lines-Scanned [] s h = Scanned-nil (ok_injective (unfold scan_lines in h))
scan_lines-Scanned (l ∷ ls) s {s'} h =
    let (s₁, first, later) = scan_lines-eq-ok l ls s h in
    let (found, a) = scan_line-Accepted l s first in
    let more = scan_lines-Scanned ls s₁ later in
    record {
      recognised = (found, more.recognised);
      bits = λ f. omega (arith, more.bits f, a.bits f);
      values = λ f st. more.values f st ∙ ap (value_from f ls) (a.values f st);
    }

check_required-seen :
    (seen : List Text) (f : Field)
    → check_required field_specs seen ≡ ok tt
    → field_required f ≡ true
    → list_contains seen (field_key f) ≡ true
unfolding check_required
check_required-seen seen Field.managed h r = ground arith
check_required-seen seen _ h r = ground arith

decode_uint-eq-ok :
    (e : MarkerError) (v : Text) {n : ℕ} → decode_uint e v ≡ ok n → to_uint v ≡ some n
unfolding decode_uint
decode_uint-eq-ok e v h = ground arith

decode_scan-eq-ok :
    (s : Scan) {m : Marker}
    → decode_scan s ≡ ok m
    → (to_uint s.owner_uid_value ≡ some m.owner_uid)
      × (to_uint s.owner_gid_value ≡ some m.owner_gid)
      × (s.id_value ≡ m.id)
      × (m.authentication ≡ (if text_eq s.auth_value (codes "guest") then guest else credentials))
      × (decode_access s.access_value ≡ ok m.access)
unfolding decode_scan
decode_scan-eq-ok s h = ground arith

-- At the end of the loop a key was seen as often as its field was set.
count-seen :
    {ls : List Text} {s : Scan} (f : Field)
    → Scanned ls empty_scan s
    → count_field f ls ≡ bit (list_contains s.seen (field_key f))
unfolding list_contains
count-seen f done = omega (arith, done.bits f)

bit-le : (b : Bool) → bit b ≤ 1
bit-le b = ground arith

parse_marker-eq-ok :
    (content : Text) {m : Marker}
    → parse_marker content ≡ ok m
    → (s : Scan) × (scan_lines (split line_feed content) empty_scan ≡ ok s)
      × (check_required field_specs s.seen ≡ ok tt)
      × (decode_scan s ≡ ok m)
unfolding parse_marker
parse_marker-eq-ok content h =
    let (s, hs, h₁) = >>=-eq-ok (scan_lines (split line_feed content) empty_scan) _ h in
    let (u, hc, hd) = >>=-eq-ok (check_required field_specs s.seen) _ h₁ in (s, hs, hc, hd)

-- Everything that parseMarker accepts is a complete marker block, read as its lines say: no
-- unknown or malformed line in the namespace, every required field exactly once, the access
-- field at most once, and each member of the result is the value of its line.
pub parse_marker-IsMarkerOf :
    (content : Text) (m : Marker)
    → parse_marker content ≡ ok m
    → IsMarkerOf (split line_feed content) m
unfolding value_of field_value
parse_marker-IsMarkerOf content m h =
    let lines = split line_feed content in
    let (s, scanned, complete, decoded) = parse_marker-eq-ok content h in
    let done = scan_lines-Scanned lines empty_scan scanned in
    let (uid, gid, name, kind, mode_bits) = decode_scan-eq-ok s decoded in
    record {
      recognised = done.recognised;
      once = λ f r. count-seen f done ∙ ap bit (check_required-seen s.seen f complete r);
      access_once = omega (
        arith,
        count-seen Field.access done,
        bit-le (list_contains s.seen (field_key Field.access)),
      );
      uid = ap to_uint (sym (done.values Field.owner_uid refl)) ∙ uid;
      gid = ap to_uint (sym (done.values Field.owner_gid refl)) ∙ gid;
      id = sym (done.values Field.id refl) ∙ name;
      authentication =
          kind
          ∙ ap (λ v. if text_eq v (codes "guest") then guest else credentials)
              (done.values Field.authentication refl);
      access = ap decode_access (sym (done.values Field.access refl)) ∙ mode_bits;
    }
