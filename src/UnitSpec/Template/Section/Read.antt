-- ===== src/UnitSpec/Template/Section/Read.antt =====
-- What extractSectionAssignments has read: lines of the file, with allowed keys, each key once.
use kde_nasmount.Prelude.{
  ℕ, Bool, true, false, not, ◌||◌, Option, none, some, List, [], ◌∷◌, ◌++◌, ◌≡◌, inl, inr, refl,
  sym, ap, ◌∙◌, arith, ◌==◌, ==_iff, if◌then◌else◌, Result, ok, >>=-eq-ok, Bool-cases,
}
use kde_nasmount.Qt.{Qt, trimmed}
use kde_nasmount.Text.{Text, line_feed, text_eq, is_empty, list_contains}
use kde_nasmount.Text.Laws.{text_eq_refl}
use kde_nasmount.Text.Split.{split}
use kde_nasmount.UnitSpec.Template.Section.{
  SectionError, cons_key, key_end, section_header, assignment, Values, has_value, SectionScan,
  section_start, add_assignment, at_line, section_lines, finish_section,
  extract_section_assignments,
}

-- Every value stands in a line KEY=VALUE, its key is an allowed one and has no other value.
unfoldable pub IsRead : List Text → List Text → Values → Type 0
IsRead keys lines [] = Unit
IsRead keys lines ((k, v) ∷ r) =
    (list_contains keys k ≡ true)
    × (list_contains lines (k ++ (b'=' ∷ v)) ≡ true)
    × (has_value k r ≡ false)
    × IsRead keys lines r

cons_key-eq-some :
    (c : ℕ) (o : Option (Text × Text)) {k v : Text}
    → cons_key c o ≡ some (k, v)
    → (t : Text) × (o ≡ some (t, v)) × (k ≡ c ∷ t)
cons_key-eq-some c none h = cc
cons_key-eq-some c (some (t, w)) h = (t, ground arith, ground arith)

key_end-eq-some : (t : Text) {k v : Text} → key_end t ≡ some (k, v) → t ≡ k ++ (b'=' ∷ v)
unfolding key_end
key_end-eq-some [] h = cc
key_end-eq-some (c ∷ t) {k} {v} h = elim (Bool-cases (c == b'=')) [
  | inl e ↦ ended e h
  | inr e ↦
      let (u, found, is) = cons_key-eq-some c (key_end t) (longer e h) in
      rw is (ap (λ x. c ∷ x) (key_end-eq-some t found))
]
  where
    ended : (c == b'=') ≡ true → key_end (c ∷ t) ≡ some (k, v) → c ∷ t ≡ k ++ (b'=' ∷ v)
    ended e h = ground (arith, ==_iff c b'=')

    longer :
        (c == b'=') ≡ false → key_end (c ∷ t) ≡ some (k, v) → cons_key c (key_end t) ≡ some (k, v)
    longer e h = ground arith

assignment-eq-some :
    (line : Text) {k v : Text} → assignment line ≡ some (k, v) → line ≡ k ++ (b'=' ∷ v)
unfolding assignment
assignment-eq-some [] h = cc
assignment-eq-some (c ∷ t) {k} {v} h =
    let (u, found, is) = cons_key-eq-some c (key_end t) (begun h) in
    rw is (ap (λ x. c ∷ x) (key_end-eq-some t found))
  where
    begun : assignment (c ∷ t) ≡ some (k, v) → cons_key c (key_end t) ≡ some (k, v)
    begun h = ground arith

module _ (qt : Qt) (section : Text) (keys lines : List Text) where
  added-IsRead :
      (line : Text) (o : Option (Text × Text)) (s t : SectionScan)
      → assignment line ≡ o
      → list_contains lines line ≡ true
      → add_assignment qt section keys line o s ≡ ok t
      → IsRead keys lines s.values
      → IsRead keys lines t.values
  unfolding add_assignment IsRead
  added-IsRead line none s t e there h read = cc
  added-IsRead line (some (k, v)) s t e there h read =
      let (allowed, fresh, is) = accepted h in
      rw (sym is)
        (allowed, (ap (list_contains lines) (sym (assignment-eq-some line e)) ∙ there), fresh, read)
    where
      accepted :
          add_assignment qt section keys line (some (k, v)) s ≡ ok t
          → (list_contains keys k ≡ true)
            × (has_value k s.values ≡ false)
            × ((k, v) ∷ s.values ≡ t.values)
      accepted h = ground arith

  at_line-IsRead :
      (line : Text) (header : Option Text) (s t : SectionScan)
      → list_contains lines line ≡ true
      → at_line qt section keys line header s ≡ ok t
      → IsRead keys lines s.values
      → IsRead keys lines t.values
  unfolding at_line
  at_line-IsRead line (some name) s t there h read =
      let e : s.values ≡ t.values = same h in rw (sym e) read
    where
      same : at_line qt section keys line (some name) s ≡ ok t → s.values ≡ t.values
      same h = ground arith
  at_line-IsRead line none s t there h read =
      skipped (not s.in_section || is_empty (trimmed qt line)) h
    where
      same : ◌≡◌ {A = Result SectionError SectionScan} (ok s) (ok t) → s.values ≡ t.values
      same e = ground arith

      skipped :
          (b : Bool)
          → (if b then ok s else add_assignment qt section keys line (assignment line) s) ≡ ok t
          → IsRead keys lines t.values
      skipped true e = rw (sym (same e)) read
      skipped false e = added-IsRead line (assignment line) s t refl there e read

  section_lines-IsRead :
      (rest : List Text) (s t : SectionScan)
      → ((l : Text) → list_contains rest l ≡ true → list_contains lines l ≡ true)
      → section_lines qt section keys rest s ≡ ok t
      → IsRead keys lines s.values
      → IsRead keys lines t.values
  unfolding section_lines list_contains
  section_lines-IsRead [] s t sub h read = let e : s.values ≡ t.values = same h in rw (sym e) read
    where
      same : ◌≡◌ {A = Result SectionError SectionScan} (ok s) (ok t) → s.values ≡ t.values
      same h = ground arith
  section_lines-IsRead (line ∷ rest) s t sub h read =
      let (m, first, later) =
        >>=-eq-ok (at_line qt section keys line (section_header line) s) _ {b = t} h in
      section_lines-IsRead rest m t
        (λ l there. sub l (or_right (text_eq line l) (list_contains rest l) there)) later
        (at_line-IsRead line (section_header line) s m
          (sub line (or_left (text_eq line line) (list_contains rest line) (text_eq_refl line)))
          first read)
    where
      or_left : (a b : Bool) → a ≡ true → (a || b) ≡ true
      or_left a b h = ground arith

      or_right : (a b : Bool) → b ≡ true → (a || b) ≡ true
      or_right a b h = ground arith

-- the values of a section are lines of the file
pub extract_section_assignments-IsRead :
    (qt : Qt) (content section : Text) (keys : List Text) (values : Values)
    → extract_section_assignments qt content section keys ≡ ok values
    → IsRead keys (split line_feed content) values
unfolding extract_section_assignments finish_section IsRead
extract_section_assignments-IsRead qt content section keys values h =
    let lines = split line_feed content in
    let (s, scanned, finished) =
      >>=-eq-ok (section_lines qt section keys lines section_start) _ {b = values} h in
    let e = is s finished in
    rw (sym e) (
      section_lines-IsRead qt section keys lines lines section_start s (λ l there. there) scanned
        tt)
  where
    is : (s : SectionScan) → finish_section qt section keys s ≡ ok values → s.values ≡ values
    is s e = ground arith
