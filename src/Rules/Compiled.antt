-- ===== src/Rules/Compiled.antt =====
-- internal/abuse/rules.go: the compiled rules are those that were written, in order.
use sitebin_io.Base.{
  ℕ, zero, suc, ◌≡◌, refl, sym, ap, ◌∙◌, subst, arith, Bool-cases, inl, inr, List, [], ◌∷◌, ◌++◌,
  Option, none, some, Str, str_eq, str_eq_iff, lookup, insert, lookup-insert, length, ok, >>=-eq-ok,
}
use sitebin_io.Scan.{Pattern}
use sitebin_io.Scan.Matches.{get_elem?}
use sitebin_io.Rules.{Table, Regexp, pattern_of, add_at, add, add_all}

get_elem?-append :
    (ps : List Pattern) (q : Pattern) (i : ℕ) {p : Pattern}
    → get_elem? ps i ≡ some p
    → get_elem? (ps ++ q ∷ []) i ≡ some p
unfolding get_elem?
get_elem?-append [] q i h = ground arith
get_elem?-append (r ∷ ps) q zero h = h
get_elem?-append (r ∷ ps) q (suc i) h = get_elem?-append ps q i h

get_elem?-last : (ps : List Pattern) (q : Pattern) → get_elem? (ps ++ q ∷ []) (length ps) ≡ some q
unfolding get_elem?
get_elem?-last [] q = refl
get_elem?-last (r ∷ ps) q = get_elem?-last ps q

module _ (regexp : Regexp) where
  -- The pattern at a place is that of a source text.
  abbrev pub Stands : List Pattern → Str → ℕ → Type 0
  Stands ps src i = (p : Pattern) × (get_elem? ps i ≡ some p) × (pattern_of regexp src ≡ ok p)

  -- Every text that the index has stands where it says.
  unfoldable pub Indexed : Table → Type 0
  Indexed t = (src : Str) (i : ℕ) → lookup src t.index ≡ some i → Stands t.patterns src i

  -- What stands in one list of patterns does in another.
  unfoldable pub Kept : List Pattern → List Pattern → Type 0
  Kept ps qs = (src : Str) (i : ℕ) → Stands ps src i → Stands qs src i

  Kept-append : (ps : List Pattern) (q : Pattern) → Kept ps (ps ++ q ∷ [])
  unfolding Kept
  Kept-append ps q src i (p, here, compiled) = (p, get_elem?-append ps q i here, compiled)

  -- The tables before and after a step, and a text's place in the later one.
  record Added (t : Table) (src : Str) (i : ℕ) (u : Table) : Type 0 where
    indexed : Indexed u
    kept : Kept t.patterns u.patterns
    stands : Stands u.patterns src i

  pub Kept-refl : (ps : List Pattern) → Kept ps ps
  unfolding Kept
  Kept-refl ps src i h = h

  -- The index after a text was put at the end.
  Indexed-insert :
      (src : Str) (p : Pattern) (t : Table)
      → Indexed t
      → pattern_of regexp src ≡ ok p
      → Indexed (record {
        patterns = t.patterns ++ p ∷ [];
        index = insert src (length t.patterns) t.index;
      })
  unfolding Indexed Kept
  Indexed-insert src p t indexed compiled other i e = elim (Bool-cases (str_eq src other)) [
    | inl same ↦
        let here : length t.patterns ≡ i =
          ground (arith, lookup-insert src other (length t.patterns) t.index) in
        let it : src ≡ other = (str_eq_iff src other).0 same in
        (
          p,
          ap (get_elem? (t.patterns ++ p ∷ [])) (sym here) ∙ get_elem?-last t.patterns p,
          ap (pattern_of regexp) (sym it) ∙ compiled,
        )
    | inr differs ↦
        let before : lookup other t.index ≡ some i =
          ground (arith, lookup-insert src other (length t.patterns) t.index) in
        Kept-append t.patterns p other i (indexed other i before)
  ]

  add_at-Added :
      (o : Option ℕ) (src : Str) (t : Table) (i : ℕ) (u : Table)
      → lookup src t.index ≡ o
      → Indexed t
      → add_at regexp o src t ≡ ok (i, u)
      → Added t src i u
  unfolding add_at Indexed
  add_at-Added (some j) src t i u known indexed e =
      let at : j ≡ i = cc in
      let same : t ≡ u = cc in
      subst (Added t src i) same (record {
        indexed = indexed;
        kept = Kept-refl t.patterns;
        stands = indexed src i (known ∙ ap some at);
      })
  add_at-Added none src t i u known indexed e =
      let (p, compiled, rest) = >>=-eq-ok (pattern_of regexp src) _ e in
      let at : length t.patterns ≡ i = cc in
      let v : Table = record {
        patterns = t.patterns ++ p ∷ [];
        index = insert src (length t.patterns) t.index;
      } in
      let same : v ≡ u = cc in
      let filed : Indexed v = Indexed-insert src p t indexed compiled in
      subst (Added t src i) same (record {
        indexed = filed;
        kept = Kept-append t.patterns p;
        stands = (
          p,
          ap (get_elem? (t.patterns ++ p ∷ [])) (sym at) ∙ get_elem?-last t.patterns p,
          compiled,
        );
      })

  add-Added :
      (src : Str) (t : Table) (i : ℕ) (u : Table)
      → Indexed t
      → add regexp src t ≡ ok (i, u)
      → Added t src i u
  unfolding add
  add-Added src t i u indexed e = add_at-Added (lookup src t.index) src t i u refl indexed e

  -- Each index is the place of the text in the same position.
  unfoldable pub Refers : List Pattern → List Str → List ℕ → Type 0
  Refers ps [] [] = Unit
  Refers ps [] (i ∷ is) = ⊥
  Refers ps (src ∷ srcs) [] = ⊥
  Refers ps (src ∷ srcs) (i ∷ is) = Stands ps src i × Refers ps srcs is

  pub Refers-Kept :
      (ps qs : List Pattern) (srcs : List Str) (is : List ℕ)
      → Kept ps qs
      → Refers ps srcs is
      → Refers qs srcs is
  unfolding Refers Kept
  Refers-Kept ps qs [] [] kept h = h
  Refers-Kept ps qs [] (i ∷ is) kept h = h
  Refers-Kept ps qs (src ∷ srcs) [] kept h = h
  Refers-Kept ps qs (src ∷ srcs) (i ∷ is) kept (here, later) =
      (kept src i here, Refers-Kept ps qs srcs is kept later)

  pub Kept-trans : (ps qs rs : List Pattern) → Kept ps qs → Kept qs rs → Kept ps rs
  unfolding Kept
  Kept-trans ps qs rs first next src i h = next src i (first src i h)

  pub record AddedAll (t : Table) (srcs : List Str) (is : List ℕ) (u : Table) : Type 0 where
    pub indexed : Indexed u
    pub kept : Kept t.patterns u.patterns
    pub refers : Refers u.patterns srcs is

  AddedAll-cons :
      (t : Table) (src : Str) (i : ℕ) (v : Table) (srcs : List Str) (js : List ℕ) (w : Table)
      → Added t src i v
      → AddedAll v srcs js w
      → AddedAll t (src ∷ srcs) (i ∷ js) w
  unfolding Refers Kept
  AddedAll-cons t src i v srcs js w first later = record {
    indexed = later.indexed;
    kept = λ other k h. later.kept other k (first.kept other k h);
    refers = (later.kept src i first.stands, later.refers);
  }

  pub add_all-AddedAll :
      (srcs : List Str) (t : Table) (is : List ℕ) (u : Table)
      → Indexed t
      → add_all regexp srcs t ≡ ok (is, u)
      → AddedAll t srcs is u
  unfolding add_all Refers
  add_all-AddedAll [] t is u indexed e =
      let same : t ≡ u = cc in
      let done : AddedAll t [] [] t = record {
        indexed = indexed;
        kept = Kept-refl t.patterns;
        refers = tt;
      } in
      subst (λ l. AddedAll t [] l u) (cc) (subst (AddedAll t [] []) same done)
  add_all-AddedAll (src ∷ srcs) t is u indexed e =
      let ((i, v), first, e) = >>=-eq-ok (add regexp src t) _ e in
      let ((js, w), next, e) = >>=-eq-ok (add_all regexp srcs v) _ e in
      let same : w ≡ u = cc in
      let listed : i ∷ js ≡ is = cc in
      let one : Added t src i v = add-Added src t i v indexed first in
      let later : AddedAll v srcs js w = add_all-AddedAll srcs v js w one.indexed next in
      subst (λ l. AddedAll t (src ∷ srcs) l u) listed
        (subst (AddedAll t (src ∷ srcs) (i ∷ js)) same
          (AddedAll-cons t src i v srcs js w one later))
