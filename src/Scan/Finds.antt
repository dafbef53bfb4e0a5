-- ===== src/Scan/Finds.antt =====
-- internal/abuse/scan.go: a text that a rule looks for is found wherever it stands in a file, below the
-- cap.
use mathlib.Core.List.{append_assoc, append-nil}
use sitebin_io.Base.{
  ℕ, suc, ◌+◌, ◌≤◌, ◌<◌, ◌≡◌, inl, inr, refl, sym, ap, ◌∙◌, subst, arith, Bool-cases, true, List,
  [], ◌∷◌, ◌++◌, some, ◌==◌, Str, length, take, length-append, length-take,
}
use sitebin_io.Scan.{Sizes, Pattern, literal, Scan, match_chunk, flush, new_scan, tail_of, strip}
use sitebin_io.Scan.Splits.{
  feed, feed_all, write_each, joined, write_each-feed_all, feed_all-take, feed-room,
}
use sitebin_io.Scan.Overlap.{shows, shows-across, shows_nothing, tail_of-append, tail_of_nothing}
use sitebin_io.Scan.Matches.{
  get_elem?, match_all-kept, match_all-finds, length-match_all, length-no_matches,
}

length-zero : (t : Str) → length t ≡ 0 → t ≡ []
length-zero [] h = refl
length-zero (c ∷ t) h = ground arith

module _ (sizes : Sizes) (patterns : List Pattern) (unescape : Str → Str) (i : ℕ) (l : Str) where
  -- The scan s has taken in the text: all of it but what is in the buffer is matched.
  pub record TakenIn (text : Str) (s : Scan) : Type 0 where
    pub matched : Str
    pub parts : text ≡ matched ++ s.buf
    pub counted : s.scanned ≡ length matched
    pub carried : s.carry ≡ tail_of sizes.overlap matched
    pub aligned : length s.found ≡ length patterns
    pub shown : shows l matched ≡ true → get_elem? s.found i ≡ some true

  TakenIn-match_chunk :
      (text : Str) (s : Scan)
      → get_elem? patterns i ≡ some (literal l)
      → length l ≤ suc sizes.overlap
      → TakenIn text s
      → TakenIn text (match_chunk sizes patterns unescape (s.carry ++ s.buf) s)
  unfolding match_chunk
  TakenIn-match_chunk text s is_pattern short inv = record {
    matched = text;
    parts = sym (append-nil text);
    counted = omega (arith, inv.counted, ap length inv.parts, length-append inv.matched s.buf);
    carried =
        ap (λ (t : Str). tail_of sizes.overlap (t ++ s.buf)) inv.carried
        ∙ tail_of-append sizes.overlap inv.matched s.buf
        ∙ ap (tail_of sizes.overlap) (sym inv.parts);
    aligned = length-match_all patterns _ _ s.found inv.aligned;
    shown = λ h.
        elim (shows-across sizes.overlap l inv.matched s.buf short
          (subst (λ t. shows l t ≡ true) inv.parts h)) [
            | inl before ↦ match_all-kept patterns _ _ s.found i inv.aligned (inv.shown before)
            | inr across ↦
                match_all-finds patterns _ _ s.found i l inv.aligned is_pattern
                  (subst (λ c. shows l (c ++ s.buf) ≡ true) (sym inv.carried) across)
          ];
  }

  flush-empty : (s : Scan) → (flush sizes patterns unescape s).buf ≡ []
  unfolding flush match_chunk
  flush-empty s = ground (arith, length-zero s.buf)

  TakenIn-flush :
      (text : Str) (s : Scan)
      → get_elem? patterns i ≡ some (literal l)
      → length l ≤ suc sizes.overlap
      → TakenIn text s
      → TakenIn text (flush sizes patterns unescape s)
  unfolding flush
  TakenIn-flush text s is_pattern short inv = elim (Bool-cases (length s.buf == 0)) [
    | inl e ↦ rw e inv
    | inr e ↦ rw e (TakenIn-match_chunk text s is_pattern short inv)
  ]

  -- One more byte in the buffer.
  TakenIn-one_more :
      (text : Str) (c : ℕ) (s : Scan)
      → TakenIn text s
      → TakenIn (text ++ c ∷ []) (record s { buf = s.buf ++ c ∷ [] })
  TakenIn-one_more text c s inv = record {
    matched = inv.matched;
    parts = ap (λ (t : Str). t ++ c ∷ []) inv.parts ∙ append_assoc inv.matched s.buf (c ∷ []);
    counted = inv.counted;
    carried = inv.carried;
    aligned = inv.aligned;
    shown = inv.shown;
  }

  TakenIn-feed :
      (text : Str) (c : ℕ) (s : Scan)
      → get_elem? patterns i ≡ some (literal l)
      → length l ≤ suc sizes.overlap
      → s.scanned + length s.buf < sizes.cap
      → TakenIn text s
      → TakenIn (text ++ c ∷ []) (feed sizes patterns unescape c s)
  TakenIn-feed text c s is_pattern short below inv =
      let t : Scan = record s { buf = s.buf ++ c ∷ [] } in
      let later : TakenIn (text ++ c ∷ []) t = TakenIn-one_more text c s inv in
      rw (feed-room sizes patterns unescape c s below)
        (elim (Bool-cases (length t.buf == sizes.chunk)) [
          | inl e ↦ rw e (TakenIn-flush _ t is_pattern short later)
          | inr e ↦ rw e later
        ])

  TakenIn-length : (text : Str) (s : Scan) → TakenIn text s → length text ≡ s.scanned + length s.buf
  TakenIn-length text s inv =
      omega (arith, inv.counted, ap length inv.parts, length-append inv.matched s.buf)

  TakenIn-feed_all :
      (p text : Str) (s : Scan)
      → get_elem? patterns i ≡ some (literal l)
      → length l ≤ suc sizes.overlap
      → length text + length p ≤ sizes.cap
      → TakenIn text s
      → TakenIn (text ++ p) (feed_all sizes patterns unescape p s)
  unfolding feed_all
  TakenIn-feed_all [] text s is_pattern short below inv = rw (append-nil text) inv
  TakenIn-feed_all (c ∷ p) text s is_pattern short below inv =
      subst (λ t. TakenIn t (feed_all sizes patterns unescape p (feed sizes patterns unescape c s)))
        (append_assoc text (c ∷ []) p)
        (TakenIn-feed_all p (text ++ c ∷ []) (feed sizes patterns unescape c s) is_pattern short
          (omega (arith, length-append text (c ∷ [])))
          (TakenIn-feed text c s is_pattern short (omega (arith, TakenIn-length text s inv)) inv))

  TakenIn-new_scan : 0 < length l → TakenIn [] (new_scan sizes patterns unescape)
  unfolding new_scan
  TakenIn-new_scan some_text = record {
    matched = [];
    parts = refl;
    counted = refl;
    carried = sym (tail_of_nothing sizes.overlap);
    aligned = length-no_matches patterns;
    shown = λ h. ground (arith, shows_nothing l some_text);
  }

  TakenIn-flushed :
      (text : Str) (s : Scan)
      → get_elem? patterns i ≡ some (literal l)
      → length l ≤ suc sizes.overlap
      → TakenIn text s
      → shows l text ≡ true
      → get_elem? (flush sizes patterns unescape s).found i ≡ some true
  TakenIn-flushed text s is_pattern short inv seen =
      let done = TakenIn-flush text s is_pattern short inv in
      done.shown (
        subst (λ t. shows l t ≡ true)
          (done.parts
            ∙ ap (λ (t : Str). done.matched ++ t) (flush-empty s)
            ∙ append-nil done.matched)
          seen)

-- A text that is not empty, is no longer than the overlap and one more byte, and that a rule looks for
-- is found wherever it stands, in whatever letter case, in the first bytes up to the cap of what a file
-- holds besides its zero bytes, whatever the pieces that the file was written in.
pub flush-finds :
    (sizes : Sizes) (patterns : List Pattern) (unescape : Str → Str) (pieces : List Str) (i : ℕ)
    (l : Str)
    → 0 < sizes.chunk
    → get_elem? patterns i ≡ some (literal l)
    → 0 < length l
    → length l ≤ suc sizes.overlap
    → shows l (take sizes.cap (strip (joined pieces))) ≡ true
    → get_elem?
        (flush sizes patterns unescape
          (write_each sizes patterns unescape pieces (new_scan sizes patterns unescape))).found
        i
      ≡ some true
flush-finds sizes patterns unescape pieces i l some_room is_pattern some_text short seen =
    let start = new_scan sizes patterns unescape in
    let p : Str = strip (joined pieces) in
    let cut_off : write_each sizes patterns unescape pieces start
        ≡ feed_all sizes patterns unescape (take sizes.cap p) start =
      write_each-feed_all sizes patterns unescape pieces start some_room
        (unfold new_scan in some_room)
      ∙ sym (
          feed_all-take sizes patterns unescape sizes.cap p start
            (unfold new_scan in omega arith)) in
    subst (λ s. get_elem? (flush sizes patterns unescape s).found i ≡ some true) (sym cut_off)
      (TakenIn-flushed sizes patterns unescape i l (take sizes.cap p) _ is_pattern short
        (TakenIn-feed_all sizes patterns unescape i l (take sizes.cap p) [] start is_pattern short
          (omega (arith, length-take sizes.cap p))
          (TakenIn-new_scan sizes patterns unescape i l some_text))
        seen)
