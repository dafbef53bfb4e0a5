-- ===== src/Scan/Splits.antt =====
-- internal/abuse/scan.go: how a file is cut into writes does not matter. The reference takes one byte at
-- a time.
use mathlib.Core.List.{append_assoc}
use sitebin_io.Base.{
  ℕ, zero, suc, ◌+◌, ◌-◌, ◌≤◌, ◌<◌, ◌≡◌, refl, sym, ap, ◌∙◌, arith, List, [], ◌∷◌, ◌++◌,
  if◌then◌else◌, leb, Str, length, take, drop, length-append, length-take, length-drop,
}
use Prim.Native.Nat.{min}
use native.Mathlib.Decide.{dec_lt}
use sitebin_io.Scan.{
  Sizes, Pattern, Scan, flush, match_chunk, if_full, fill, write_text, write, strip,
}

pub take-drop : (n : ℕ) (p : Str) → take n p ++ drop n p ≡ p
take-drop zero p = refl
take-drop (suc n) [] = refl
take-drop (suc n) (c ∷ p) = ap (λ (t : Str). c ∷ t) (take-drop n p)

module _ (sizes : Sizes) (patterns : List Pattern) (unescape : Str → Str) where
  -- What one more byte does: nothing past the cap.
  unfoldable pub feed : ℕ → Scan → Scan
  feed c s =
      if leb sizes.cap (s.scanned + length s.buf)
      then s
      else if_full sizes patterns unescape (record s { buf = s.buf ++ c ∷ [] })

  unfoldable pub feed_all : Str → Scan → Scan
  unfolding feed
  feed_all [] s = s
  feed_all (c ∷ p) s = feed_all p (feed c s)

  feed_all-append : (p q : Str) (s : Scan) → feed_all (p ++ q) s ≡ feed_all q (feed_all p s)
  unfolding feed_all
  feed_all-append [] q s = refl
  feed_all-append (c ∷ p) q s = feed_all-append p q (feed c s)

  abbrev pub Ready : Scan → Type 0
  Ready s = length s.buf < sizes.chunk

  if_full-total :
      (s : Scan)
      → (if_full sizes patterns unescape s).scanned + length (if_full sizes patterns unescape s).buf
        ≡ s.scanned + length s.buf
  unfolding flush match_chunk
  if_full-total s = ground arith

  if_full-Ready :
      (s : Scan)
      → 0 < sizes.chunk
      → length s.buf ≤ sizes.chunk
      → Ready (if_full sizes patterns unescape s)
  unfolding flush match_chunk
  if_full-Ready s some_room h = ground arith

  pub feed-full : (c : ℕ) (s : Scan) → sizes.cap ≤ s.scanned + length s.buf → feed c s ≡ s
  unfolding feed
  feed-full c s h = ground arith

  pub feed-room :
      (c : ℕ) (s : Scan)
      → s.scanned + length s.buf < sizes.cap
      → feed c s ≡ if_full sizes patterns unescape (record s { buf = s.buf ++ c ∷ [] })
  unfolding feed
  feed-room c s h = ground arith

  if_full-not : (s : Scan) → Ready s → if_full sizes patterns unescape s ≡ s
  if_full-not s h = ground arith

  feed_all-full : (p : Str) (s : Scan) → sizes.cap ≤ s.scanned + length s.buf → feed_all p s ≡ s
  unfolding feed_all
  feed_all-full [] s h = refl
  feed_all-full (c ∷ p) s h = ap (feed_all p) (feed-full c s h) ∙ feed_all-full p s h

  -- A byte that does not fill the buffer.
  feed-fits :
      (c : ℕ) (s : Scan)
      → suc (length s.buf) < sizes.chunk
      → s.scanned + length s.buf < sizes.cap
      → feed c s ≡ record s { buf = s.buf ++ c ∷ [] }
  feed-fits c s room below =
      feed-room c s below
      ∙ if_full-not (record s { buf = s.buf ++ c ∷ [] })
          (omega (arith, length-append s.buf (c ∷ [])))

  -- Bytes that fit into the buffer.
  feed_all-fits :
      (c : ℕ) (p : Str) (s : Scan)
      → suc (length s.buf + length p) ≤ sizes.chunk
      → suc (s.scanned + length s.buf + length p) ≤ sizes.cap
      → feed_all (c ∷ p) s ≡ if_full sizes patterns unescape (record s { buf = s.buf ++ (c ∷ p) })
  unfolding feed_all
  feed_all-fits c [] s room below = feed-room c s (omega arith)
  feed_all-fits c (d ∷ p) s room below =
      ap (feed_all (d ∷ p)) (feed-fits c s (omega arith) (omega arith))
      ∙ feed_all-fits d p (record s { buf = s.buf ++ c ∷ [] })
          (omega (arith, length-append s.buf (c ∷ [])))
          (omega (arith, length-append s.buf (c ∷ [])))
      ∙ ap (λ (b : Str). if_full sizes patterns unescape (record s { buf = b }))
          (append_assoc s.buf (c ∷ []) (d ∷ p))

  -- A first part, written at once, and the rest byte by byte.
  feed_all-parts :
      (m c : ℕ) (p : Str) (s : Scan)
      → suc (length s.buf + length (take m p)) ≤ sizes.chunk
      → suc (s.scanned + length s.buf + length (take m p)) ≤ sizes.cap
      → feed_all
          (drop m p)
          (if_full sizes patterns unescape (record s { buf = s.buf ++ (c ∷ take m p) }))
        ≡ feed_all (c ∷ p) s
  feed_all-parts m c p s room below =
      ap (feed_all (drop m p)) (sym (feed_all-fits c (take m p) s room below))
      ∙ sym (feed_all-append (c ∷ take m p) (drop m p) s)
      ∙ ap (λ (t : Str). feed_all (c ∷ t) s) (take-drop m p)

  -- The loop of `Write` comes to its end with as much fuel as there are bytes, and does what feeding
  -- them one by one does.
  fill-feed_all :
      (fuel : ℕ) (p : Str) (s : Scan)
      → 0 < sizes.chunk
      → length p ≤ fuel
      → Ready s
      → s.scanned + length s.buf + length p ≤ sizes.cap
      → fill sizes patterns unescape fuel p s ≡ feed_all p s
  unfolding fill feed_all
  fill-feed_all zero [] s some_room enough ready below = refl
  fill-feed_all zero (c ∷ p) s some_room enough ready below = ground arith
  fill-feed_all (suc fuel) [] s some_room enough ready below = refl
  fill-feed_all (suc fuel) (c ∷ p) s some_room enough ready below =
      let m : ℕ = min (sizes.chunk - length s.buf) (suc (length p)) - 1 in
      let e : min (sizes.chunk - length s.buf) (suc (length p)) ≡ suc m = omega arith in
      let t : Scan = record s { buf = s.buf ++ (c ∷ take m p) } in
      let long = length-append s.buf (c ∷ take m p) in
      let taken = length-take m p in
      let rest = length-drop m p in
      rw e (
        fill-feed_all fuel (drop m p) (if_full sizes patterns unescape t) some_room (omega arith)
          (if_full-Ready t some_room (omega arith)) (omega (arith, if_full-total t))
        ∙ feed_all-parts m c p s (omega arith) (omega arith))

  feed-total :
      (c : ℕ) (s : Scan)
      → s.scanned + length s.buf < sizes.cap
      → (feed c s).scanned + length (feed c s).buf ≡ suc (s.scanned + length s.buf)
  feed-total c s below =
      let t : Scan = record s { buf = s.buf ++ c ∷ [] } in
      rw (feed-room c s below) (omega (arith, if_full-total t, length-append s.buf (c ∷ [])))

  feed-Ready : (c : ℕ) (s : Scan) → 0 < sizes.chunk → Ready s → Ready (feed c s)
  unfolding feed
  feed-Ready c s some_room ready =
      let t : Scan = record s { buf = s.buf ++ c ∷ [] } in
      ground (arith, if_full-Ready t some_room (omega (arith, length-append s.buf (c ∷ []))))

  pub feed_all-Ready : (p : Str) (s : Scan) → 0 < sizes.chunk → Ready s → Ready (feed_all p s)
  unfolding feed_all
  feed_all-Ready [] s some_room ready = ready
  feed_all-Ready (c ∷ p) s some_room ready =
      feed_all-Ready p (feed c s) some_room (feed-Ready c s some_room ready)

  -- What does not fit below the cap changes nothing.
  pub feed_all-take :
      (room : ℕ) (p : Str) (s : Scan)
      → room ≡ sizes.cap - s.scanned - length s.buf
      → feed_all (take room p) s ≡ feed_all p s
  unfolding feed_all
  feed_all-take zero p s e = sym (feed_all-full p s (omega arith))
  feed_all-take (suc room) [] s e = refl
  feed_all-take (suc room) (c ∷ p) s e =
      feed_all-take room p (feed c s) (omega (arith, feed-total c s (omega arith)))

  write_text-feed_all :
      (p : Str) (s : Scan)
      → 0 < sizes.chunk
      → Ready s
      → write_text sizes patterns unescape p s ≡ feed_all p s
  unfolding write_text
  write_text-feed_all p s some_room ready =
      let room : ℕ = sizes.cap - s.scanned - length s.buf in
      elim (dec_lt (s.scanned + length s.buf) sizes.cap) [
        | no full ↦ ground (arith, feed_all-full p s (omega arith))
        | yes more ↦ ground (
          arith,
          fill-feed_all (length (take room p)) (take room p) s some_room (omega arith) ready
              (omega (arith, length-take room p)),
          feed_all-take room p s refl,
        )
      ]

  -- One `Write` after the other.
  unfoldable pub write_each : List Str → Scan → Scan
  write_each [] s = s
  write_each (p ∷ pieces) s = write_each pieces (write sizes patterns unescape p s)

strip-append : (p q : Str) → strip (p ++ q) ≡ strip p ++ strip q
unfolding strip
strip-append [] q = refl
strip-append (c ∷ p) q = ground (arith, strip-append p q)

unfoldable pub joined : List Str → Str
joined [] = []
joined (p ∷ pieces) = p ++ joined pieces

-- Whatever the pieces that a file comes in, a scan whose buffer is not full is afterwards as if every
-- byte of the file but the zero bytes had been given to it alone, in order: a byte past the cap
-- changes nothing, and any other goes into the buffer, which is matched when it is full.
pub write_each-feed_all :
    (sizes : Sizes) (patterns : List Pattern) (unescape : Str → Str) (pieces : List Str) (s : Scan)
    → 0 < sizes.chunk
    → Ready sizes patterns unescape s
    → write_each sizes patterns unescape pieces s
      ≡ feed_all sizes patterns unescape (strip (joined pieces)) s
unfolding write_each joined write feed_all strip
write_each-feed_all sizes patterns unescape [] s some_room ready = refl
write_each-feed_all sizes patterns unescape (p ∷ pieces) s some_room ready =
    let one = write_text-feed_all sizes patterns unescape (strip p) s some_room ready in
    let later = feed_all-Ready sizes patterns unescape (strip p) s some_room ready in
    ap (write_each sizes patterns unescape pieces) one
    ∙ write_each-feed_all sizes patterns unescape pieces _ some_room later
    ∙ sym (feed_all-append sizes patterns unescape (strip p) (strip (joined pieces)) s)
    ∙ ap (λ (t : Str). feed_all sizes patterns unescape t s) (sym (strip-append p (joined pieces)))
