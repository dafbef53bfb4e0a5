-- ===== src/PktLine/RoundTrip.antt =====
-- A line that was written is read back, and leaves what follows it.
use sitebin_io.Base.{
  ℕ, ◌+◌, ◌*◌, ◌/◌, ◌%◌, ◌≤◌, ◌<◌, ◌≡◌, refl, ap, ◌∙◌, List, [], ◌∷◌, ◌++◌, some, arith, Str,
  length, take, drop, length-append, ok, ◌>>=◌,
}
use sitebin_io.PktLine.{
  max_pkt, hex_digit, hex4, hex_value, after_digit, parse_hex, read_full, line, read_payload,
  read_pkt, write_pkt,
}

hex_value-hex_digit : (d : ℕ) → d < 16 → hex_value (hex_digit d) ≡ some d
hex_value-hex_digit d h = ground arith

parse_hex-hex_digit :
    (acc d : ℕ) (s : Str) → d < 16 → parse_hex acc (hex_digit d ∷ s) ≡ parse_hex (acc * 16 + d) s
unfolding parse_hex
parse_hex-hex_digit acc d s h =
    ap (λ v. after_digit acc v (λ more. parse_hex more s)) (hex_value-hex_digit d h)

parse_hex-hex4 : (n : ℕ) → n < 65536 → parse_hex 0 (hex4 n) ≡ some n
unfolding parse_hex
parse_hex-hex4 n h =
    parse_hex-hex_digit 0 (n / 4096 % 16)
      (hex_digit (n / 256 % 16) ∷ hex_digit (n / 16 % 16) ∷ hex_digit (n % 16) ∷ []) (omega arith)
    ∙ parse_hex-hex_digit _ (n / 256 % 16) (hex_digit (n / 16 % 16) ∷ hex_digit (n % 16) ∷ [])
        (omega arith)
    ∙ parse_hex-hex_digit _ (n / 16 % 16) (hex_digit (n % 16) ∷ []) (omega arith)
    ∙ parse_hex-hex_digit _ (n % 16) [] (omega arith)
    ∙ done
  where
    done :
        parse_hex
          ((((0 * 16 + n / 4096 % 16) * 16 + n / 256 % 16) * 16 + n / 16 % 16) * 16 + n % 16)
          []
        ≡ some n
    done = ap some (omega arith)

take-append {ℓ} : {A : Type ℓ} (xs ys : List A) → take (length xs) (xs ++ ys) ≡ xs
take-append [] ys = refl
take-append (x ∷ xs) ys = ap (λ l. x ∷ l) (take-append xs ys)

drop-append {ℓ} : {A : Type ℓ} (xs ys : List A) → drop (length xs) (xs ++ ys) ≡ ys
drop-append [] ys = refl
drop-append (x ∷ xs) ys = drop-append xs ys

read_full-append :
    (payload rest : Str) → read_full (length payload) (payload ++ rest) ≡ ok (payload, rest)
unfolding read_full
read_full-append payload rest =
    ground (arith, length-append payload rest, take-append payload rest, drop-append payload rest)

payload_read :
    (payload rest : Str)
    → length payload + 4 ≤ max_pkt
    → read_payload (payload ++ rest) (some (length payload + 4)) ≡ ok (line payload, rest)
unfolding read_payload
payload_read payload rest h = ground (arith, read_full-append payload rest)

written :
    (payload bytes : Str)
    → write_pkt payload ≡ ok bytes
    → (length payload + 4 ≤ max_pkt) × (bytes ≡ hex4 (length payload + 4) ++ payload)
unfolding write_pkt
written payload bytes h = ground arith

line_read :
    (payload rest : Str)
    → length payload + 4 ≤ max_pkt
    → read_pkt ((hex4 (length payload + 4) ++ payload) ++ rest) ≡ ok (line payload, rest)
unfolding read_pkt
line_read payload rest h =
    ap (λ r. r >>= λ (hdr, more). read_payload more (parse_hex 0 hdr))
      (read_full-append (hex4 (length payload + 4)) (payload ++ rest))
    ∙ ap (read_payload (payload ++ rest)) (parse_hex-hex4 (length payload + 4) (omega arith))
    ∙ payload_read payload rest h

-- What `writePkt` wrote for a payload is read back as this payload, and what follows stays unread;
-- an empty payload is no flush.
pub read_pkt-write_pkt :
    (payload bytes rest : Str)
    → write_pkt payload ≡ ok bytes
    → read_pkt (bytes ++ rest) ≡ ok (line payload, rest)
read_pkt-write_pkt payload bytes rest h =
    let (fits, e) = written payload bytes h in rw e (line_read payload rest fits)
