-- ===== src/Websocket/Io/Partial.antt =====
-- What ws_decode_len() finds in the first bytes of a frame.
use smrender.Base.{
  ℕ, ◌+◌, ◌-◌, ◌%◌, ◌≤◌, ◌≡◌, refl, sym, ap, ◌∙◌, ◌≢◌, inl, inr, Bool, true, false, arith, ltb, leb,
  ◌==◌, if◌then◌else◌, Bool-cases, length, get_or, take, subst, length-take, true-false,
}
use smrender.Bstring.{Bytes}
use smrender.Websocket.{Decoded, ws_hdr_minlen, with_mask, decode_long, ws_decode_len, ws_pld_len}
use smrender.Websocket.Digits.{ws_pld_len-congr}
use smrender.Websocket.Write.Prefix.{get_or-take}

-- Of a frame there are `k` bytes: the lengths can be read, or the bytes that are missing for it are
-- not more than the header has.
pub data Part (hlen plen k : ℕ) (d : Decoded) : Type 0 where
  complete : d ≡ Decoded.lengths hlen plen → Part hlen plen k d
  partial : (j : ℕ) → d ≡ Decoded.missing j → 1 ≤ j → k + j ≤ hlen → Part hlen plen k d

missing_lengths : (j h p : ℕ) → Decoded.missing j ≢ Decoded.lengths h p
missing_lengths j h p e = true-false (ap is_missing e)
  where
    is_missing : Decoded → Bool
    is_missing (Decoded.missing j) = true
    is_missing (Decoded.lengths h p) = false

lengths_inj : (h p h' p' : ℕ) → Decoded.lengths h p ≡ Decoded.lengths h' p' → (h ≡ h') × (p ≡ p')
lengths_inj h p h' p' e = (ap hlen_of e, ap plen_of e)
  where
    hlen_of : Decoded → ℕ
    hlen_of (Decoded.missing j) = 0
    hlen_of (Decoded.lengths h p) = h

    plen_of : Decoded → ℕ
    plen_of (Decoded.missing j) = 0
    plen_of (Decoded.lengths h p) = p

with_mask-le : (b n : ℕ) → (n ≤ with_mask b n) × (with_mask b n ≤ n + 4)
unfolding with_mask
with_mask-le b n = elim (Bool-cases (leb 128 b)) [
  | inl e ↦ rw e (omega arith, omega arith)
  | inr e ↦ rw e (omega arith, omega arith)
]

length-take_le : (k : ℕ) (b : Bytes) → k ≤ length b → length (take k b) ≡ k
length-take_le k b h = omega (arith, length-take k b, h)

decode_long-Part :
    (b : Bytes) (k cnt hlen plen : ℕ)
    → 2 ≤ k
    → k ≤ length b
    → decode_long b cnt ≡ Decoded.lengths hlen plen
    → Part hlen plen k (decode_long (take k b) cnt)
unfolding decode_long
decode_long-Part b k cnt hlen plen two h e =
    elim (Bool-cases (ltb (length b) (ws_hdr_minlen + cnt))) [
      | inl short ↦
          absurd (missing_lengths (ws_hdr_minlen + cnt - length b) hlen plen (rw short at e))
      | inr long ↦
          let eqs : (with_mask (get_or b 1 0) (ws_hdr_minlen + cnt) ≡ hlen)
              × (ws_pld_len b ws_hdr_minlen cnt 0 ≡ plen) =
            lengths_inj (with_mask (get_or b 1 0) (ws_hdr_minlen + cnt))
              (ws_pld_len b ws_hdr_minlen cnt 0) hlen plen (rw long at e) in
          let bounds = with_mask-le (get_or b 1 0) (ws_hdr_minlen + cnt) in
          let len : length (take k b) ≡ k = length-take_le k b h in
          elim (Bool-cases (ltb k (ws_hdr_minlen + cnt))) [
            | inl few ↦
                rw (len, few)
                  (Part.partial (ws_hdr_minlen + cnt - k) refl (ground arith)
                    (ground (arith, eqs.0, bounds.0)))
            | inr all ↦
                rw (len, all)
                  (Part.complete (
                    ap
                      (λ x.
                        Decoded.lengths (with_mask x (ws_hdr_minlen + cnt))
                          (ws_pld_len (take k b) ws_hdr_minlen cnt 0))
                      (get_or-take k 1 b (omega arith))
                    ∙ ap (λ x. Decoded.lengths x (ws_pld_len (take k b) ws_hdr_minlen cnt 0)) eqs.0
                    ∙ ap (Decoded.lengths hlen) (
                        ws_pld_len-congr (take k b) b ws_hdr_minlen cnt 0
                          (λ j p q. get_or-take k j b (ground (arith, q)))
                        ∙ eqs.1)))
          ]
    ]

two-le : (b : Bytes) (cnt hlen plen : ℕ) → decode_long b cnt ≡ Decoded.lengths hlen plen → 2 ≤ hlen
unfolding decode_long
two-le b cnt hlen plen e = elim (Bool-cases (ltb (length b) (ws_hdr_minlen + cnt))) [
  | inl short ↦ absurd (missing_lengths (ws_hdr_minlen + cnt - length b) hlen plen (rw short at e))
  | inr long ↦ omega (
    arith,
    (lengths_inj (with_mask (get_or b 1 0) (ws_hdr_minlen + cnt)) (ws_pld_len b ws_hdr_minlen cnt 0)
        hlen plen (rw long at e)).0,
    (with_mask-le (get_or b 1 0) (ws_hdr_minlen + cnt)).0,
  )
]

-- The code of the length, and what follows from it.
decode_code : Bool → Bool → Bytes → Decoded
decode_code true c b = decode_long b 2
decode_code false true b = decode_long b 8
decode_code false false b =
    Decoded.lengths (with_mask (get_or b 1 0) ws_hdr_minlen) (get_or b 1 0 % 128)

code_of : Bytes → ℕ
code_of b = get_or b 1 0 % 128

ws_decode_len-code :
    (b : Bytes)
    → 2 ≤ length b
    → ws_decode_len b ≡ decode_code (code_of b == 0x7e) (code_of b == 0x7f) b
unfolding ws_decode_len decode_code code_of decode_long with_mask ws_pld_len
ws_decode_len-code b h =
    let long : ltb (length b) 2 ≡ false = ground (arith, h) in
    rw long (by_code (code_of b == 0x7e) (code_of b == 0x7f))
  where
    by_code :
        (c d : Bool)
        → (if c
            then decode_long b 2
            else if d
            then decode_long b 8
            else Decoded.lengths (with_mask (get_or b 1 0) ws_hdr_minlen) (get_or b 1 0 % 128))
          ≡ decode_code c d b
    by_code true d = refl
    by_code false true = refl
    by_code false false = refl

decode_code-Part :
    (c d : Bool) (b : Bytes) (k hlen plen : ℕ)
    → 2 ≤ k
    → k ≤ length b
    → decode_code c d b ≡ Decoded.lengths hlen plen
    → Part hlen plen k (decode_code c d (take k b))
unfolding decode_code
decode_code-Part true d b k hlen plen two h e = decode_long-Part b k 2 hlen plen two h e
decode_code-Part false true b k hlen plen two h e = decode_long-Part b k 8 hlen plen two h e
decode_code-Part false false b k hlen plen two h e = Part.complete (
    ap (λ x. Decoded.lengths (with_mask x ws_hdr_minlen) (x % 128))
      (get_or-take k 1 b (omega arith))
    ∙ e)

decode_code-two :
    (c d : Bool) (b : Bytes) (hlen plen : ℕ)
    → decode_code c d b ≡ Decoded.lengths hlen plen
    → 2 ≤ hlen
unfolding decode_code
decode_code-two true d b hlen plen e = two-le b 2 hlen plen e
decode_code-two false true b hlen plen e = two-le b 8 hlen plen e
decode_code-two false false b hlen plen e = omega (
  arith,
  (lengths_inj (with_mask (get_or b 1 0) ws_hdr_minlen) (get_or b 1 0 % 128) hlen plen e).0,
  (with_mask-le (get_or b 1 0) ws_hdr_minlen).0,
)

-- A header has two bytes.
pub ws_decode_len-two :
    (b : Bytes) (hlen plen : ℕ)
    → 2 ≤ length b
    → ws_decode_len b ≡ Decoded.lengths hlen plen
    → 2 ≤ hlen
ws_decode_len-two b hlen plen h e =
    decode_code-two (code_of b == 0x7e) (code_of b == 0x7f) b hlen plen
      (sym (ws_decode_len-code b h) ∙ e)

short-missing :
    (b : Bytes)
    → ltb (length b) 2 ≡ true
    → ws_decode_len b ≡ Decoded.missing (ws_hdr_minlen - length b)
unfolding ws_decode_len
short-missing b e = rw e refl

-- ws_decode_len() of the first `k` bytes of a frame.
pub ws_decode_len-Part :
    (b : Bytes) (k hlen plen : ℕ)
    → 2 ≤ length b
    → k ≤ length b
    → ws_decode_len b ≡ Decoded.lengths hlen plen
    → Part hlen plen k (ws_decode_len (take k b))
unfolding code_of
ws_decode_len-Part b k hlen plen two h e =
    let len : length (take k b) ≡ k = length-take_le k b h in
    elim (Bool-cases (ltb k 2)) [
      | inl few ↦
          Part.partial (ws_hdr_minlen - k)
            (short-missing (take k b) (ap (λ x. ltb x 2) len ∙ few)
              ∙ ap (λ x. Decoded.missing (ws_hdr_minlen - x)) len)
            (ground arith) (ground (arith, ws_decode_len-two b hlen plen two e))
      | inr more ↦
          let two_k : 2 ≤ k = ground arith in
          let code : code_of (take k b) ≡ code_of b =
            ap (λ x. x % 128) (get_or-take k 1 b (omega (arith, two_k))) in
          subst (Part hlen plen k)
            (sym (
              ws_decode_len-code (take k b) (omega (arith, len, two_k))
              ∙ ap (λ c. decode_code (c == 0x7e) (c == 0x7f) (take k b)) code))
            (decode_code-Part (code_of b == 0x7e) (code_of b == 0x7f) b k hlen plen two_k h
              (sym (ws_decode_len-code b two) ∙ e))
    ]
