-- ===== src/Websocket/Masked.antt =====
-- The mask in a header.
use smrender.Base.{
  ℕ, ◌+◌, ◌-◌, ◌%◌, ◌^◌, ◌≤◌, ◌<◌, ◌≡◌, refl, sym, ◌∙◌, ◌≢◌, ◌⊎◌, inl, inr, true, arith, leb, ◌==◌,
  if◌then◌else◌, ==_iff, Bool-cases, length, get_or, subst, length-set,
}
use smrender.Bstring.{Bytes}
use smrender.Websocket.{put_bytes, or_mask_bit, with_mask, read_mask}
use smrender.Websocket.Digits.{
  length-put_bytes, get_or-set_self, get_or-set_other, get_or-put_bytes, ws_pld_len-put_bytes,
}
use smrender.Websocket.Decode.{==_false}

-- What the mask adds to the header `base` of `hlen` bytes.
pub record Masked (mask hlen : ℕ) (base buf : Bytes) : Type 0 where
  pub same_length : length buf ≡ length base
  pub code : get_or buf 1 0 % 128 ≡ get_or base 1 0 % 128
  pub hlen_read : (n : ℕ) → with_mask (get_or buf 1 0) n ≡ n + (if mask == 0 then 0 else 4)
  pub len_kept :
      (i : ℕ) → 2 ≤ i → i + (if mask == 0 then 0 else 4) < hlen → get_or buf i 0 ≡ get_or base i 0
  pub mask_read : read_mask buf hlen ≡ mask
  pub first_kept : get_or buf 0 0 ≡ get_or base 0 0
  pub payload_kept : (i : ℕ) → hlen ≤ i → get_or buf i 0 ≡ get_or base i 0

unmasked : (hlen : ℕ) (base : Bytes) → get_or base 1 0 < 128 → Masked 0 hlen base base
unfolding with_mask read_mask
unmasked hlen base h = record {
  same_length = refl;
  code = refl;
  hlen_read = λ n. ground arith;
  len_kept = λ i p q. refl;
  mask_read = ground arith;
  first_kept = refl;
  payload_kept = λ i p. refl;
}

-- The bytes before and behind the mask.
masked_byte :
    (mask hlen i : ℕ) (base : Bytes)
    → i ≢ 1
    → 6 ≤ hlen
    → (hlen ≤ i) ⊎ (i + 4 < hlen)
    → get_or (put_bytes 4 (hlen - 1) mask (or_mask_bit 1 base)) i 0 ≡ get_or base i 0
unfolding or_mask_bit
masked_byte mask hlen i base n room out =
    get_or-put_bytes 4 (hlen - 1) mask i (or_mask_bit 1 base) (omega arith) (ground arith)
    ∙ get_or-set_other base i 1 (get_or base 1 0 % 128 + 128) n

masked_code :
    (mask hlen : ℕ) (base : Bytes)
    → 6 ≤ hlen
    → 1 < length base
    → get_or (put_bytes 4 (hlen - 1) mask (or_mask_bit 1 base)) 1 0 ≡ get_or base 1 0 % 128 + 128
unfolding or_mask_bit
masked_code mask hlen base room h =
    get_or-put_bytes 4 (hlen - 1) mask 1 (or_mask_bit 1 base) (omega arith) (inr (omega arith))
    ∙ get_or-set_self base 1 (get_or base 1 0 % 128 + 128) h

with_mask_set : (b c n : ℕ) → b ≡ c % 128 + 128 → with_mask b n ≡ n + 4
unfolding with_mask
with_mask_set b c n e = ground arith

masked_mask :
    (mask hlen : ℕ) (base : Bytes)
    → mask < 2 ^ 32
    → 6 ≤ hlen
    → hlen ≤ length base
    → read_mask (put_bytes 4 (hlen - 1) mask (or_mask_bit 1 base)) hlen ≡ mask
unfolding read_mask or_mask_bit
masked_mask mask hlen base small room fits = rw bit (
    ws_pld_len-put_bytes 4 (hlen - 4) (hlen - 1) mask (or_mask_bit 1 base) (omega arith)
      (omega arith) (omega (arith, length-set base 1 (get_or base 1 0 % 128 + 128))) small
      (omega arith))
  where
    bit : leb 128 (get_or (put_bytes 4 (hlen - 1) mask (or_mask_bit 1 base)) 1 0) ≡ true
    bit = ground (arith, masked_code mask hlen base room (omega arith))

masked :
    (mask hlen : ℕ) (base : Bytes)
    → mask ≢ 0
    → mask < 2 ^ 32
    → 6 ≤ hlen
    → hlen ≤ length base
    → Masked mask hlen base (put_bytes 4 (hlen - 1) mask (or_mask_bit 1 base))
masked mask hlen base n small room fits = record {
  same_length =
      length-put_bytes 4 (hlen - 1) mask (or_mask_bit 1 base)
      ∙ unfold or_mask_bit in length-set base 1 (get_or base 1 0 % 128 + 128);
  code = omega (arith, masked_code mask hlen base room (omega arith));
  hlen_read = λ k.
      rw (==_false mask 0 n)
        (with_mask_set _ (get_or base 1 0) k (masked_code mask hlen base room (omega arith)));
  len_kept = λ i p q. masked_byte mask hlen i base (omega arith) room (inr (short_of i q));
  mask_read = masked_mask mask hlen base small room fits;
  first_kept = masked_byte mask hlen 0 base (omega arith) room (inr (omega arith));
  payload_kept = λ i p. masked_byte mask hlen i base (omega arith) room (inl p);
}
  where
    short_of : (i : ℕ) → i + (if mask == 0 then 0 else 4) < hlen → i + 4 < hlen
    short_of i q = ground arith

pub put_mask-Masked :
    (mask hlen : ℕ) (base : Bytes)
    → mask < 2 ^ 32
    → (6 ≤ hlen) ⊎ (mask ≡ 0)
    → hlen ≤ length base
    → get_or base 1 0 < 128
    → Masked mask hlen base
        (if mask == 0 then base else put_bytes 4 (hlen - 1) mask (or_mask_bit 1 base))
put_mask-Masked mask hlen base small form fits low = elim (Bool-cases (mask == 0)) [
  | inl e ↦
      subst
        (λ k.
          Masked k hlen base
            (if k == 0 then base else put_bytes 4 (hlen - 1) k (or_mask_bit 1 base)))
        (sym ((==_iff mask 0).0 e)) (unmasked hlen base low)
  | inr e ↦ rw e (masked mask hlen base (λ z. ground arith) small (ground arith) fits)
]
