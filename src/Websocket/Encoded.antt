-- ===== src/Websocket/Encoded.antt =====
-- The length in a header.
use smrender.Base.{
  ℕ, ◌+◌, ◌/◌, ◌%◌, ◌^◌, ◌≤◌, ◌<◌, ◌≡◌, refl, ◌∙◌, ◌≢◌, inl, inr, [], ◌∷◌, arith, length, set,
  get_or, length-set,
}
use smrender.Bstring.{Bytes}
use smrender.Websocket.{put_bytes, put_len, ws_pld_len}
use smrender.Websocket.Digits.{
  length-put_bytes, get_or-set_self, get_or-set_other, get_or-put_bytes, ws_pld_len-put_bytes,
  ws_pld_len-congr,
}

pub put_len_short : (plen : ℕ) (buf : Bytes) → plen ≤ 125 → put_len plen buf ≡ set buf 1 plen
unfolding put_len
put_len_short plen buf h = ground arith

pub put_len_two :
    (plen : ℕ) (buf : Bytes)
    → 125 < plen
    → plen < 0x10000
    → put_len plen buf ≡ set (set (set buf 1 0x7e) 2 (plen / 256 % 256)) 3 (plen % 256)
unfolding put_len
put_len_two plen buf h l = ground arith

pub put_len_eight :
    (plen : ℕ) (buf : Bytes)
    → 0x10000 ≤ plen
    → put_len plen buf ≡ put_bytes 8 9 plen (set buf 1 0x7f)
unfolding put_len
put_len_eight plen buf h = ground arith

-- The header before the mask is added, of `n` bytes for the length and with `code` before them.
pub record Encoded (plen n code : ℕ) (buf base : Bytes) : Type 0 where
  pub same_length : length base ≡ length buf
  pub code_stored : get_or base 1 0 ≡ code
  pub value_stored : n ≢ 0 → ws_pld_len base 2 n 0 ≡ plen
  pub kept : (i : ℕ) → 2 + n ≤ i → get_or base i 0 ≡ get_or buf i 0

pub set-Encoded :
    (plen : ℕ) (buf : Bytes) → 1 < length buf → Encoded plen 0 plen buf (set buf 1 plen)
set-Encoded plen buf room = record {
  same_length = length-set buf 1 plen;
  code_stored = get_or-set_self buf 1 plen room;
  value_stored = λ n. elim (n refl) [ ];
  kept = λ i h. get_or-set_other buf i 1 plen (omega arith);
}

pub set-Encoded_two :
    (plen : ℕ) (buf : Bytes)
    → 3 < length buf
    → plen < 0x10000
    → Encoded plen 2 0x7e buf (set (set (set buf 1 0x7e) 2 (plen / 256 % 256)) 3 (plen % 256))
set-Encoded_two plen [] room small = absurd (omega arith)
set-Encoded_two plen (a ∷ []) room small = absurd (omega arith)
set-Encoded_two plen (a ∷ b ∷ []) room small = absurd (omega arith)
set-Encoded_two plen (a ∷ b ∷ c ∷ []) room small = absurd (omega arith)
set-Encoded_two plen (a ∷ b ∷ c ∷ d ∷ buf) room small = record {
  same_length = refl;
  code_stored = refl;
  value_stored = λ n. unfold ws_pld_len in omega arith;
  kept = λ i h.
      let all = a ∷ b ∷ c ∷ d ∷ buf in
      get_or-set_other (set (set all 1 0x7e) 2 (plen / 256 % 256)) i 3 (plen % 256) (omega arith)
      ∙ get_or-set_other (set all 1 0x7e) i 2 (plen / 256 % 256) (omega arith)
      ∙ get_or-set_other all i 1 0x7e (omega arith);
}

pub put_bytes-Encoded :
    (plen : ℕ) (buf : Bytes)
    → 9 < length buf
    → plen < 2 ^ 63
    → Encoded plen 8 0x7f buf (put_bytes 8 9 plen (set buf 1 0x7f))
put_bytes-Encoded plen buf room small = record {
  same_length = length-put_bytes 8 9 plen (set buf 1 0x7f) ∙ length-set buf 1 0x7f;
  code_stored =
      get_or-put_bytes 8 9 plen 1 (set buf 1 0x7f) (omega arith) (inr (omega arith))
      ∙ get_or-set_self buf 1 0x7f (omega arith);
  value_stored = λ n.
      ws_pld_len-put_bytes 8 2 9 plen (set buf 1 0x7f) refl (omega arith)
        (omega (arith, length-set buf 1 0x7f)) (omega arith) (omega arith);
  kept = λ i h.
      get_or-put_bytes 8 9 plen i (set buf 1 0x7f) (omega arith) (inl (omega arith))
      ∙ get_or-set_other buf i 1 0x7f (omega arith);
}

-- The opcode in the first byte changes nothing of this.
pub set_op-Encoded :
    (plen n code op : ℕ) (buf base : Bytes)
    → Encoded plen n code buf base
    → Encoded plen n code buf (set base 0 op)
set_op-Encoded plen n code op buf base e = record {
  same_length = length-set base 0 op ∙ e.same_length;
  code_stored = get_or-set_other base 1 0 op (omega arith) ∙ e.code_stored;
  value_stored = λ m.
      ws_pld_len-congr (set base 0 op) base 2 n 0
        (λ j p q. get_or-set_other base j 0 op (omega arith))
      ∙ e.value_stored m;
  kept = λ i h. get_or-set_other base i 0 op (omega arith) ∙ e.kept i h;
}
