-- ===== src/Websocket/Digits.antt =====
-- Numbers as bytes, the highest first, in a frame's header.
use smrender.Base.{
  ℕ, zero, suc, ◌+◌, ◌-◌, ◌*◌, ◌/◌, ◌%◌, ◌^◌, ◌≤◌, ◌<◌, ◌≡◌, refl, ap, ◌∙◌, ◌≢◌, ◌⊎◌, inl, [], ◌∷◌,
  arith, length, set, get_or, length-set,
}
use smrender.Bstring.{Bytes}
use smrender.Websocket.{put_bytes, ws_pld_len}

pub length-put_bytes :
    (cnt last v : ℕ) (buf : Bytes) → length (put_bytes cnt last v buf) ≡ length buf
unfolding put_bytes
length-put_bytes zero last v buf = refl
length-put_bytes (suc cnt) last v buf =
    length-put_bytes cnt (last - 1) (v / 256) (set buf last (v % 256))
    ∙ length-set buf last (v % 256)

pub get_or-set_self : (buf : Bytes) (i v : ℕ) → i < length buf → get_or (set buf i v) i 0 ≡ v
get_or-set_self [] i v h = elim h [ ]
get_or-set_self (x ∷ buf) zero v h = refl
get_or-set_self (x ∷ buf) (suc i) v h = get_or-set_self buf i v (omega arith)

pub get_or-set_other : (buf : Bytes) (i j v : ℕ) → i ≢ j → get_or (set buf j v) i 0 ≡ get_or buf i 0
get_or-set_other [] i j v n = refl
get_or-set_other (x ∷ buf) zero zero v n = elim (n refl) [ ]
get_or-set_other (x ∷ buf) zero (suc j) v n = refl
get_or-set_other (x ∷ buf) (suc i) zero v n = refl
get_or-set_other (x ∷ buf) (suc i) (suc j) v n = get_or-set_other buf i j v (λ e. n (ap suc e))

pub get_or-put_bytes :
    (cnt last v i : ℕ) (buf : Bytes)
    → cnt ≤ last
    → (last < i) ⊎ (i + cnt ≤ last)
    → get_or (put_bytes cnt last v buf) i 0 ≡ get_or buf i 0
unfolding put_bytes
get_or-put_bytes zero last v i buf room out = refl
get_or-put_bytes (suc cnt) last v i buf room out =
    get_or-put_bytes cnt (last - 1) (v / 256) i (set buf last (v % 256)) (omega arith)
      (ground arith)
    ∙ get_or-set_other buf i last (v % 256) (ground arith)

-- One more byte behind those read.
ws_pld_len_snoc :
    (buf : Bytes) (i cnt plen : ℕ)
    → ws_pld_len buf i (suc cnt) plen
      ≡ (ws_pld_len buf i cnt plen * 256 + get_or buf (i + cnt) 0) % 2 ^ 64
unfolding ws_pld_len
ws_pld_len_snoc buf i zero plen = ap (λ j. (plen * 256 + get_or buf j 0) % 2 ^ 64) (omega arith)
ws_pld_len_snoc buf i (suc cnt) plen =
    ws_pld_len_snoc buf (i + 1) cnt ((plen * 256 + get_or buf i 0) % 2 ^ 64)
    ∙ ap (λ j. (ws_pld_len buf i (suc cnt) plen * 256 + get_or buf j 0) % 2 ^ 64) (omega arith)

-- 256 ^ cnt
abbrev pub pow256 : ℕ → ℕ
pow256 zero = 1
pow256 (suc cnt) = pow256 cnt * 256

pub ws_pld_len-put_bytes :
    (cnt i last v : ℕ) (buf : Bytes)
    → i + cnt ≡ last + 1
    → cnt ≤ last
    → last < length buf
    → v < pow256 cnt
    → pow256 cnt ≤ 2 ^ 64
    → ws_pld_len (put_bytes cnt last v buf) i cnt 0 ≡ v
unfolding put_bytes
ws_pld_len-put_bytes zero i last v buf e room in_ lt small = unfold ws_pld_len in omega arith
ws_pld_len-put_bytes (suc cnt) i last v buf e room in_ lt small =
    ws_pld_len_snoc (put_bytes cnt (last - 1) (v / 256) (set buf last (v % 256))) i cnt 0
    ∙ last_byte
        (ws_pld_len-put_bytes cnt i (last - 1) (v / 256) (set buf last (v % 256)) (omega arith)
          (omega arith) (omega (arith, length-set buf last (v % 256))) (omega arith) (omega arith))
        (get_or-put_bytes cnt (last - 1) (v / 256) (i + cnt) (set buf last (v % 256)) (omega arith)
            (inl (omega arith))
          ∙ ap (λ j. get_or (set buf last (v % 256)) j 0) at_last
          ∙ get_or-set_self buf last (v % 256) in_)
  where
    at_last : i + cnt ≡ last
    at_last = omega arith

    last_byte : {x y : ℕ} → x ≡ v / 256 → y ≡ v % 256 → (x * 256 + y) % 2 ^ 64 ≡ v
    last_byte p q = omega arith

-- The number depends on its bytes only.
pub ws_pld_len-congr :
    (a b : Bytes) (i cnt plen : ℕ)
    → ((j : ℕ) → i ≤ j → j < i + cnt → get_or a j 0 ≡ get_or b j 0)
    → ws_pld_len a i cnt plen ≡ ws_pld_len b i cnt plen
unfolding ws_pld_len
ws_pld_len-congr a b i zero plen same = refl
ws_pld_len-congr a b i (suc cnt) plen same =
    ap (λ x. ws_pld_len a (i + 1) cnt ((plen * 256 + x) % 2 ^ 64))
      (same i (omega arith) (omega arith))
    ∙ ws_pld_len-congr a b (i + 1) cnt ((plen * 256 + get_or b i 0) % 2 ^ 64)
        (λ j p q. same j (omega arith) (omega arith))
