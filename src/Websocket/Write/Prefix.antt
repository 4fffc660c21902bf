-- ===== src/Websocket/Write/Prefix.antt =====
-- The header of a frame in a buffer that is longer than the frame.
use smrender.Base.{
  ℕ, zero, suc, ◌+◌, ◌-◌, ◌/◌, ◌%◌, ◌≤◌, ◌<◌, ◌≡◌, refl, ap, ◌∙◌, inl, inr, some, [], ◌∷◌, ◌++◌,
  arith, ltb, leb, ◌==◌, Bool-cases, length, set, get_or, take, drop, none-some, some_inj,
}
use smrender.Bstring.{Bytes}
use smrender.Websocket.{WsFrame, or_mask_bit, put_header, put_len, put_bytes}

take-set : (n i v : ℕ) (xs : Bytes) → set (take n xs) i v ≡ take n (set xs i v)
take-set zero i v xs = refl
take-set (suc n) i v [] = refl
take-set (suc n) zero v (x ∷ xs) = refl
take-set (suc n) (suc i) v (x ∷ xs) = ap (λ ys. x ∷ ys) (take-set n i v xs)

pub get_or-take : (n i : ℕ) (xs : Bytes) → i < n → get_or (take n xs) i 0 ≡ get_or xs i 0
get_or-take zero i xs h = absurd (omega arith)
get_or-take (suc n) i [] h = refl
get_or-take (suc n) zero (x ∷ xs) h = refl
get_or-take (suc n) (suc i) (x ∷ xs) h = get_or-take n i xs (omega arith)

take-put_bytes :
    (n cnt last v : ℕ) (xs : Bytes)
    → put_bytes cnt last v (take n xs) ≡ take n (put_bytes cnt last v xs)
unfolding put_bytes
take-put_bytes n zero last v xs = refl
take-put_bytes n (suc cnt) last v xs =
    rw (take-set n last (v % 256) xs)
      (take-put_bytes n cnt (last - 1) (v / 256) (set xs last (v % 256)))

take-put_len : (n plen : ℕ) (xs : Bytes) → put_len plen (take n xs) ≡ take n (put_len plen xs)
unfolding put_len
take-put_len n plen xs = elim (Bool-cases (leb plen 125)) [
  | inl e ↦ rw e (take-set n 1 plen xs)
  | inr e ↦ elim (Bool-cases (ltb plen 0x10000)) [
    | inl f ↦
        rw (e, f, take-set n 1 0x7e xs, take-set n 2 (plen / 256 % 256) (set xs 1 0x7e))
          (take-set n 3 (plen % 256) (set (set xs 1 0x7e) 2 (plen / 256 % 256)))
    | inr f ↦ rw (e, f, take-set n 1 0x7f xs) (take-put_bytes n 8 9 plen (set xs 1 0x7f))
  ]
]

take-or_mask_bit :
    (n : ℕ) (xs : Bytes) → 1 < n → or_mask_bit 1 (take n xs) ≡ take n (or_mask_bit 1 xs)
unfolding or_mask_bit
take-or_mask_bit n xs h = rw (get_or-take n 1 xs h) (take-set n 1 (get_or xs 1 0 % 128 + 128) xs)

-- The header of a prefix of the buffer is a prefix of the buffer with the header.
pub take-put_header :
    (n : ℕ) (wf : WsFrame) (buf : Bytes)
    → 1 < n
    → put_header wf ≡ some buf
    → put_header (record wf { buf = take n wf.buf }) ≡ some (take n buf)
unfolding put_header
take-put_header n wf buf h e =
    let base : Bytes = set (put_len wf.plen wf.buf) 0 (wf.op % 256) in
    let base_take : set (put_len wf.plen (take n wf.buf)) 0 (wf.op % 256) ≡ take n base =
      ap (λ b. set b 0 (wf.op % 256)) (take-put_len n wf.plen wf.buf)
      ∙ take-set n 0 (wf.op % 256) (put_len wf.plen wf.buf) in
    elim (Bool-cases (wf.mask == 0)) [
      | inl m ↦ rw m (ap some base_take ∙ ap (λ b. some (take n b)) (some_inj (rw m at e)))
      | inr m ↦ elim (Bool-cases (ltb wf.hlen 4)) [
        | inl s ↦ absurd (none-some (rw (m, s) at e))
        | inr s ↦
            rw (m, s)
              (ap (λ b. some (put_bytes 4 (wf.hlen - 1) wf.mask (or_mask_bit 1 b))) base_take
                ∙ ap (λ b. some (put_bytes 4 (wf.hlen - 1) wf.mask b)) (take-or_mask_bit n base h)
                ∙ ap some (take-put_bytes n 4 (wf.hlen - 1) wf.mask (or_mask_bit 1 base))
                ∙ ap (λ b. some (take n b)) (some_inj (rw (m, s) at e)))
      ]
    ]

-- Lists with the same elements.
get_or-ext :
    (xs ys : Bytes) → length xs ≡ length ys → ((i : ℕ) → get_or xs i 0 ≡ get_or ys i 0) → xs ≡ ys
get_or-ext [] [] e same = refl
get_or-ext [] (y ∷ ys) e same = absurd (omega (arith, e))
get_or-ext (x ∷ xs) [] e same = absurd (omega (arith, e))
get_or-ext (x ∷ xs) (y ∷ ys) e same =
    rw (same 0) (ap (λ zs. y ∷ zs) (get_or-ext xs ys (omega (arith, e)) (λ i. same (suc i))))

pub drop-ext :
    (k : ℕ) (xs ys : Bytes)
    → length xs ≡ length ys
    → ((i : ℕ) → k ≤ i → get_or xs i 0 ≡ get_or ys i 0)
    → drop k xs ≡ drop k ys
drop-ext zero xs ys e same = get_or-ext xs ys e (λ i. same i (omega arith))
drop-ext (suc k) [] [] e same = refl
drop-ext (suc k) [] (y ∷ ys) e same = absurd (omega (arith, e))
drop-ext (suc k) (x ∷ xs) [] e same = absurd (omega (arith, e))
drop-ext (suc k) (x ∷ xs) (y ∷ ys) e same =
    drop-ext k xs ys (omega (arith, e)) (λ i h. same (suc i) (omega arith))

take-append_self : (p rest : Bytes) → take (length p) (p ++ rest) ≡ p
take-append_self [] rest = refl
take-append_self (x ∷ p) rest = ap (λ ys. x ∷ ys) (take-append_self p rest)

take_all : (p : Bytes) → take (length p) p ≡ p
take_all [] = refl
take_all (x ∷ p) = ap (λ ys. x ∷ ys) (take_all p)

-- The part `p` behind `a`.
pub middle :
    (n k : ℕ) (a p rest : Bytes)
    → length a ≡ k
    → n ≡ k + length p
    → take (length p) (drop k (take n (a ++ (p ++ rest)))) ≡ p
middle n zero [] p rest e f =
    let n_eq : n ≡ length p = omega (arith, f) in
    rw n_eq (ap (take (length p)) (take-append_self p rest) ∙ take_all p)
middle n (suc k) [] p rest e f = absurd (omega (arith, e))
middle n zero (x ∷ a) p rest e f = absurd (omega (arith, e))
middle zero (suc k) (x ∷ a) p rest e f = absurd (omega (arith, f))
middle (suc n) (suc k) (x ∷ a) p rest e f =
    middle n k a p rest (omega (arith, e)) (omega (arith, f))

pub drop_whole : (n : ℕ) (b : Bytes) → length b ≡ n → drop n b ≡ []
drop_whole zero [] e = refl
drop_whole zero (x ∷ b) e = absurd (omega (arith, e))
drop_whole (suc n) [] e = refl
drop_whole (suc n) (x ∷ b) e = drop_whole n b (omega (arith, e))

pub take_whole : (n : ℕ) (b : Bytes) → length b ≡ n → take n b ≡ b
take_whole zero [] e = refl
take_whole zero (x ∷ b) e = absurd (omega (arith, e))
take_whole (suc n) [] e = refl
take_whole (suc n) (x ∷ b) e = ap (λ ys. x ∷ ys) (take_whole n b (omega (arith, e)))
