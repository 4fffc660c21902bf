-- ===== src/Bstring.antt =====
-- libsmrender/bstring.c: strings with a length, here the list of their bytes. `bs_advance` takes
-- the first byte off.
pub mod Number
pub mod Compare
use smrender.Base.{
  ℕ, zero, suc, ◌+◌, ◌-◌, ◌%◌, not, ◌||◌, List, [], ◌∷◌, ltb, ◌==◌, if◌then◌else◌, length, drop, ℤ,
  pos, negsuc, pos_part, neg_part, sub_ℕ, nonzero, minus_one,
}

abbrev pub Bytes : Type 0
Bytes = List ℕ

-- A `char` is signed: the difference of two is an int, given back as a `char` by bs_cmp.
abbrev pub char_int : ℕ → ℤ
char_int c = if ltb c 128 then pos c else sub_ℕ c 256

abbrev pub to_char : ℤ → ℤ
to_char (pos n) = char_int (n % 256)
to_char (negsuc n) = char_int (255 - n % 256)

abbrev pub sub_ℤ : ℤ → ℤ → ℤ
sub_ℤ a b = sub_ℕ (pos_part a + neg_part b) (neg_part a + pos_part b)

-- strncmp(b, s, n), of two strings with at least n bytes none of which is 0: the sign.
unfoldable pub strncmp : ℕ → Bytes → Bytes → ℤ
strncmp zero b s = pos 0
strncmp (suc n) [] s = pos 0
strncmp (suc n) (x ∷ b) [] = pos 1
strncmp (suc n) (x ∷ b) (y ∷ s) =
    if x == y then strncmp n b s else if ltb x y then minus_one else pos 1

-- bs_ncmp
unfoldable pub bs_ncmp : Bytes → Bytes → ℕ → ℤ
unfolding strncmp
bs_ncmp b s n = if ltb (length b) n || ltb (length s) n then negsuc 1 else strncmp n b s

-- bs_advance2: the safety check, and the new length.
unfoldable pub bs_advance2 : Bytes → Bytes × ℕ
bs_advance2 [] = ([], 0)
bs_advance2 (c ∷ b) = (b, length b)

-- bs_nadvance, within the string
unfoldable pub bs_nadvance : Bytes → ℕ → Bytes × ℕ
bs_nadvance b n = (drop n b, length b - n)

-- `s` is a C string without its terminating 0. Where `s` is a proper prefix of `b`, or the other
-- way round, the next character is returned, negated if it is that of `s`.
unfoldable pub bs_cmp : Bytes → Bytes → ℤ
bs_cmp [] [] = pos 0
bs_cmp [] (y ∷ s) = sub_ℤ (pos 0) (char_int y)
bs_cmp (x ∷ b) [] = char_int x
bs_cmp (x ∷ b) (y ∷ s) =
    let c = to_char (sub_ℤ (char_int x) (char_int y)) in if nonzero c then c else bs_cmp b s

-- memcmp: the sign of the first difference, as unsigned bytes.
unfoldable pub memcmp : Bytes → Bytes → ℤ
memcmp [] s = pos 0
memcmp (x ∷ b) [] = pos 0
memcmp (x ∷ b) (y ∷ s) = if x == y then memcmp b s else if ltb x y then minus_one else pos 1

-- bs_cmp2 of libsmrender/smutil.c
unfoldable pub bs_cmp2 : Bytes → Bytes → ℤ
unfolding memcmp
bs_cmp2 s1 s2 =
    if not (length s1 == length s2)
    then if ltb (length s2) (length s1) then pos 1 else minus_one
    else memcmp s1 s2

-- strcnt of libsmrender/smutil.c
unfoldable pub strcnt : Bytes → ℕ → ℕ
strcnt [] c = 0
strcnt (x ∷ s) c = (if x == c then 1 else 0) + strcnt s c
