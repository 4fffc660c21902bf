-- ===== src/Tests/Text.antt =====
-- Runs on strings: conditions, comparisons and parameters.
use smrender.Base.{
  ℕ, ◌+◌, ◌*◌, ◌/◌, ◌≡◌, refl, true, false, ◌&&◌, some, List, [], ◌∷◌, arith, ltb, if◌then◌else◌,
  pos, negsuc, minus_one,
}
use smrender.Bstring.{Bytes}
use smrender.Bstring.Number.{Double}
use smrender.Match.{Libc, Tag, Stag, SpecialKind, no_special, bs_match_attr, int_max}
use smrender.Match.Parse.{parse_matchtype}
use smrender.Match.Attr.{
  key_hit, value_hit, forbidden, first, any, index_of, bs_match_attr_plain, bs_match_attr_negated,
}
use smrender.Match.Syntax.{Mark, mark, Condition, body, written, flags, parse_matchtype-mark}
use smrender.Params.{Fparam}
use smrender.UniqueIds.{Call}

abbrev double : Double
double = record {
  Value = ℕ;
  zero_value = 0;
  mul_ten = λ x. x * 10;
  add_digit = λ x d. x + d;
  div_ten = λ x. x / 10;
  negate = λ x. 0;
  less = ltb;
}

abbrev libc : Libc
libc = record {
  double = double;
  Regex = Bytes;
  regcomp = λ b. some b;
  regexec = λ re b. true;
  strtod = λ b. some 0;
}

abbrev tag : ℕ → ℕ → Tag
tag k v = record { k = k ∷ []; v = v ∷ [] }

abbrev tags : List Tag
tags = tag 97 98 ∷ tag 99 100 ∷ []

abbrev plain : Stag libc
plain = record { stk = no_special libc; stv = no_special libc }

abbrev not_key : Stag libc
not_key = record {
  stk = record { kind = SpecialKind.direct; special_invert = false; special_not = true };
  stv = no_special libc;
}

bs_match_attr_plain_example :
    bs_match_attr libc tags (tag 99 100) plain
    ≡ index_of (
        first
          (λ t. key_hit libc (tag 99 100) plain t && value_hit libc (tag 99 100) plain t)
          0
          tags)
bs_match_attr_plain_example = bs_match_attr_plain libc (tag 99 100) plain tags refl refl

bs_match_attr_negated_example :
    bs_match_attr libc tags (tag 99 100) not_key
    ≡ (if any (forbidden libc (tag 99 100) not_key) tags then minus_one else int_max)
bs_match_attr_negated_example = bs_match_attr_negated libc (tag 99 100) not_key tags refl

abbrev slashes : Condition libc
slashes = Condition.matches (97 ∷ [])

parse_matchtype-mark_example :
    parse_matchtype libc (mark Mark.negated (written libc slashes)) ≡ record {
      result = pos 0;
      b = body libc slashes;
      t = record (flags libc Mark.negated) { kind = SpecialKind.regex (97 ∷ []) };
    }
parse_matchtype-mark_example =
    parse_matchtype-mark libc Mark.negated slashes (SpecialKind.regex (97 ∷ [])) (λ e. ground arith)
      refl

abbrev param : ℕ → ℕ → Fparam ℕ
param a v = record { attr = a ∷ []; val = some (v ∷ []); dval = v; conv_error = 0 }

abbrev calls : List Call
calls = Call.new_node ∷ Call.new_way ∷ Call.set_node (negsuc 200000000000) ∷ Call.new_node ∷ []
