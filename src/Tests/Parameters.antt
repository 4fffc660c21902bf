-- ===== src/Tests/Parameters.antt =====
-- Parameters of rules as text.
use smrender.Base.{
  ℕ, ◌-◌, ◌≡◌, refl, ◌≢◌, true, ◌&&◌, none, some, List, [], ◌∷◌, ◌++◌, leb, if◌then◌else◌,
}
use smrender.Bstring.{Bytes}
use smrender.Length.{skip_spaces}
use smrender.ParamText.{
  has_char, parse_string, Number, Val, Parsed, parse_fparam, number_of, is_space,
}
use smrender.ParamText.Words.{IsDelim, escape, escape_char, is_word, no_backslash, ends_in_space}
use smrender.ParamText.Written.{
  Param, print_params, print_param, print_value, are_words, value_is_word,
}
use smrender.ParamText.Entries.{entry_of, parse_fparam-print_params, parse_fparam_no_value}
use smrender.ParamText.Ends.{parse_fparam_ends}
use smrender.ParamText.Backslash.{parse_string_escaped_backslash}

-- A strtod() for numbers of one digit.
abbrev one_digit : Bytes → Number ℕ
one_digit [] = record { value = 0; taken = 0; errno = 0 }
one_digit (c ∷ s) =
    if leb 48 c && leb c 57
    then record { value = c - 48; taken = 1; errno = 0 }
    else record { value = 0; taken = 0; errno = 0 }

-- The parameters a (with the value "5"), b (with the value "x;y") and c.
abbrev three_params : List Param
three_params =
    (97 ∷ [], some (53 ∷ [])) ∷ (98 ∷ [], some (120 ∷ 59 ∷ 121 ∷ [])) ∷ (99 ∷ [], none) ∷ []

three_params-words : are_words three_params ≡ true
unfolding are_words value_is_word is_word no_backslash ends_in_space is_space has_char
three_params-words = refl

-- a=5;b=x\;y;c;
three_params_text :
    print_params three_params
    ≡ 97 ∷ 61 ∷ 53 ∷ 59 ∷ 98 ∷ 61 ∷ 120 ∷ 92 ∷ 59 ∷ 121 ∷ 59 ∷ 99 ∷ 59 ∷ []
unfolding print_params print_param print_value escape escape_char has_char
three_params_text = refl

parse_fparam-print_params_example :
    parse_fparam one_digit (print_params three_params)
    ≡ Parsed.entries (
        record { attr = 97 ∷ []; val = Val.text (53 ∷ []) 5 0 }
        ∷ record { attr = 98 ∷ []; val = Val.text (120 ∷ 59 ∷ 121 ∷ []) 0 33 }
        ∷ record { attr = 99 ∷ []; val = Val.null }
        ∷ [])
unfolding entry_of number_of
parse_fparam-print_params_example =
    parse_fparam-print_params one_digit three_params three_params-words

word_c : is_word (99 ∷ []) ≡ true
unfolding is_word no_backslash ends_in_space is_space has_char
word_c = refl

two_spaces : skip_spaces (32 ∷ 32 ∷ []) ≡ []
unfolding skip_spaces
two_spaces = refl

-- The three parameters and "c=  ".
parse_fparam_no_value_example :
    parse_fparam one_digit
      (print_params three_params ++ (escape (61 ∷ 59 ∷ []) (99 ∷ []) ++ 61 ∷ 32 ∷ 32 ∷ []))
    ≡ Parsed.null_pointer
parse_fparam_no_value_example =
    parse_fparam_no_value one_digit three_params (99 ∷ []) (32 ∷ 32 ∷ []) three_params-words word_c
      two_spaces

parse_fparam_ends_example : parse_fparam one_digit (97 ∷ 61 ∷ 92 ∷ []) ≢ Parsed.no_fuel
parse_fparam_ends_example = parse_fparam_ends one_digit (97 ∷ 61 ∷ 92 ∷ [])

semicolon-IsDelim : IsDelim (59 ∷ [])
unfolding has_char
semicolon-IsDelim = record { backslash = refl; letter_n = refl }

semicolon_found : has_char (59 ∷ []) 59 ≡ true
unfolding has_char
semicolon_found = refl

-- c\\;c;
parse_string_escaped_backslash_example :
    parse_string
      (59 ∷ [])
      (escape (59 ∷ []) (99 ∷ []) ++ 92 ∷ 92 ∷ 59 ∷ (escape (59 ∷ []) (99 ∷ []) ++ 59 ∷ 100 ∷ []))
    ≡ some (record { str = 99 ∷ 92 ∷ 59 ∷ 99 ∷ []; nextchar = some 59; src = 100 ∷ [] })
parse_string_escaped_backslash_example =
    parse_string_escaped_backslash (59 ∷ []) (99 ∷ []) (99 ∷ []) 59 (100 ∷ []) semicolon-IsDelim
      word_c word_c semicolon_found
