-- ===== src/Alignment/Opposite.antt =====
-- No alignment is in two opposite directions.
use smrender.Base.{
  ◌≡◌, refl, Bool, true, false, ◌&&◌, Option, none, some, List, arith, if◌then◌else◌,
}
use smrender.Bstring.{Bytes}
use smrender.Params.{Fparam}
use smrender.Alignment.{
  Alignment, no_alignment, east, west, north, south, join, parse_alignment_str, horizontal,
  vertical, align_or, parse_alignment,
}

pub record IsSingle (a : Alignment) : Type 0 where
  pub upright : (a.pos_n && a.pos_s) ≡ false
  pub level : (a.pos_e && a.pos_w) ≡ false

if-IsSingle : (b : Bool) (x y : Alignment) → IsSingle x → IsSingle y → IsSingle (if b then x else y)
if-IsSingle true x y p q = p
if-IsSingle false x y p q = q

parse_alignment_str-IsSingle : (s : Bytes) → IsSingle (parse_alignment_str s)
unfolding parse_alignment_str
parse_alignment_str-IsSingle s =
    if-IsSingle _ east _ (record { upright = refl; level = refl })
      (if-IsSingle _ west _ (record { upright = refl; level = refl })
        (if-IsSingle _ north _ (record { upright = refl; level = refl })
          (if-IsSingle _ south _ (record { upright = refl; level = refl })
            (if-IsSingle _ (join east north) _ (record { upright = refl; level = refl })
              (if-IsSingle _ (join west north) _ (record { upright = refl; level = refl })
                (if-IsSingle _ (join east south) _ (record { upright = refl; level = refl })
                  (if-IsSingle _ (join west south) no_alignment
                    (record { upright = refl; level = refl })
                    (record { upright = refl; level = refl }))))))))

joined-IsSingle : (h v : Option Bytes) → IsSingle (join (horizontal h) (vertical v))
unfolding horizontal vertical
joined-IsSingle none none = record { upright = refl; level = refl }
joined-IsSingle none (some q) = record {
  upright = (parse_alignment_str-IsSingle q).upright;
  level = refl;
}
joined-IsSingle (some p) none =
    let h = (parse_alignment_str-IsSingle p).level in
    record { upright = refl; level = ground (arith, h) }
joined-IsSingle (some p) (some q) =
    let h = (parse_alignment_str-IsSingle p).level in
    record { upright = (parse_alignment_str-IsSingle q).upright; level = ground (arith, h) }

align_or-IsSingle :
    (a : Option Bytes) (rest : Alignment) → IsSingle rest → IsSingle (align_or a rest)
unfolding align_or
align_or-IsSingle none rest h = h
align_or-IsSingle (some p) rest h = parse_alignment_str-IsSingle p

module _ {D : Type 0} where
  -- Whatever the parameters align, halign and valign are, the alignment is never both north and south,
  -- nor both east and west.
  parse_alignment-IsSingle : (fp : List (Fparam D)) → IsSingle (parse_alignment fp)
  unfolding parse_alignment
  parse_alignment-IsSingle fp = align_or-IsSingle _ _ (joined-IsSingle _ _)
