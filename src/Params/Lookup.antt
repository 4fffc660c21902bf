-- ===== src/Params/Lookup.antt =====
-- The lookup of a parameter.
use smrender.Base.{
  false-true, none-some, some_inj, ◌≡◌, refl, sym, ap, ◌∙◌, ◌≢◌, ◌↔◌, inl, inr, true, some, List,
  [], ◌∷◌, ◌++◌, arith, if◌then◌else◌, Bool-cases, In,
}
use smrender.Bstring.{Bytes}
use smrender.Params.{Fparam, same_bytes, get_param_err}

same_bytes_iff : (a b : Bytes) → (same_bytes a b ≡ true) ↔ (a ≡ b)
unfolding same_bytes
same_bytes_iff [] [] = ground arith
same_bytes_iff [] (y ∷ b) = ground arith
same_bytes_iff (x ∷ a) [] = ground arith
same_bytes_iff (x ∷ a) (y ∷ b) = ground (arith, same_bytes_iff a b)

module _ {D : Type 0} where
  -- The first entry of the name: those before it have other names.
  abbrev pub IsFirst : Bytes → List (Fparam D) → Fparam D → Type 0
  IsFirst attr fp p =
      (before : List (Fparam D)) × ((after : List (Fparam D)) × ((fp ≡ before ++ p ∷ after)
          × ((p.attr ≡ attr) × ((q : Fparam D) → In q before → q.attr ≢ attr))))

  first_found :
      (attr : Bytes) (before after : List (Fparam D)) (p : Fparam D)
      → ((q : Fparam D) → In q before → q.attr ≢ attr)
      → p.attr ≡ attr
      → get_param_err attr (before ++ p ∷ after) ≡ some p
  unfolding get_param_err
  first_found attr [] after p others e = rw ((same_bytes_iff attr p.attr).1 (sym e)) refl
  first_found attr (q ∷ before) after p others e = elim (Bool-cases (same_bytes attr q.attr)) [
    | inl same ↦ absurd (others q (inl refl) (sym ((same_bytes_iff attr q.attr).0 same)))
    | inr other ↦ rw other (first_found attr before after p (λ r h. others r (inr h)) e)
  ]

  found_behind :
      (attr : Bytes) (q : Fparam D) (fp : List (Fparam D)) (p : Fparam D)
      → q.attr ≢ attr
      → IsFirst attr fp p
      → IsFirst attr (q ∷ fp) p
  found_behind attr q fp p other (before, (after, (e, (n, others)))) =
      (q ∷ before, (after, (ap (λ l. q ∷ l) e, (n, all))))
    where
      all : (r : Fparam D) → In r (q ∷ before) → r.attr ≢ attr
      all r (inl h) = λ z. other (ap (λ x. x.attr) (sym h) ∙ z)
      all r (inr h) = others r h

  get_param_err-some :
      (attr : Bytes) (fp : List (Fparam D)) (p : Fparam D)
      → get_param_err attr fp ≡ some p
      → IsFirst attr fp p
  unfolding get_param_err
  get_param_err-some attr [] p e = absurd (none-some e)
  get_param_err-some attr (q ∷ fp) p e = elim (Bool-cases (same_bytes attr q.attr)) [
    | inl same ↦
        let found : some q ≡ some p =
          ap (λ b. if b then some q else get_param_err attr fp) (sym same) ∙ e in
        (
          [],
          (
            fp,
            (
              ap (λ x. x ∷ fp) (some_inj found),
              (
                ap (λ x. x.attr) (sym (some_inj found)) ∙ sym ((same_bytes_iff attr q.attr).0 same),
                λ r h. absurd h,
              ),
            ),
          ),
        )
    | inr other ↦
        let later : get_param_err attr fp ≡ some p =
          ap (λ b. if b then some q else get_param_err attr fp) (sym other) ∙ e in
        found_behind attr q fp p
          (λ z. absurd (false-true (sym other ∙ (same_bytes_iff attr q.attr).1 (sym z))))
          (get_param_err-some attr fp p later)
  ]

  -- get_param_err() finds an entry exactly if it is the first one of that name in the list.
  get_param_err-IsFirst :
      (attr : Bytes) (fp : List (Fparam D)) (p : Fparam D)
      → (get_param_err attr fp ≡ some p) ↔ IsFirst attr fp p
  get_param_err-IsFirst attr fp p = (
    get_param_err-some attr fp p,
    λ (before, (after, (e, (n, others)))).
        ap (get_param_err attr) e ∙ first_found attr before after p others n,
  )
