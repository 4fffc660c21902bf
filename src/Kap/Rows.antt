-- ===== src/Kap/Rows.antt =====
-- A row of an image is read back from what is written of it.
use smrender.Base.{
  ℕ, ◌-◌, ◌*◌, ◌^◌, ◌<◌, ◌≡◌, refl, ap, ◌∙◌, Option, some, [], ◌∷◌, ◌++◌, arith, length, In,
}
use mathlib.Core.List.{append_assoc}
use smrender.Base.{◌>>=◌}
use smrender.Bstring.{Bytes}
use smrender.Kap.{compress_nb, bsb_compress_nb, compress_runs, bsb_compress_row}
use smrender.Kap.Groups.{read_nb, read_nb-compress_nb, groups}
use smrender.Kap.Runs.{read_runs, read_runs-compress_runs}

-- A row: the number of the line, and the runs.
unfoldable pub read_row : ℕ → ℕ → Bytes → Option (ℕ × (Bytes × Bytes))
read_row fuel bits bytes = do
  (none_of_it, (line, more)) ← read_nb 7 bytes
  (row, rest) ← read_runs fuel (7 - bits) more
  some (line, (row, rest))

-- A reader that knows how many bits a pixel has reads from what bsb_compress_row writes, with
-- whatever stands behind it, the number of the line and all of the row, for rows and line numbers
-- below 2^16, if no pixel has more bits than that and the row is not stretched.
pub read_row-bsb_compress_row :
    (bits line : ℕ) (row rest : Bytes)
    → bits < 8
    → line < 65536
    → length row < 65536
    → ((x : ℕ) → In x row → x < 2 ^ bits)
    → read_row (length row) bits (bsb_compress_row row bits line (length row) ++ rest)
      ≡ some (line, (row, rest))
unfolding read_row bsb_compress_row bsb_compress_nb
read_row-bsb_compress_row bits line row rest hb hl hw all =
    let runs = compress_runs (length row) (7 - bits) (length row) (length row) 0 0 row in
    let bracket : bsb_compress_row row bits line (length row) ++ rest
        ≡ compress_nb 3 line (0 * 2 ^ 7) (2 ^ 7 - 1) ++ (runs ++ 0 ∷ rest) =
      append_assoc (compress_nb 3 line 0 127) (runs ++ 0 ∷ []) rest
      ∙ ap (λ l. compress_nb 3 line 0 127 ++ l) (append_assoc runs (0 ∷ []) rest) in
    let first =
      read_nb-compress_nb 3 7 0 line (runs ++ 0 ∷ rest) (omega arith) (omega arith)
        (unfold groups in omega arith) in
    let others =
      read_runs-compress_runs (length row) bits 0 (length row) row rest (omega arith) (omega arith)
        hw hb all in
    rw bracket (rw first (rw others refl))
