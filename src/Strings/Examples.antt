-- ===== src/Strings/Examples.antt =====
-- Short strings in phper/src/strings.rs.
use phper.Base.{◌^◌, ◌<◌, ◌≡◌, ◌↔◌, [], ◌∷◌, returns, err, arith, bytes, length}
use phper.Strings.{zstr_len, to_c_str}
use phper.Strings.Length.{len_exact}
use phper.Strings.Terminator.{to_c_str_lem}

len_exact_example : (zstr_len (bytes "foo") ≡ returns 3) ↔ (length (bytes "foo") < 2 ^ 31)
len_exact_example = len_exact (bytes "foo")

to_c_str_lem_example :
    to_c_str (102 ∷ 0 ∷ 111 ∷ []) ≡ returns (err (record { input = 102 ∷ 0 ∷ 111 ∷ 0 ∷ [] }))
to_c_str_lem_example = to_c_str_lem (102 ∷ 0 ∷ 111 ∷ []) (omega arith)
