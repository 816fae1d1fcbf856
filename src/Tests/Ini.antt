-- ===== src/Tests/Ini.antt =====
-- Runs and instances for src/ini.c.
use nson.Ini.{Ini, isblank, blank_run, key_run, ini_put, parse_line, ini_loop, parse_ini}
use nson.Ini.Lines.{IsEntry, ini_lines, spelled, parse_ini-ini_lines}
use nson.Object.{c_string, obj_push, obj_put}
use nson.Prelude.{Bytes, List, [], ◌∷◌, ◌≡◌, refl, All, false, some, none, codes, arith}
use nson.Prelude.Int.{pos}
use nson.Tests.Json.{whole_numbers}
use nson.Value.{str, no_fields, field}

-- A NUL ends a line, and the loop goes on behind it.
nul_runs :
    parse_ini whole_numbers (b'b' ∷ b' ' ∷ b'x' ∷ 0 ∷ codes "y z\n")
    ≡ some (record {
      messy = false;
      entries =
          field
            (str (codes "b"))
            (str (codes "x"))
            (field (str (codes "y")) (str (codes "z")) no_fields);
      rv = pos 2;
    })
unfolding parse_ini ini_loop parse_line blank_run key_run isblank ini_put obj_put obj_push c_string
nul_runs = refl

-- A line without a blank takes its key from the next line, and the length of its value wraps around.
wrapped : parse_ini whole_numbers (codes "a\nb c\n") ≡ none
unfolding parse_ini ini_loop parse_line blank_run key_run isblank c_string
wrapped = refl

comment_runs :
    parse_ini whole_numbers (codes "# a\n\tkey  a b\n")
    ≡ some (record {
      messy = false;
      entries = field (str (codes "key")) (str (codes "a b")) no_fields;
      rv = pos 6;
    })
unfolding parse_ini ini_loop parse_line blank_run key_run isblank ini_put obj_put obj_push c_string
comment_runs = refl

abbrev lines : List (Bytes × Bytes)
lines = (codes "b", codes "1 2") ∷ (codes "a", []) ∷ []

lines-IsEntry : All IsEntry lines
unfolding isblank c_string
lines-IsEntry = (
  (
    (refl, ((refl, refl, refl), tt)),
    (refl, ((refl, refl), ((refl, refl), ((refl, refl), tt)))),
    omega arith,
  ),
  (((refl, ((refl, refl, refl), tt)), tt, omega arith), tt),
)

parse_ini-ini_lines_example :
    (t : Ini) × (parse_ini whole_numbers (ini_lines lines) ≡ some t)
    × (t.messy ≡ false)
    × (t.entries ≡ spelled lines)
parse_ini-ini_lines_example = parse_ini-ini_lines whole_numbers lines lines-IsEntry
