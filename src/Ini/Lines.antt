-- ===== src/Ini/Lines.antt =====
-- Lines of a key, a blank and a value are read as the entries that they spell.
use nson.Ini.{isblank, blank_run, key_run, Ini, ini_put, parse_line, ini_loop, parse_ini}
use nson.Prelude.{
  ℕ, zero, suc, ◌+◌, ◌-◌, ◌≤◌, ◌≡◌, refl, ap, ◌∙◌, sym, false, ◌||◌, some, List, Bytes, [], ◌∷◌,
  ◌++◌, ltb, ◌==◌, ◌>>=◌, take, drop, length, length-append, get_or, All, append-nil, append_assoc,
  take_append, arith,
}
use nson.Prelude.Int.{pos}
use nson.Util.Number.{Double}
use nson.Value.{Nson, Fields, no_fields, field}
use nson.Object.{c_string, obj_push, obj_put}

-- `key value`, with the end of the line.
abbrev pub ini_line : Bytes × Bytes → Bytes → Bytes
ini_line (key, val) rest = key ++ (b' ' ∷ (val ++ (b'\n' ∷ rest)))

unfoldable pub ini_lines : List (Bytes × Bytes) → Bytes
ini_lines [] = []
ini_lines (e ∷ es) = ini_line e (ini_lines es)

-- A byte of a key, and one of a line.
abbrev KeyByte : ℕ → Type 0
KeyByte c = (isblank c ≡ false) × ((c == b'\n') ≡ false) × ((c == 0) ≡ false)

abbrev LineByte : ℕ → Type 0
LineByte c = ((c == b'\n') ≡ false) × ((c == 0) ≡ false)

-- A key that is not empty and no comment, and a value that does not begin with a blank.
abbrev pub IsIniKey : Bytes → Type 0
IsIniKey [] = ⊥
IsIniKey (c ∷ cs) = ((c == b'#') ≡ false) × All KeyByte (c ∷ cs)

abbrev pub IsIniValue : Bytes → Type 0
IsIniValue [] = Unit
IsIniValue (c ∷ cs) = (isblank c ≡ false) × All LineByte (c ∷ cs)

-- The key is at most 63 bytes long.
abbrev pub IsEntry : Bytes × Bytes → Type 0
IsEntry (key, val) = IsIniKey key × IsIniValue val × (length key ≤ 63)

blank_run-IsIniValue : (val rest : Bytes) → IsIniValue val → blank_run (val ++ (b'\n' ∷ rest)) ≡ 0
unfolding blank_run isblank
blank_run-IsIniValue [] rest h = refl
blank_run-IsIniValue (c ∷ cs) rest h = rw h.0

key_run-All : (key rest : Bytes) → All KeyByte key → key_run (key ++ (b' ' ∷ rest)) ≡ length key
unfolding key_run isblank
key_run-All [] rest h = refl
key_run-All (c ∷ cs) rest h = ground (arith, h.0.0, key_run-All cs rest h.1)

drop-suc : (l : Bytes) (x : ℕ) (t : Bytes) → drop (suc (length l)) (l ++ (x ∷ t)) ≡ t
drop-suc [] x t = refl
drop-suc (c ∷ cs) x t = drop-suc cs x t

LineByte-KeyByte : (l : Bytes) → All KeyByte l → All LineByte l
LineByte-KeyByte [] h = tt
LineByte-KeyByte (c ∷ cs) h = ((h.0.1, h.0.2), LineByte-KeyByte cs h.1)

LineByte-IsIniKey : (key : Bytes) → IsIniKey key → All LineByte key
LineByte-IsIniKey [] h = tt
LineByte-IsIniKey (c ∷ cs) h = LineByte-KeyByte (c ∷ cs) h.1

LineByte-IsIniValue : (val : Bytes) → IsIniValue val → All LineByte val
LineByte-IsIniValue [] h = tt
LineByte-IsIniValue (c ∷ cs) h = h.1

All-append : (xs ys : Bytes) → All LineByte xs → All LineByte ys → All LineByte (xs ++ ys)
All-append [] ys hx hy = hy
All-append (x ∷ xs) ys hx hy = (hx.0, All-append xs ys hx.1 hy)

-- A C string goes on behind bytes of a line.
c_string-append : (l r : Bytes) → All LineByte l → c_string (l ++ r) ≡ l ++ c_string r
unfolding c_string
c_string-append [] r h = refl
c_string-append (c ∷ cs) r h = rw (h.0.1, c_string-append cs r h.1) refl

c_string-LineByte : (l : Bytes) → All LineByte l → c_string l ≡ l
c_string-LineByte l h =
    ap c_string (sym (append-nil l)) ∙ c_string-append l [] h ∙ unfold c_string in append-nil l

c_string-ini_lines :
    (es : List (Bytes × Bytes)) → All IsEntry es → c_string (ini_lines es) ≡ ini_lines es
unfolding ini_lines c_string
c_string-ini_lines [] h = refl
c_string-ini_lines ((key, val) ∷ es) h =
    let rest = val ++ (b'\n' ∷ ini_lines es) in
    let behind = c_string-append val (b'\n' ∷ ini_lines es) (LineByte-IsIniValue val h.0.1) in
    let line = c_string-append key (b' ' ∷ rest) (LineByte-IsIniKey key h.0.0) in
    line ∙ rw (behind, c_string-ini_lines es h.1) refl

-- The entries that the lines spell.
unfoldable pub spelled : List (Bytes × Bytes) → Fields
spelled [] = no_fields
spelled ((key, val) ∷ es) = field (Nson.str key) (Nson.str val) (spelled es)

unfoldable fields_append : Fields → Fields → Fields
fields_append no_fields gs = gs
fields_append (field k v fs) gs = field k v (fields_append fs gs)

fields_append-no_fields : (fs : Fields) → fields_append fs no_fields ≡ fs
unfolding fields_append
fields_append-no_fields no_fields = refl
fields_append-no_fields (field k v fs) = ap (field k v) (fields_append-no_fields fs)

fields_append-obj_push :
    (fs gs : Fields) (k v : Nson)
    → fields_append (obj_push fs k v) gs ≡ fields_append fs (field k v gs)
unfolding fields_append obj_push
fields_append-obj_push no_fields gs k v = refl
fields_append-obj_push (field k' v' fs) gs k v = ap (field k' v') (fields_append-obj_push fs gs k v)

take-all : (n : ℕ) (l : Bytes) → length l ≤ n → take n l ≡ l
take-all zero [] h = refl
take-all zero (x ∷ xs) h = absurd (omega arith)
take-all (suc n) [] h = refl
take-all (suc n) (x ∷ xs) h = ap (λ t. x ∷ t) (take-all n xs (omega arith))

module _ (d : Double) where
  -- A line of which the parts are known.
  parse_line_parts :
      (s : Ini) (l key val t : Bytes)
      → blank_run l ≡ 0
      → key_run l ≡ length key
      → blank_run t ≡ 0
      → drop (suc (length key)) l ≡ t
      → (length l == 0 || get_or l 0 0 == b'#') ≡ false
      → (length l == length key) ≡ false
      → take (length key) l ≡ key
      → take (length val) t ≡ val
      → parse_line d s l (length key + suc (length val))
        ≡ some (ini_put d s key val (length key + 1))
  unfolding parse_line
  parse_line_parts s l key val t no_blank keyed no_blanks behind text longer is_key is_val =
      let i : 0 + suc (length key) + 0 ≡ suc (length key) = omega arith in
      let inside : ltb (length key + suc (length val)) (suc (length key)) ≡ false = ground arith in
      let val_len : length key + suc (length val) - suc (length key) ≡ length val = omega arith in
      rw
        (
          no_blank, keyed, behind, no_blanks, i, text, longer, inside, is_key, val_len, behind,
          is_val,
        )
        (ap (λ t. some (ini_put d s key val t)) (omega arith))

  parse_line-ini_line :
      (s : Ini) (key val rest : Bytes)
      → IsIniKey key
      → IsIniValue val
      → parse_line d s (ini_line (key, val) rest) (length key + suc (length val))
        ≡ some (ini_put d s key val (length key + 1))
  unfolding blank_run
  parse_line-ini_line s [] val rest hk hv = absurd hk
  parse_line-ini_line s (c ∷ cs) val rest hk hv =
      let key = c ∷ cs in
      parse_line_parts s (ini_line (key, val) rest) key val (val ++ (b'\n' ∷ rest))
        (rw hk.1.0.0 refl) (key_run-All key (val ++ (b'\n' ∷ rest)) hk.1)
        (blank_run-IsIniValue val rest hv) (drop-suc key b' ' _) (ground (arith, hk.0))
        (ground (arith, length-append cs (b' ' ∷ (val ++ (b'\n' ∷ rest))))) (take_append key _)
        (take_append val _)

  ini_loop-line :
      (l line rest : Bytes) (n : ℕ) (s : Ini)
      → All LineByte l
      → ini_loop d (l ++ (b'\n' ∷ rest)) line n s
        ≡ (parse_line d s (c_string line) (n + length l) >>= ini_loop d rest rest 0)
  unfolding ini_loop
  ini_loop-line [] line rest n s h = let e : n + 0 ≡ n = omega arith in rw e refl
  ini_loop-line (c ∷ cs) line rest n s h =
      let e : n + suc (length cs) ≡ n + 1 + length cs = omega arith in
      rw (h.0.1, h.0.0, e) (ini_loop-line cs line rest (n + 1) s h.1)

  ini_loop-ini_line :
      (key val rest : Bytes) (s : Ini)
      → IsIniKey key
      → IsIniValue val
      → c_string (ini_line (key, val) rest) ≡ ini_line (key, val) rest
      → ini_loop d (ini_line (key, val) rest) (ini_line (key, val) rest) 0 s
        ≡ ini_loop d rest rest 0 (ini_put d s key val (length key + 1))
  ini_loop-ini_line key val rest s hk hv no_nul =
      let line = ini_line (key, val) rest in
      let l = key ++ (b' ' ∷ val) in
      let n : 0 + length l ≡ length key + suc (length val) =
        omega (arith, length-append key (b' ' ∷ val)) in
      let bytes =
        All-append key (b' ' ∷ val) (LineByte-IsIniKey key hk)
          ((refl, refl), LineByte-IsIniValue val hv) in
      ap (λ t. ini_loop d t line 0 s) (sym (append_assoc key (b' ' ∷ val) (b'\n' ∷ rest)))
      ∙ ini_loop-line l line rest 0 s bytes
      ∙ rw (n, no_nul, parse_line-ini_line s key val rest hk hv) refl

  -- An entry put into an object that is not marked.
  ini_put_clean :
      (s : Ini) (key val : Bytes) (i : ℕ)
      → s.messy ≡ false
      → length key ≤ 63
      → c_string key ≡ key
      → ((ini_put d s key val i).messy ≡ false)
        × ((ini_put d s key val i).entries ≡ obj_push s.entries (Nson.str key) (Nson.str val))
  unfolding ini_put obj_put
  ini_put_clean s key val i clean short plain =
      rw (clean, take-all 63 key short, plain) (refl, refl)

  -- Going on from an object that is not marked.
  reads_on :
      (es : List (Bytes × Bytes)) (s : Ini)
      → All IsEntry es
      → s.messy ≡ false
      → (t : Ini) × (ini_loop d (ini_lines es) (ini_lines es) 0 s ≡ some t)
        × (t.messy ≡ false)
        × (t.entries ≡ fields_append s.entries (spelled es))
  unfolding ini_lines spelled
  reads_on [] s h clean =
      (s, unfold ini_loop in refl, clean, sym (fields_append-no_fields s.entries))
  reads_on ((key, val) ∷ es) s h clean =
      let (is_ini_key, is_ini_value, short) = h.0 in
      let plain = c_string-LineByte key (LineByte-IsIniKey key is_ini_key) in
      let no_nul = c_string-ini_lines ((key, val) ∷ es) h in
      let (put_clean, put) = ini_put_clean s key val (length key + 1) clean short plain in
      let (t, reads, clean', entries) =
        reads_on es (ini_put d s key val (length key + 1)) h.1 put_clean in
      (
        t,
        ini_loop-ini_line key val (ini_lines es) s is_ini_key is_ini_value no_nul ∙ reads,
        clean',
        entries
            ∙ ap (λ fs. fields_append fs (spelled es)) put
            ∙ fields_append-obj_push s.entries (spelled es) (Nson.str key) (Nson.str val),
      )

  -- Of lines that spell a key (of 1 to 63 bytes, none of them a blank, and the first no `#`), a blank
  -- and a value (that does not begin with a blank), with no end of a line or NUL in either, the parser
  -- makes an object with an entry for each line, in their order, and not marked as unsorted.
  pub parse_ini-ini_lines :
      (es : List (Bytes × Bytes))
      → All IsEntry es
      → (t : Ini) × (parse_ini d (ini_lines es) ≡ some t)
        × (t.messy ≡ false)
        × (t.entries ≡ spelled es)
  unfolding parse_ini fields_append
  parse_ini-ini_lines es h =
      reads_on es (record { messy = false; entries = no_fields; rv = pos 0 }) h refl
