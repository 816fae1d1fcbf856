-- ===== src/Plist/Escapes.antt =====
-- Text that is written between tags is found and read back.
use mathlib.Core.Path.{subst}
use nson.Json.Parser.{same_bytes}
use nson.Json.Text.{iscntrl}
use nson.Json.Text.Written.{escape_or}
use nson.Plist.Text.{tag_close, skip_tag, measure_string_len, entity, store, parse_string}
use nson.Plist.Writer.{plist_reference, plist_escape}
use nson.Prelude.{
  ℕ, ◌+◌, ◌≡◌, refl, ap, ◌∙◌, inl, inr, Bool, true, false, none, some, Bytes, [], ◌∷◌, ◌++◌,
  append_assoc, append-nil, length, length-append, ◌==◌, All, arith, Bool-cases, codes, leb,
  take_append, drop_append,
}
use nson.Prelude.Int.{pos}

-- The text between the tags, each byte copied or replaced.
unfoldable pub referenced : Bytes → Bytes
referenced [] = []
referenced (c ∷ cs) = escape_or (plist_reference c) c ++ referenced cs

-- Text that is written in full: with no control byte, and with a copied byte in front of each
-- reference. `copied` tells of the byte before.
abbrev pub TextFrom : Bool → Bytes → Type 0
TextFrom copied [] = Unit
TextFrom copied (c ∷ cs) = (iscntrl c ≡ false) × elim (plist_reference c) as (λ _. Type 0) [
  | none ↦ TextFrom true cs
  | some out ↦ (copied ≡ true) × TextFrom false cs
]

abbrev pub IsText : Bytes → Type 0
IsText = TextFrom false

abbrev pub NoTag : Bytes → Type 0
NoTag = All (λ c. (c == b'<') ≡ false)

same_bytes_self : (l : Bytes) → same_bytes l l ≡ true
unfolding same_bytes
same_bytes_self [] = refl
same_bytes_self (x ∷ xs) = ground (arith, same_bytes_self xs)

pub skip_tag_self : (tag rest : Bytes) → skip_tag tag (tag ++ (b'>' ∷ rest)) ≡ pos (length tag + 1)
unfolding skip_tag tag_close
skip_tag_self tag rest =
    let longer : leb (length (tag ++ (b'>' ∷ rest))) (length tag) ≡ false =
      ground (arith, length-append {0} tag (b'>' ∷ rest)) in
    rw (longer, take_append, same_bytes_self, drop_append) refl

measure_string_len_plain :
    (tag t : Bytes) (c d k : ℕ)
    → (c == b'<') ≡ false
    → measure_string_len tag (c ∷ d ∷ t) k ≡ measure_string_len tag (d ∷ t) (k + 1)
unfolding measure_string_len
measure_string_len_plain tag t c d k h = rw h

measure_string_len_end :
    (tag rest : Bytes) (k : ℕ)
    → measure_string_len tag (b'<' ∷ b'/' ∷ (tag ++ (b'>' ∷ rest))) k ≡ some k
unfolding measure_string_len
measure_string_len_end tag rest k =
    let positive : (length tag + 1 == 0) ≡ false = ground arith in rw (skip_tag_self, positive)

-- The end tag is found behind a text without `<`.
pub measure_string_len-NoTag :
    (tag text rest : Bytes) (k : ℕ)
    → NoTag text
    → measure_string_len tag (text ++ (b'<' ∷ b'/' ∷ (tag ++ (b'>' ∷ rest)))) k
      ≡ some (k + length text)
measure_string_len-NoTag tag [] rest k h = measure_string_len_end tag rest k ∙ ap some (omega arith)
measure_string_len-NoTag tag (c ∷ []) rest k h =
    measure_string_len_plain tag _ c b'<' k h.0
    ∙ measure_string_len-NoTag tag [] rest (k + 1) tt
    ∙ ap some (omega arith)
measure_string_len-NoTag tag (c ∷ d ∷ ds) rest k h =
    measure_string_len_plain tag _ c d k h.0
    ∙ measure_string_len-NoTag tag (d ∷ ds) rest (k + 1) h.1
    ∙ ap some (omega arith)

-- How a byte that is no control byte is written.
data Kind (c : ℕ) : Type 0 where
  copied : plist_reference c ≡ none → (c == b'<') ≡ false → (c == b'&') ≡ false → Kind c
  named :
      (name : Bytes)
      → plist_reference c ≡ some (b'&' ∷ name)
      → NoTag name
      → ((t : Bytes) → entity (name ++ t) ≡ (c, length name))
      → Kind c

kind : (c : ℕ) → iscntrl c ≡ false → Kind c
unfolding plist_reference entity same_bytes
kind c h = elim (Bool-cases (c == b'<')) [
  | inl less ↦
      let e : c ≡ b'<' = ground arith in
      named (codes "lt;") (rw less) (refl, (refl, (refl, tt))) (λ t. rw e refl)
  | inr not_less ↦ elim (Bool-cases (c == b'>')) [
    | inl greater ↦
        let e : c ≡ b'>' = ground arith in
        named (codes "gt;") (rw (not_less, greater)) (refl, (refl, (refl, tt))) (λ t. rw e refl)
    | inr not_greater ↦ elim (Bool-cases (c == b'&')) [
      | inl ampersand ↦
          let e : c ≡ b'&' = ground arith in
          named (codes "amp;") (rw (not_less, not_greater, ampersand))
            (refl, (refl, (refl, (refl, tt)))) (λ t. rw e refl)
      | inr plain ↦ copied (rw (not_less, not_greater, plain, h)) not_less plain
    ]
  ]
]

All-append : (xs ys : Bytes) → NoTag xs → NoTag ys → NoTag (xs ++ ys)
All-append [] ys hx hy = hy
All-append (x ∷ xs) ys hx hy = (hx.0, All-append xs ys hx.1 hy)

NoTag-referenced : (s : Bytes) (b : Bool) → TextFrom b s → NoTag (referenced s)
unfolding referenced
NoTag-referenced [] b w = tt
NoTag-referenced (c ∷ cs) b w = elim (kind c w.0) [
  | copied e less ampersand ↦ let w' = rw e at w in rw e (less, NoTag-referenced cs true w'.1)
  | named name e clear found ↦
      let w' = rw e at w in
      rw e
        (All-append (b'&' ∷ name) (referenced cs) (refl, clear) (NoTag-referenced cs false w'.1.1))
]

skip-append : (name t : Bytes) → parse_string (name ++ t) (length name) ≡ parse_string t 0
unfolding parse_string
skip-append [] t = refl
skip-append (c ∷ cs) t = skip-append cs t

parse_string_copied :
    (c : ℕ) (t : Bytes) → (c == b'&') ≡ false → parse_string (c ∷ t) 0 ≡ store c (parse_string t 0)
unfolding parse_string
parse_string_copied c t h = rw h

parse_string_named :
    (c : ℕ) (name t : Bytes)
    → entity (name ++ t) ≡ (c, length name)
    → parse_string (b'&' ∷ (name ++ t)) 0 ≡ store c (parse_string t 0)
unfolding parse_string
parse_string_named c name t h = rw (h, skip-append)

-- The reader undoes the references.
parse_string-referenced :
    (s : Bytes) (b : Bool) → TextFrom b s → parse_string (referenced s) 0 ≡ some s
unfolding referenced
parse_string-referenced [] b w = unfold parse_string in refl
parse_string-referenced (c ∷ cs) b w = elim (kind c w.0) [
  | copied e less ampersand ↦
      let w' = rw e at w in
      rw e (
        parse_string_copied c (referenced cs) ampersand
        ∙ ap (store c) (parse_string-referenced cs true w'.1))
  | named name e clear found ↦
      let w' = rw e at w in
      rw e (
        parse_string_named c name (referenced cs) (found (referenced cs))
        ∙ ap (store c) (parse_string-referenced cs false w'.1.1))
]

-- With a copied byte before, the run is not empty.
abbrev Started : Bool → Bytes → Type 0
Started false run = Unit
Started true [] = ⊥
Started true (x ∷ xs) = Unit

Started-snoc : (run : Bytes) (c : ℕ) → Started true (run ++ (c ∷ []))
Started-snoc [] c = tt
Started-snoc (x ∷ xs) c = tt

plist_escape_flush :
    (c : ℕ) (cs run out : Bytes)
    → plist_reference c ≡ some out
    → Started true run
    → plist_escape (c ∷ cs) run ≡ run ++ (out ++ plist_escape cs [])
unfolding plist_escape
plist_escape_flush c cs [] out e p = absurd p
plist_escape_flush c cs (x ∷ xs) out e p = rw (e, plist_escape)

plist_escape_copied :
    (c : ℕ) (cs run : Bytes)
    → plist_reference c ≡ none
    → plist_escape (c ∷ cs) run ≡ plist_escape cs (run ++ (c ∷ []))
unfolding plist_escape
plist_escape_copied c cs run e = rw (e, plist_escape)

-- The writer writes the run and the rest of the text with its references.
plist_escape-referenced :
    (s : Bytes) (b : Bool) (run : Bytes)
    → TextFrom b s
    → Started b run
    → plist_escape s run ≡ run ++ referenced s
unfolding referenced
plist_escape-referenced [] b run w p = unfold plist_escape in (rw append-nil)
plist_escape-referenced (c ∷ cs) b run w p = elim (kind c w.0) [
  | copied e less ampersand ↦
      let w' = rw e at w in
      plist_escape_copied c cs run e
      ∙ plist_escape-referenced cs true (run ++ (c ∷ [])) w'.1 (Started-snoc run c)
      ∙ rw e (append_assoc run (c ∷ []) (referenced cs))
  | named name e clear found ↦
      let w' = rw e at w in
      plist_escape_flush c cs run (b'&' ∷ name) e (subst (λ t. Started t run) w'.1.0 p)
      ∙ rw (e, plist_escape-referenced cs false [] w'.1.1 tt)
]

-- Of a text with no control byte, in which a copied byte stands before each reference, the writer
-- puts out every byte; the reader finds the end tag behind it, whatever follows, and reads the text.
pub parse_string-plist_escape :
    (tag s rest : Bytes)
    → IsText s
    → (measure_string_len tag (plist_escape s [] ++ (b'<' ∷ b'/' ∷ (tag ++ (b'>' ∷ rest)))) 0
        ≡ some (length (plist_escape s [])))
      × (parse_string (plist_escape s []) 0 ≡ some s)
parse_string-plist_escape tag s rest w = rw (plist_escape-referenced s false [] w tt) (
  measure_string_len-NoTag tag (referenced s) rest 0 (NoTag-referenced s false w)
      ∙ ap some (omega arith),
  parse_string-referenced s false w,
)
