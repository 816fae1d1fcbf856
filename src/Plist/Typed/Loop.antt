-- ===== src/Plist/Typed/Loop.antt =====
-- The loop of `nson_parse_plist` of src/plist.c on what can be stored, and what follows it.
use nson.Json.Typed.{
  IsParsed, parsed_real, parsed_false, parsed_true, none_parsed, AllParsed-arr_get,
  parse_number_lem,
}
use nson.Json.Parser.{is_empty}
use nson.Plist.Parser.{
  Cursor, pass, push, skip_spaces, goes_on, jumps, overruns, overrun, undefined, untouched,
  open_level, step_text, step_integer, step_real, as_real, step_tag, round_at, plist_round,
  plist_loop, goes_round, Exit, behind, at_err, spent, PlistParsed, ended, unending, gives_up,
  plist_exit, plist_close, parse_plist, plist_header, plist_headers,
}
use nson.Plist.Termination.{parse_plist_terminates}
use nson.Plist.Text.{skip_tag}
use nson.Prelude.{
  Option, ◌>>=◌, ℕ, zero, suc, ◌+◌, ◌≡◌, ◌≢◌, ◌⊎◌, inl, inr, refl, Bool, true, false, none, some,
  [], ◌∷◌, Bytes, codes, ◌==◌, if◌then◌else◌, length, Bool-cases, Option-cases,
}
use nson.Prelude.Int.{ℤ, pos, negsuc}
use nson.Util.Number.{Double, parse_number}
use nson.Value.{Nson, nil, arr_get, no_items}
use nson.Plist.Typed.{
  IsTag, Holds, Keeps, Keeps-if, when_tag-Keeps, push-Holds, open_level-Holds, step_text-Keeps,
  step_integer-Keeps, step_dict-Keeps, step_slash-Keeps,
}

-- The loop ends with what can be stored.
abbrev Ends : Exit → Type 0
Ends (behind s) = Holds s
Ends (at_err s) = Holds s
Ends spent = Unit
Ends overrun = Unit

abbrev Starts : Option Cursor → Type 0
Starts none = Unit
Starts (some s) = Holds s

plist_header-Starts : (s : Cursor) (tag : Bytes) → Holds s → Starts (plist_header s tag)
unfolding plist_header
plist_header-Starts s tag h =
    elim (skip_tag tag s.rest)
      as (λ r. Starts (elim r as (λ _. Option Cursor) [
        | pos k ↦ if k == 0 then none else some (record (pass s k) { rv = pos k })
        | negsuc k ↦ none
      ])) [
        | pos k ↦ elim (Bool-cases (k == 0)) [ inl same ↦ rw same tt | inr other ↦ rw other h ]
        | negsuc k ↦ tt
      ]

bind-Starts :
    (o : Option Cursor) (f : Cursor → Option Cursor)
    → Starts o
    → ((t : Cursor) → Holds t → Starts (f t))
    → Starts (o >>= f)
bind-Starts none f h g = tt
bind-Starts (some t) f h g = g t h

plist_headers-Starts : (s : Cursor) → Holds s → Starts (plist_headers s)
unfolding plist_headers
plist_headers-Starts s h =
    bind-Starts (plist_header s (codes "<?xml")) _ (plist_header-Starts s _ h) (λ t ht.
      bind-Starts (plist_header (skip_spaces t) (codes "<!DOCTYPE")) _
        (plist_header-Starts (skip_spaces t) _ ht)
        (λ u hu. plist_header-Starts (skip_spaces u) _ hu))

-- A result of the parser.
abbrev IsResult : PlistParsed → Type 0
IsResult (ended v rv tag) = ((v ≡ nil) ⊎ IsParsed Unit v) × IsTag tag
IsResult (untouched tag) = IsTag tag
IsResult undefined = Unit
IsResult unending = Unit

IsResult-if :
    (b : Bool) (x y : PlistParsed) → IsResult x → IsResult y → IsResult (if b then x else y)
IsResult-if true x y hx hy = hx
IsResult-if false x y hx hy = hy

first_value-IsResult :
    (t : Cursor) (n : ℕ)
    → Holds t
    → IsResult (elim (arr_get t.top 0) as (λ _. PlistParsed) [
      | none ↦ gives_up t (negsuc 0)
      | some v ↦ ended v (pos (t.index + n)) t.string_tag
    ])
first_value-IsResult t n h = elim (Option-cases (arr_get t.top 0)) [
  | inl e ↦ rw e (inl refl, h.2)
  | inr (v, e) ↦ rw e (inr (AllParsed-arr_get t.top 0 v h.0 e), h.2)
]

plist_close-IsResult : (s : Cursor) → Holds s → IsResult (plist_close s)
unfolding plist_close
plist_close-IsResult s h =
    let t = skip_spaces s in
    let no_value : (rv : ℤ) → IsResult (gives_up t rv) = λ rv. (inl refl, h.2) in
    elim (Bool-cases (is_empty s.below)) [
      | inr levels ↦ rw (levels, plist_close) (no_value (negsuc 0))
      | inl level ↦
          rw (level, plist_close)
            (elim (skip_tag (codes "</plist") t.rest)
              as (λ r. IsResult (elim r as (λ _. PlistParsed) [
                | negsuc n ↦ gives_up t (negsuc n)
                | pos n ↦ if n == 0 then gives_up t (pos 0) else elim (arr_get t.top 0) [
                  | none ↦ gives_up t (negsuc 0)
                  | some v ↦ ended v (pos (t.index + n)) t.string_tag
                ]
              ])) [
                | negsuc n ↦ no_value (negsuc n)
                | pos n ↦
                    IsResult-if (n == 0) (gives_up t (pos 0)) _ (no_value (pos 0))
                      (first_value-IsResult t n h)
              ])
    ]

plist_exit-IsResult : (e : Exit) → Ends e → IsResult (plist_exit e)
unfolding plist_exit
plist_exit-IsResult (behind s) h = plist_close-IsResult s h
plist_exit-IsResult (at_err s) h = (inl refl, h.2)
plist_exit-IsResult spent h = tt
plist_exit-IsResult overrun h = tt

module _ (d : Double) where
  as_real-IsParsed : (v : Nson) → IsParsed Unit v → IsParsed Unit (as_real d v)
  as_real-IsParsed (Nson.int z) p = parsed_real
  as_real-IsParsed nil p = p
  as_real-IsParsed (Nson.bool z) p = p
  as_real-IsParsed (Nson.real r) p = p
  as_real-IsParsed (Nson.pointer q) p = p
  as_real-IsParsed (Nson.arr xs) p = p
  as_real-IsParsed (Nson.obj messy fs) p = p
  as_real-IsParsed (Nson.blob b) p = p
  as_real-IsParsed (Nson.str s) p = p

  step_real-Keeps : (s : Cursor) → Holds s → Keeps (step_real d s)
  unfolding step_real
  step_real-Keeps s h = elim (Option-cases (parse_number d s.rest)) [
    | inl bad ↦ rw (bad, step_real) h
    | inr ((v, k), good) ↦
        let number = as_real-IsParsed v (parse_number_lem d s.rest v k good).0 in
        rw (good, step_real)
          (when_tag-Keeps (push (pass (record s { rv = pos k }) k) (as_real d v)) (codes "</real")
            goes_on (push-Holds s _ h number) (λ t ht. ht))
  ]

  step_tag-Keeps : (s : Cursor) (c : ℕ) → Holds s → Keeps (step_tag d s c)
  unfolding step_tag
  step_tag-Keeps s c h =
      Keeps-if (c == b'a') _ _
        (when_tag-Keeps s (codes "array") (λ t. goes_on (open_level t)) h open_level-Holds)
        (Keeps-if (c == b'd') _ _ (step_dict-Keeps s h) (
          Keeps-if (c == b'k') _ _
            (when_tag-Keeps (record s { string_tag = codes "key" }) (codes "key") step_text
              (h.0, h.1, inr refl) step_text-Keeps)
            (Keeps-if (c == b's') _ _ (when_tag-Keeps s s.string_tag step_text h step_text-Keeps) (
              Keeps-if (c == b'r') _ _
                (when_tag-Keeps s (codes "real") (step_real d) h step_real-Keeps)
                (Keeps-if (c == b'i') _ _
                  (when_tag-Keeps s (codes "integer") step_integer h step_integer-Keeps)
                  (Keeps-if (c == b't') _ _
                    (when_tag-Keeps s (codes "true/") (λ t. goes_on (push t (Nson.bool (pos 1)))) h
                      (λ t ht. push-Holds t _ ht parsed_true))
                    (Keeps-if (c == b'f') _ _
                      (when_tag-Keeps s (codes "false/") (λ t. goes_on (push t (Nson.bool (pos 0))))
                        h (λ t ht. push-Holds t _ ht parsed_false))
                      (Keeps-if (c == b'/') _ (goes_on s) (step_slash-Keeps s h) h))))))))

  round_at-Keeps : (t : Cursor) (l : Bytes) → Holds t → Keeps (round_at d t l)
  unfolding round_at
  round_at-Keeps t [] h = h
  round_at-Keeps t (c ∷ []) h = h
  round_at-Keeps t (c ∷ e ∷ es) h =
      Keeps-if (c == b'<') _ (jumps t) (step_tag-Keeps (pass t 1) e h) h

  plist_loop-Ends : (fuel : ℕ) (s : Cursor) → Holds s → Ends (plist_loop d fuel s)
  unfolding plist_loop plist_round
  plist_loop-Ends zero s h = tt
  plist_loop-Ends (suc fuel) s h =
      elim (plist_round d s)
          as (λ r.
            Keeps r
            → Ends (elim r as (λ _. Exit) [
              | jumps t ↦ at_err t
              | overruns ↦ overrun
              | goes_on t ↦ elim (goes_round t) [ true ↦ plist_loop d fuel t | false ↦ behind t ]
            ])) [
              | jumps t ↦ λ kept. kept
              | overruns ↦ λ kept. tt
              | goes_on t ↦ λ kept.
                  elim (goes_round t)
                    as (λ b.
                      Ends
                        (elim b as (λ _. Exit) [ true ↦ plist_loop d fuel t | false ↦ behind t ])) [
                          | true ↦ plist_loop-Ends fuel t kept
                          | false ↦ kept
                        ]
            ]
        (round_at-Keeps (skip_spaces s) (skip_spaces s).rest h)

  parse_plist-IsResult :
      (string_tag doc : Bytes) → IsTag string_tag → IsResult (parse_plist d string_tag doc)
  unfolding parse_plist
  parse_plist-IsResult string_tag doc tag =
      let s : Cursor = record {
        rest = doc;
        index = 0;
        top = no_items;
        below = [];
        rv = pos 0;
        string_tag = string_tag;
      } in
      elim (plist_headers s)
          as (λ o.
            Starts o
            → IsResult (elim o as (λ _. PlistParsed) [
              | none ↦ untouched s.string_tag
              | some t ↦ plist_exit (plist_loop d (suc (length doc)) t)
            ])) [
              | none ↦ λ starts. tag
              | some t ↦ λ starts.
                  plist_exit-IsResult (plist_loop d (suc (length doc)) t)
                    (plist_loop-Ends (suc (length doc)) t starts)
            ]
        (plist_headers-Starts s (none_parsed, tt, tag))

-- What the parser may come to.
abbrev pub IsOutcome : PlistParsed → Type 0
IsOutcome (ended v rv tag) = ((v ≡ nil) ⊎ IsParsed Unit v) × IsTag tag
IsOutcome (untouched tag) = IsTag tag
IsOutcome undefined = Unit
IsOutcome unending = ⊥

IsResult-IsOutcome : (p : PlistParsed) → IsResult p → p ≢ unending → IsOutcome p
IsResult-IsOutcome (ended v rv tag) r h = r
IsResult-IsOutcome (untouched tag) r h = r
IsResult-IsOutcome undefined r h = tt
IsResult-IsOutcome unending r h = h refl

-- Whatever the text, the property list parser comes to its end, if it does not first read or write
-- behind a text: it returns in front of its `memset`, with the element as it was, or it leaves a nil,
-- or a value made of strings, blobs, integers of 64 bits other than the smallest, reals, truth values,
-- arrays and objects marked as unsorted, with no nil or pointer in it. Where its static `string_tag`
-- was "string" or "key" in front of the call, it is one of the two behind it.
pub parse_plist-IsOutcome :
    (d : Double) (string_tag doc : Bytes)
    → IsTag string_tag
    → IsOutcome (parse_plist d string_tag doc)
parse_plist-IsOutcome d string_tag doc tag =
    IsResult-IsOutcome (parse_plist d string_tag doc) (parse_plist-IsResult d string_tag doc tag)
      (parse_plist_terminates d string_tag doc)
