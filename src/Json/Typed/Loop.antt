-- ===== src/Json/Typed/Loop.antt =====
-- The whole loop of `nson_parse_json` of src/json.c, and what is made of its last state.
use mathlib.Core.Path.{subst}
use nson.Prelude.{
  ℕ, zero, suc, ◌+◌, ◌≤◌, ◌≡◌, refl, ◌&&◌, Option, none, some, [], ◌∷◌, Bytes, ◌==◌, length, arith,
  Bool-cases, Option-cases, inl, inr,
}
use nson.Json.Parser.{
  State, again, step, Outcome, ran_out, failed, finished, loop, Parsed, parsed, rejected, stuck,
  of_option, conclude, skip_blanks, parse_json, isspace, is_empty,
}
use nson.Util.Number.{Double}
use nson.Value.{Nson, arr_get, arr_len}
use nson.Json.Typed.{IsParsed, none_parsed, AllParsed-arr_get}
use nson.Json.Typed.Round.{IsTyped, step-IsTyped}

abbrev Ends : ℕ → Outcome → Type 0
Ends len (finished t) = IsTyped len t
Ends len failed = Unit
Ends len ran_out = Unit

module _ (d : Double) (len : ℕ) where
  loop-Ends : (fuel : ℕ) (s : State) → IsTyped len s → Ends len (loop d fuel s)
  unfolding loop
  loop-Ends zero s typed = tt
  loop-Ends (suc fuel) s typed = elim (Option-cases (step d s)) [
    | inl stopped ↦ rw (stopped, loop) tt
    | inr (t, found) ↦
        let next = step-IsTyped d len s t typed found in
        elim (Bool-cases (again t)) [
          | inl more ↦ rw (found, loop, more) (loop-Ends fuel t next)
          | inr ended ↦ rw (found, loop, ended) next
        ]
  ]

skip_blanks-IsTyped : (doc : Bytes) (i : ℕ) → IsTyped (i + length doc) (skip_blanks doc i)
unfolding skip_blanks
skip_blanks-IsTyped [] i = record { values = none_parsed; stack = tt; within = inl (omega arith) }
skip_blanks-IsTyped (c ∷ cs) i = elim (Bool-cases (isspace c)) [
  | inl blank ↦
      let same : i + 1 + length cs ≡ i + suc (length cs) = omega arith in
      rw blank
        (subst (λ n. IsTyped n (skip_blanks cs (i + 1))) same (skip_blanks-IsTyped cs (i + 1)))
  | inr text ↦ rw text (record { values = none_parsed; stack = tt; within = inl (omega arith) })
]

-- A result that the parser may have on a text of a length.
abbrev IsResult : ℕ → Parsed → Type 0
IsResult len (parsed v i) = IsParsed ⊥ v × (i ≤ len + 4)
IsResult len rejected = Unit
IsResult len stuck = Unit

of_option-IsResult :
    (len : ℕ) (s : State) (o : Option Nson)
    → IsTyped len s
    → arr_get s.top 0 ≡ o
    → IsResult len (of_option o s.index)
of_option-IsResult len s none typed e = tt
of_option-IsResult len s (some v) typed e =
    let bound : s.index ≤ len + 4 = elim typed.within [
      | inl le ↦ omega arith
      | inr (ended, le) ↦ le
    ] in
    (AllParsed-arr_get s.top 0 v typed.values e, bound)

conclude-IsResult : (len : ℕ) (o : Outcome) → Ends len o → IsResult len (conclude o)
unfolding conclude
conclude-IsResult len ran_out ends = tt
conclude-IsResult len failed ends = tt
conclude-IsResult len (finished s) typed =
    elim (Bool-cases (is_empty s.below && arr_len s.top == 1)) [
      | inl single ↦ rw single (of_option-IsResult len s (arr_get s.top 0) typed refl)
      | inr several ↦ rw several tt
    ]

parse_json-IsResult : (d : Double) (doc : Bytes) → IsResult (length doc) (parse_json d doc)
unfolding parse_json
parse_json-IsResult d doc =
    let s = skip_blanks doc 0 in
    let none_read : 0 + length doc ≡ length doc = omega arith in
    let typed = subst (λ n. IsTyped n s) none_read (skip_blanks-IsTyped doc 0) in
    let ends = loop-Ends d (length doc) (suc (length doc)) s typed in
    elim (Bool-cases (is_empty s.rest)) [
      | inl blank ↦ rw blank tt
      | inr text ↦ rw text (conclude-IsResult (length doc) _ ends)
    ]

-- Whatever the text, a value that the parser stores is made of strings, integers of 64 bits other
-- than the smallest, reals, truth values, arrays and objects marked as unsorted, with no nil, blob or
-- pointer in it, and the index returned is at most 4 above the length of the text.
pub parse_json-IsParsed :
    (d : Double) (doc : Bytes) (v : Nson) (i : ℕ)
    → parse_json d doc ≡ parsed v i
    → IsParsed ⊥ v × (i ≤ length doc + 4)
parse_json-IsParsed d doc v i e = subst (IsResult (length doc)) e (parse_json-IsResult d doc)
