-- ===== src/Json/Typed/Round.antt =====
-- One round of the loop of `nson_parse_json` of src/json.c, on a state that holds what can be stored.
use mathlib.Core.Path.{subst}
use nson.Prelude.{
  ap, ◌%◌, ℕ, ◌+◌, ◌≤◌, ◌<◌, ◌≡◌, ◌⊎◌, refl, Bool, true, false, not, ◌&&◌, ◌||◌, Option, none, some,
  All, [], ◌∷◌, Bytes, ◌==◌, if◌then◌else◌, take, length, length-drop, ltb→lt, arith, get_or, ltb,
  List-cases, Bool-cases, Option-cases, inl, inr, codes,
}
use nson.Json.Text.{json_str_len}
use nson.Json.Parser.{
  same_bytes, State, advance, push_at, open_array, close_with, step_string, step_word, step_number,
  step_at, step, isspace,
}
use nson.Util.Decimal.{is_digit}
use nson.Util.Number.{Double, parse_number}
use nson.Value.{Nson, arr_len}
use nson.Json.Typed.{
  IsParsed, AllParsed, parsed_str, parsed_false, parsed_true, parsed_arr, parsed_obj, none_parsed,
  AllParsed-arr_push, AllParsed-obj_entries, get_or_lt, parse_number_lem,
}

-- The index of the loop on a text of a length is one of the text, except behind a word that is cut
-- short at its end.
abbrev pub Within : ℕ → State → Type 0
Within len s = (s.index + length s.rest ≤ len) ⊎ ((length s.rest ≡ 0) × (s.index ≤ len + 4))

pub record IsTyped (len : ℕ) (s : State) : Type 0 where
  pub values : AllParsed ⊥ s.top
  pub stack : All (AllParsed ⊥) s.below
  pub within : Within len s

abbrev Typed : ℕ → Option State → Type 0
Typed len none = Unit
Typed len (some t) = IsTyped len t

Typed-if :
    (len : ℕ) (b : Bool) (x y : Option State)
    → (b ≡ true → Typed len x)
    → Typed len y
    → Typed len (if b then x else y)
Typed-if len true x y hx hy = hx refl
Typed-if len false x y hx hy = hy

module _ (len : ℕ) (s : State) (typed : IsTyped len s) (some_left : 0 < length s.rest) where
  advance-Within : (n : ℕ) → n ≤ length s.rest + 4 → Within len (advance s n)
  advance-Within n h = elim typed.within [
    | inl le ↦ elim (Bool-cases (ltb (length s.rest) n)) [
      | inl short ↦ inr (
        omega (arith, length-drop {0} n s.rest, ltb→lt _ _ short),
        omega (arith, ltb→lt _ _ short),
      )
      | inr fits ↦ inl (ground (arith, length-drop {0} n s.rest))
    ]
    | inr (over, _) ↦ absurd (omega arith)
  ]

  push_at-IsTyped :
      (n : ℕ) (v : Nson) → n ≤ length s.rest + 4 → IsParsed ⊥ v → IsTyped len (push_at s n v)
  push_at-IsTyped n v h p = record {
    values = AllParsed-arr_push s.top v typed.values p;
    stack = typed.stack;
    within = advance-Within n h;
  }

  advance-IsTyped : IsTyped len (advance s 1)
  advance-IsTyped = record {
    values = typed.values;
    stack = typed.stack;
    within = advance-Within 1 (omega arith);
  }

  open_array-IsTyped : IsTyped len (open_array s)
  open_array-IsTyped = record {
    values = none_parsed;
    stack = (typed.values, typed.stack);
    within = advance-Within 1 (omega arith);
  }

  Typed-close_with : (v : Nson) → IsParsed ⊥ v → Typed len (close_with s v)
  unfolding close_with
  Typed-close_with v p = elim (List-cases s.below) [
    | inl e ↦ rw (e, close_with) tt
    | inr (t, ts, e) ↦
        let stack : All (AllParsed ⊥) (t ∷ ts) = subst (All (AllParsed ⊥)) e typed.stack in
        rw (e, close_with)
          (record {
            values = AllParsed-arr_push t v stack.0 p;
            stack = stack.1;
            within = advance-Within 1 (omega arith);
          })
  ]

  Typed-step_string : (c : ℕ) (cs : Bytes) → s.rest ≡ c ∷ cs → Typed len (step_string s cs)
  unfolding step_string
  Typed-step_string c cs at = elim (Option-cases (json_str_len cs 0 b'"' 0)) [
    | inl e ↦ rw (e, step_string) tt
    | inr (n, e) ↦
        rw (e, step_string)
          (Typed-if len (get_or cs n 0 == b'"') _ none
            (λ quote.
              push_at-IsTyped (1 + n + 1) _
                (omega (arith, ap length at, get_or_lt cs n b'"' (omega arith) (ground arith)))
                parsed_str)
            tt)
  ]

  Typed-step_word :
      (word : Bytes) (v : Nson) → length word ≤ 5 → IsParsed ⊥ v → Typed len (step_word s word v)
  unfolding step_word
  Typed-step_word word v h p =
      Typed-if len
        (ltb (length word) (length s.rest) && not (same_bytes (take (length word) s.rest) word))
        none _ (λ e. tt) (push_at-IsTyped (length word) v (omega arith) p)

module _ (d : Double) (len : ℕ) where
  Typed-step_number : (s : State) → IsTyped len s → 0 < length s.rest → Typed len (step_number d s)
  unfolding step_number
  Typed-step_number s typed some_left = elim (Option-cases (parse_number d s.rest)) [
    | inl failure ↦ rw (failure, step_number) tt
    | inr ((v, n), found) ↦
        let number = parse_number_lem d s.rest v n found in
        rw (found, step_number)
          (push_at-IsTyped len s typed some_left n v (omega (arith, number.1)) number.0)
  ]

  Typed-step_at :
      (s : State) (c : ℕ) (cs : Bytes)
      → IsTyped len s
      → s.rest ≡ c ∷ cs
      → Typed len (step_at d s c cs)
  unfolding step_at
  Typed-step_at s c cs typed at =
      let some_left : 0 < length s.rest = rw at (omega arith) in
      let next = advance-IsTyped len s typed some_left in
      let close = Typed-close_with len s typed some_left in
      let word = Typed-step_word len s typed some_left in
      Typed-if len (c == b'[' || c == b'{') _ _ (λ e. open_array-IsTyped len s typed some_left)
        (Typed-if len (c == b',' || c == b':') _ _ (λ e. next)
          (Typed-if len (c == b'}') _ _
            (λ e.
              Typed-if len (arr_len s.top % 2 == 0) _ none
                (λ even. close _ (parsed_obj (AllParsed-obj_entries s.top typed.values))) tt)
            (Typed-if len (c == b']') _ _ (λ e. close _ (parsed_arr typed.values))
              (Typed-if len (c == b'"') _ _ (λ e. Typed-step_string len s typed some_left c cs at)
                (Typed-if len (isspace c) _ _ (λ e. next)
                  (Typed-if len (c == b'-' || is_digit c) _ _
                    (λ e. Typed-step_number s typed some_left)
                    (Typed-if len (c == b'n') _ _
                      (λ e. word (codes "null") _ (omega arith) parsed_str)
                      (Typed-if len (c == b't') _ _
                        (λ e. word (codes "true") _ (omega arith) parsed_true)
                        (Typed-if len (c == b'f') _ none
                          (λ e. word (codes "false") _ (omega arith) parsed_false) tt)))))))))

  Typed-step_from :
      (s : State) (l : Bytes)
      → IsTyped len s
      → s.rest ≡ l
      → Typed len (elim l [ [] ↦ none | c ∷ cs ↦ step_at d s c cs ])
  Typed-step_from s [] typed e = tt
  Typed-step_from s (c ∷ cs) typed e = Typed-step_at s c cs typed e

  pub step-IsTyped : (s t : State) → IsTyped len s → step d s ≡ some t → IsTyped len t
  unfolding step
  step-IsTyped s t typed e = subst (Typed len) e (Typed-step_from s s.rest typed refl)
