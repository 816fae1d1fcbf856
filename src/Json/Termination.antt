-- ===== src/Json/Termination.antt =====
-- Each round of the parser's loop takes a byte at least, so the loop ends on every document.
use mathlib.Core.Option.{some-injective}
use mathlib.Core.Path.{subst}
use nson.Prelude.{
  ap, ◌%◌, ℕ, zero, suc, ◌+◌, ◌-◌, ◌*◌, ◌≤◌, ◌<◌, ◌≡◌, ◌≢◌, refl, Bool, true, false, not, ◌&&◌,
  ◌||◌, Option, none, some, [], ◌∷◌, Bytes, ◌==◌, if◌then◌else◌, take, drop, length, length-drop,
  arith, get_or, ltb, List-cases, Bool-cases, Option-cases, inl, inr,
}
use nson.Prelude.Int.{ℤ, pos}
use nson.Json.Text.{json_str_len}
use nson.Json.Parser.{
  same_bytes, State, close_with, step_string, step_word, step_number, step_at, step, Outcome,
  ran_out, failed, of_option, finished, loop, stuck, conclude, skip_blanks, parse_json, isspace,
  is_empty,
}
use nson.Util.Decimal.{is_digit, parse_dev_loop, signed, parse_dev}
use nson.Util.Decimal.Bounds.{parse_dev_loop_bounds}
use nson.Util.Number.{Double, parse_fraction, finish_real, after_int, parse_number}
use nson.Value.{Nson, arr_get, arr_len}

-- The round, if it goes on, leaves a shorter rest.
abbrev Shrinks : State → Option State → Type 0
Shrinks s none = Unit
Shrinks s (some t) = length t.rest < length s.rest

Shrinks-if :
    (s : State) (b : Bool) (x y : Option State)
    → Shrinks s x
    → Shrinks s y
    → Shrinks s (if b then x else y)
Shrinks-if s true x y hx hy = hx
Shrinks-if s false x y hx hy = hy

Shrinks-when :
    (s : State) (b : Bool) (x y : Option State)
    → (b ≡ true → Shrinks s x)
    → Shrinks s y
    → Shrinks s (if b then x else y)
Shrinks-when s true x y hx hy = hx refl
Shrinks-when s false x y hx hy = hy

module _ (s : State) (some_left : 0 < length s.rest) where
  Shrinks-advance : (n : ℕ) → 0 < n → length (drop n s.rest) < length s.rest
  Shrinks-advance n h = omega (arith, length-drop {0} n s.rest)

  Shrinks-close_with : (v : Nson) → Shrinks s (close_with s v)
  unfolding close_with
  Shrinks-close_with v = elim (List-cases s.below) [
    | inl e ↦ rw (e, close_with) tt
    | inr (t, ts, e) ↦ rw (e, close_with) (Shrinks-advance 1 (omega arith))
  ]

  Shrinks-step_string : (cs : Bytes) → Shrinks s (step_string s cs)
  unfolding step_string
  Shrinks-step_string cs = elim (Option-cases (json_str_len cs 0 b'"' 0)) [
    | inl e ↦ rw (e, step_string) tt
    | inr (n, e) ↦
        rw (e, step_string)
          (Shrinks-if s (get_or cs n 0 == b'"') _ none (Shrinks-advance (1 + n + 1) (omega arith))
            tt)
  ]

  Shrinks-step_word : (word : Bytes) (v : Nson) → 0 < length word → Shrinks s (step_word s word v)
  unfolding step_word
  Shrinks-step_word word v h =
      Shrinks-if s
        (ltb (length word) (length s.rest) && not (same_bytes (take (length word) s.rest) word))
        none _ tt (Shrinks-advance (length word) h)

signed_pos :
    (minus : Bool) (r : Option (ℕ × ℕ)) (z : ℤ) (j : ℕ)
    → ((v k : ℕ) → r ≡ some (v, k) → 0 < k)
    → signed minus r ≡ some (z, j)
    → 0 < j
signed_pos minus none z j h e = cc
signed_pos minus (some (v, k)) z j h e = ground (arith, h v k refl)

parse_dev_loop_digit_pos :
    (c : ℕ) (cs : Bytes) (v k : ℕ)
    → is_digit c ≡ true
    → parse_dev_loop (c ∷ cs) 0 0 ≡ some (v, k)
    → 0 < k
unfolding parse_dev_loop
parse_dev_loop_digit_pos c cs v k digit e =
    ground (arith, parse_dev_loop_bounds cs (0 * 10 + (c - b'0')) (0 + 1) v k)

-- A number that begins with a digit or a minus takes a byte.
parse_dev_pos :
    (c : ℕ) (cs : Bytes) (z : ℤ) (j : ℕ)
    → (c == b'-' || is_digit c) ≡ true
    → parse_dev (c ∷ cs) ≡ some (z, j)
    → 0 < j
unfolding parse_dev
parse_dev_pos c cs z j head e = elim (Bool-cases (c == b'-')) [
  | inl minus ↦
      signed_pos true (parse_dev_loop cs 0 1) z j
        (λ v k run. omega (arith, parse_dev_loop_bounds cs 0 1 v k (omega arith) run))
        (rw minus at e)
  | inr plain ↦
      signed_pos false (parse_dev_loop (c ∷ cs) 0 0) z j
        (λ v k run. parse_dev_loop_digit_pos c cs v k (ground arith) run) (ground arith)
]

of_option-ne-stuck : (o : Option Nson) (i : ℕ) → of_option o i ≢ stuck
of_option-ne-stuck none i = cc
of_option-ne-stuck (some v) i = cc

module _ (d : Double) where
  parse_fraction-le : (cs : Bytes) (r i : ℕ) → i ≤ (parse_fraction d cs r i).1
  unfolding parse_fraction
  parse_fraction-le [] r i = omega arith
  parse_fraction-le (c ∷ cs) r i =
      let r' = d.sub (d.add (d.mul r d.tenth) (d.of_int (pos c))) (d.of_int (pos b'0')) in
      ground (arith, parse_fraction-le cs r' (i + 1))

  after_int-le : (z : ℤ) (i : ℕ) (l : Bytes) → i ≤ (after_int d z i l).1
  unfolding after_int
  after_int-le z i [] = omega arith
  after_int-le z i (c ∷ cs) =
      unfold finish_real in ground (arith, parse_fraction-le cs (d.of_int (pos 0)) (i + 1))

  parse_number_pos :
      (c : ℕ) (cs : Bytes) (v : Nson) (n : ℕ)
      → (c == b'-' || is_digit c) ≡ true
      → parse_number d (c ∷ cs) ≡ some (v, n)
      → 0 < n
  unfolding parse_number
  parse_number_pos c cs v n head e = elim (Option-cases (parse_dev (c ∷ cs))) [
    | inl failure ↦ cc (rw (failure, parse_number) at e)
    | inr ((z, i), found) ↦
        let whole = some-injective _ _ (rw (found, parse_number) at e) in
        omega (
          arith,
          ap (λ (t : Nson × ℕ). t.1) whole,
          parse_dev_pos c cs z i head found,
          after_int-le z i (drop i (c ∷ cs)),
        )
  ]

  Shrinks-step_number :
      (s : State) (c : ℕ) (cs : Bytes)
      → s.rest ≡ c ∷ cs
      → (c == b'-' || is_digit c) ≡ true
      → Shrinks s (step_number d s)
  unfolding step_number
  Shrinks-step_number s c cs at head = elim (Option-cases (parse_number d s.rest)) [
    | inl failure ↦ rw (failure, step_number) tt
    | inr ((v, n), found) ↦
        rw (found, step_number)
          (Shrinks-advance s (rw at (omega arith)) n
            (parse_number_pos c cs v n head (rw at at found)))
  ]

  Shrinks-step_at :
      (s : State) (c : ℕ) (cs : Bytes) → s.rest ≡ c ∷ cs → Shrinks s (step_at d s c cs)
  unfolding step_at
  Shrinks-step_at s c cs at =
      let some_left : 0 < length s.rest = rw at (omega arith) in
      let one_byte = Shrinks-advance s some_left 1 (omega arith) in
      Shrinks-if s (c == b'[' || c == b'{') _ _ one_byte (
        Shrinks-if s (c == b',' || c == b':') _ _ one_byte (
          Shrinks-if s (c == b'}') _ _
            (Shrinks-if s (arr_len s.top % 2 == 0) _ none (Shrinks-close_with s some_left _) tt)
            (Shrinks-if s (c == b']') _ _ (Shrinks-close_with s some_left _) (
              Shrinks-if s (c == b'"') _ _ (Shrinks-step_string s some_left cs) (
                Shrinks-if s (isspace c) _ _ one_byte (
                  Shrinks-when s (c == b'-' || is_digit c) _ _ (Shrinks-step_number s c cs at) (
                    Shrinks-if s (c == b'n') _ _ (Shrinks-step_word s some_left _ _ (omega arith)) (
                      Shrinks-if s (c == b't') _ _ (Shrinks-step_word s some_left _ _ (omega arith))
                        (Shrinks-if s (c == b'f') _ none
                          (Shrinks-step_word s some_left _ _ (omega arith)) tt)))))))))

  step_from-Shrinks :
      (s : State) (l : Bytes)
      → s.rest ≡ l
      → Shrinks s (elim l [ [] ↦ none | c ∷ cs ↦ step_at d s c cs ])
  step_from-Shrinks s [] e = tt
  step_from-Shrinks s (c ∷ cs) e = Shrinks-step_at s c cs e

  step-Shrinks : (s : State) → Shrinks s (step d s)
  unfolding step
  step-Shrinks s = step_from-Shrinks s s.rest refl

  pub step_lt : (s t : State) → step d s ≡ some t → length t.rest < length s.rest
  step_lt s t e = subst (Shrinks s) e (step-Shrinks s)

  loop_terminates : (fuel : ℕ) (s : State) → length s.rest < fuel → loop d fuel s ≢ ran_out
  unfolding loop
  loop_terminates zero s h = absurd (omega arith)
  loop_terminates (suc fuel) s h = elim (Option-cases (step d s)) [
    | inl e ↦ rw (e, loop) (cc)
    | inr (t, e) ↦
        let ih = loop_terminates fuel t (omega (arith, step_lt s t e)) in
        rw (e, loop) (ground (arith, ih))
  ]

  length-skip_blanks : (doc : Bytes) (i : ℕ) → length (skip_blanks doc i).rest ≤ length doc
  unfolding skip_blanks
  length-skip_blanks [] i = omega arith
  length-skip_blanks (c ∷ cs) i = ground (arith, length-skip_blanks cs (i + 1))

  conclude-stuck : (o : Outcome) → o ≢ ran_out → conclude o ≢ stuck
  unfolding conclude
  conclude-stuck ran_out h = absurd (h refl)
  conclude-stuck failed h = cc
  conclude-stuck (finished s) h = λ e. elim (Bool-cases (is_empty s.below && arr_len s.top == 1)) [
    | inl single ↦ of_option-ne-stuck (arr_get s.top 0) s.index (rw single at e)
    | inr several ↦ cc (rw several at e)
  ]

  -- The parser ends on every document: the fuel of one round for each byte, and one more, is never
  -- used up.
  pub parse_json_terminates : (doc : Bytes) → parse_json d doc ≢ stuck
  unfolding parse_json
  parse_json_terminates doc =
      let s = skip_blanks doc 0 in
      let ended =
        conclude-stuck (loop d (suc (length doc)) s)
          (loop_terminates (suc (length doc)) s (omega (arith, length-skip_blanks doc 0))) in
      λ e. elim (Bool-cases (is_empty s.rest)) [
        | inl blank ↦ cc (rw blank at e)
        | inr text ↦ ended (rw text at e)
      ]
