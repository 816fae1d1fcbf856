-- ===== src/Plist/Leaves.antt =====
-- No round of the property list parser leaves more bytes than it found.
use nson.Plist.Parser.{
  Cursor, pass, push, Round, goes_on, jumps, overruns, when_tag, pass_end, close_level, open_level,
  step_data, step_text, step_integer, step_end, step_dict, step_slash,
}
use nson.Base64.{parse_b64}
use nson.Util.Decimal.{parse_dev}
use nson.Plist.Text.{skip_tag, measure_string_len, parse_string}
use nson.Value.{Nson, arr_len, obj_entries, arr_push}
use nson.Prelude.{
  ℕ, suc, ◌+◌, ◌%◌, ◌≤◌, ◌<◌, Bool, true, false, [], ◌∷◌, Bytes, codes, ◌==◌, if◌then◌else◌, take,
  drop, length, length-drop, arith, Bool-cases, Option-cases, inl, inr,
}
use nson.Prelude.Int.{pos, negsuc}

-- A round leaves `n` bytes at most.
abbrev pub Leaves : ℕ → Round → Type 0
Leaves n (goes_on t) = length t.rest ≤ n
Leaves n (jumps t) = Unit
Leaves n overruns = Unit

abbrev pub Less : ℕ → Round → Type 0
Less n (goes_on t) = length t.rest < n
Less n (jumps t) = Unit
Less n overruns = Unit

pub Less-suc : (n : ℕ) (r : Round) → Leaves n r → Less (suc n) r
Less-suc n (goes_on t) h = omega arith
Less-suc n (jumps t) h = tt
Less-suc n overruns h = tt

pub when_tag-Leaves :
    (n : ℕ) (s : Cursor) (tag : Bytes) (f : Cursor → Round)
    → length s.rest ≤ n
    → ((t : Cursor) → length t.rest ≤ n → Leaves n (f t))
    → Leaves n (when_tag s tag f)
when_tag-Leaves n s tag f h follows =
    elim (skip_tag tag s.rest)
      as (λ r. Leaves n (elim r [
        | pos k ↦
            if k == 0
            then goes_on (record s { rv = pos 0 })
            else f (record (pass s k) { rv = pos k })
        | negsuc k ↦ goes_on (record s { rv = negsuc k })
      ])) [
        | pos k ↦ elim (Bool-cases (k == 0)) [
          | inl none_passed ↦ rw none_passed h
          | inr some_passed ↦
              rw some_passed
                (follows (record (pass s k) { rv = pos k }) (omega (arith, length-drop k s.rest)))
        ]
        | negsuc k ↦ h
      ]

pub Leaves-if :
    (n : ℕ) (b : Bool) (x y : Round) → Leaves n x → Leaves n y → Leaves n (if b then x else y)
Leaves-if n true x y hx hy = hx
Leaves-if n false x y hx hy = hy

-- Going on with no more than was left.
pub pass-rest : (s : Cursor) (n k : ℕ) → length s.rest ≤ n → length (pass s k).rest ≤ n
pass-rest s n k h = omega (arith, length-drop k s.rest)

pass_end-rest :
    (s : Cursor) (tag : Bytes) (n : ℕ) → length s.rest ≤ n → length (pass_end s tag).rest ≤ n
unfolding pass_end
pass_end-rest s tag n h =
    elim (skip_tag tag s.rest)
      as (λ r.
        length
          (elim r as (λ _. Cursor) [
            | pos k ↦ record (pass s k) { rv = pos k }
            | negsuc k ↦ record s { rv = negsuc k }
          ]).rest
        ≤ n) [ pos k ↦ pass-rest s n k h | negsuc k ↦ h ]

close_level-Leaves :
    (s : Cursor) (v : Nson) (n : ℕ) → length s.rest ≤ n → Leaves n (close_level s v)
unfolding close_level
close_level-Leaves s v n h =
    elim s.below
      as (λ b. Leaves n (elim b [
        | [] ↦ jumps s
        | t ∷ ts ↦ goes_on (record s { top = arr_push t v; below = ts })
      ])) [ [] ↦ tt | t ∷ ts ↦ h ]

step_data-Leaves : (s : Cursor) (n : ℕ) → length s.rest ≤ n → Leaves n (step_data s)
unfolding step_data
step_data-Leaves s n h = elim (Option-cases (measure_string_len (codes "data") s.rest 0)) [
  | inl none_found ↦ rw (none_found, step_data) tt
  | inr (str_len, found) ↦ elim (Option-cases (parse_b64 (take str_len s.rest))) [
    | inl bad ↦ rw (found, bad, step_data) tt
    | inr ((b, k), good) ↦
        rw (found, good, step_data)
          (pass_end-rest (pass (push s (Nson.blob b)) (str_len + 2)) (codes "data") n
            (pass-rest s n (str_len + 2) h))
  ]
]

pub step_text-Leaves : (s : Cursor) (n : ℕ) → length s.rest ≤ n → Leaves n (step_text s)
unfolding step_text
step_text-Leaves s n h = elim (Option-cases (measure_string_len s.string_tag s.rest 0)) [
  | inl none_found ↦ rw (none_found, step_text) tt
  | inr (str_len, found) ↦ elim (Option-cases (parse_string (take str_len s.rest) 0)) [
    | inl bad ↦ rw (found, bad, step_text) tt
    | inr (text, good) ↦
        rw (found, good, step_text)
          (pass_end-rest (pass (push s (Nson.str text)) (str_len + 2)) s.string_tag n
            (pass-rest s n (str_len + 2) h))
  ]
]

pub step_integer-Leaves : (s : Cursor) (n : ℕ) → length s.rest ≤ n → Leaves n (step_integer s)
unfolding step_integer
step_integer-Leaves s n h = elim (Option-cases (parse_dev s.rest)) [
  | inl bad ↦ rw (bad, step_integer) tt
  | inr ((z, k), good) ↦
      rw (good, step_integer)
        (when_tag-Leaves n (push (pass (record s { rv = pos k }) k) (Nson.int z))
          (codes "</integer") goes_on (pass-rest s n k h) (λ t ht. ht))
]

step_end-Leaves : (s : Cursor) (c n : ℕ) → length s.rest ≤ n → Leaves n (step_end s c)
unfolding step_end
step_end-Leaves s c n h =
    Leaves-if n (c == b'a') _ _
      (when_tag-Leaves n s (codes "array") (λ t. close_level t (Nson.arr t.top)) h
        (λ t ht. close_level-Leaves t (Nson.arr t.top) n ht))
      (Leaves-if n (c == b'd') _ (goes_on s)
        (Leaves-if n (arr_len s.top % 2 == 0) _ (jumps s)
          (when_tag-Leaves n s (codes "dict")
            (λ t. close_level t (Nson.obj true (obj_entries t.top))) h
            (λ t ht. close_level-Leaves t (Nson.obj true (obj_entries t.top)) n ht))
          tt)
        h)

pub step_dict-Leaves : (s : Cursor) (n : ℕ) → length s.rest ≤ n → Leaves n (step_dict s)
unfolding step_dict
step_dict-Leaves s n h =
    let blob = when_tag-Leaves n s (codes "data") step_data h (λ t ht. step_data-Leaves t n ht) in
    elim (skip_tag (codes "dict") s.rest)
      as (λ r. Leaves n (elim r as (λ _. Round) [
        | pos k ↦
            if k == 0
            then when_tag s (codes "data") step_data
            else goes_on (open_level (record (pass s k) { rv = pos k }))
        | negsuc k ↦ when_tag s (codes "data") step_data
      ])) [ pos k ↦ Leaves-if n (k == 0) _ _ blob (pass-rest s n k h) | negsuc k ↦ blob ]

pub step_slash-Leaves : (s : Cursor) (n : ℕ) → length s.rest ≤ n → Leaves n (step_slash s)
unfolding step_slash
step_slash-Leaves s n h =
    elim (drop 1 s.rest)
      as (λ r.
        Leaves n
          (elim r as (λ _. Round) [ [] ↦ jumps (pass s 1) | e ∷ es ↦ step_end (pass s 1) e ])) [
            | [] ↦ tt
            | e ∷ es ↦ step_end-Leaves (pass s 1) e n (pass-rest s n 1 h)
          ]
