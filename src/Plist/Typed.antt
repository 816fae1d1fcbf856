-- ===== src/Plist/Typed.antt =====
-- What `nson_parse_plist` of src/plist.c may store, whatever the text, and what its static
-- variable `string_tag` may be. The loop is in Loop.
pub mod Loop
use mathlib.Core.Path.{subst}
use nson.Base64.{parse_b64}
use nson.Json.Typed.{
  IsParsed, AllParsed, parsed_str, parsed_blob, parsed_int, parsed_arr, parsed_obj, none_parsed,
  AllParsed-arr_push, AllParsed-obj_entries,
}
use nson.Plist.Parser.{
  Cursor, pass, push, Round, goes_on, jumps, overruns, when_tag, pass_end, close_level, open_level,
  step_data, step_text, step_integer, step_end, step_dict, step_slash,
}
use nson.Plist.Text.{skip_tag, measure_string_len, parse_string}
use nson.Prelude.{
  All, ℕ, ◌+◌, ◌%◌, ◌≡◌, ◌⊎◌, inl, inr, refl, Bool, true, false, ◌∷◌, Bytes, codes, ◌==◌,
  if◌then◌else◌, take, drop, Option-cases, List-cases,
}
use nson.Prelude.Int.{pos, negsuc}
use nson.Util.Decimal.{parse_dev}
use nson.Util.Decimal.Bounds.{parse_dev_bounds}
use nson.Value.{Nson, int, arr_len}

-- What `string_tag` may be.
abbrev pub IsTag : Bytes → Type 0
IsTag tag = (tag ≡ codes "string") ⊎ (tag ≡ codes "key")

-- All that the loop holds can be stored.
abbrev pub Holds : Cursor → Type 0
Holds s = AllParsed Unit s.top × All (AllParsed Unit) s.below × IsTag s.string_tag

abbrev pub Keeps : Round → Type 0
Keeps (goes_on t) = Holds t
Keeps (jumps t) = Holds t
Keeps overruns = Unit

pub Keeps-if : (b : Bool) (x y : Round) → Keeps x → Keeps y → Keeps (if b then x else y)
Keeps-if true x y hx hy = hx
Keeps-if false x y hx hy = hy

pub when_tag-Keeps :
    (s : Cursor) (tag : Bytes) (f : Cursor → Round)
    → Holds s
    → ((t : Cursor) → Holds t → Keeps (f t))
    → Keeps (when_tag s tag f)
when_tag-Keeps s tag f h follows =
    elim (skip_tag tag s.rest)
      as (λ r. Keeps (elim r [
        | pos k ↦
            if k == 0
            then goes_on (record s { rv = pos 0 })
            else f (record (pass s k) { rv = pos k })
        | negsuc k ↦ goes_on (record s { rv = negsuc k })
      ])) [
        | pos k ↦
            Keeps-if (k == 0) (goes_on (record s { rv = pos 0 }))
              (f (record (pass s k) { rv = pos k })) h
              (follows (record (pass s k) { rv = pos k }) h)
        | negsuc k ↦ h
      ]

pass_end-Holds : (s : Cursor) (tag : Bytes) → Holds s → Holds (pass_end s tag)
unfolding pass_end
pass_end-Holds s tag h =
    elim (skip_tag tag s.rest)
      as (λ r. Holds (elim r as (λ _. Cursor) [
        | pos k ↦ record (pass s k) { rv = pos k }
        | negsuc k ↦ record s { rv = negsuc k }
      ])) [ pos k ↦ h | negsuc k ↦ h ]

pub push-Holds : (s : Cursor) (v : Nson) → Holds s → IsParsed Unit v → Holds (push s v)
push-Holds s v (top, below, tag) p = (AllParsed-arr_push s.top v top p, below, tag)

pub open_level-Holds : (s : Cursor) → Holds s → Holds (open_level s)
open_level-Holds s (top, below, tag) = (none_parsed, (top, below), tag)

close_level-Keeps : (s : Cursor) (v : Nson) → Holds s → IsParsed Unit v → Keeps (close_level s v)
unfolding close_level
close_level-Keeps s v (top, below, tag) p = elim (List-cases s.below) [
  | inl e ↦ rw (e, close_level) (top, below, tag)
  | inr (t, ts, e) ↦
      let arrays : All (AllParsed Unit) (t ∷ ts) = subst (All (AllParsed Unit)) e below in
      rw (e, close_level) (AllParsed-arr_push t v arrays.0 p, arrays.1, tag)
]

step_data-Keeps : (s : Cursor) → Holds s → Keeps (step_data s)
unfolding step_data
step_data-Keeps s h = elim (Option-cases (measure_string_len (codes "data") s.rest 0)) [
  | inl e ↦ rw (e, step_data) h
  | inr (str_len, e) ↦ elim (Option-cases (parse_b64 (take str_len s.rest))) [
    | inl e' ↦ rw (e, step_data, e') h
    | inr ((b, n), e') ↦
        rw (e, step_data, e')
          (pass_end-Holds (pass (push s (Nson.blob b)) (str_len + 2)) (codes "data")
            (push-Holds s _ h (parsed_blob tt)))
  ]
]

pub step_text-Keeps : (s : Cursor) → Holds s → Keeps (step_text s)
unfolding step_text
step_text-Keeps s h = elim (Option-cases (measure_string_len s.string_tag s.rest 0)) [
  | inl e ↦ rw (e, step_text) h
  | inr (str_len, e) ↦ elim (Option-cases (parse_string (take str_len s.rest) 0)) [
    | inl e' ↦ rw (e, step_text, e') tt
    | inr (text, e') ↦
        let (top, below, tag) =
          pass_end-Holds (pass (push s (Nson.str text)) (str_len + 2)) s.string_tag
            (push-Holds s _ h parsed_str) in
        rw (e, step_text, e') (top, below, inl refl)
  ]
]

pub step_integer-Keeps : (s : Cursor) → Holds s → Keeps (step_integer s)
unfolding step_integer
step_integer-Keeps s h = elim (Option-cases (parse_dev s.rest)) [
  | inl e ↦ rw (e, step_integer) h
  | inr ((z, n), e) ↦
      rw (e, step_integer)
        (when_tag-Keeps (push (pass (record s { rv = pos n }) n) (Nson.int z)) (codes "</integer")
          goes_on (push-Holds s _ h (parsed_int (parse_dev_bounds s.rest z n e).0)) (λ t ht. ht))
]

step_end-Keeps : (s : Cursor) (c : ℕ) → Holds s → Keeps (step_end s c)
unfolding step_end
step_end-Keeps s c h =
    Keeps-if (c == b'a') _ _
      (when_tag-Keeps s (codes "array") _ h (λ t ht. close_level-Keeps t _ ht (parsed_arr ht.0)))
      (Keeps-if (c == b'd') _ _
        (Keeps-if (arr_len s.top % 2 == 0) _ (jumps s)
          (when_tag-Keeps s (codes "dict") _ h
            (λ t ht. close_level-Keeps t _ ht (parsed_obj (AllParsed-obj_entries t.top ht.0))))
          h)
        h)

pub step_dict-Keeps : (s : Cursor) → Holds s → Keeps (step_dict s)
unfolding step_dict
step_dict-Keeps s h =
    let blob = when_tag s (codes "data") step_data in
    let blob_kept = when_tag-Keeps s (codes "data") step_data h step_data-Keeps in
    elim (skip_tag (codes "dict") s.rest)
      as (λ r. Keeps (elim r [
        | pos n ↦ if n == 0 then blob else goes_on (open_level (record (pass s n) { rv = pos n }))
        | negsuc n ↦ blob
      ])) [
        | pos n ↦
            Keeps-if (n == 0) blob (goes_on (open_level (record (pass s n) { rv = pos n })))
              blob_kept (open_level-Holds s h)
        | negsuc n ↦ blob_kept
      ]

pub step_slash-Keeps : (s : Cursor) → Holds s → Keeps (step_slash s)
unfolding step_slash
step_slash-Keeps s h = elim (List-cases (drop 1 s.rest)) [
  | inl e ↦ rw (e, step_slash) h
  | inr (c, cs, e) ↦ rw (e, step_slash) (step_end-Keeps (pass s 1) c h)
]
