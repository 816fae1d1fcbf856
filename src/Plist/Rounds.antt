-- ===== src/Plist/Rounds.antt =====
-- Single rounds of the property list parser on written values.
use nson.Base64.{mapper_b64_enc}
use nson.Base64.Encode.{IsEncodable}
use nson.Plist.Escapes.{IsText, skip_tag_self}
use nson.Plist.Parser.{
  push, space_run, goes_on, open_level, close_level, step_data, step_text, step_integer, step_end,
  step_dict, step_slash, step_tag, round_at, plist_round,
}
use nson.Plist.Writer.{plist_escape, plist_body}
use nson.Json.Parser.{isspace}
use nson.Prelude.{
  ℕ, zero, suc, ◌+◌, ◌%◌, ◌≡◌, refl, ap, ◌∙◌, ◌⊎◌, inl, inr, ◌≤◌, Bool, true, false, List, Bytes,
  [], ◌∷◌, ◌++◌, codes, length, arith,
}
use nson.Prelude.Int.{ℤ, pos}
use nson.Util.Decimal.{print_int64}
use nson.Util.Decimal.RoundTrip.{IsParsable}
use nson.Util.Number.{Double}
use nson.Value.{Nson, Items, no_items, arr_len, arr_push, obj_entries}
use nson.Plist.Tags.{
  at, when_tag_self, step_text_self, step_integer_self, step_data_self, not_dict, end_dict,
  in_tag-append, length-in_tag,
}

module _ (d : Double) where
  -- The tag that a round stands at.
  round_tag :
      (c : ℕ) (cs : Bytes) (i : ℕ) (top : Items) (below : List Items) (rv : ℤ)
      → plist_round d (at (b'<' ∷ c ∷ cs) i top below rv)
        ≡ step_tag d (at (c ∷ cs) (i + 1) top below rv) c
  unfolding plist_round round_at space_run isspace
  round_tag c cs i top below rv = let e : i + 0 ≡ i = omega arith in rw e refl

  pub round_text :
      (is_key : Bool) (s rest : Bytes) (i : ℕ) (top : Items) (below : List Items) (rv : ℤ)
      → IsText s
      → (rv' : ℤ) × (plist_round d (at (plist_body d is_key (Nson.str s) ++ rest) i top below rv)
          ≡ goes_on (
              at rest
                (i + length (plist_body d is_key (Nson.str s)))
                (arr_push top (Nson.str s))
                below
                rv'))
  unfolding plist_body step_tag
  round_text true s rest i top below rv w =
      let text = plist_escape s [] in
      let key = codes "key" in
      (
        pos 4,
        rw in_tag-append (
            round_tag b'k' _ i top below rv
            ∙ when_tag_self key _ (i + 1) top below rv key step_text
            ∙ step_text_self s rest (i + 1 + 4) top below (pos 4) key w
            ∙ ap (λ n. goes_on (at rest n (arr_push top (Nson.str s)) below (pos 4)))
                (omega (arith, length-in_tag key text))),
      )
  round_text false s rest i top below rv w =
      let text = plist_escape s [] in
      let tag = codes "string" in
      (
        pos 7,
        rw in_tag-append (
            round_tag b's' _ i top below rv
            ∙ when_tag_self tag _ (i + 1) top below rv tag step_text
            ∙ step_text_self s rest (i + 1 + 7) top below (pos 7) tag w
            ∙ ap (λ n. goes_on (at rest n (arr_push top (Nson.str s)) below (pos 7)))
                (omega (arith, length-in_tag tag text))),
      )

  pub round_blob :
      (is_key : Bool) (s rest : Bytes) (i : ℕ) (top : Items) (below : List Items) (rv : ℤ)
      → IsEncodable s
      → (rv' : ℤ) × (plist_round d (at (plist_body d is_key (Nson.blob s) ++ rest) i top below rv)
          ≡ goes_on (
              at rest
                (i + length (plist_body d is_key (Nson.blob s)))
                (arr_push top (Nson.blob s))
                below
                rv'))
  unfolding plist_body step_tag step_dict
  round_blob is_key s rest i top below rv w =
      let code = mapper_b64_enc s in
      let tag = codes "data" in
      let behind = code ++ (b'<' ∷ b'/' ∷ (tag ++ (b'>' ∷ rest))) in
      (
        pos 5,
        rw in_tag-append (
            round_tag b'd' _ i top below rv
            ∙ rw (not_dict behind, step_dict)
                (when_tag_self tag behind (i + 1) top below rv (codes "string") step_data)
            ∙ step_data_self s rest (i + 1 + 5) top below (pos 5) w
            ∙ ap (λ n. goes_on (at rest n (arr_push top (Nson.blob s)) below (pos 5)))
                (omega (arith, length-in_tag tag code))),
      )

  pub round_integer :
      (is_key : Bool) (z : ℤ) (rest : Bytes) (i : ℕ) (top : Items) (below : List Items) (rv : ℤ)
      → IsParsable z
      → (rv' : ℤ) × (plist_round d (at (plist_body d is_key (Nson.int z) ++ rest) i top below rv)
          ≡ goes_on (
              at rest
                (i + length (plist_body d is_key (Nson.int z)))
                (arr_push top (Nson.int z))
                below
                rv'))
  unfolding plist_body step_tag step_integer
  round_integer is_key z rest i top below rv p =
      let text = print_int64 z in
      let tag = codes "integer" in
      (
        pos 10,
        rw in_tag-append (
            round_tag b'i' _ i top below rv
            ∙ when_tag_self tag _ (i + 1) top below rv (codes "string") step_integer
            ∙ step_integer_self z rest (i + 1 + 8) top below (pos 8) p
            ∙ ap (λ n. goes_on (at rest n (arr_push top (Nson.int z)) below (pos 10)))
                (omega (arith, length-in_tag tag text))),
      )

  pub round_bool :
      (is_key : Bool) (n : ℕ) (rest : Bytes) (i : ℕ) (top : Items) (below : List Items) (rv : ℤ)
      → n ≤ 1
      → (rv' : ℤ) × (plist_round d
            (at (plist_body d is_key (Nson.bool (pos n)) ++ rest) i top below rv)
          ≡ goes_on (
              at rest
                (i + length (plist_body d is_key (Nson.bool (pos n))))
                (arr_push top (Nson.bool (pos n)))
                below
                rv'))
  unfolding plist_body step_tag
  round_bool is_key zero rest i top below rv p = (
    pos 7,
    round_tag b'f' _ i top below rv
        ∙ when_tag_self (codes "false/") rest (i + 1) top below rv (codes "string")
            (λ t. goes_on (push t (Nson.bool (pos 0))))
        ∙ ap (λ n. goes_on (at rest n (arr_push top (Nson.bool (pos 0))) below (pos 7)))
            (omega arith),
  )
  round_bool is_key (suc zero) rest i top below rv p = (
    pos 6,
    round_tag b't' _ i top below rv
        ∙ when_tag_self (codes "true/") rest (i + 1) top below rv (codes "string")
            (λ t. goes_on (push t (Nson.bool (pos 1))))
        ∙ ap (λ n. goes_on (at rest n (arr_push top (Nson.bool (pos 1))) below (pos 6)))
            (omega arith),
  )
  round_bool is_key (suc (suc n)) rest i top below rv p = absurd (omega arith)

  pub round_open :
      (tag : Bytes) (rest : Bytes) (i : ℕ) (top : Items) (below : List Items) (rv : ℤ)
      → (tag ≡ codes "array") ⊎ (tag ≡ codes "dict")
      → (rv' : ℤ) × (plist_round d (at (b'<' ∷ (tag ++ (b'>' ∷ rest))) i top below rv)
          ≡ goes_on (at rest (i + (length tag + 2)) no_items (top ∷ below) rv'))
  unfolding step_tag step_dict
  round_open tag rest i top below rv (inl e) = (
    pos 6,
    rw e (
        round_tag b'a' _ i top below rv
        ∙ when_tag_self (codes "array") rest (i + 1) top below rv (codes "string")
            (λ t. goes_on (open_level t))
        ∙ ap (λ n. goes_on (at rest n no_items (top ∷ below) (pos 6))) (omega arith)),
  )
  round_open tag rest i top below rv (inr e) = (
    pos 5,
    rw e (
        round_tag b'd' _ i top below rv
        ∙ rw (skip_tag_self (codes "dict") rest, step_dict)
            (ap (λ n. goes_on (at rest n no_items (top ∷ below) (pos 5))) (omega arith))),
  )

  pub round_close_array :
      (rest : Bytes) (i : ℕ) (top b : Items) (below : List Items) (rv : ℤ)
      → (rv' : ℤ) × (plist_round d (at (codes "</array>" ++ rest) i top (b ∷ below) rv)
          ≡ goes_on (at rest (i + 8) (arr_push b (Nson.arr top)) below rv'))
  unfolding step_tag step_slash step_end close_level
  round_close_array rest i top b below rv = (
    pos 6,
    round_tag b'/' _ i top (b ∷ below) rv
        ∙ when_tag_self (codes "array") rest (i + 1 + 1) top (b ∷ below) rv (codes "string")
            (λ t. close_level t (Nson.arr t.top))
        ∙ ap (λ n. goes_on (at rest n (arr_push b (Nson.arr top)) below (pos 6))) (omega arith),
  )

  pub round_close_dict :
      (rest : Bytes) (i : ℕ) (top b : Items) (below : List Items) (rv : ℤ)
      → arr_len top % 2 ≡ 0
      → (rv' : ℤ) × (plist_round d (at (codes "</dict>" ++ rest) i top (b ∷ below) rv)
          ≡ goes_on (at rest (i + 7) (arr_push b (Nson.obj true (obj_entries top))) below rv'))
  unfolding step_tag step_slash step_end close_level
  round_close_dict rest i top b below rv even = (
    pos 5,
    round_tag b'/' _ i top (b ∷ below) rv
        ∙ end_dict rest (i + 1 + 1) top b below rv even
        ∙ ap (λ n. goes_on (at rest n (arr_push b (Nson.obj true (obj_entries top))) below (pos 5)))
            (omega arith),
  )
