-- ===== src/Plist/Reads.antt =====
-- The loop of the property list parser over written values, elements and entries.
use mathlib.Core.Path.{subst}
use nson.Json.Brackets.{
  flat, arr_concat-push, arr_concat-nil, is_empty-append, obj_entries-flat, arr_len-flat,
}
use nson.Plist.Parser.{
  Cursor, goes_on, plist_round, plist_loop, goes_round, plist_close, plist_exit, PlistParsed,
}
use nson.Plist.Rounds.{round_open, round_close_array, round_close_dict}
use nson.Plist.Tags.{at, in_tag-append, length-in_tag}
use nson.Plist.Termination.{plist_round-Less}
use nson.Plist.Writer.{in_tag, plist_body, plist_items, plist_fields}
use nson.Prelude.{
  ℕ, zero, suc, ◌+◌, ◌<◌, ◌≡◌, refl, sym, ◌⊎◌, inl, inr, Bool, true, false, List, Bytes, [], ◌∷◌,
  ◌++◌, append_assoc, codes, length, length-append, arith,
}
use nson.Prelude.Int.{ℤ}
use nson.Util.Number.{Double}
use nson.Value.{Nson, Items, Fields, no_items, item, arr_push, arr_concat}

module _ (d : Double) where
  -- The loop that stands before a round in a state gives `p` in the end.
  pub data Yields (p : PlistParsed) : Cursor → Type 0 where
    ends :
        {s t : Cursor}
        → plist_round d s ≡ goes_on t
        → goes_round t ≡ false
        → plist_close t ≡ p
        → Yields p s
    goes :
        {s t : Cursor} → plist_round d s ≡ goes_on t → goes_round t ≡ true → Yields p t → Yields p s

  -- The same of a state in which the condition of the loop is tested.
  abbrev pub Tests : PlistParsed → Cursor → Type 0
  Tests p t = ((goes_round t ≡ false) × (plist_close t ≡ p)) ⊎ ((goes_round t ≡ true) × Yields p t)

  pub Yields-round :
      {p : PlistParsed} {s t : Cursor} → plist_round d s ≡ goes_on t → Tests p t → Yields p s
  Yields-round e (inl (stop, closed)) = ends e stop closed
  Yields-round e (inr (go, y)) = goes e go y

  shrinks : (s t : Cursor) → plist_round d s ≡ goes_on t → length t.rest < length s.rest
  shrinks s t e = let less = plist_round-Less d s (length s.rest) (omega arith) in rw e at less

  pub plist_loop-Yields :
      {p : PlistParsed} {s : Cursor}
      → Yields p s
      → (fuel : ℕ) → length s.rest < fuel
      → plist_exit (plist_loop d fuel s) ≡ p
  unfolding plist_loop plist_exit
  plist_loop-Yields y zero h = absurd (omega arith)
  plist_loop-Yields (ends {s} {t} e stop closed) (suc fuel) h = rw (e, plist_loop) (rw stop closed)
  plist_loop-Yields (goes {s} {t} e go y) (suc fuel) h =
      rw (e, plist_loop) (rw go (plist_loop-Yields y fuel (omega (arith, shrinks s t e))))

  -- A written value, and written elements in front of a tag.
  abbrev pub ReadsValue : Bool → Nson → Type 0
  ReadsValue is_key v =
      (rest : Bytes) (i : ℕ) (top : Items) (below : List Items) (rv : ℤ) (p : PlistParsed)
      → ((rv' : ℤ)
          → Tests p (at rest (i + length (plist_body d is_key v)) (arr_push top v) below rv'))
      → Yields p (at (plist_body d is_key v ++ rest) i top below rv)

  abbrev pub ReadsInside : Bytes → Items → Type 0
  ReadsInside l xs =
      (rest : Bytes) (i : ℕ) (top b : Items) (below : List Items) (rv : ℤ) (p : PlistParsed)
      → ((rv' : ℤ) → Yields p (at (b'<' ∷ rest) (i + length l) (arr_concat top xs) (b ∷ below) rv'))
      → Yields p (at (l ++ (b'<' ∷ rest)) i top (b ∷ below) rv)

  Tests-index :
      (p : PlistParsed) (rest : Bytes) (i j : ℕ) (top : Items) (below : List Items) (rv : ℤ)
      → i ≡ j
      → Tests p (at rest i top below rv)
      → Tests p (at rest j top below rv)
  Tests-index p rest i j top below rv e t = subst (λ n. Tests p (at rest n top below rv)) e t

  pub ReadsValue-arr :
      (is_key : Bool) (xs : Items)
      → ReadsInside (plist_items d is_key xs) xs
      → ReadsValue is_key (Nson.arr xs)
  unfolding plist_body arr_concat
  ReadsValue-arr is_key xs reads rest i top below rv p k =
      let l = plist_items d is_key xs in
      let tag = codes "array" in
      let inside = l ++ (b'<' ∷ b'/' ∷ (tag ++ (b'>' ∷ rest))) in
      let opens = round_open d tag inside i top below rv (inl refl) in
      rw in_tag-append (
        Yields-round opens.1 (
          inr (
            rw (is_empty-append l b'<' (b'/' ∷ (tag ++ (b'>' ∷ rest)))) refl,
            reads (b'/' ∷ (tag ++ (b'>' ∷ rest))) (i + 7) no_items top below opens.0 p (λ rv'.
                let closes = round_close_array d rest (i + 7 + length l) xs top below rv' in
                Yields-round closes.1 (
                  Tests-index p rest (i + length (in_tag tag l)) (i + 7 + length l + 8)
                    (arr_push top (Nson.arr xs)) below closes.0 (omega (arith, length-in_tag tag l))
                    (k closes.0))),
          )))

  pub ReadsValue-obj :
      (is_key : Bool) (fs : Fields)
      → ReadsInside (plist_fields d is_key fs) (flat fs)
      → ReadsValue is_key (Nson.obj true fs)
  unfolding plist_body arr_concat
  ReadsValue-obj is_key fs reads rest i top below rv p k =
      let l = plist_fields d is_key fs in
      let tag = codes "dict" in
      let inside = l ++ (b'<' ∷ b'/' ∷ (tag ++ (b'>' ∷ rest))) in
      let opens = round_open d tag inside i top below rv (inr refl) in
      rw in_tag-append (
        Yields-round opens.1 (
          inr (
            rw (is_empty-append l b'<' (b'/' ∷ (tag ++ (b'>' ∷ rest)))) refl,
            reads (b'/' ∷ (tag ++ (b'>' ∷ rest))) (i + 6) no_items top below opens.0 p (λ rv'.
                let closes =
                  round_close_dict d rest (i + 6 + length l) (flat fs) top below rv'
                    (arr_len-flat fs) in
                Yields-round closes.1 (
                  rw obj_entries-flat (
                    Tests-index p rest (i + length (in_tag tag l)) (i + 6 + length l + 7)
                      (arr_push top (Nson.obj true fs)) below closes.0
                      (omega (arith, length-in_tag tag l)) (k closes.0)))),
          )))

  pub ReadsInside-nil : ReadsInside [] no_items
  ReadsInside-nil rest i top b below rv p k =
      let here : i + 0 ≡ i = omega arith in
      subst (λ n. Yields p (at (b'<' ∷ rest) n top (b ∷ below) rv)) here
        (subst (λ t. Yields p (at (b'<' ∷ rest) (i + 0) t (b ∷ below) rv)) (arr_concat-nil top)
          (k rv))

  -- A value in front of more.
  pub ReadsInside-value :
      (is_key : Bool) (v : Nson) (xs : Items) (l : Bytes)
      → ReadsValue is_key v
      → ReadsInside l xs
      → ReadsInside (plist_body d is_key v ++ l) (item v xs)
  ReadsInside-value is_key v xs l value reads rest i top b below rv p k =
      let body = plist_body d is_key v in
      let place : i + length (body ++ l) ≡ i + length body + length l =
        omega (arith, length-append body l) in
      rw append_assoc (
        value (l ++ (b'<' ∷ rest)) i top (b ∷ below) rv p (λ rv'. inr (
          rw (is_empty-append l b'<' rest) refl,
          reads rest (i + length body) (arr_push top v) b below rv' p (λ rv''.
              subst
                (λ n.
                  Yields p (at (b'<' ∷ rest) n (arr_concat (arr_push top v) xs) (b ∷ below) rv''))
                place
                (subst
                  (λ t. Yields p (at (b'<' ∷ rest) (i + length (body ++ l)) t (b ∷ below) rv''))
                  (sym (arr_concat-push top v xs)) (k rv''))),
        )))
