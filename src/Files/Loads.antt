-- ===== src/Files/Loads.antt =====
-- `nson_load_json` of src/json.c and `nson_load_plist` of src/plist.c: the parsers on a mapped file.
use mathlib.Core.Bool.{true≢false}
use mathlib.Core.Option.{none-ne-some}
use nson.Files.{Memory, SystemCalls, NsonParser, Loaded, ssize_max, nson_load}
use nson.Files.Mapping.{Maps, CallFails, nson_load_lem}
use nson.Json.Parser.{Parsed, parsed, parse_json}
use nson.Json.Plain.{IsPlain}
use nson.Json.RoundTrip.{parse_json-json_write}
use nson.Json.Writer.{json_write}
use nson.Plist.Parser.{PlistParsed, ended, parse_plist}
use nson.Plist.RoundTrip.{IsProperty, parse_plist-plist_write}
use nson.Plist.Writer.{plist_write}
use nson.Prelude.{
  ℕ, zero, suc, ◌+◌, ◌%◌, ◌==◌, ◌<◌, ◌≤◌, ◌^◌, ◌≡◌, inl, inr, refl, ap, sym, ◌∙◌, none, some, Bytes,
  [], ◌∷◌, append-nil, length, get_elem?, true, false, codes, arith,
}
use nson.Prelude.Int.{ℤ, pos, negsuc}
use nson.Util.Number.{Double}
use nson.Value.{Nson}

-- The bytes of a text in memory, up to the first that faults.
unfoldable pub read_text : Memory → (start len : ℕ) → Bytes
read_text m start zero = []
read_text m start (suc len) =
    let more = read_text m (start + 1) len in elim (m start) [ none ↦ [] | some b ↦ b ∷ more ]

-- What the two parsers store and return, where `nson_load` has set the element to nil before. A
-- text that `parse_string` runs out of is taken for a failure.
abbrev pub json_result : Parsed → Nson × ℤ
json_result (parsed v n) = (v, pos n)
json_result _ = (Nson.nil, negsuc 0)

abbrev pub plist_result : PlistParsed → Nson × ℤ
plist_result (ended v rv string_tag) = (v, rv)
plist_result _ = (Nson.nil, negsuc 0)

module _ (d : Double) where
  unfoldable pub json_parser : NsonParser
  json_parser m len = json_result (parse_json d (read_text m 0 len))

  -- With the static `string_tag` as it is at first.
  unfoldable pub plist_parser : NsonParser
  plist_parser m len = plist_result (parse_plist d (codes "string") (read_text m 0 len))

  unfoldable pub nson_load_json : SystemCalls → Loaded
  nson_load_json c = nson_load c json_parser

  unfoldable pub nson_load_plist : SystemCalls → Loaded
  nson_load_plist c = nson_load c plist_parser

read_text_lem :
    (m : Memory) (start : ℕ) (l : Bytes)
    → ((i : ℕ) → i < length l → m (start + i) ≡ get_elem? l i)
    → read_text m start (length l) ≡ l
unfolding read_text
read_text_lem m start [] h = refl
read_text_lem m start (x ∷ xs) h =
    let here : m start ≡ some x = ap m (omega arith) ∙ h 0 (omega arith) in
    let more =
      read_text_lem m (start + 1) xs (λ i le. ap m (omega arith) ∙ h (suc i) (omega arith)) in
    rw here (rw more refl)

-- A mapping of a file reads as the file.
read_file :
    (file : Bytes) (pgsize : ℕ) (m : Memory)
    → Maps file pgsize m
    → read_text m 0 (length file) ≡ file
read_file file pgsize m maps = read_text_lem m 0 file (λ i le. ap m (omega arith) ∙ maps.text i le)

-- A system that serves a file: the calls succeed, `mmap` for the lengths that a file of that size can
-- need, and the page size is one that the size of the file is no multiple of, so that the byte
-- behind the text can be read.
pub record Serves (file : Bytes) (c : SystemCalls) : Type 0 where
  pub bits : ℕ
  pub bits_le : bits ≤ 62
  pub page : c.pgsize ≡ 2 ^ bits
  pub rest : (length file % 2 ^ bits == 0) ≡ false
  pub opens : c.opens ≡ true
  pub size : c.fstat ≡ some (length file)
  pub fits : length file < ssize_max
  pub maps : (len : ℕ) (m : Memory) → c.mmap len ≡ some m → Maps file (2 ^ bits) m
  pub mmaps :
      (len : ℕ)
      → length file < len
      → len ≤ length file + 2 ^ bits + 2 ^ bits
      → ¬ (c.mmap len ≡ none)
  pub unmaps : (len : ℕ) → c.unmaps len ≡ true

-- The value and the length of the text.
abbrev pub Loads : Nson → ℕ → Loaded → Type 0
Loads v n l = (l.nson ≡ v) × (l.rv ≡ pos n)

no_refusal :
    (file : Bytes) (c : SystemCalls)
    → (serves : Serves file c) → ¬ CallFails serves.bits (length file) c
no_refusal file c serves (inl shut) = true≢false (sym serves.opens ∙ shut)
no_refusal file c serves (inr (inl no_stat)) = none-ne-some _ (sym no_stat ∙ serves.size)
no_refusal file c serves (inr (inr (inl large))) = omega (arith, serves.fits)
no_refusal file c serves (inr (inr (inr (len, above, short, none_mapped)))) =
    serves.mmaps len above short none_mapped

load_text :
    (file : Bytes) (c : SystemCalls) (parser : NsonParser) (v : Nson)
    → Serves file c
    → ((m : Memory)
        → read_text m 0 (length file) ≡ file
        → parser m (length file) ≡ (v, pos (length file)))
    → Loads v (length file) (nson_load c parser)
load_text file c parser v serves parses =
    elim (nson_load_lem serves.bits file c parser serves.bits_le serves.page (inr serves.size)
      serves.maps) [
        | inl (fails, _) ↦ absurd (no_refusal file c serves fails)
        | inr (m, mapsize, guard, bounds, pages, found, nul, run) ↦
            let result =
              parses m
                (read_file file (2 ^ serves.bits) m (serves.maps (mapsize + guard) m found)) in
            (
              ap (λ l. l.nson) run ∙ ap (λ t. t.0) result,
              ap (λ l. l.rv) run ∙ rw (serves.unmaps mapsize) (ap (λ t. t.1) result),
            )
      ]

-- A file with the property list written of a plain value is loaded as the value.
nson_load_plist-plist_write :
    (d : Double) (v : Nson) (c : SystemCalls)
    → IsProperty v
    → Serves (plist_write d v) c
    → Loads v (length (plist_write d v)) (nson_load_plist d c)
unfolding nson_load_plist plist_parser
nson_load_plist-plist_write d v c p serves =
    let file = plist_write d v in
    load_text file c (plist_parser d) v serves (λ m e. rw e (
      ap plist_result (
        ap (parse_plist d (codes "string")) (sym (append-nil file))
        ∙ parse_plist-plist_write d v [] p)))

-- Where the system calls succeed, and the size of the file is below SSIZE_MAX and no multiple of
-- that of a page, a file with the JSON print of a plain value is loaded as the value, and the length
-- of the print is returned. The same holds of a file with the property list written of a plain value.
pub nson_load_json-json_write :
    (d : Double) (v w : Nson) (c e : SystemCalls)
    → IsPlain v
    → Serves (json_write d v) c
    → IsProperty w
    → Serves (plist_write d w) e
    → Loads v (length (json_write d v)) (nson_load_json d c)
      × Loads w (length (plist_write d w)) (nson_load_plist d e)
unfolding nson_load_json json_parser
nson_load_json-json_write d v w c e p serves q serves' =
    let file = json_write d v in
    (
      load_text file c (json_parser d) v serves (λ m same. rw same (
          ap json_result
            (ap (parse_json d) (sym (append-nil file)) ∙ parse_json-json_write d v [] p tt))),
      nson_load_plist-plist_write d w e q serves',
    )
