-- ===== src/Tests/Files.antt =====
-- Loads of files.
use mathlib.Core.Option.{some-injective, none-ne-some}
use mathlib.Core.Path.{subst}
use nson.Files.{Memory, SystemCalls, NsonParser, ssize_max, nson_load}
use nson.Files.Loads.{Serves, Loads, nson_load_json, nson_load_plist, nson_load_json-json_write}
use nson.Files.Mapping.{Maps, Fails, Parses, nson_load_lem}
use nson.Base64.{mapper_b64_enc, enc_close, enc_loop, enc_step}
use nson.Json.Text.{json_escape_string, escape_loop, escape_byte, escape_letter, iscntrl}
use nson.Util.Decimal.{print_int64, digits}
use nson.Json.Writer.{json_write}
use nson.Plist.Writer.{plist_write, plist_body, plist_escape, plist_reference}
use nson.Prelude.{
  ℕ, ◌-◌, ◌%◌, ◌<◌, ◌≤◌, ◌≡◌, ◌⊎◌, inr, refl, sym, true, false, some, none, Bytes, ltb, ◌==◌,
  if◌then◌else◌, codes, arith, get_elem?, length,
}
use nson.Prelude.Int.{pos}
use nson.Tests.Json.{whole_numbers, sample, sample-IsPlain}
use nson.Tests.Plist.{property, property-IsProperty}
use nson.Value.{Nson}

-- A mapping of a file in pages of four bytes, or of another size.
abbrev mapping : Bytes → ℕ → Memory
mapping file pgsize i =
    if ltb i (length file)
    then get_elem? file i
    else if ltb (i - i % pgsize) (length file)
    then some 0
    else none

mapping-Maps : (file : Bytes) (pgsize : ℕ) → Maps file pgsize (mapping file pgsize)
mapping-Maps file pgsize = record {
  text = λ i (le : i < length file). let e : ltb i (length file) ≡ true = ground arith in rw e refl;
  zeros = λ i (le : length file ≤ i) (page : i - i % pgsize < length file).
      let e : ltb i (length file) ≡ false = ground arith in
      let e' : ltb (i - i % pgsize) (length file) ≡ true = ground arith in rw e (rw e' refl);
  faults = λ i (page : length file ≤ i - i % pgsize).
      let e : ltb i (length file) ≡ false = ground arith in
      let e' : ltb (i - i % pgsize) (length file) ≡ false = ground arith in rw e (rw e' refl);
}

mapped_memory :
    (file : Bytes) (pgsize : ℕ) (m : Memory)
    → some (mapping file pgsize) ≡ some m
    → Maps file pgsize m
mapped_memory file pgsize m e =
    subst (Maps file pgsize) (some-injective (mapping file pgsize) m e) (mapping-Maps file pgsize)

abbrev system : Bytes → ℕ → SystemCalls
system file pgsize = record {
  pgsize = pgsize;
  opens = true;
  fstat = some (length file);
  mmap = λ len. some (mapping file pgsize);
  unmaps = λ len. true;
}

-- A parser that makes the first byte its element.
abbrev first_byte : NsonParser
first_byte m n = (elim (m 0) [ none ↦ Nson.nil | some b ↦ Nson.int (pos b) ], pos n)

nson_load_lem_example :
    let c = system (codes "[1]") 4 in
    Fails 2 3 c (nson_load c first_byte)
    ⊎ Parses 2 (codes "[1]") c first_byte (nson_load c first_byte)
nson_load_lem_example =
    nson_load_lem 2 (codes "[1]") (system (codes "[1]") 4) first_byte (omega arith) refl (inr refl)
      (λ len m e. mapped_memory (codes "[1]") 4 m e)

abbrev json_file : Bytes
json_file = json_write whole_numbers sample

abbrev plist_file : Bytes
plist_file = plist_write whole_numbers property

served :
    (file : Bytes)
    → (length file % 4096 == 0) ≡ false
    → ltb (length file) ssize_max ≡ true
    → Serves file (system file 4096)
served file rest short = record {
  bits = 12;
  bits_le = omega arith;
  page = refl;
  rest = rest;
  opens = refl;
  size = refl;
  fits = ground arith;
  mmaps = λ len above le e. none-ne-some _ (sym e);
  maps = λ len m e. mapped_memory file 4096 m e;
  unmaps = λ len. refl;
}

json_rest : ((length json_file % 4096 == 0) ≡ false) × (ltb (length json_file) ssize_max ≡ true)
unfolding json_write json_escape_string escape_loop escape_byte escape_letter iscntrl print_int64
    digits
json_rest = (refl, refl)

plist_rest : ((length plist_file % 4096 == 0) ≡ false) × (ltb (length plist_file) ssize_max ≡ true)
unfolding plist_write plist_body plist_escape plist_reference iscntrl print_int64 digits
    mapper_b64_enc enc_close enc_loop enc_step
plist_rest = (refl, refl)

nson_load_json-json_write_example :
    Loads sample (length json_file) (nson_load_json whole_numbers (system json_file 4096))
    × Loads property (length plist_file) (nson_load_plist whole_numbers (system plist_file 4096))
nson_load_json-json_write_example =
    nson_load_json-json_write whole_numbers sample property (system json_file 4096)
      (system plist_file 4096) sample-IsPlain (served json_file json_rest.0 json_rest.1)
      property-IsProperty (served plist_file plist_rest.0 plist_rest.1)
