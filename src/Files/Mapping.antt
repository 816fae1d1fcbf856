-- ===== src/Files/Mapping.antt =====
-- src/data.c, `nson_load`: the length of the mapping, and what the parser finds in it.
use native.Mathlib.Nat.{pow-le-pow_right, mod-lt, mod-le}
use mathlib.Core.Path.{subst}
use nson.Prelude.{
  ℕ, ◌+◌, ◌-◌, ◌%◌, ◌^◌, ◌<◌, ◌≤◌, ◌≡◌, ◌⊎◌, inl, inr, refl, Bool, true, false, none, some, List,
  [], ◌∷◌, Bytes, ltb, ◌==◌, if◌then◌else◌, length, get_elem?, arith, ap, sym, ◌∙◌, Bool-cases,
  Option-cases,
}
use nson.Prelude.Int.{negsuc}
use nson.Prelude.Pages.{bit_and-pages, bit_and-mask}
use nson.Value.{Nson}
use nson.Files.{
  Memory, SystemCalls, Event, opened, closed, mapped, parsed, unmapped, Loaded, NsonParser,
  ssize_max, map_size, need_guard, failed, parse_mapping, map_and_parse, nson_load,
}

-- What POSIX says of a mapping of a file: the rest of its last page is zero, and an access to a
-- page wholly beyond its end faults.
pub record Maps (file : Bytes) (pgsize : ℕ) (m : Memory) : Type 0 where
  pub text : (i : ℕ) → i < length file → m i ≡ get_elem? file i
  pub zeros : (i : ℕ) → length file ≤ i → i - i % pgsize < length file → m i ≡ some 0
  pub faults : (i : ℕ) → length file ≤ i - i % pgsize → m i ≡ none

-- Whether the descriptor is open behind the calls.
unfoldable pub left_open : Bool → List Event → Bool
left_open now [] = now
left_open now (opened ∷ es) = left_open true es
left_open now (closed ∷ es) = left_open false es
left_open now (_ ∷ es) = left_open now es

-- The length of the mapping is the least multiple of the page size above the size of the file.
map_size_lem :
    (k st_size : ℕ)
    → k ≤ 62
    → st_size ≤ ssize_max - 1
    → (st_size < map_size (2 ^ k) st_size)
      × (map_size (2 ^ k) st_size ≤ st_size + 2 ^ k)
      × (map_size (2 ^ k) st_size % 2 ^ k ≡ 0)
unfolding map_size
map_size_lem k st_size hk fits =
    let page : 2 ^ k ≤ 2 ^ 62 = pow-le-pow_right (omega arith) hk in
    let a_byte : 1 ≤ 2 ^ k = pow-le-pow_right {n = 2} (omega arith) {i = 0} {j = k} (omega arith) in
    let x = st_size + 2 ^ k in
    let whole : (st_size + 1 + (2 ^ k - 1)) % 2 ^ 64 ≡ x = omega arith in
    let (rounded, multiple) = bit_and-pages k (64 - k) 64 x (omega arith) (omega arith) in
    rw whole
      (omega (arith, rounded, mod-lt x {m = 2 ^ k} (omega arith)), omega (arith, rounded), multiple)

-- The byte behind the text.
nul_behind :
    (file : Bytes) (pgsize : ℕ) (m : Memory)
    → Maps file pgsize m
    → m (length file) ≡ (if length file % pgsize == 0 then none else some 0)
nul_behind file pgsize m maps = elim (Bool-cases (length file % pgsize == 0)) [
  | inl e ↦ rw e (maps.faults (length file) (ground arith))
  | inr e ↦
      let pos : 0 < length file % pgsize = ground arith in
      rw e
        (maps.zeros (length file) (omega arith) (omega (arith, mod-le (length file) pgsize, pos)))
]

-- Why the load of a file of size n in pages of size 2^k may fail.
abbrev pub CallFails : ℕ → ℕ → SystemCalls → Type 0
CallFails k n c =
    (c.opens ≡ false)
    ⊎ (c.fstat ≡ none)
    ⊎ (ssize_max ≤ n)
    ⊎ ((len : ℕ) × (n < len) × (len ≤ n + 2 ^ k + 2 ^ k) × (c.mmap len ≡ none))

-- A load that fails for a reason: -1, a nil element, and no descriptor left open.
abbrev pub Fails : ℕ → ℕ → SystemCalls → Loaded → Type 0
Fails k n c l =
    CallFails k n c × ((l.nson ≡ Nson.nil) × (l.rv ≡ negsuc 0) × (left_open false l.events ≡ false))

-- A load that parses the text of a file in pages of size 2^k.
abbrev pub Parses : ℕ → Bytes → SystemCalls → NsonParser → Loaded → Type 0
Parses k file c parser l =
    (m : Memory) × (mapsize guard : ℕ) × ((length file < mapsize)
      × (mapsize ≤ length file + 2 ^ k)
      × (mapsize % 2 ^ k ≡ 0))
    × (guard ≡ (if (length file + 2) % 2 ^ k == 0 then 2 ^ k else 0))
    × (c.mmap (mapsize + guard) ≡ some m)
    × (m (length file) ≡ (if length file % 2 ^ k == 0 then none else some 0))
    × (l ≡ record {
      nson = (parser m (length file)).0;
      rv = if c.unmaps mapsize then (parser m (length file)).1 else negsuc 0;
      events =
          opened ∷ mapped (mapsize + guard) ∷ closed ∷ parsed (length file) ∷ unmapped mapsize ∷ [];
    })

if_le : (b : Bool) (x : ℕ) → (if b then x else 0) ≤ x
if_le true x = omega arith
if_le false x = omega arith

if_add : (b : Bool) (x y : ℕ) → (if b then x + y else x) ≡ x + (if b then y else 0)
if_add true x y = refl
if_add false x y = omega arith

need_guard_lem : (k n : ℕ) → need_guard (2 ^ k) n ≡ ((n + 2) % 2 ^ k == 0)
unfolding need_guard
need_guard_lem k n = ap (λ t. t == 0) (bit_and-mask k (n + 2))

-- Every length that the mapping may get.
parse_mapping_lem :
    (k : ℕ) (file : Bytes) (c : SystemCalls) (parser : NsonParser) (mapsize guard : ℕ)
    → (length file < mapsize) × (mapsize ≤ length file + 2 ^ k) × (mapsize % 2 ^ k ≡ 0)
    → guard ≡ (if (length file + 2) % 2 ^ k == 0 then 2 ^ k else 0)
    → ((len : ℕ) (m : Memory) → c.mmap len ≡ some m → Maps file (2 ^ k) m)
    → let maplen = mapsize + guard in
      let l = parse_mapping c parser (length file) mapsize maplen (c.mmap maplen) in
      Fails k (length file) c l ⊎ Parses k file c parser l
unfolding parse_mapping failed left_open
parse_mapping_lem k file c parser mapsize guard size e maps =
    elim (Option-cases (c.mmap (mapsize + guard))) [
      | inl none_mapped ↦
          let short : mapsize + guard ≤ length file + 2 ^ k + 2 ^ k =
            omega (arith, size, e, if_le ((length file + 2) % 2 ^ k == 0) (2 ^ k)) in
          inl (
            inr (inr (inr (mapsize + guard, omega (arith, size), short, none_mapped))),
            rw none_mapped (refl, refl, refl),
          )
      | inr (m, found) ↦ inr (
        m,
        mapsize,
        guard,
        size,
        e,
        found,
        nul_behind file (2 ^ k) m (maps (mapsize + guard) m found),
        rw found refl,
      )
    ]

map_and_parse_lem :
    (k : ℕ) (file : Bytes) (c : SystemCalls) (parser : NsonParser)
    → k ≤ 62
    → length file ≤ ssize_max - 1
    → ((len : ℕ) (m : Memory) → c.mmap len ≡ some m → Maps file (2 ^ k) m)
    → Fails k (length file) c (map_and_parse c parser (2 ^ k) (length file))
      ⊎ Parses k file c parser (map_and_parse c parser (2 ^ k) (length file))
unfolding map_and_parse
map_and_parse_lem k file c parser hk fits maps =
    let n = length file in
    let size = map_size (2 ^ k) n in
    let bounds = map_size_lem k n hk fits in
    let no_wrap : ltb size (n + 1) ≡ false = ground (arith, bounds.0) in
    let maplen : (if need_guard (2 ^ k) n then size + 2 ^ k else size)
        ≡ size + (if (n + 2) % 2 ^ k == 0 then 2 ^ k else 0) =
      ap (λ b. if b then size + 2 ^ k else size) (need_guard_lem k n)
      ∙ if_add ((n + 2) % 2 ^ k == 0) size (2 ^ k) in
    rw no_wrap (
      subst
        (λ t.
          Fails k n c (parse_mapping c parser n size t (c.mmap t))
          ⊎ Parses k file c parser (parse_mapping c parser n size t (c.mmap t)))
        (sym maplen) (parse_mapping_lem k file c parser size _ bounds refl maps))

-- In pages of size 2^k, with k at most 62, a load parses the text, or a call fails, or the size is
-- out of range: then it fails with -1, a nil element and no descriptor left open. Where it parses, the parser gets a mapping that holds the file and the byte
-- behind it: it is as long as the least multiple of the page size above the size of the file, and
-- one page longer where that size and 2 make a multiple. The load returns what the parser returns,
-- or -1 where the multiple cannot be unmapped. The byte behind the text is NUL, except where the
-- size of the file is itself a multiple: there it faults.
pub nson_load_lem :
    (k : ℕ) (file : Bytes) (c : SystemCalls) (parser : NsonParser)
    → k ≤ 62
    → c.pgsize ≡ 2 ^ k
    → (c.fstat ≡ none) ⊎ (c.fstat ≡ some (length file))
    → ((len : ℕ) (m : Memory) → c.mmap len ≡ some m → Maps file (2 ^ k) m)
    → Fails k (length file) c (nson_load c parser) ⊎ Parses k file c parser (nson_load c parser)
unfolding nson_load failed left_open map_and_parse parse_mapping
nson_load_lem k file c parser hk page size maps = elim (Bool-cases c.opens) [
  | inr shut ↦ inl (inl shut, rw shut (refl, refl, refl))
  | inl is_open ↦ elim size [
    | inl no_stat ↦ inl (inr (inl no_stat), rw (is_open, no_stat) (refl, refl, refl))
    | inr stat ↦ elim (Bool-cases (ltb (ssize_max - 1) (length file))) [
      | inl large ↦
          inl (inr (inr (inl (ground arith))), rw (is_open, stat, large) (refl, refl, refl))
      | inr fits ↦
          let small : length file ≤ ssize_max - 1 = ground arith in
          let run : nson_load c parser ≡ map_and_parse c parser (2 ^ k) (length file) =
            rw (is_open, stat, fits) (ap (λ t. map_and_parse c parser t (length file)) page) in
          subst (λ l. Fails k (length file) c l ⊎ Parses k file c parser l) (sym run)
            (map_and_parse_lem k file c parser hk small maps)
    ]
  ]
]
