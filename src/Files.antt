-- ===== src/Files.antt =====
-- src/data.c, `nson_load`: a file is mapped into memory and parsed there. What the system calls
-- return is a parameter, where `size_t` has 64 bits.
pub mod Mapping
pub mod Loads
use nson.Prelude.{
  ℕ, ◌+◌, ◌-◌, ◌%◌, ◌^◌, bit_and, Bool, true, false, not, Option, none, some, List, [], ◌∷◌, ltb,
  ◌==◌, if◌then◌else◌,
}
use nson.Prelude.Int.{ℤ, negsuc}
use nson.Value.{Nson}

-- The bytes from `mf` on; `none` is an access that faults.
abbrev pub Memory : Type 0
Memory = ℕ → Option ℕ

-- What the calls of one run return: `sysconf(_SC_PAGESIZE)`, whether `open` succeeds, the member
-- `st_size` or none where `fstat` fails, the memory that `mmap` gives for a length or none where it
-- fails, and whether `munmap` succeeds for a length.
pub record SystemCalls : Type 0 where
  pub pgsize : ℕ
  pub opens : Bool
  pub fstat : Option ℕ
  pub mmap : ℕ → Option Memory
  pub unmaps : ℕ → Bool

-- The calls made, with their lengths; `unmapped_failure` is the `munmap` of MAP_FAILED.
pub data Event : Type 0 where
  opened closed unmapped_failure : Event
  mapped parsed unmapped : ℕ → Event

pub record Loaded : Type 0 where
  pub nson : Nson
  pub rv : ℤ
  pub events : List Event

-- A `NsonParser`: the element that it makes of a text of a length, and its return value.
abbrev pub NsonParser : Type 0
NsonParser = Memory → ℕ → Nson × ℤ

abbrev pub ssize_max : ℕ
ssize_max = 2 ^ 63 - 1

unfoldable pub map_size : ℕ → ℕ → ℕ
map_size pgsize st_size =
    let pgmask = pgsize - 1 in bit_and ((st_size + 1 + pgmask) % 2 ^ 64) (2 ^ 64 - 1 - pgmask)

unfoldable pub need_guard : ℕ → ℕ → Bool
need_guard pgsize st_size = bit_and (st_size + 2) (pgsize - 1) == 0

unfoldable pub failed : List Event → Loaded
failed events = record { nson = Nson.nil; rv = negsuc 0; events = events }

-- The call of the parser on what `mmap` returned, and the `munmap`.
unfoldable pub parse_mapping :
    SystemCalls → NsonParser → (st_size mapsize maplen : ℕ) → Option Memory → Loaded
parse_mapping c parser st_size mapsize maplen none =
    failed (opened ∷ mapped maplen ∷ closed ∷ unmapped_failure ∷ [])
parse_mapping c parser st_size mapsize maplen (some mf) =
    let (nson, rv) = parser mf st_size in
    record {
      nson = nson;
      rv = if c.unmaps mapsize then rv else negsuc 0;
      events = opened ∷ mapped maplen ∷ closed ∷ parsed st_size ∷ unmapped mapsize ∷ [];
    }

-- From the computed size on.
unfoldable pub map_and_parse : SystemCalls → NsonParser → (pgsize st_size : ℕ) → Loaded
map_and_parse c parser pgsize st_size =
    let mapsize = map_size pgsize st_size in
    let maplen = if need_guard pgsize st_size then mapsize + pgsize else mapsize in
    if ltb mapsize (st_size + 1)
    then failed (opened ∷ closed ∷ [])
    else parse_mapping c parser st_size mapsize maplen (c.mmap maplen)

unfoldable pub nson_load : SystemCalls → NsonParser → Loaded
nson_load c parser = if not c.opens then failed [] else elim c.fstat [
  | none ↦ failed (opened ∷ closed ∷ [])
  | some st_size ↦
      if ltb (ssize_max - 1) st_size
      then failed (opened ∷ closed ∷ [])
      else map_and_parse c parser c.pgsize st_size
]
