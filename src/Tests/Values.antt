-- ===== src/Tests/Values.antt =====
-- Runs and instances for the operations on values, arrays, objects and threads.
use Prim.Native.Nat.{gt}
use mathlib.Core.Option.{some-injective}
use mathlib.Core.Path.{subst}
use nson.Array.Capacity.{
  sizeof_nson, Block, mem_capacity, Reallocarray, Reallocates, Resized, mem_capacity-Resized,
}
use nson.Buf.{size_max}
use nson.Buf.Order.{swap}
use nson.Cmp.{nson_cmp, cmp_same_type}
use nson.Cmp.Order.{IsStrictOrder, nson_cmp-swap, nson_cmp_trans}
use nson.Json.Brackets.{flat}
use nson.Object.{obj_put, obj_from_arr, c_string}
use nson.Object.Build.{obj_from_arr_lem, obj_put_lem}
use nson.Prelude.{
  ℕ, zero, suc, ◌+◌, ◌*◌, ◌/◌, ◌%◌, ◌<◌, ◌≤◌, ◌≡◌, ◌≢◌, ◌⊎◌, refl, true, false, some, none, ltb,
  if◌then◌else◌, codes, arith,
}
use nson.Prelude.Int.{pos, negsuc}
use nson.Tests.Json.{whole_numbers}
use nson.MapReduce.{Mapper, nson_map, map_from, nson_filter, filter_from}
use nson.MapReduce.Laws.{nson_map_error, nson_filter_error}
use nson.Threads.Progress.{work, Steps, stay, go, work-Steps}
use nson.Threads.Finish.{workers_finish}
use nson.Threads.Settings.{map_thread_job, map_thread_job_bounds}
use nson.Threads.Once.{calls_le_one, calls_eq_one}
use nson.Threads.{
  in_chunk, AllReturned, System, Job, start, call, claim, Reach, started, later, calls_mapper,
  claims_chunk,
}
use nson.Value.{
  Nson, Items, nil, int, str, item, no_items, field, no_fields, arr_len, arr_get, arr_push,
  arr_concat,
}

abbrev numbers : Items
numbers = item (int (pos 1)) (item (int (pos 2)) no_items)

pub ltb-IsStrictOrder : IsStrictOrder ltb
ltb-IsStrictOrder = record { asymmetric = λ x y h. ground arith; weak = λ x y z p q. ground arith }

nson_cmp-swap_example :
    nson_cmp whole_numbers (int (pos 2)) (str (codes "b"))
    ≡ swap (nson_cmp whole_numbers (str (codes "b")) (int (pos 2)))
nson_cmp-swap_example =
    nson_cmp-swap whole_numbers ltb-IsStrictOrder (str (codes "b")) (int (pos 2))

nson_cmp_trans_example : nson_cmp whole_numbers (int (pos 1)) (int (pos 3)) ≢ gt
nson_cmp_trans_example =
    nson_cmp_trans whole_numbers ltb-IsStrictOrder (int (pos 1)) (int (pos 2)) (int (pos 3))
      (unfold nson_cmp cmp_same_type in λ e. cc) (unfold nson_cmp cmp_same_type in λ e. cc)

abbrev block : Block
block = record { cells = numbers; len = 2 }

-- Memory whose new cells hold what was there before.
unfoldable fit : ℕ → Items → Items
fit zero xs = no_items
fit (suc n) no_items = item (int (pos 7)) (fit n no_items)
fit (suc n) (item x xs) = item x (fit n xs)

arr_len-fit : (n : ℕ) (xs : Items) → arr_len (fit n xs) ≡ n
unfolding fit arr_len
arr_len-fit zero xs = refl
arr_len-fit (suc n) no_items = omega (arith, arr_len-fit n no_items)
arr_len-fit (suc n) (item x xs) = omega (arith, arr_len-fit n xs)

arr_get-fit :
    (n : ℕ) (xs : Items) (i : ℕ) → i < n → i < arr_len xs → arr_get (fit n xs) i ≡ arr_get xs i
unfolding fit arr_len arr_get
arr_get-fit zero xs i below inside = absurd (omega arith)
arr_get-fit (suc n) no_items i below inside = absurd (omega arith)
arr_get-fit (suc n) (item x xs) zero below inside = refl
arr_get-fit (suc n) (item x xs) (suc i) below inside =
    arr_get-fit n xs i (omega arith) (omega arith)

abbrev memory : Reallocarray
memory n xs = some (fit n xs)

memory-Reallocates : Reallocates memory
memory-Reallocates = record {
  sized = λ n xs ys e. subst (λ t. arr_len t ≡ n) (some-injective _ _ e) (arr_len-fit n xs);
  kept = λ n xs ys e i below inside.
      subst (λ t. arr_get t i ≡ arr_get xs i) (some-injective _ _ e)
        (arr_get-fit n xs i below inside);
}

mem_capacity-Resized_example :
    (((mem_capacity memory block 3).1 ≡ some 3) × Resized block 3 (mem_capacity memory block 3).0)
    ⊎ ((memory 3 block.cells ≡ none) × (mem_capacity memory block 3 ≡ (block, none)))
    ⊎ ((size_max / sizeof_nson < 3)
        × (3 ≢ block.len)
        × (mem_capacity memory block 3 ≡ (record block { len = 3 }, none)))
mem_capacity-Resized_example =
    mem_capacity-Resized memory block 3 memory-Reallocates (unfold arr_len in refl) (omega arith)

obj_from_arr_lem_example :
    ((arr_len numbers % 2 ≡ 1) × (obj_from_arr numbers ≡ none))
    ⊎ ((fs : _) × (obj_from_arr numbers ≡ some (Nson.obj true fs)) × (flat fs ≡ numbers))
obj_from_arr_lem_example = obj_from_arr_lem numbers

obj_put_lem_example :
    ((obj_put whole_numbers false (field (str (codes "b")) nil no_fields) (codes "a") nil).0
      ≡ false)
    × (flat (obj_put whole_numbers false (field (str (codes "b")) nil no_fields) (codes "a") nil).1
        ≡ arr_concat
            (flat (field (str (codes "b")) nil no_fields))
            (item (Nson.str (c_string (codes "a"))) (item nil no_items)))
obj_put_lem_example =
    obj_put_lem whole_numbers false (field (str (codes "b")) nil no_fields) (codes "a") nil

-- Two threads and an array of three elements, in chunks of one: the second thread takes the last.
abbrev job : Job
job = record { threads = 2; chunk_size = 1; len = 3 }

abbrev s₁ : System
s₁ = call (start job) 1 1 2

abbrev s₂ : System
s₂ = claim job s₁ 1

abbrev s₃ : System
s₃ = call s₂ 1 2 3

abbrev s₄ : System
s₄ = call s₃ 0 0 1

abbrev s₅ : System
s₅ = claim job s₄ 1

abbrev s₆ : System
s₆ = claim job s₅ 0

reach₆ : Reach job s₆
unfolding start call claim in_chunk
reach₆ =
    later
      (later
        (later
          (later
            (later (later started (calls_mapper (start job) 1 1 2 (omega arith) refl refl))
              (claims_chunk s₁ 1 2 2 (omega arith) refl refl))
            (calls_mapper s₂ 1 2 3 (omega arith) refl refl))
          (calls_mapper s₃ 0 0 1 (omega arith) refl refl))
        (claims_chunk s₄ 1 3 3 (omega arith) refl refl))
      (claims_chunk s₅ 0 1 1 (omega arith) refl refl)

all_returned : AllReturned job s₆
unfolding start call claim
all_returned zero h = refl
all_returned (suc zero) h = refl
all_returned (suc (suc n)) h = absurd (omega arith)

calls_le_one_example : s₆.calls 2 ≤ (if ltb 2 3 then 1 else 0)
calls_le_one_example = calls_le_one job s₆ 2 reach₆

calls_eq_one_example : s₆.calls 2 ≡ 1
calls_eq_one_example = calls_eq_one job s₆ 2 reach₆ all_returned (omega arith) (omega arith)

reach₀ : Steps job 1 (start job) s₁
unfolding start in_chunk
reach₀ = go (calls_mapper (start job) 1 1 2 (omega arith) refl refl) stay

work-Steps_example : 1 + work job s₁ ≤ work job (start job)
work-Steps_example = work-Steps job (omega arith) reach₀

workers_finish_example :
    (n : ℕ) × (t : System) × Steps job n (start job) t
    × (n ≤ work job (start job))
    × AllReturned job t
    × ((k : ℕ) → k < 3 → t.calls k ≡ 1)
workers_finish_example = workers_finish job (start job) (omega arith) (omega arith) started

abbrev chosen : Job
chosen = record { threads = 4; chunk_size = 25; len = 100 }

map_thread_job_bounds_example :
    (1 < chosen.threads)
    × (0 < chosen.chunk_size)
    × (chosen.chunk_size ≤ 32)
    × (chosen.threads * chosen.chunk_size ≤ chosen.len)
    × (chosen.len ≡ 100)
map_thread_job_bounds_example = map_thread_job_bounds 4 100 chosen (unfold map_thread_job in refl)

-- Counts its calls, and fails at a nil.
abbrev counting : Mapper ℕ
counting i x n = (x, n + 1, elim x [ nil ↦ negsuc 0 | _ ↦ pos 1 ])

nson_map_error_example : nson_map counting (arr_concat numbers (item nil numbers)) 0 ≡ record {
  items = arr_concat (nson_map counting numbers 0).items (item nil numbers);
  state = (nson_map counting numbers 0).state + 1;
  rv = negsuc 0;
}
nson_map_error_example =
    nson_map_error counting numbers numbers nil 0 0 (unfold nson_map map_from in refl) refl

nson_filter_error_example :
    nson_filter counting (arr_concat numbers (item nil numbers)) 0 ≡ record {
      items = arr_push (nson_filter counting numbers 0).items nil;
      state = (nson_filter counting numbers 0).state + 1;
      rv = negsuc 0;
    }
nson_filter_error_example =
    nson_filter_error counting numbers numbers nil 0 0 (unfold nson_filter filter_from in refl) refl
