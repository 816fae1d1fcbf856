-- ===== src/Threads/Settings.antt =====
-- The settings that `nson_map_thread` of src/map_reduce.c chooses.
use native.Mathlib.Nat.{mul-le-mul_left, mul-div-le, le-div_iff_mul-le}
use nson.Prelude.{
  ap, ℕ, ◌*◌, ◌/◌, ◌≤◌, ◌<◌, ◌≡◌, refl, ◌||◌, Option, none, some, ltb, leb, if◌then◌else◌, arith,
}
use nson.Threads.{Job}

-- `none` is the call of `nson_map`; a job is that of `nson_map_thread_ext`.
unfoldable pub map_thread_job : ℕ → ℕ → Option Job
map_thread_job nprocs len =
    if leb nprocs 1 || leb len 1
    then none
    else if ltb len nprocs
    then some (record { threads = len; chunk_size = 1; len = len })
    else some (record {
      threads = nprocs;
      chunk_size = if ltb 32 (len / nprocs) then 32 else len / nprocs;
      len = len;
    })

-- A share that is not 0, cut to 32, times the number of shares.
cut_share :
    (n len q : ℕ)
    → len / n ≡ q
    → 0 < n
    → n ≤ len
    → (0 < q) × (n * (if ltb 32 q then 32 else q) ≤ len)
cut_share n len q e some_proc h =
    let whole : n * (if ltb 32 q then 32 else q) ≤ n * q = mul-le-mul_left n (ground arith) in
    (
      omega (arith, e, (le-div_iff_mul-le {x = 1} {y = len} some_proc).1 (omega arith)),
      omega (arith, mul-div-le len n, whole, ap (λ t. n * t) e),
    )

-- Several threads are started, for an array of the length given, with chunks of 1 to 32 elements,
-- and the first chunks all lie inside the array.
pub map_thread_job_bounds :
    (nprocs len : ℕ) (job : Job)
    → map_thread_job nprocs len ≡ some job
    → (1 < job.threads)
      × (0 < job.chunk_size)
      × (job.chunk_size ≤ 32)
      × (job.threads * job.chunk_size ≤ job.len)
      × (job.len ≡ len)
unfolding map_thread_job
map_thread_job_bounds nprocs len job h =
    ground
      (arith, λ (p : 0 < nprocs) (q : nprocs ≤ len). cut_share nprocs len (len / nprocs) refl p q)
