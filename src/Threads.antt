-- ===== src/Threads.antt =====
-- `nson_map_thread_ext` and `map_thread_wrapper` of src/map_reduce.c: threads that map the chunks of
-- one array. A step is one call of the mapper, or one critical section.
pub mod Family
pub mod Once
pub mod Progress
pub mod Finish
pub mod Settings
use nson.Prelude.{
  ℕ, zero, suc, ◌+◌, ◌*◌, ◌≤◌, ◌<◌, ◌≡◌, Bool, true, false, not, ◌&&◌, ltb, if◌then◌else◌, ◌==◌,
}
use nson.Threads.Family.{update}

-- The variables `i` and `end` of a thread, until it returns.
pub data Worker : Type 0 where
  running : ℕ → ℕ → Worker
  returned : Worker

-- The shared `reserved`, the workers by their id, and how often the mapper was called at an index.
pub record System : Type 0 where
  pub reserved : ℕ
  pub worker : ℕ → Worker
  pub calls : ℕ → ℕ

-- The settings, and the length of the array.
pub record Job : Type 0 where
  pub threads : ℕ
  pub chunk_size : ℕ
  pub len : ℕ

-- `i < end && i < thread->len`
unfoldable pub in_chunk : Job → ℕ → ℕ → Bool
in_chunk job i stop = ltb i stop && ltb i job.len

-- What stands before the first rounds: each worker starts with the chunk of its id.
unfoldable pub start : Job → System
start job = record {
  reserved = job.threads * job.chunk_size;
  worker = λ id. running (id * job.chunk_size) (id * job.chunk_size + job.chunk_size);
  calls = λ k. 0;
}

-- The body of the `for` loop, at the index `i`.
unfoldable pub call : System → ℕ → ℕ → ℕ → System
call s id i stop = record s {
  worker = update s.worker id (running (i + 1) stop);
  calls = update s.calls i (s.calls i + 1);
}

-- The critical section, with the test of the `while` loop behind it.
unfoldable pub claim : Job → System → ℕ → System
claim job s id =
    let stop = s.reserved + job.chunk_size in
    record s {
      reserved = stop;
      worker =
          update s.worker id (if ltb s.reserved job.len then running s.reserved stop else returned);
    }

-- One step of one of the workers.
pub data Step (job : Job) : System → System → Type 0 where
  calls_mapper :
      (s : System) (id i stop : ℕ)
      → id < job.threads
      → s.worker id ≡ running i stop
      → in_chunk job i stop ≡ true
      → Step job s (call s id i stop)
  claims_chunk :
      (s : System) (id i stop : ℕ)
      → id < job.threads
      → s.worker id ≡ running i stop
      → in_chunk job i stop ≡ false
      → Step job s (claim job s id)

-- The states that some interleaving of the workers reaches.
pub data Reach (job : Job) : System → Type 0 where
  started : Reach job (start job)
  later : {s t : System} → Reach job s → Step job s t → Reach job t

-- What the joins of `nson_map_thread_ext` wait for.
abbrev pub AllReturned : Job → System → Type 0
AllReturned job s = (id : ℕ) → id < job.threads → s.worker id ≡ returned
