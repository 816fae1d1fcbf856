-- ===== src/Threads/Once.antt =====
-- Every interleaving calls the mapper once for each index.
use nson.Prelude.{
  ℕ, zero, suc, ◌+◌, ◌*◌, ◌≤◌, ◌<◌, ◌≡◌, refl, true, false, ◌&&◌, ltb, leb, if◌then◌else◌, ◌==◌,
  arith, ap, Bool-cases, inl, inr,
}
use nson.Threads.Family.{update, sum_below, sum_below-update}
use nson.Threads.{
  Worker, running, returned, System, Job, in_chunk, start, call, claim, Step, calls_mapper,
  claims_chunk, Reach, started, later, AllReturned,
}

-- Whether the worker has yet to call the mapper at `k` in its present chunk.
holds : Job → ℕ → Worker → ℕ
holds job k returned = 0
holds job k (running i stop) = if leb i k && in_chunk job k stop then 1 else 0

-- Whether `k` lies in a chunk that was handed out.
reserved_at : Job → ℕ → ℕ → ℕ
reserved_at job reserved k = if ltb k reserved && ltb k job.len then 1 else 0

pending : Job → System → ℕ → ℕ
pending job s k = sum_below job.threads (λ id. holds job k (s.worker id))

-- An index that was handed out was called once, or one worker holds it; any other was not called.
abbrev Invariant : Job → System → Type 0
Invariant job s = (k : ℕ) → s.calls k + pending job s k ≡ reserved_at job s.reserved k

first_chunks :
    (job : Job) (n k : ℕ)
    → sum_below n
        (λ id. holds job k (running (id * job.chunk_size) (id * job.chunk_size + job.chunk_size)))
      ≡ reserved_at job (n * job.chunk_size) k
unfolding sum_below holds reserved_at in_chunk
first_chunks job zero k = ground arith
first_chunks job (suc n) k = ground (arith, first_chunks job n k)

Invariant-start : (job : Job) → Invariant job (start job)
unfolding start pending
Invariant-start job k = omega (arith, first_chunks job job.threads k)

abbrev tick : ℕ → ℕ → ℕ
tick i k = if i == k then 1 else 0

holds-call :
    (job : Job) (k i stop : ℕ)
    → in_chunk job i stop ≡ true
    → holds job k (running i stop) ≡ holds job k (running (i + 1) stop) + tick i k
unfolding holds in_chunk
holds-call job k i stop h = ground arith

holds_idle :
    (job : Job) (k i stop : ℕ) → in_chunk job i stop ≡ false → holds job k (running i stop) ≡ 0
unfolding holds in_chunk
holds_idle job k i stop h = ground arith

holds_claimed :
    (job : Job) (k reserved : ℕ)
    → holds job k
          (if ltb reserved job.len then running reserved (reserved + job.chunk_size) else returned)
        + reserved_at job reserved k
      ≡ reserved_at job (reserved + job.chunk_size) k
unfolding holds in_chunk reserved_at
holds_claimed job k reserved = ground arith

update_calls : (f : ℕ → ℕ) (i k : ℕ) → update f i (f i + 1) k ≡ f k + tick i k
update_calls f i k = elim (Bool-cases (i == k)) [
  | inl same ↦ let e : i ≡ k = ground arith in rw same (ap (λ t. f t + 1) e)
  | inr other ↦ rw other (omega arith)
]

Invariant-Step : (job : Job) {s t : System} → Step job s t → Invariant job s → Invariant job t
unfolding call claim pending
Invariant-Step job (calls_mapper s id i stop h at chunk) inv k = omega (
  arith,
  inv k,
  update_calls s.calls i k,
  holds-call job k i stop chunk,
  ap (holds job k) at,
  sum_below-update (holds job k) job.threads s.worker id (running (i + 1) stop) h,
)
Invariant-Step job (claims_chunk s id i stop h at chunk) inv k = omega (
  arith,
  inv k,
  holds_idle job k i stop chunk,
  holds_claimed job k s.reserved,
  ap (holds job k) at,
  sum_below-update (holds job k) job.threads s.worker id
      (if ltb s.reserved job.len
        then running s.reserved (s.reserved + job.chunk_size)
        else returned)
      h,
)

Reach-Invariant : (job : Job) {s : System} → Reach job s → Invariant job s
Reach-Invariant job started = Invariant-start job
Reach-Invariant job (later r st) = Invariant-Step job st (Reach-Invariant job r)

-- In every state of every interleaving, the mapper was called once at most for an index of
-- the array, and never for an index outside it.
pub calls_le_one :
    (job : Job) (s : System) (k : ℕ) → Reach job s → s.calls k ≤ (if ltb k job.len then 1 else 0)
calls_le_one job s k r = let inv = Reach-Invariant job r k in unfold reserved_at in ground arith

-- A worker returns only when the whole array was handed out.
abbrev ReturnsLate : Job → System → Type 0
ReturnsLate job s = (id : ℕ) → s.worker id ≡ returned → job.len ≤ s.reserved

ReturnsLate-call :
    (job : Job) (s : System) (id i stop : ℕ)
    → ReturnsLate job s
    → ReturnsLate job (call s id i stop)
unfolding call
ReturnsLate-call job s id i stop late j e = elim (Bool-cases (id == j)) [
  | inl same ↦ cc (rw same at e)
  | inr other ↦ late j (rw other at e)
]

ReturnsLate-claim :
    (job : Job) (s : System) (id : ℕ) → ReturnsLate job s → ReturnsLate job (claim job s id)
unfolding claim
ReturnsLate-claim job s id late j e = elim (Bool-cases (id == j)) [
  | inl same ↦ let e' = rw same at e in ground arith
  | inr other ↦ omega (arith, late j (rw other at e))
]

Reach-ReturnsLate : (job : Job) {s : System} → Reach job s → ReturnsLate job s
Reach-ReturnsLate job started = unfold start in λ id e. cc
Reach-ReturnsLate job (later r (calls_mapper s id i stop h at chunk)) =
    ReturnsLate-call job s id i stop (Reach-ReturnsLate job r)
Reach-ReturnsLate job (later r (claims_chunk s id i stop h at chunk)) =
    ReturnsLate-claim job s id (Reach-ReturnsLate job r)

sum_below_zero : (n : ℕ) (w : ℕ → ℕ) → ((i : ℕ) → i < n → w i ≡ 0) → sum_below n w ≡ 0
unfolding sum_below
sum_below_zero zero w h = refl
sum_below_zero (suc n) w h =
    omega (arith, sum_below_zero n w (λ i hi. h i (omega arith)), h n (omega arith))

pending_returned : (job : Job) (s : System) (k : ℕ) → AllReturned job s → pending job s k ≡ 0
unfolding pending holds
pending_returned job s k all =
    sum_below_zero job.threads (λ id. holds job k (s.worker id)) (λ id h. rw (all id h))

-- When all workers have returned, of which there is one at least, the mapper was called exactly
-- once for each index of the array, in whatever order their steps came.
pub calls_eq_one :
    (job : Job) (s : System) (k : ℕ)
    → Reach job s
    → AllReturned job s
    → 0 < job.threads
    → k < job.len
    → s.calls k ≡ 1
calls_eq_one job s k r all some_thread inside =
    let inv = Reach-Invariant job r k in
    let late = Reach-ReturnsLate job r 0 (all 0 some_thread) in
    let nothing = pending_returned job s k all in unfold reserved_at in ground arith
