-- ===== src/Threads/Progress.antt =====
-- The workers come to an end: each step uses up work, and a worker that has not returned can step.
use nson.Prelude.{
  ℕ, zero, suc, ◌+◌, ◌-◌, ◌*◌, ◌≤◌, ◌<◌, ◌≡◌, ◌∙◌, ◌==◌, refl, ltb, if◌then◌else◌, arith, ap,
  Bool-cases, inl, inr, ◌⊎◌,
}
use nson.Threads.Family.{sum_below, sum_below-update}
use nson.Threads.{
  Worker, running, returned, System, Job, in_chunk, call, claim, Step, calls_mapper, claims_chunk,
  AllReturned,
}

-- The steps that a worker needs for its chunk, with the critical section behind it.
unfoldable pub weight : Job → Worker → ℕ
weight job returned = 0
weight job (running i stop) = (if ltb stop job.len then stop else job.len) - i + 1

-- What is not handed out counts twice: for the calls, and for the critical sections.
unfoldable pub work : Job → System → ℕ
work job s = 2 * (job.len - s.reserved) + sum_below job.threads (λ id. weight job (s.worker id))

-- A sequence of steps, with their number.
pub data Steps (job : Job) : ℕ → System → System → Type 0 where
  stay : {s : System} → Steps job 0 s s
  go : {n : ℕ} {s t u : System} → Step job s t → Steps job n t u → Steps job (suc n) s u

pub work-Step :
    (job : Job) {s t : System} → 0 < job.chunk_size → Step job s t → work job t < work job s
unfolding work weight call claim in_chunk
work-Step job sized (calls_mapper s id i stop h at chunk) =
    let sum = sum_below-update (weight job) job.threads s.worker id (running (i + 1) stop) h in
    let now = ap (weight job) at in ground arith
work-Step job sized (claims_chunk s id i stop h at chunk) =
    let next =
      if ltb s.reserved job.len
      then running s.reserved (s.reserved + job.chunk_size)
      else returned in
    let sum = sum_below-update (weight job) job.threads s.worker id next h in
    let now = ap (weight job) at in ground arith

-- With chunks that are not empty, no interleaving goes on for ever: the steps taken and the work
-- left are at most the work there was.
pub work-Steps :
    (job : Job) {n : ℕ} {s t : System}
    → 0 < job.chunk_size
    → Steps job n s t
    → n + work job t ≤ work job s
work-Steps job sized stay = omega arith
work-Steps job sized (go st more) = omega (arith, work-Step job sized st, work-Steps job sized more)

worker_moves :
    (job : Job) (s : System) (id : ℕ) (w : Worker)
    → id < job.threads
    → s.worker id ≡ w
    → (w ≡ returned) ⊎ ((t : System) × Step job s t)
worker_moves job s id returned h at = inl refl
worker_moves job s id (running i stop) h at = elim (Bool-cases (in_chunk job i stop)) [
  | inl inside ↦ inr (call s id i stop, calls_mapper s id i stop h at inside)
  | inr outside ↦ inr (claim job s id, claims_chunk s id i stop h at outside)
]

returned_or_steps :
    (job : Job) (s : System) (n : ℕ)
    → n ≤ job.threads
    → ((id : ℕ) → id < n → s.worker id ≡ returned) ⊎ ((t : System) × Step job s t)
returned_or_steps job s zero h = inl (λ id below. absurd (omega arith))
returned_or_steps job s (suc n) h = elim (returned_or_steps job s n (omega arith)) [
  | inr st ↦ inr st
  | inl all ↦ elim (worker_moves job s n (s.worker n) (omega arith) refl) [
    | inr st ↦ inr st
    | inl last ↦ inl (λ id below. elim (Bool-cases (id == n)) [
      | inl same ↦ let e : id ≡ n = ground arith in ap s.worker e ∙ last
      | inr other ↦ all id (ground arith)
    ])
  ]
]

-- Either all workers have returned, or one of them can step.
pub workers_proceed : (job : Job) (s : System) → AllReturned job s ⊎ ((t : System) × Step job s t)
workers_proceed job s = returned_or_steps job s job.threads (omega arith)
