-- ===== src/Threads/Finish.antt =====
-- A threaded map of src/map_reduce.c can always be brought to its end, from every state of it.
use nson.Prelude.{ℕ, zero, suc, ◌≤◌, ◌<◌, ◌≡◌, arith, inl, inr}
use nson.Threads.{System, Job, Reach, later, AllReturned}
use nson.Threads.Once.{calls_eq_one}
use nson.Threads.Progress.{work, Steps, stay, go, work-Step, work-Steps, workers_proceed}

-- A run from a state of the map to one in which all workers have returned.
abbrev FinishesFrom : Job → System → Type 0
FinishesFrom job s = (n : ℕ) × (t : System) × Steps job n s t × Reach job t × AllReturned job t

finish_within :
    (job : Job) (fuel : ℕ) (s : System)
    → 0 < job.chunk_size
    → work job s ≤ fuel
    → Reach job s
    → FinishesFrom job s
finish_within job zero s sized enough r = elim (workers_proceed job s) [
  | inl all ↦ (0, s, stay, r, all)
  | inr (t, st) ↦ absurd (omega (arith, work-Step job sized st))
]
finish_within job (suc fuel) s sized enough r = elim (workers_proceed job s) [
  | inl all ↦ (0, s, stay, r, all)
  | inr (t, st) ↦
      let (n, u, run, reached, all) =
        finish_within job fuel t sized (omega (arith, work-Step job sized st)) (later r st) in
      (suc n, u, go st run, reached, all)
]

-- From every state that some interleaving reaches, with chunks that are not empty and at least one
-- worker, and critical sections taken whole, the workers can go on until all have returned. That takes
-- no more steps than the work that is left, and then the mapper was called exactly once for each index
-- of the array.
pub workers_finish :
    (job : Job) (s : System)
    → 0 < job.chunk_size
    → 0 < job.threads
    → Reach job s
    → (n : ℕ) × (t : System) × Steps job n s t
      × (n ≤ work job s)
      × AllReturned job t
      × ((k : ℕ) → k < job.len → t.calls k ≡ 1)
workers_finish job s sized some_worker r =
    let (n, t, run, reached, all) = finish_within job (work job s) s sized (omega arith) r in
    (
      n,
      t,
      run,
      omega (arith, work-Steps job sized run),
      all,
      λ k inside. calls_eq_one job t k reached all some_worker inside,
    )
