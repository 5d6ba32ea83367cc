-- ===== src/Util/Scheduler.antt =====
-- libserver/util/Scheduler. The list of jobs is kept in two parts: the jobs before the iterator, and
-- those from it on, so that the iterator is the end of the list when the second part is empty.
-- Times are numbers, and one tick reads the clock once. A task is a number; what running it queues,
-- and whether it throws then, is an argument of the tick.
pub mod Liveness
use alicia_server.Common.{ℕ, Bool, true, false, List, [], ◌∷◌, ◌++◌, leb, if◌then◌else◌}

-- Scheduler::Job
pub record Job : Type 0 where
  pub due : ℕ
  pub task : ℕ

pub record Scheduler : Type 0 where
  pub before : List Job
  pub after : List Job

abbrev pub new_scheduler : Scheduler
new_scheduler = record { before = []; after = [] }

-- `emplace_back`; the end iterator stays the end.
unfoldable pub queue : Job → Scheduler → Scheduler
queue job s = elim s.after [
  | [] ↦ record s { before = s.before ++ job ∷ [] }
  | j ∷ js ↦ record s { after = (j ∷ js) ++ job ∷ [] }
]

-- What a tick does: nothing, a job, or a job that throws.
pub data Ticked : Type 0 where
  idle : Ticked
  executed failed : Job → Ticked

-- What a task has queued stands at the end of the list; if it throws, its job stays, and so does the
-- iterator.
unfoldable pub finish : List Job → Job → List Job → List Job × Bool → Scheduler × Ticked
finish before job after (queued, true) =
    (record { before = before; after = (job ∷ after) ++ queued }, failed job)
finish before job after (queued, false) =
    (record { before = before; after = after ++ queued }, executed job)

module _ (run : ℕ → List Job × Bool) where
  -- "Iterate over the jobs until you find one that can be executed."
  unfoldable pub scan : ℕ → List Job → List Job → Scheduler × Ticked
  unfolding finish
  scan now before [] = (record { before = before; after = [] }, idle)
  scan now before (job ∷ after) =
      let later = scan now (before ++ job ∷ []) after in
      if leb job.due now then finish before job after (run job.task) else later

  -- The end iterator goes back to the front first.
  unfoldable pub tick : ℕ → Scheduler → Scheduler × Ticked
  unfolding scan
  tick now s = elim s.after [ [] ↦ scan now [] s.before | j ∷ js ↦ scan now s.before (j ∷ js) ]

  -- Ticks at the times given, and what they do.
  unfoldable pub ticks : List ℕ → Scheduler → Scheduler × List Ticked
  unfolding tick
  ticks [] s = (s, [])
  ticks (now ∷ times) s =
      let (s', done) = tick now s in let (s'', more) = ticks times s' in (s'', done ∷ more)
