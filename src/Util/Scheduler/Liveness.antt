-- ===== src/Util/Scheduler/Liveness.antt =====
-- A job that is due is executed, and no job is lost.
use alicia_server.Common.{
  ℕ, suc, ◌+◌, ◌≤◌, ◌<◌, ◌≡◌, ◌⊎◌, inl, inr, refl, ap, Bool, true, false, some, List, [], ◌∷◌, ◌++◌,
  leb, ◌==◌, if◌then◌else◌, arith, length, All, get_elem?, Bool-cases,
}
use mathlib.Core.List.{append_assoc}
use alicia_server.Util.Scheduler.{
  Job, Scheduler, Ticked, idle, executed, failed, finish, scan, tick, ticks,
}

-- How often a task stands in a list of jobs, and among them before and after the iterator.
abbrev pub count : ℕ → List Job → ℕ
count task [] = 0
count task (job ∷ jobs) = let rest = count task jobs in if job.task == task then suc rest else rest

count-append : (task : ℕ) (xs ys : List Job) → count task (xs ++ ys) ≡ count task xs + count task ys
count-append task [] ys = omega arith
count-append task (x ∷ xs) ys = ground (arith, count-append task xs ys)

abbrev pub pending : ℕ → Scheduler → ℕ
pending task s = count task s.before + count task s.after

-- What a tick takes out of the list and what it puts into it.
abbrev pub taken : ℕ → Ticked → ℕ
taken task idle = 0
taken task (executed job) = if job.task == task then 1 else 0
taken task (failed job) = 0

module _ (run : ℕ → List Job × Bool) where
  abbrev pub put : ℕ → Ticked → ℕ
  put task idle = 0
  put task (executed job) = count task (run job.task).0
  put task (failed job) = count task (run job.task).0

  finish-pending :
      (task : ℕ) (before : List Job) (job : Job) (after : List Job) (o : List Job × Bool)
      → run job.task ≡ o
      → let (s, done) = finish before job after o in
        pending task s + taken task done
        ≡ count task before + count task (job ∷ after) + put task done
  unfolding finish
  finish-pending task before job after (queued, true) e =
      ground (arith, count-append task (job ∷ after) queued, ap (λ o. count task o.0) e)
  finish-pending task before job after (queued, false) e =
      ground (arith, count-append task after queued, ap (λ o. count task o.0) e)

  scan-pending :
      (task now : ℕ) (before after : List Job)
      → let (s, done) = scan run now before after in
        pending task s + taken task done ≡ count task before + count task after + put task done
  unfolding scan
  scan-pending task now before [] = omega arith
  scan-pending task now before (job ∷ after) = ground (
    arith,
    finish-pending task before job after (run job.task) refl,
    scan-pending task now (before ++ job ∷ []) after,
    count-append task before (job ∷ []),
  )

  -- A tick loses no job and executes none twice: how often a task stands in the list before and
  -- after differs by its being executed and by what the executed task has queued.
  pub tick-pending :
      (task now : ℕ) (s : Scheduler)
      → let (s', done) = tick run now s in
        pending task s' + taken task done ≡ pending task s + put task done
  unfolding tick
  tick-pending task now s = go s.after refl
    where
      go :
          (after : List Job)
          → s.after ≡ after
          → let (s', done) = tick run now (record s { after = after }) in
            pending task s' + taken task done
            ≡ count task s.before + count task after + put task done
      go [] e = omega (arith, scan-pending task now [] s.before)
      go (j ∷ js) e = scan-pending task now s.before (j ∷ js)

  -- A job that stands behind the iterator and is due comes to its turn or comes closer.
  abbrev ComesCloser : Job → List Job → Scheduler × Ticked → Type 0
  ComesCloser job ahead (s, done) =
      (done ≡ executed job)
      ⊎ ((ahead' : List Job) × (behind' : List Job) × (s.after ≡ ahead' ++ job ∷ behind')
          × (length ahead' < length ahead))

  finish-ComesCloser :
      (before ahead : List Job) (first job : Job) (behind : List Job) (o : List Job × Bool)
      → o.1 ≡ false
      → ComesCloser job (first ∷ ahead) (finish before first (ahead ++ job ∷ behind) o)
  unfolding finish
  finish-ComesCloser before ahead first job behind (queued, true) n = absurd (cc)
  finish-ComesCloser before ahead first job behind (queued, false) n =
      inr (ahead, behind ++ queued, append_assoc ahead (job ∷ behind) queued, omega arith)

  finish-executed :
      (before behind : List Job) (job : Job) (o : List Job × Bool)
      → o.1 ≡ false
      → (finish before job behind o).1 ≡ executed job
  unfolding finish
  finish-executed before behind job (queued, true) n = absurd (cc)
  finish-executed before behind job (queued, false) n = refl

  module _ (never_throws : (task : ℕ) → (run task).1 ≡ false) where
    scan-ComesCloser :
        (now : ℕ) (before ahead : List Job) (job : Job) (behind : List Job)
        → job.due ≤ now
        → ComesCloser job ahead (scan run now before (ahead ++ job ∷ behind))
    unfolding scan
    scan-ComesCloser now before [] job behind due =
        let t : leb job.due now ≡ true = ground arith in
        inl (rw t (finish-executed before behind job (run job.task) (never_throws job.task)))
    scan-ComesCloser now before (first ∷ ahead) job behind due =
        elim (Bool-cases (leb first.due now)) [
          | inl t ↦ rw t (
              finish-ComesCloser before ahead first job behind (run first.task)
                (never_throws first.task))
          | inr f ↦ rw f (
              weaken (scan run now (before ++ first ∷ []) (ahead ++ job ∷ behind))
                (scan-ComesCloser now (before ++ first ∷ []) ahead job behind due))
        ]
      where
        weaken :
            (r : Scheduler × Ticked) → ComesCloser job ahead r → ComesCloser job (first ∷ ahead) r
        weaken r (inl e) = inl e
        weaken r (inr (ahead', behind', e, h)) = inr (ahead', behind', e, omega arith)

    tick-ComesCloser :
        (now : ℕ) (ahead : List Job) (job : Job) (behind : List Job) (s : Scheduler)
        → s.after ≡ ahead ++ job ∷ behind
        → job.due ≤ now
        → ComesCloser job ahead (tick run now s)
    unfolding tick
    tick-ComesCloser now [] job behind s e due =
        rw e (scan-ComesCloser now s.before [] job behind due)
    tick-ComesCloser now (first ∷ ahead) job behind s e due =
        rw e (scan-ComesCloser now s.before (first ∷ ahead) job behind due)

    -- A job that stands at or behind the iterator, with `n` jobs between, is executed in one of the
    -- first `n + 1` ticks at times at which it is due, whatever the tasks queue in the meantime,
    -- where no task throws.
    pub ticks-executed :
        (job : Job) (ahead behind : List Job) (times : List ℕ) (s : Scheduler)
        → s.after ≡ ahead ++ job ∷ behind
        → All (λ now. job.due ≤ now) times
        → length ahead < length times
        → (i : ℕ) × (i ≤ length ahead) × (get_elem? (ticks run times s).1 i ≡ some (executed job))
    unfolding ticks
    ticks-executed job ahead behind [] s e due h = absurd (omega arith)
    ticks-executed job ahead behind (now ∷ times) s e due h =
        elim (tick-ComesCloser now ahead job behind s e due.0) [
          | inl d ↦ (0, omega arith, ap some d)
          | inr (ahead', behind', e', closer) ↦
              let (i, le, at) =
                ticks-executed job ahead' behind' times (tick run now s).0 e' due.1 (omega arith) in
              (suc i, omega arith, at)
        ]
