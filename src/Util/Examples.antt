-- ===== src/Util/Examples.antt =====
-- Dates and texts.
use alicia_server.Common.{
  Bool, false, true, some, get_elem?, ℕ, ◌+◌, ◌≤◌, ◌≡◌, refl, List, [], ◌∷◌, arith,
}
use alicia_server.Util.Time.{DateTime, date_time_to_alicia_shop_time}
use alicia_server.Util.Scheduler.{
  Job, Scheduler, new_scheduler, queue, executed, failed, ticks, tick, scan, finish,
}
use alicia_server.Util.Scheduler.Liveness.{pending, taken, put, tick-pending, ticks-executed}
use alicia_server.Util.Tokens.{tokenize_string, token_loop, split_first}
use alicia_server.Util.Tokens.Join.{AreTokens, tokenize_string-AreTokens}

abbrev halloween : DateTime
halloween = record { years = 2025; months = 10; days = 31; hours = 23; minutes = 59; seconds = 58 }

-- The dates of TestAliciaShopTime.
halloween_words : date_time_to_alicia_shop_time halloween ≡ (0x000a07e9, 0x0017001f, 0x003a003b)
unfolding date_time_to_alicia_shop_time
halloween_words = refl

-- "a,,b" at the commas
abbrev listed_text : List ℕ
listed_text = 97 ∷ 44 ∷ 44 ∷ 98 ∷ []

three_tokens : tokenize_string 44 listed_text ≡ (97 ∷ []) ∷ [] ∷ (98 ∷ []) ∷ []
unfolding tokenize_string token_loop split_first
three_tokens = refl

tokenize_string-AreTokens_example : AreTokens 44 listed_text (tokenize_string 44 listed_text)
tokenize_string-AreTokens_example = tokenize_string-AreTokens 44 listed_text

abbrev job : ℕ → Job
job task = record { due = task; task = task }

-- Every task queues nothing.
abbrev queues_nothing : ℕ → List Job × Bool
queues_nothing task = ([], false)

never_throws : (task : ℕ) → (queues_nothing task).1 ≡ false
never_throws task = refl

abbrev three_jobs : Scheduler
three_jobs = record { before = job 4 ∷ []; after = job 9 ∷ job 1 ∷ [] }

tick-pending_example :
    let (s', done) = tick queues_nothing 5 three_jobs in
    pending 1 s' + taken 1 done ≡ pending 1 three_jobs + put queues_nothing 1 done
tick-pending_example = tick-pending queues_nothing 1 5 three_jobs

ticks-executed_example :
    (i : ℕ) × (i ≤ 1)
    × (get_elem? (ticks queues_nothing (5 ∷ 6 ∷ []) three_jobs).1 i ≡ some (executed (job 1)))
ticks-executed_example =
    ticks-executed queues_nothing never_throws (job 1) (job 9 ∷ []) [] (5 ∷ 6 ∷ []) three_jobs refl
      (omega arith, (omega arith, tt)) (omega arith)

-- A task that queues itself again: the job before the iterator waits.
abbrev queues_itself : ℕ → List Job × Bool
queues_itself task = (job task ∷ [], false)

waits_behind :
    tick queues_itself 9 (record { before = job 4 ∷ []; after = job 1 ∷ [] })
    ≡ (record { before = job 4 ∷ []; after = job 1 ∷ [] }, executed (job 1))
unfolding tick scan finish
waits_behind = refl

-- It throws after that: its job stays as well.
queues_and_throws :
    tick (λ task. (job task ∷ [], true)) 9 (record { before = []; after = job 1 ∷ [] })
    ≡ (record { before = []; after = job 1 ∷ job 1 ∷ [] }, failed (job 1))
unfolding tick scan finish
queues_and_throws = refl

-- The jobs of TestSequencedTasks run in the order in which they were queued.
runs_in_order :
    (ticks queues_nothing
      (9 ∷ 9 ∷ 9 ∷ [])
      (queue (job 3) (queue (job 2) (queue (job 1) new_scheduler)))).1
    ≡ executed (job 1) ∷ executed (job 2) ∷ executed (job 3) ∷ []
unfolding ticks tick scan finish queue
runs_in_order = refl
