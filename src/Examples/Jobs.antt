-- ===== src/Examples/Jobs.antt =====
-- The job table (src/foundation/job.c, tests/test_job.c).
use petrush.Base.{ℕ, ◌≡◌, refl, false, none, some, [], ◌∷◌, get_elem?, if◌then◌else◌}
use petrush.Base.Int.{ℤ, pos, eq_ℤ}
use petrush.Text.{codes, decimal}
use petrush.Job.{Job, running, Table, reset, add, reap, notify, prune_done, print, count, reap_in}
use petrush.Job.Invariant.{IsTable}
use petrush.Job.Slots.{Added, add-Added}
use petrush.Job.Prompt.{Announced, notify-Announced, Reaping, reap-Reaping}
use petrush.Job.Reach.{Reach, start, added, reaped, Reach-IsTable}

-- A kernel with no state, for which pid 4000 was killed by signal 9 and all else still runs.
abbrev kernel : Unit {0} → ℤ → Unit {0} × ℤ × ℕ
kernel k pid = if eq_ℤ pid (pos 4000) then (k, pos 4000, 9) else (k, pos 0, 0)

abbrev one_job : Table
one_job = (add (pos 4000) (some (codes "sleep 9")) reset).1

abbrev two_jobs : Table
two_jobs = (add (pos 4001) none one_job).1

abbrev reaped_jobs : Table
reaped_jobs = (reap kernel tt two_jobs).1

-- The ids are the lowest that are free, and the notice is the one that the prompt shows.
ids : (add (pos 4001) none one_job).0 ≡ some 2
unfolding add
ids = refl

refused : (add (pos 0) none reset).0 ≡ none
unfolding add
refused = refl

notices : (notify reaped_jobs).1 ≡ codes "[1]+ Done  sleep 9\n" ∷ []
unfolding notify reap reap_in add decimal
notices = refl

listed : print reaped_jobs ≡ codes "[1]  Done  sleep 9\n" ∷ codes "[2]  Running  ?\n" ∷ []
unfolding print reap reap_in add decimal
listed = refl

left : (count (notify reaped_jobs).0 ≡ 1) × (count (prune_done reaped_jobs) ≡ 1)
unfolding count notify prune_done reap reap_in add
left = (refl, refl)

two_jobs-Reach : Reach kernel two_jobs
two_jobs-Reach = added (pos 4001) none (added (pos 4000) (some (codes "sleep 9")) start)

Reach-IsTable_example : IsTable two_jobs
Reach-IsTable_example = Reach-IsTable kernel two_jobs-Reach

reaped_jobs-IsTable : IsTable reaped_jobs
reaped_jobs-IsTable = Reach-IsTable kernel (reaped tt two_jobs-Reach)

one_job-IsTable : IsTable one_job
one_job-IsTable = Reach-IsTable kernel (added (pos 4000) (some (codes "sleep 9")) start)

add-Added_example : Added none one_job 2 two_jobs
add-Added_example = add-Added (pos 4001) none one_job one_job-IsTable 2 ids

notify-Announced_example : Announced reaped_jobs (notify reaped_jobs).0 (notify reaped_jobs).1
notify-Announced_example = notify-Announced reaped_jobs reaped_jobs-IsTable

reap-Reaping_example : Reaping two_jobs reaped_jobs
reap-Reaping_example = reap-Reaping kernel tt two_jobs

abbrev first_job : Job
first_job = record {
  id = 1;
  pid = pos 4000;
  state = running;
  status = 0;
  command = codes "sleep 9";
  notified = false;
}

first_slot : get_elem? two_jobs 0 ≡ some (some first_job)
unfolding add
first_slot = refl
