-- ===== src/Job.antt =====
-- The table of background jobs (src/foundation/job.c, include/petrush/job.h).
pub mod Invariant
pub mod Slots
pub mod Prompt
pub mod Reach
use mathlib.Core.Option
use petrush.Base.{
  ℕ, suc, ◌+◌, ◌-◌, ◌/◌, ◌%◌, Bool, true, false, not, ◌&&◌, ◌||◌, Option, none, some, List, [], ◌∷◌,
  ◌++◌, ltb, ◌==◌, if◌then◌else◌, get_elem?, set, replicate,
}
use petrush.Base.Int.{ℤ, pos, negsuc, is_positive, is_negative, eq_ℤ}
use petrush.Text.{Bytes, codes, decimal}

abbrev pub job_max : ℕ
job_max = 16

pub data JobState : Type 0 where
  running done : JobState

pub record Job : Type 0 where
  pub id : ℕ
  pub pid : ℤ
  pub state : JobState
  pub status : ℕ
  pub command : Bytes
  pub notified : Bool

-- `g_jobs` and `g_used` together: a slot whose flag is 0 has been cleared.
abbrev pub Table : Type 0
Table = List (Option Job)

-- The tables at program start, and after `petrush_job_reset_for_tests`.
abbrev pub reset : Table
reset = replicate job_max none

-- The <sys/wait.h> macros of Linux on a status word.
abbrev pub wifexited : ℕ → Bool
wifexited st = st % 128 == 0

abbrev pub wexitstatus : ℕ → ℕ
wexitstatus st = st / 256 % 256

abbrev pub wifsignaled : ℕ → Bool
wifsignaled st = not (st % 128 == 0) && not (st % 128 == 127)

abbrev pub wifstopped : ℕ → Bool
wifstopped st = st % 256 == 127

unfoldable pub status_to_code : ℕ → ℕ
status_to_code st =
    if wifexited st
    then wexitstatus st
    else if wifsignaled st
    then 128 + st % 128
    else if wifstopped st
    then 128 + wexitstatus st
    else 1

unfoldable pub count : Table → ℕ
count [] = 0
count (none ∷ t) = count t
count (some j ∷ t) = suc (count t)

-- The first free slot.
unfoldable pub find_free : Table → Option ℕ
find_free [] = none
find_free (none ∷ t) = some 0
find_free (some j ∷ t) = Option.map suc (find_free t)

-- The command that is kept: "?" for NULL and for the empty string.
abbrev pub label : Option Bytes → Bytes
label none = codes "?"
label (some []) = codes "?"
label (some (c ∷ cs)) = c ∷ cs

abbrev pub new_job : ℕ → ℤ → Option Bytes → Job
new_job slot pid command = record {
  id = slot + 1;
  pid = pid;
  state = running;
  status = 0;
  command = label command;
  notified = false;
}

abbrev pub place : ℤ → Option Bytes → Table → Option ℕ → Option ℕ × Table
place pid command t none = (none, t)
place pid command t (some slot) = (some (slot + 1), set t slot (some (new_job slot pid command)))

-- `none` is the result -1.
unfoldable pub add : ℤ → Option Bytes → Table → Option ℕ × Table
unfolding find_free
add pid command t = if is_positive pid then place pid command t (find_free t) else (none, t)

-- What the result `r` and the status `st` of `waitpid` make of a running job.
unfoldable pub reaped : Job → ℤ → ℕ → Job
unfolding status_to_code
reaped j r st =
    if eq_ℤ r j.pid
    then record j { state = done; status = status_to_code st }
    else if is_negative r
    then record j { state = done; status = 0 }
    else j

-- `waitpid(pid, &st, WNOHANG)` is the kernel's: a function of its state `K`.
module _ {K : Type 0} (waitpid : K → ℤ → K × ℤ × ℕ) where
  unfoldable pub reap_in : JobState → K → Job → K × Job
  unfolding reaped
  reap_in done k j = (k, j)
  reap_in running k j = let (k', r, st) = waitpid k j.pid in (k', reaped j r st)

  unfoldable pub reap : K → Table → K × Table
  reap k [] = (k, [])
  reap k (none ∷ t) = let (k', t') = reap k t in (k', none ∷ t')
  reap k (some j ∷ t) =
      let (k', j') = reap_in j.state k j in let (k'', t') = reap k' t in (k'', some j' ∷ t')

-- The line that `petrush_job_notify` prints.
abbrev pub notice : Job → Bytes
notice j = codes "[" ++ (decimal j.id ++ (codes "]+ Done  " ++ (j.command ++ codes "\n")))

-- What `petrush_job_notify` does at one occupied slot: the slot after it, and the lines printed.
abbrev pub notify_in : JobState → Bool → Job → Option Job × List Bytes
notify_in running n j = (some j, [])
notify_in done true j = (none, [])
notify_in done false j = (none, notice j ∷ [])

unfoldable pub notify : Table → Table × List Bytes
notify [] = ([], [])
notify (none ∷ t) = let (t', out) = notify t in (none ∷ t', out)
notify (some j ∷ t) =
    let (slot, line) = notify_in j.state j.notified j in
    let (t', out) = notify t in (slot ∷ t', line ++ out)

abbrev pub state_name : JobState → Bytes
state_name running = codes "Running"
state_name done = codes "Done"

abbrev pub listing : Job → Bytes
listing j =
    codes "["
    ++ (decimal j.id
        ++ (codes "]  " ++ (state_name j.state ++ (codes "  " ++ (j.command ++ codes "\n")))))

-- The lines of the `jobs` builtin.
unfoldable pub print : Table → List Bytes
print [] = []
print (none ∷ t) = print t
print (some j ∷ t) = listing j ∷ print t

abbrev pub prune_in : JobState → Job → Option Job
prune_in running j = some j
prune_in done j = none

unfoldable pub prune_done : Table → Table
prune_done [] = []
prune_done (none ∷ t) = none ∷ prune_done t
prune_done (some j ∷ t) = prune_in j.state j ∷ prune_done t

abbrev pub seen : Option (Option Job) → Option (JobState × ℕ × Bytes)
seen (some (some j)) = some (j.state, j.status, j.command)
seen _ = none

-- `none` is the result -1.
unfoldable pub probe : ℤ → Table → Option (JobState × ℕ × Bytes)
probe (negsuc n) t = none
probe (pos n) t = if ltb n 1 || ltb job_max n then none else seen (get_elem? t (n - 1))
