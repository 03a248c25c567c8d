-- ===== src/Job/Prompt.antt =====
-- Reaping and the notices before a prompt (src/foundation/job.c).
use petrush.Base.{
  ℕ, zero, suc, ◌+◌, ◌-◌, ◌*◌, ◌≤◌, ◌<◌, ◌≡◌, refl, ap, false, Option, none, some, List, [], ◌∷◌,
  map, arith, length, get_elem?, ltb, ◌||◌, Bool-cases, inl, inr,
}
use petrush.Base.Int.{ℤ, pos, negsuc, eq_ℤ_refl}
use petrush.Text.{Bytes}
use petrush.Job.{
  Job, JobState, running, done, Table, job_max, count, notify, notice, prune_done, reap, reap_in,
  reaped, status_to_code, probe, seen,
}
use petrush.Job.Invariant.{AreSlots, IsTable, notify-eq-prune_done}

-- The finished jobs in the order of their slots.
abbrev pub finished_in : JobState → Job → List Job → List Job
finished_in running j rest = rest
finished_in done j rest = j ∷ rest

abbrev pub finished : Table → List Job
finished [] = []
finished (none ∷ t) = finished t
finished (some j ∷ t) = finished_in j.state j (finished t)

notices : (i : ℕ) (t : Table) → AreSlots i t → (notify t).1 ≡ map notice (finished t)
unfolding notify
notices i [] s = refl
notices i (none ∷ t) s = notices (suc i) t s
notices i (some j ∷ t) s = ground (arith, notices (suc i) t s.1)

count-prune_done : (t : Table) → count (prune_done t) + length (finished t) ≡ count t
unfolding count prune_done
count-prune_done [] = refl
count-prune_done (none ∷ t) = count-prune_done t
count-prune_done (some j ∷ t) = ground (arith, count-prune_done t)

no_finished : (t : Table) → finished (prune_done t) ≡ []
unfolding prune_done
no_finished [] = refl
no_finished (none ∷ t) = no_finished t
no_finished (some j ∷ t) = ground (arith, no_finished t)

-- What is left of a probe's answer when the finished jobs have gone.
abbrev pub still_running : Option (JobState × ℕ × Bytes) → Option (JobState × ℕ × Bytes)
still_running (some (running, st, c)) = some (running, st, c)
still_running _ = none

seen_prune :
    (t : Table) (i : ℕ) → seen (get_elem? (prune_done t) i) ≡ still_running (seen (get_elem? t i))
unfolding prune_done
seen_prune [] i = refl
seen_prune (none ∷ t) zero = refl
seen_prune (none ∷ t) (suc i) = seen_prune t i
seen_prune (some j ∷ t) zero = ground arith
seen_prune (some j ∷ t) (suc i) = seen_prune t i

probe-prune_done : (t : Table) (i : ℤ) → probe i (prune_done t) ≡ still_running (probe i t)
unfolding probe
probe-prune_done t (negsuc n) = refl
probe-prune_done t (pos n) = ground (arith, seen_prune t (n - 1))

-- What the prompt announces of `t`: `t'` is the table after it, and `out` the lines.
pub record Announced (t t' : Table) (out : List Bytes) : Type 0 where
  pub lines : out ≡ map notice (finished t)
  pub none_left : finished t' ≡ []
  pub kept : (i : ℤ) → probe i t' ≡ still_running (probe i t)
  pub counted : count t' + length (finished t) ≡ count t

-- Before a prompt each finished job is announced once, in the order of the ids, and leaves the
-- table; the running jobs stay under their ids.
pub notify-Announced : (t : Table) → IsTable t → Announced t (notify t).0 (notify t).1
notify-Announced t v = rw (notify-eq-prune_done t v) (record {
  lines = notices 0 t v.slots;
  none_left = no_finished t;
  kept = probe-prune_done t;
  counted = count-prune_done t;
})

-- The shell's status of a child: its exit code, or 128 and the number of the signal that killed
-- it, with or without a core dump (bit 7).
pub status_to_code_lem :
    (c s core : ℕ)
    → c < 256
    → 1 ≤ s
    → s < 127
    → core < 2
    → (status_to_code (256 * c) ≡ c) × (status_to_code (128 * core + s) ≡ 128 + s)
unfolding status_to_code
status_to_code_lem c s core hc lo hi hb = ground arith

module _ {K : Type 0} (waitpid : K → ℤ → K × ℤ × ℕ) where
  -- Each slot is treated alone, at some state of the kernel.
  reap-get :
      (t : Table) (k : K) (i : ℕ) (j : Job)
      → get_elem? t i ≡ some (some j)
      → (k' : K) × (get_elem? (reap waitpid k t).1 i ≡ some (some (reap_in waitpid j.state k' j).1))
  unfolding reap
  reap-get [] k i j h = absurd (ground arith)
  reap-get (none ∷ t) k zero j h = absurd (ground arith)
  reap-get (none ∷ t) k (suc i) j h = reap-get t k i j h
  reap-get (some x ∷ t) k zero j h =
      let e : x ≡ j = ground arith in
      (k, ap (λ (y : Job). some (some (reap_in waitpid y.state k y).1)) e)
  reap-get (some x ∷ t) k (suc i) j h = reap-get t (reap_in waitpid x.state k x).0 i j h

  reap-get_none :
      (t : Table) (k : K) (i : ℕ)
      → get_elem? t i ≡ some none
      → get_elem? (reap waitpid k t).1 i ≡ some none
  unfolding reap
  reap-get_none [] k i h = absurd (ground arith)
  reap-get_none (none ∷ t) k zero h = refl
  reap-get_none (none ∷ t) k (suc i) h = reap-get_none t k i h
  reap-get_none (some x ∷ t) k zero h = absurd (ground arith)
  reap-get_none (some x ∷ t) k (suc i) h = reap-get_none t (reap_in waitpid x.state k x).0 i h

  pub count-reap : (k : K) (t : Table) → count (reap waitpid k t).1 ≡ count t
  unfolding reap count
  count-reap k [] = refl
  count-reap k (none ∷ t) = count-reap k t
  count-reap k (some j ∷ t) = ap suc (count-reap (reap_in waitpid j.state k j).0 t)

-- How `t'` follows from `t` by a reaping: no slot is freed or taken, what is finished keeps its
-- status, and every job keeps its command.
pub record Reaping (t t' : Table) : Type 0 where
  pub same_count : count t' ≡ count t
  pub free_stays : (i : ℤ) → probe i t ≡ none → probe i t' ≡ none
  pub finished_stays :
      (i : ℤ) (st : ℕ) (c : Bytes)
      → probe i t ≡ some (done, st, c)
      → probe i t' ≡ some (done, st, c)
  pub command_stays :
      (i : ℤ) (s : JobState) (st : ℕ) (c : Bytes)
      → probe i t ≡ some (s, st, c)
      → (s' : JobState) × (st' : ℕ) × (probe i t' ≡ some (s', st', c))

abbrev SeenReaping : Option (Option Job) → Option (Option Job) → Type 0
SeenReaping x y =
    (seen x ≡ none → seen y ≡ none)
    × ((st : ℕ) (c : Bytes) → seen x ≡ some (done, st, c) → seen y ≡ some (done, st, c))
    × ((s : JobState) (st : ℕ) (c : Bytes)
        → seen x ≡ some (s, st, c)
        → (s' : JobState) × (st' : ℕ) × (seen y ≡ some (s', st', c)))

module _ {K : Type 0} (waitpid : K → ℤ → K × ℤ × ℕ) where
  reap_in-command : (s : JobState) (k : K) (j : Job) → (reap_in waitpid s k j).1.command ≡ j.command
  unfolding reap_in reaped
  reap_in-command done k j = refl
  reap_in-command running k j = ground arith

  reap_in-finished : (k : K) (j : Job) → j.state ≡ done → (reap_in waitpid j.state k j).1 ≡ j
  unfolding reap_in
  reap_in-finished k j h = rw h refl

  SeenReaping-slot :
      (k : K) (j : Job) → SeenReaping (some (some j)) (some (some (reap_in waitpid j.state k j).1))
  SeenReaping-slot k j = (
    λ e. absurd (ground arith),
    λ st c e. rw (reap_in-finished k j (ground arith)) e,
    λ s st c e. (
      (reap_in waitpid j.state k j).1.state,
      (reap_in waitpid j.state k j).1.status,
      ground (arith, reap_in-command j.state k j),
    ),
  )

  SeenReaping-reap :
      (t : Table) (k : K) (i : ℕ) → SeenReaping (get_elem? t i) (get_elem? (reap waitpid k t).1 i)
  unfolding reap
  SeenReaping-reap [] k i = (λ e. e, λ st c e. e, λ s st c e. (s, st, e))
  SeenReaping-reap (none ∷ t) k zero = (λ e. e, λ st c e. e, λ s st c e. (s, st, e))
  SeenReaping-reap (none ∷ t) k (suc i) = SeenReaping-reap t k i
  SeenReaping-reap (some j ∷ t) k zero = SeenReaping-slot k j
  SeenReaping-reap (some j ∷ t) k (suc i) = SeenReaping-reap t (reap_in waitpid j.state k j).0 i

  probe-SeenReaping :
      (t : Table) (k : K) (i : ℤ)
      → (probe i t ≡ none → probe i (reap waitpid k t).1 ≡ none)
        × ((st : ℕ) (c : Bytes)
            → probe i t ≡ some (done, st, c)
            → probe i (reap waitpid k t).1 ≡ some (done, st, c))
        × ((s : JobState) (st : ℕ) (c : Bytes)
            → probe i t ≡ some (s, st, c)
            → (s' : JobState) × (st' : ℕ) × (probe i (reap waitpid k t).1 ≡ some (s', st', c)))
  unfolding probe
  probe-SeenReaping t k (negsuc n) = (λ e. e, λ st c e. e, λ s st c e. (s, st, e))
  probe-SeenReaping t k (pos n) = elim (Bool-cases (ltb n 1 || ltb job_max n)) [
    | inl e ↦ rw e (λ e. e, λ st c e. e, λ s st c e. (s, st, e))
    | inr e ↦ rw e (SeenReaping-reap t k (n - 1))
  ]

  -- Reaping never frees a slot or fills one, never changes the status of a finished job, and never
  -- changes a command, whatever the kernel answers.
  pub reap-Reaping : (k : K) (t : Table) → Reaping t (reap waitpid k t).1
  reap-Reaping k t = record {
    same_count = count-reap waitpid k t;
    free_stays = λ i. (probe-SeenReaping t k i).0;
    finished_stays = λ i. (probe-SeenReaping t k i).1;
    command_stays = λ i. (probe-SeenReaping t k i).2;
  }

  reap_in-exited :
      (k : K) (j : Job) (st : ℕ)
      → j.state ≡ running
      → (waitpid k j.pid).1 ≡ j.pid
      → (waitpid k j.pid).2 ≡ st
      → seen (some (some (reap_in waitpid j.state k j).1))
        ≡ some (done, status_to_code st, j.command)
  unfolding reap_in reaped
  reap_in-exited k j st r e s = rw r (rw (e, s, eq_ℤ_refl j.pid))

  -- A running job in slot `i` for which `waitpid` reports the status word `st`, at whatever state
  -- of the kernel it is asked, is afterwards seen as done with the shell's code for `st`.
  pub reap_exited :
      (k : K) (t : Table) (i : ℕ) (j : Job) (st : ℕ)
      → i < job_max
      → get_elem? t i ≡ some (some j)
      → j.state ≡ running
      → ((k' : K) → ((waitpid k' j.pid).1 ≡ j.pid) × ((waitpid k' j.pid).2 ≡ st))
      → probe (pos (i + 1)) (reap waitpid k t).1 ≡ some (done, status_to_code st, j.command)
  unfolding probe
  reap_exited k t i j st lt g r answers =
      let (k', e) = reap-get waitpid t k i j g in
      let back : (i + 1) - 1 ≡ i = omega arith in
      let inside : (ltb (i + 1) 1 || ltb job_max (i + 1)) ≡ false = ground arith in
      rw (inside, back, e) (reap_in-exited k' j st r (answers k').0 (answers k').1)
