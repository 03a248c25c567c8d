-- ===== src/Job/Invariant.antt =====
-- The invariant of the job table and its preservation (src/foundation/job.c).
use petrush.Base.{
  ℕ, zero, suc, ◌+◌, ◌<◌, ◌≡◌, ◌≢◌, refl, ap, ◌∙◌, true, false, Option, none, some, [], ◌∷◌, arith,
  length, set, inl, inr, Bool-cases, Option-cases, length-set,
}
use petrush.Base.Int.{ℤ, is_positive}
use petrush.Text.{Bytes}
use petrush.Job.{
  Job, JobState, running, done, Table, job_max, reset, label, new_job, add, find_free, reap_in,
  reap, reaped, notify, prune_done,
}

-- What holds of a job in slot `i`.
pub record IsJob (i : ℕ) (j : Job) : Type 0 where
  pub id_is : j.id ≡ i + 1
  pub pid_positive : is_positive j.pid ≡ true
  pub has_command : j.command ≢ []
  pub fresh : j.notified ≡ false

-- Every job stands in the slot that its id names; the first slot of the list has index `i`.
abbrev pub AreSlots : ℕ → Table → Type 0
AreSlots i [] = Unit
AreSlots i (none ∷ t) = AreSlots (suc i) t
AreSlots i (some j ∷ t) = IsJob i j × AreSlots (suc i) t

pub record IsTable (t : Table) : Type 0 where
  pub full_length : length t ≡ job_max
  pub slots : AreSlots 0 t

pub find_free-lt : (t : Table) (k : ℕ) → find_free t ≡ some k → k < length t
unfolding find_free
find_free-lt [] k h = ground arith
find_free-lt (none ∷ t) k h = ground arith
find_free-lt (some j ∷ t) k h = elim (Option-cases (find_free t)) [
  | inl e ↦ ground arith
  | inr (m, e) ↦ ground (arith, find_free-lt t m e)
]

label-ne-nil : (command : Option Bytes) → label command ≢ []
label-ne-nil none = ground arith
label-ne-nil (some []) = ground arith
label-ne-nil (some (c ∷ cs)) = ground arith

new_job-IsJob :
    (i : ℕ) (pid : ℤ) (command : Option Bytes)
    → is_positive pid ≡ true
    → IsJob i (new_job i pid command)
new_job-IsJob i pid command h = record {
  id_is = refl;
  pid_positive = h;
  has_command = label-ne-nil command;
  fresh = refl;
}

IsJob-at : (a b : ℕ) (j : Job) → a ≡ b → IsJob a j → IsJob b j
IsJob-at a b j e h = rw (← e) h

set-AreSlots :
    (t : Table) (i k m : ℕ) (j : Job)
    → i + k ≡ m
    → IsJob m j
    → AreSlots i t
    → AreSlots i (set t k (some j))
set-AreSlots [] i k m j e h s = tt
set-AreSlots (none ∷ t) i zero m j e h s = (IsJob-at m i j (omega arith) h, s)
set-AreSlots (some x ∷ t) i zero m j e h s = (IsJob-at m i j (omega arith) h, s.1)
set-AreSlots (none ∷ t) i (suc k) m j e h s = set-AreSlots t (suc i) k m j (omega arith) h s
set-AreSlots (some x ∷ t) i (suc k) m j e h s =
    (s.0, set-AreSlots t (suc i) k m j (omega arith) h s.1)

pub reset-IsTable : IsTable reset
reset-IsTable = record { full_length = refl; slots = tt }

pub add-IsTable :
    (pid : ℤ) (command : Option Bytes) (t : Table) → IsTable t → IsTable (add pid command t).1
unfolding add
add-IsTable pid command t v = elim (Bool-cases (is_positive pid)) [
  | inl p ↦ rw p (elim (Option-cases (find_free t)) [
    | inl e ↦ rw e v
    | inr (k, e) ↦ rw e (record {
      full_length = omega (arith, length-set t k (some (new_job k pid command)));
      slots =
          set-AreSlots t 0 k k (new_job k pid command) (omega arith) (new_job-IsJob k pid command p)
            v.slots;
    })
  ])
  | inr p ↦ rw p v
]

module _ {K : Type 0} (waitpid : K → ℤ → K × ℤ × ℕ) where
  reaped-IsJob : (i : ℕ) (j : Job) (r : ℤ) (st : ℕ) → IsJob i j → IsJob i (reaped j r st)
  unfolding reaped
  reaped-IsJob i j r st h = ground arith

  reap_in-IsJob :
      (s : JobState) (i : ℕ) (k : K) (j : Job) → IsJob i j → IsJob i (reap_in waitpid s k j).1
  unfolding reap_in
  reap_in-IsJob done i k j h = h
  reap_in-IsJob running i k j h = reaped-IsJob i j (waitpid k j.pid).1 (waitpid k j.pid).2 h

  reap-AreSlots : (i : ℕ) (k : K) (t : Table) → AreSlots i t → AreSlots i (reap waitpid k t).1
  unfolding reap
  reap-AreSlots i k [] s = tt
  reap-AreSlots i k (none ∷ t) s = reap-AreSlots (suc i) k t s
  reap-AreSlots i k (some j ∷ t) s =
      (reap_in-IsJob j.state i k j s.0, reap-AreSlots (suc i) (reap_in waitpid j.state k j).0 t s.1)

  length-reap : (k : K) (t : Table) → length (reap waitpid k t).1 ≡ length t
  unfolding reap
  length-reap k [] = refl
  length-reap k (none ∷ t) = ap suc (length-reap k t)
  length-reap k (some j ∷ t) = ap suc (length-reap (reap_in waitpid j.state k j).0 t)

  pub reap-IsTable : (k : K) (t : Table) → IsTable t → IsTable (reap waitpid k t).1
  reap-IsTable k t v = record {
    full_length = length-reap k t ∙ v.full_length;
    slots = reap-AreSlots 0 k t v.slots;
  }

prune_done-AreSlots : (i : ℕ) (t : Table) → AreSlots i t → AreSlots i (prune_done t)
unfolding prune_done
prune_done-AreSlots i [] s = tt
prune_done-AreSlots i (none ∷ t) s = prune_done-AreSlots (suc i) t s
prune_done-AreSlots i (some j ∷ t) s = ground (arith, prune_done-AreSlots (suc i) t s.1)

length-prune_done : (t : Table) → length (prune_done t) ≡ length t
unfolding prune_done
length-prune_done [] = refl
length-prune_done (none ∷ t) = ap suc (length-prune_done t)
length-prune_done (some j ∷ t) = ap suc (length-prune_done t)

pub prune_done-IsTable : (t : Table) → IsTable t → IsTable (prune_done t)
prune_done-IsTable t v = record {
  full_length = length-prune_done t ∙ v.full_length;
  slots = prune_done-AreSlots 0 t v.slots;
}

notify-prune_done : (i : ℕ) (t : Table) → AreSlots i t → (notify t).0 ≡ prune_done t
unfolding notify prune_done
notify-prune_done i [] s = refl
notify-prune_done i (none ∷ t) s = ap (◌∷◌ none) (notify-prune_done (suc i) t s)
notify-prune_done i (some j ∷ t) s = ground (arith, notify-prune_done (suc i) t s.1)

-- At the prompt all finished jobs leave the table, as they do after the `jobs` builtin.
pub notify-eq-prune_done : (t : Table) → IsTable t → (notify t).0 ≡ prune_done t
notify-eq-prune_done t v = notify-prune_done 0 t v.slots

pub notify-IsTable : (t : Table) → IsTable t → IsTable (notify t).0
notify-IsTable t v = rw (notify-eq-prune_done t v) (prune_done-IsTable t v)
