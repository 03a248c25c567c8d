-- ===== src/Job/Reach.antt =====
-- All job tables that a shell session can reach (src/foundation/job.c).
use petrush.Base.{ℕ, Option}
use petrush.Base.Int.{ℤ}
use petrush.Text.{Bytes}
use petrush.Job.{Table, reset, add, reap, notify, prune_done}
use petrush.Job.Invariant.{
  IsTable, reset-IsTable, add-IsTable, reap-IsTable, notify-IsTable, prune_done-IsTable,
}

module _ {K : Type 0} (waitpid : K → ℤ → K × ℤ × ℕ) where
  -- The tables after any calls, in any order, at any states of the kernel.
  pub data Reach : Table → Type 0 where
    start : Reach reset
    added : {t : Table} (pid : ℤ) (command : Option Bytes) → Reach t → Reach (add pid command t).1
    reaped : {t : Table} (k : K) → Reach t → Reach (reap waitpid k t).1
    notified : {t : Table} → Reach t → Reach (notify t).0
    pruned : {t : Table} → Reach t → Reach (prune_done t)

  -- Every table that a session reaches has 16 slots; each job in it stands in the slot of its id,
  -- with a positive pid and a command that is not empty, and is not marked as notified.
  pub Reach-IsTable : {t : Table} → Reach t → IsTable t
  Reach-IsTable start = reset-IsTable
  Reach-IsTable (added {t} pid command r) = add-IsTable pid command t (Reach-IsTable r)
  Reach-IsTable (reaped {t} k r) = reap-IsTable waitpid k t (Reach-IsTable r)
  Reach-IsTable (notified {t} r) = notify-IsTable t (Reach-IsTable r)
  Reach-IsTable (pruned {t} r) = prune_done-IsTable t (Reach-IsTable r)
