-- ===== src/Job/Slots.antt =====
-- What `petrush_job_add` does to the slots of the table (src/foundation/job.c).
use petrush.Base.{
  ℕ, zero, suc, ◌+◌, ◌-◌, ◌≤◌, ◌<◌, ◌≡◌, ◌≢◌, ◌↔◌, ◌⊎◌, refl, ap, ◌∙◌, false, Option, none, some,
  [], ◌∷◌, arith, length, set, get_elem?, inl, inr, Bool-cases, Option-cases, get_elem?-set_self,
  get_elem?-set_ne,
}
use petrush.Base.Int.{ℤ, pos, negsuc, is_positive}
use petrush.Text.{Bytes}
use petrush.Job.{Job, running, Table, job_max, label, new_job, add, find_free, count, probe, seen}
use petrush.Job.Invariant.{IsTable, find_free-lt}

-- The free slot that is found is free, and every slot before it is taken.
pub find_free-get : (t : Table) (k : ℕ) → find_free t ≡ some k → get_elem? t k ≡ some none
unfolding find_free
find_free-get [] k h = ground arith
find_free-get (none ∷ t) k h = let e : k ≡ 0 = ground arith in rw e refl
find_free-get (some j ∷ t) k h = elim (Option-cases (find_free t)) [
  | inl e ↦ ground arith
  | inr (m, e) ↦ let e' : k ≡ suc m = ground arith in rw e' (find_free-get t m e)
]

pub find_free-first :
    (t : Table) (k i : ℕ)
    → find_free t ≡ some k
    → i < k
    → (j : Job) × (get_elem? t i ≡ some (some j))
unfolding find_free
find_free-first [] k i h lt = ground arith
find_free-first (none ∷ t) k i h lt = absurd (ground arith)
find_free-first (some j ∷ t) k zero h lt = (j, refl)
find_free-first (some j ∷ t) k (suc i) h lt = elim (Option-cases (find_free t)) [
  | inl e ↦ absurd (ground arith)
  | inr (m, e) ↦ find_free-first t m i e (ground arith)
]

pub count-le-length : (t : Table) → count t ≤ length t
unfolding count
count-le-length [] = omega arith
count-le-length (none ∷ t) = omega (arith, count-le-length t)
count-le-length (some j ∷ t) = omega (arith, count-le-length t)

find_free-full : (t : Table) → (find_free t ≡ none) ↔ (count t ≡ length t)
unfolding find_free count
find_free-full [] = (λ _. refl, λ _. refl)
find_free-full (none ∷ t) = (λ e. ground arith, λ e. absurd (omega (arith, count-le-length t)))
find_free-full (some j ∷ t) = ground (arith, find_free-full t)

count-set :
    (t : Table) (k : ℕ) (j : Job)
    → get_elem? t k ≡ some none
    → count (set t k (some j)) ≡ suc (count t)
unfolding count
count-set [] k j h = ground arith
count-set (none ∷ t) zero j h = refl
count-set (some x ∷ t) zero j h = ground arith
count-set (none ∷ t) (suc k) j h = count-set t k j h
count-set (some x ∷ t) (suc k) j h = ap suc (count-set t k j h)

-- What a caller sees of an accepted job with id `id`, added to `t` with result `t'`.
pub record Added (command : Option Bytes) (t : Table) (id : ℕ) (t' : Table) : Type 0 where
  pub in_range : (1 ≤ id) × (id ≤ job_max)
  pub was_free : probe (pos id) t ≡ none
  pub is_running : probe (pos id) t' ≡ some (running, 0, label command)
  pub others : (i : ℤ) → i ≢ pos id → probe i t' ≡ probe i t
  pub lowest : (i : ℕ) → 1 ≤ i → i < id → probe (pos i) t ≢ none
  pub one_more : count t' ≡ suc (count t)

probe_in :
    (id : ℕ) (t : Table) → 1 ≤ id → id ≤ job_max → probe (pos id) t ≡ seen (get_elem? t (id - 1))
unfolding probe
probe_in id t lo hi = ground arith

probe-set_ne :
    (i : ℤ) (k : ℕ) (t : Table) (j : Option Job) → i ≢ pos (k + 1) → probe i (set t k j) ≡ probe i t
unfolding probe
probe-set_ne (negsuc n) k t j ne = refl
probe-set_ne (pos zero) k t j ne = refl
probe-set_ne (pos (suc n)) k t j ne =
    let e : suc n - 1 ≡ n = omega arith in
    rw e (rw (get_elem?-set_ne t k n j (λ x. ne (ap pos (omega arith)))))

module _ (pid : ℤ) (command : Option Bytes) (t : Table) (v : IsTable t) where
  placed-Added :
      (k : ℕ)
      → find_free t ≡ some k
      → Added command t (k + 1) (set t k (some (new_job k pid command)))
  placed-Added k e =
      let t' = set t k (some (new_job k pid command)) in
      let lt = find_free-lt t k e in
      let back : (k + 1) - 1 ≡ k = omega arith in
      record {
        in_range = (omega arith, omega (arith, v.full_length));
        was_free =
            probe_in (k + 1) t (omega arith) (omega (arith, v.full_length))
            ∙ rw back (rw (find_free-get t k e));
        is_running =
            probe_in (k + 1) t' (omega arith) (omega (arith, v.full_length))
            ∙ rw back (rw (get_elem?-set_self t k (some (new_job k pid command)) lt));
        others = λ i ne. probe-set_ne i k t (some (new_job k pid command)) ne;
        lowest = λ i lo hi.
            let (j, g) = find_free-first t k (i - 1) e (omega arith) in
            rw (probe_in i t lo (omega (arith, v.full_length))) (rw g (λ x. cc));
        one_more = count-set t k (new_job k pid command) (find_free-get t k e);
      }

  -- A job that is accepted takes the lowest free id, is seen there as running under its command,
  -- and is the one change in the table.
  pub add-Added :
      (id : ℕ) → (add pid command t).0 ≡ some id → Added command t id (add pid command t).1
  unfolding add
  add-Added id h = elim (Bool-cases (is_positive pid)) [
    | inl p ↦ elim (Option-cases (find_free t)) [
      | inl e ↦ absurd (ground arith)
      | inr (k, e) ↦ let same : id ≡ k + 1 = ground arith in rw (same, p, e) (placed-Added k e)
    ]
    | inr p ↦ absurd (ground arith)
  ]

  -- A job is refused exactly when its pid is not positive or all slots are taken, and then the
  -- table stays as it was.
  pub add_refuses :
      (((add pid command t).0 ≡ none) ↔ ((is_positive pid ≡ false) ⊎ (count t ≡ job_max)))
      × ((add pid command t).0 ≡ none → (add pid command t).1 ≡ t)
  unfolding add
  add_refuses = elim (Option-cases (find_free t)) [
    | inl e ↦ rw e (ground (arith, find_free-full t, v.full_length))
    | inr (k, e) ↦ rw e (ground (arith, find_free-full t, v.full_length))
  ]
