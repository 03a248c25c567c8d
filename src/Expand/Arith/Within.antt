-- ===== src/Expand/Arith/Within.antt =====
-- Outcomes of the arithmetic evaluator within a bound, through the operators and the loop that both
-- binary levels have.
use petrush.Base.{
  ℕ, zero, suc, ◌-◌, ◌≤◌, ◌<◌, ◌≡◌, refl, Bool, true, false, ◌&&◌, not, [], ◌∷◌, arith, ◌==◌,
  if◌then◌else◌, length,
}
use petrush.Base.Int.{ℤ, pos, eq_ℤ}
use petrush.Text.{Bytes}
use petrush.Expand.Arith.Int64.{fits, quot_ℤ, add_ℤ, sub_ℤ, mul_ℤ}
use petrush.Expand.Arith.{
  Outcome, value, failed, undefined, out_of_fuel, and_then, checked, skip_ws, after_run,
  multiplicative, additive, loop_on, loop_at, loop, level,
}

-- The outcome is no lack of fuel, and leaves at most so much text.
pub data Within (n : ℕ) : Outcome → Type 0 where
  Within-value : {v : ℤ} {rest : Bytes} → length rest ≤ n → Within n (value v rest)
  Within-failed : {e : ℕ} → Within n (failed e)
  Within-undefined : Within n undefined

-- The reader consumes at least a byte of a text that is shorter than the bound.
abbrev pub Reads : ℕ → (Bytes → Outcome) → Type 0
Reads bound read = (p : Bytes) → length p < bound → Within (length p - 1) (read p)

Within-rest : {v : ℤ} {rest : Bytes} → Within (length rest) (value v rest)
Within-rest = Within-value (omega arith)

pub Within-le : {n m : ℕ} {o : Outcome} → n ≤ m → Within n o → Within m o
Within-le le (Within-value h) = Within-value (omega arith)
Within-le le Within-failed = Within-failed
Within-le le Within-undefined = Within-undefined

-- An outcome of a call that ended, with no text left behind a value.
abbrev pub Ends : Outcome → Type 0
Ends (value v rest) = length rest ≡ 0
Ends (failed e) = Unit
Ends undefined = Unit
Ends out_of_fuel = ⊥

pub Within-Ends : (o : Outcome) → Within 0 o → Ends o
Within-Ends (value v rest) (Within-value h) = omega arith
Within-Ends (failed e) h = tt
Within-Ends undefined h = tt
Within-Ends out_of_fuel h = elim h [ ]

pub and_then-Within :
    {n m : ℕ} {o : Outcome} {k : ℤ → Bytes → Outcome}
    → Within n o
    → ((v : ℤ) (rest : Bytes) → length rest ≤ n → Within m (k v rest))
    → Within m (and_then o k)
and_then-Within (Within-value {v = v} {rest = rest} h) next = next v rest h
and_then-Within Within-failed next = Within-failed
and_then-Within Within-undefined next = Within-undefined

pub length-skip_ws : (p : Bytes) → length (skip_ws p) ≤ length p
unfolding skip_ws
length-skip_ws [] = omega arith
length-skip_ws (c ∷ cs) = ground (arith, length-skip_ws cs)

length-after_run : (test : ℕ → Bool) (p : Bytes) → length (after_run test p) ≤ length p
unfolding after_run
length-after_run test [] = omega arith
length-after_run test (c ∷ cs) = ground (arith, length-after_run test cs)

pub after_run-lt :
    (test : ℕ → Bool) (c : ℕ) (cs : Bytes)
    → test c ≡ true
    → length (after_run test (c ∷ cs)) ≤ length cs
unfolding after_run
after_run-lt test c cs h = rw h (length-after_run test cs)

pub if-Within :
    {n : ℕ} {b : Bool} {o1 o2 : Outcome}
    → (b ≡ true → Within n o1)
    → (b ≡ false → Within n o2)
    → Within n (if b then o1 else o2)
if-Within {b = true} on off = on refl
if-Within {b = false} on off = off refl

-- The operator of a level leaves the text.
abbrev pub Applies : (ℕ → ℤ → ℤ → Bytes → Outcome) → Type 0
Applies apply =
    (op : ℕ) (left right : ℤ) (rest : Bytes) → Within (length rest) (apply op left right rest)

checked-Within : (v : ℤ) (rest : Bytes) → Within (length rest) (checked v rest)
checked-Within v rest = if-Within {b = fits v} (λ h. Within-rest) (λ h. Within-undefined)

pub multiplicative-Applies : Applies multiplicative
multiplicative-Applies op left right rest =
    if-Within {b = op == b'*'} (λ times. checked-Within (mul_ℤ left right) rest)
      (λ other.
        if-Within {b = eq_ℤ right (pos 0)} (λ by_zero. Within-failed)
          (λ divides.
            if-Within {b = not (fits (quot_ℤ left right))} (λ overflow. Within-undefined)
              (λ fit. if-Within {b = op == b'/'} (λ slash. Within-rest) (λ percent. Within-rest))))

pub additive-Applies : Applies additive
additive-Applies op left right rest =
    checked-Within (if op == b'+' then add_ℤ left right else sub_ℤ left right) rest

loop_on-Within :
    (b : Bool) (read : Bytes → Outcome) (apply : ℕ → ℤ → ℤ → Bytes → Outcome)
    (more : ℤ → Bytes → Outcome) (n : ℕ) (left : ℤ) (c : ℕ) (cs : Bytes)
    → Reads n read
    → Applies apply
    → length cs < n
    → ((v : ℤ) (q : Bytes) → length q ≤ length cs → Within (length q) (more v q))
    → Within (suc (length cs)) (loop_on b read apply more left c cs)
loop_on-Within false read apply more n left c cs reads applies lt within = Within-rest
loop_on-Within true read apply more n left c cs reads applies lt within =
    and_then-Within (reads cs lt) (λ right rest le.
      and_then-Within (applies c left right rest)
        (λ v q le'. Within-le (omega arith) (within v q (omega arith))))

loop_at-Within :
    (is_op : ℕ → Bool) (read : Bytes → Outcome) (apply : ℕ → ℤ → ℤ → Bytes → Outcome)
    (more : ℤ → Bytes → Outcome) (n : ℕ) (left : ℤ) (p : Bytes)
    → Reads n read
    → Applies apply
    → length p < suc n
    → ((v : ℤ) (q : Bytes) → length q < length p → Within (length q) (more v q))
    → Within (length p) (loop_at is_op read apply more left p)
loop_at-Within is_op read apply more n left [] reads applies lt within = Within-rest
loop_at-Within is_op read apply more n left (c ∷ cs) reads applies lt within =
    loop_on-Within (is_op c) read apply more n left c cs reads applies (omega arith)
      (λ v q le. within v q (omega arith))

loop-Within :
    (is_op : ℕ → Bool) (read : Bytes → Outcome) (apply : ℕ → ℤ → ℤ → Bytes → Outcome) (n f : ℕ)
    (left : ℤ) (p : Bytes)
    → Reads n read
    → Applies apply
    → length p < suc n
    → length p < f
    → Within (length p) (loop is_op read apply f left p)
unfolding loop
loop-Within is_op read apply n zero left p reads applies lt le = absurd (omega arith)
loop-Within is_op read apply n (suc f) left p reads applies lt le =
    let shorter = length-skip_ws p in
    Within-le shorter (
      loop_at-Within is_op read apply (loop is_op read apply f) n left (skip_ws p) reads applies
        (omega (arith, shorter))
        (λ v q lt'.
          loop-Within is_op read apply n f v q reads applies (omega (arith, shorter))
            (omega (arith, shorter))))

pub level-Reads :
    (is_op : ℕ → Bool) (read : Bytes → Outcome) (apply : ℕ → ℤ → ℤ → Bytes → Outcome) (n : ℕ)
    → Reads n read
    → Applies apply
    → Reads n (level is_op read apply)
level-Reads is_op read apply n reads applies p lt = and_then-Within (reads p lt) (λ left rest le.
    Within-le le (
      loop-Within is_op read apply n (suc (length rest)) left rest reads applies (omega arith)
        (omega arith)))

pub and-left : (a b : Bool) → (a && b) ≡ true → a ≡ true
and-left true b h = refl
and-left false b h = h
