-- ===== src/Thread/Linux/Priorities.antt =====
-- The priorities of `tt_platform_thread_set_priority` in
-- src/platform/linux/tt_platform_linux.c, in the range that the system reports.
use tinytools.Prelude.{ℕ, ◌+◌, ◌-◌, ◌*◌, ◌/◌, ◌≤◌, ◌≡◌, refl, sym, ap, ◌∙◌, arith}
use mathlib.Core.Path.{subst}
use tinytools.Prelude.Int.{ℤ, pos, pos_part, neg_part, ◌+ℤ◌, ◌-ℤ◌, ◌*ℤ◌, ◌≤ℤ◌, int_laws}
use tinytools.Thread.Data.{Priority, low, normal, high, realtime, priority_code}
use tinytools.Thread.Linux.{quotient, system_priority}

-- The width of a range, as a number.
width : (min_prio max_prio : ℤ) → min_prio ≤ℤ max_prio → (n : ℕ) × (max_prio -ℤ min_prio ≡ pos n)
unfolding ◌-ℤ◌
width min_prio max_prio h =
    (pos_part max_prio + neg_part min_prio - (pos_part min_prio + neg_part max_prio), ground arith)

back : (a b : ℤ) → b ≡ a +ℤ (b -ℤ a)
unfolding ◌+ℤ◌ ◌-ℤ◌
back a b = ground arith

add_bounds : (a : ℤ) (k n : ℕ) → k ≤ n → (a ≤ℤ a +ℤ pos k) × (a +ℤ pos k ≤ℤ a +ℤ pos n)
unfolding ◌+ℤ◌
add_bounds a k n h = ground arith

twice : (n : ℕ) → pos 2 *ℤ pos n ≡ pos (2 * n)
unfolding ◌*ℤ◌
twice n = ground arith

-- How far above the least priority a level is, in a range of `n`.
abbrev above : ℕ → Priority → ℕ
above n low = 0
above n normal = n / 3
above n high = 2 * n / 3
above n realtime = n

above_mono : (n : ℕ) (p q : Priority) → priority_code p ≤ priority_code q → above n p ≤ above n q
above_mono n p q h = ground arith

above-le : (n : ℕ) (p : Priority) → above n p ≤ n
above-le n p = ground arith

system_priority-above :
    (min_prio max_prio : ℤ) (n : ℕ) (p : Priority)
    → max_prio -ℤ min_prio ≡ pos n
    → system_priority min_prio max_prio p ≡ min_prio +ℤ pos (above n p)
unfolding system_priority quotient
system_priority-above min_prio max_prio n low e = omega int_laws
system_priority-above min_prio max_prio n normal e = rw e refl
system_priority-above min_prio max_prio n high e = rw (e, twice n) refl
system_priority-above min_prio max_prio n realtime e =
    back min_prio max_prio ∙ ap (λ d. min_prio +ℤ d) e

max-above : (a b : ℤ) (n : ℕ) → b -ℤ a ≡ pos n → b ≡ a +ℤ pos n
max-above a b n e = back a b ∙ ap (λ d. a +ℤ d) e

low_is_min : (a b : ℤ) → system_priority a b low ≡ a
unfolding system_priority
low_is_min a b = refl

realtime_is_max : (a b : ℤ) → system_priority a b realtime ≡ b
unfolding system_priority
realtime_is_max a b = refl

-- In a range that is not empty, every level `p` has a priority in the range, and no higher level `q`
-- has a lower one; the lowest level has the least priority of the range, the highest the greatest.
pub system_priority_lem :
    (min_prio max_prio : ℤ) (p q : Priority)
    → min_prio ≤ℤ max_prio
    → priority_code p ≤ priority_code q
    → (min_prio ≤ℤ system_priority min_prio max_prio p)
      × (system_priority min_prio max_prio p ≤ℤ system_priority min_prio max_prio q)
      × (system_priority min_prio max_prio q ≤ℤ max_prio)
      × (system_priority min_prio max_prio low ≡ min_prio)
      × (system_priority min_prio max_prio realtime ≡ max_prio)
system_priority_lem min_prio max_prio p q h le =
    let (n, e) = width min_prio max_prio h in
    let ep = system_priority-above min_prio max_prio n p e in
    let eq = system_priority-above min_prio max_prio n q e in
    rw (ep, eq)
      (
        (add_bounds min_prio (above n p) n (above-le n p)).0,
        (add_bounds min_prio (above n p) (above n q) (above_mono n p q le)).1,
        subst (λ m. min_prio +ℤ pos (above n q) ≤ℤ m) (sym (max-above min_prio max_prio n e))
            (add_bounds min_prio (above n q) n (above-le n q)).1,
        low_is_min min_prio max_prio,
        realtime_is_max min_prio max_prio,
      )
