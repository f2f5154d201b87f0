-- ===== src/Execute/Observe.antt =====
-- internal/execute/observe.go: the watch for the effect of a write. A Watch holds what each read
-- gives, the time since the start after it, and whether the sleep after it was cut short; durations
-- are in nanoseconds, below what an int64 holds. A read, or a sleep, may take any time.
pub mod Verdict
use Prim.Native.Nat.{ℕ, zero, suc, ◌+◌, ◌<◌, ◌≤◌}
use ma_klaude.Prelude.{
  leb→le, and_iff, Bool, true, false, not, ◌||◌, ◌&&◌, Option, none, some, if◌then◌else◌, leb, ◌≡◌,
  ◌⊎◌, inl, inr, refl, sym, ap, subst, Bool-cases, arith,
}
use ma_klaude.Prelude.Int.{ℤ, pos, negsuc}
use ma_klaude.Health.{Snapshot}

pub data Convergence : Type 0 where
  convergence_unobserved convergence_converged convergence_timed_out convergence_unobservable :
      Convergence

pub record Watch : Type 0 where
  pub observe_window : ℤ
  pub observe_interval : ℤ
  pub read : ℕ → Option Snapshot
  pub elapsed : ℕ → ℕ
  pub awake : ℕ → Bool

-- `ObserveWindow` and `ObserveInterval` after `normalized`.
abbrev pub or_default : ℕ → ℤ → ℕ
or_default other (pos zero) = other
or_default other (pos (suc n)) = suc n
or_default other (negsuc n) = other

unfoldable pub window_of : Watch → ℕ
window_of w = or_default 90000000000 w.observe_window

unfoldable pub interval_of : Watch → ℕ
interval_of w = or_default 5000000000 w.observe_interval

-- A read that succeeds, of a cluster that answers.
abbrev pub is_seen : Option Snapshot → Bool
is_seen none = false
is_seen (some snap) = snap.reachability.reachable

unfoldable pub sees : Watch → ℕ → Bool
sees w n = is_seen (w.read n)

-- The predicate holds of the read.
abbrev pub is_held : (Snapshot → Bool) → Option Snapshot → Bool
is_held converged none = false
is_held converged (some snap) = snap.reachability.reachable && converged snap

unfoldable pub held : Watch → (Snapshot → Bool) → ℕ → Bool
held w converged n = is_held converged (w.read n)

-- `roomForAnotherRead` after a read.
unfoldable pub room_for_another_read : Watch → ℕ → Bool
room_for_another_read w n = leb (w.elapsed n + interval_of w) (window_of w)

-- The verdict after the loop.
abbrev pub verdict_of : Bool → Convergence
verdict_of true = convergence_timed_out
verdict_of false = convergence_unobservable

-- The loop of `observe`, at a read, with some reads allowed.
unfoldable pub observe_from : Watch → (Snapshot → Bool) → ℕ → ℕ → Bool → Option Convergence
observe_from w converged zero n saw = none
observe_from w converged (suc fuel) n saw =
    let rest = observe_from w converged fuel (suc n) (saw || sees w n) in
    if held w converged n
    then some convergence_converged
    else if not (room_for_another_read w n && w.awake n)
    then some (verdict_of (saw || sees w n))
    else rest

-- `observe`.
unfoldable pub observe : Watch → (Snapshot → Bool) → Option Convergence
observe w converged = observe_from w converged (suc (window_of w)) 0 false
