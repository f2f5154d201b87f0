-- ===== src/Execute/Observe/Verdict.antt =====
-- How the watch of internal/execute/observe.go ends.
use Prim.Native.Nat.{ℕ, zero, suc, ◌+◌, ◌*◌, ◌<◌, ◌≤◌}
use ma_klaude.Prelude.{
  leb→le, and_iff, Bool, true, false, not, ◌||◌, ◌&&◌, Option, some, if◌then◌else◌, ◌≡◌, ◌⊎◌, inl,
  inr, refl, sym, subst, Bool-cases, arith,
}
use ma_klaude.Prelude.Int.{ℤ, pos, negsuc}
use ma_klaude.Health.{Snapshot}
use ma_klaude.Execute.Observe.{
  Convergence, convergence_converged, convergence_timed_out, convergence_unobservable, Watch,
  or_default, window_of, interval_of, sees, held, room_for_another_read, verdict_of, observe_from,
  observe,
}

-- The reads up to one, if that is the last.
pub record IsLast (w : Watch) (converged : Snapshot → Bool) (last : ℕ) : Type 0 where
  -- None before it met the predicate, and one more interval would have ended in the window.
  pub unmet : (k : ℕ) → k < last → held w converged k ≡ false
  pub room : (k : ℕ) → k < last → w.elapsed k + interval_of w ≤ window_of w
  pub awake : (k : ℕ) → k < last → w.awake k ≡ true
  -- So there are not many.
  pub few : last * interval_of w ≤ window_of w
  -- It met the predicate, or one more interval would end after the window, or the sleep was cut short.
  pub over :
      (held w converged last ≡ true)
      ⊎ ((window_of w < w.elapsed last + interval_of w) ⊎ (w.awake last ≡ false))

-- What a verdict says of the reads.
pub data Says (w : Watch) (converged : Snapshot → Bool) (last : ℕ) : Convergence → Type 0 where
  met : held w converged last ≡ true → Says w converged last convergence_converged
  seen :
      held w converged last ≡ false
      → (k : ℕ) → k ≤ last
      → sees w k ≡ true
      → Says w converged last convergence_timed_out
  blind : ((k : ℕ) → k ≤ last → sees w k ≡ false) → Says w converged last convergence_unobservable

filled : (other : ℕ) (x : ℤ) → 0 < other → 0 < or_default other x
filled other (pos zero) h = h
filled other (pos (suc n)) h = omega arith
filled other (negsuc n) h = h

some_interval : (w : Watch) → 0 < interval_of w
unfolding interval_of
some_interval w = filled 5000000000 w.observe_interval (omega arith)

next_product : (n i : ℕ) → suc n * i ≡ n * i + i
next_product n i = omega arith

few_products : (n i : ℕ) → 0 < i → n ≤ n * i
few_products zero i h = omega arith
few_products (suc n) i h = omega (arith, next_product n i, few_products n i h, h)

eq_or_less : (k n : ℕ) → k < suc n → (k ≡ n) ⊎ (k < n)
eq_or_less k n h = ground arith

-- What holds of all numbers below one, and of that one, holds of all below the next.
below_next : (P : ℕ → Type 0) (n : ℕ) → ((k : ℕ) → k < n → P k) → P n → (k : ℕ) → k < suc n → P k
below_next P n lower here k h = elim (eq_or_less k n h) [
  | inl e ↦ subst P (sym e) here
  | inr less ↦ lower k less
]

-- What has been seen before a read.
abbrev Noted : Watch → Bool → ℕ → Type 0
Noted w true n = (k : ℕ) × ((k < n) × (sees w k ≡ true))
Noted w false n = (k : ℕ) → k < n → sees w k ≡ false

Noted-next : (w : Watch) (saw : Bool) (n : ℕ) → Noted w saw n → Noted w (saw || sees w n) (suc n)
Noted-next w true n (k, (less, e)) = (k, (omega (arith, less), e))
Noted-next w false n none_yet = elim (Bool-cases (sees w n)) [
  | inl t ↦ subst (λ b. Noted w b (suc n)) (sym t) (n, (omega arith, t))
  | inr f ↦ subst (λ b. Noted w b (suc n)) (sym f) (below_next (λ k. sees w k ≡ false) n none_yet f)
]

unmet-Says :
    (w : Watch) (converged : Snapshot → Bool) (n : ℕ) (saw : Bool)
    → held w converged n ≡ false
    → Noted w saw (suc n)
    → Says w converged n (verdict_of saw)
unmet-Says w converged n true miss (k, (less, e)) = seen miss k (omega (arith, less)) e
unmet-Says w converged n false miss none_yet = blind (λ k h. none_yet k (omega (arith, h)))

module _ (w : Watch) (converged : Snapshot → Bool)
    (slept : (n : ℕ) → w.awake n ≡ true → w.elapsed n + interval_of w ≤ w.elapsed (suc n)) where
  -- The loop has come to a read.
  record IsReached (n : ℕ) : Type 0 where
    unmet : (k : ℕ) → k < n → held w converged k ≡ false
    room : (k : ℕ) → k < n → w.elapsed k + interval_of w ≤ window_of w
    awake : (k : ℕ) → k < n → w.awake k ≡ true
    few : n * interval_of w ≤ window_of w
    late : n * interval_of w ≤ w.elapsed n

  abbrev Ends : Option Convergence → Type 0
  Ends o =
      (v : Convergence) × (last : ℕ) × (o ≡ some v)
      × IsLast w converged last
      × Says w converged last v

  stopped :
      (n : ℕ)
      → IsReached n
      → (held w converged n ≡ true)
        ⊎ ((window_of w < w.elapsed n + interval_of w) ⊎ (w.awake n ≡ false))
      → IsLast w converged n
  stopped n r over = record {
    unmet = r.unmet;
    room = r.room;
    awake = r.awake;
    few = r.few;
    over = over;
  }

  next-IsReached :
      (n : ℕ)
      → IsReached n
      → held w converged n ≡ false
      → room_for_another_read w n ≡ true
      → w.awake n ≡ true
      → IsReached (suc n)
  unfolding room_for_another_read
  next-IsReached n r miss room awake =
      let within = leb→le (w.elapsed n + interval_of w) (window_of w) room in
      record {
        unmet = below_next (λ k. held w converged k ≡ false) n r.unmet miss;
        room = below_next (λ k. w.elapsed k + interval_of w ≤ window_of w) n r.room within;
        awake = below_next (λ k. w.awake k ≡ true) n r.awake awake;
        few = omega (arith, next_product n (interval_of w), r.late, within);
        late = omega (arith, next_product n (interval_of w), r.late, slept n awake);
      }

  no_more :
      (n : ℕ)
      → (room_for_another_read w n && w.awake n) ≡ false
      → (window_of w < w.elapsed n + interval_of w) ⊎ (w.awake n ≡ false)
  unfolding room_for_another_read
  no_more n stop = elim (Bool-cases (w.awake n)) [
    | inr cut ↦ inr cut
    | inl awake ↦ inl (ground (arith, stop, awake))
  ]

  -- There is fuel left at a read that is reached.
  some_fuel : (n fuel : ℕ) → IsReached n → fuel + n ≡ suc (window_of w) → 0 < fuel
  some_fuel n fuel r e = omega (arith, e, r.few, few_products n (interval_of w) (some_interval w))

  observe_from-Ends :
      (fuel n : ℕ) (saw : Bool)
      → fuel + n ≡ suc (window_of w)
      → IsReached n
      → Noted w saw n
      → Ends (observe_from w converged fuel n saw)
  unfolding observe_from
  observe_from-Ends zero n saw e r noted = absurd (omega (arith, some_fuel n 0 r e))
  observe_from-Ends (suc fuel) n saw e r noted =
      let now = saw || sees w n in
      let rest = observe_from w converged fuel (suc n) now in
      let more = room_for_another_read w n && w.awake n in
      let noted_now = Noted-next w saw n noted in
      let after : Bool → Option Convergence = λ b. if not b then some (verdict_of now) else rest in
      elim (Bool-cases (held w converged n)) [
        | inl hit ↦
            subst (λ (b : Bool). Ends (if b then some convergence_converged else after more))
              (sym hit) (convergence_converged, n, refl, stopped n r (inl hit), met hit)
        | inr miss ↦
            subst (λ (b : Bool). Ends (if b then some convergence_converged else after more))
              (sym miss)
              (elim (Bool-cases more) [
                | inr stop ↦
                    subst (λ b. Ends (after b)) (sym stop)
                      (
                        verdict_of now,
                        n,
                        refl,
                        stopped n r (inr (no_more n stop)),
                        unmet-Says w converged n now miss noted_now,
                      )
                | inl go ↦
                    let (room, awake) = (and_iff (room_for_another_read w n) (w.awake n)).0 go in
                    subst (λ b. Ends (after b)) (sym go)
                      (observe_from-Ends fuel (suc n) now (omega (arith, e))
                        (next-IsReached n r miss room awake) noted_now)
              ])
      ]

-- If a sleep that is not cut short takes at least the interval, a watch ends. It ends at the first
-- read that meets the predicate, after which one more interval would end after the window, or whose
-- sleep was cut short; so there are at most one read more than intervals in the window. Its verdict
-- is converged if that read meets the predicate, and otherwise timed out if some read saw the
-- cluster, and unobservable if none did.
pub observe-Ends :
    (w : Watch) (converged : Snapshot → Bool)
    → ((n : ℕ) → w.awake n ≡ true → w.elapsed n + interval_of w ≤ w.elapsed (suc n))
    → (v : Convergence) × (last : ℕ) × (observe w converged ≡ some v)
      × IsLast w converged last
      × Says w converged last v
unfolding observe
observe-Ends w converged slept =
    observe_from-Ends w converged slept (suc (window_of w)) 0 false (omega arith)
      (record {
        unmet = λ k h. absurd (omega (arith, h));
        room = λ k h. absurd (omega (arith, h));
        awake = λ k h. absurd (omega (arith, h));
        few = omega arith;
        late = omega arith;
      })
      (λ k h. absurd (omega (arith, h)))
