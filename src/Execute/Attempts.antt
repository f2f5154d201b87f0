-- ===== src/Execute/Attempts.antt =====
-- How often `send` of internal/execute/mutate.go calls the client.
use ma_klaude.Prelude.{
  string_comparable, ℕ, zero, suc, ◌+◌, ◌≤◌, ◌<◌, Bool, true, false, not, ◌||◌, none, some, nat_beq,
  nat_beq_iff, ap, ◌∙◌, ◌≢◌, if◌then◌else◌, ◌≡◌, ◌⊎◌, inl, inr, refl, sym, subst, Bool-cases,
  or_iff_false, not-false, arith, false≢true,
}
use ma_klaude.Prelude.Int.{ℤ, pos, negsuc}
use ma_klaude.Execute.Run.{
  World, Reply, too_many_requests, outcome, no_outcome, revision_not_found, conflict, other_error,
  is_retryable, max_attempts, Sent, send_from, send,
}

-- The first `n` calls were answered `TooManyRequests`, and the wait after each was not cut short.
pub data Retried (w : World) : ℕ → Type 0 where
  none_yet : Retried w 0
  once_more :
      (n : ℕ)
      → Retried w n
      → w.reply (suc n) ≡ too_many_requests
      → w.awake (suc n) ≡ true
      → Retried w (suc n)

-- Why a call is the last: it is the last one allowed, it was not answered `TooManyRequests`, or the
-- wait after it was cut short.
abbrev pub Stops : World → ℕ → ℕ → Type 0
Stops w max n = (n ≡ max) ⊎ ((w.reply n ≢ too_many_requests) ⊎ (w.awake n ≡ false))

-- A number of calls that are one try and all the retries that are due.
abbrev pub AreTries : World → ℕ → ℕ → Type 0
AreTries w max calls = (n : ℕ) × (calls ≡ suc n) × (suc n ≤ max) × Retried w n × Stops w max (suc n)

retryable : (r : Reply) → is_retryable r ≡ true → r ≡ too_many_requests
unfolding is_retryable
retryable too_many_requests h = refl
retryable (outcome dry) h = absurd (false≢true h)
retryable no_outcome h = absurd (false≢true h)
retryable revision_not_found h = absurd (false≢true h)
retryable conflict h = absurd (false≢true h)
retryable other_error h = absurd (false≢true h)

unretryable : (r : Reply) → is_retryable r ≡ false → r ≢ too_many_requests
unfolding is_retryable
unretryable r h e = false≢true (sym h ∙ ap is_retryable e)

-- Why the loop does not go on after the test of the answer.
final-Stops :
    (w : World) (max n : ℕ)
    → (not (is_retryable (w.reply n)) || nat_beq n max) ≡ true
    → Stops w max n
final-Stops w max n t = elim (Bool-cases (is_retryable (w.reply n))) [
  | inl r ↦ inl ((nat_beq_iff n max).0 (rw r at t))
  | inr r ↦ inr (inl (unretryable (w.reply n) r))
]

left_over : (left n max : ℕ) → suc left + n ≡ max → nat_beq (suc n) max ≡ false → 0 < left
left_over left n max e h = ground arith

send_from-AreTries :
    (w : World) (max left n : ℕ)
    → 0 < left
    → left + n ≡ max
    → Retried w n
    → AreTries w max (send_from w max left (suc n)).calls
unfolding send_from
send_from-AreTries w max zero n h e r = absurd (omega arith)
send_from-AreTries w max (suc left) n h e r =
    let rest = send_from w max left (suc (suc n)) in
    let here : Sent = record { calls = suc n; last = some (w.reply (suc n)) } in
    let cut : Sent = record { calls = suc n; last = none } in
    let final = not (is_retryable (w.reply (suc n))) || nat_beq (suc n) max in
    let stop : Stops w max (suc n) → AreTries w max (suc n) =
      λ over. (n, refl, omega (arith, e), r, over) in
    elim (Bool-cases final) [
      | inl t ↦
          subst
            (λ (b : Bool).
              AreTries w max
                (if b then here else if not (w.awake (suc n)) then cut else rest).calls)
            (sym t) (stop (final-Stops w max (suc n) t))
      | inr t ↦
          subst
            (λ (b : Bool).
              AreTries w max
                (if b then here else if not (w.awake (suc n)) then cut else rest).calls)
            (sym t)
            (elim (Bool-cases (w.awake (suc n))) [
              | inr a ↦
                  subst (λ (b : Bool). AreTries w max (if not b then cut else rest).calls) (sym a)
                    (stop (inr (inr a)))
              | inl a ↦
                  let (again, more) =
                    (or_iff_false (not (is_retryable (w.reply (suc n)))) (nat_beq (suc n) max)).0
                      t in
                  let busy = retryable (w.reply (suc n)) (not-false _ again) in
                  subst (λ (b : Bool). AreTries w max (if not b then cut else rest).calls) (sym a)
                    (send_from-AreTries w max left (suc n) (left_over left n max e more)
                      (omega (arith, e)) (once_more n r busy a))
            ])
    ]

some_attempt : (policy : ℤ) → 0 < max_attempts policy
unfolding max_attempts
some_attempt (pos zero) = omega arith
some_attempt (pos (suc n)) = omega arith
some_attempt (negsuc n) = omega arith

pub send-AreTries :
    (w : World) (policy : ℤ) → AreTries w (max_attempts policy) (send w policy).calls
unfolding send
send-AreTries w policy =
    send_from-AreTries w (max_attempts policy) (max_attempts policy) 0 (some_attempt policy)
      (omega arith) none_yet
