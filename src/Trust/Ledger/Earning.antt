-- ===== src/Trust/Ledger/Earning.antt =====
-- `Standing` of internal/trust/ledger.go: exactly what earns a fix its trust, and what takes it away.
use ma_klaude.Prelude.{
  ℕ, zero, suc, ◌+◌, ◌-◌, ◌≤◌, String, ◌≡◌, ◌≢◌, ◌↔◌, refl, sym, ◌∙◌, ap, subst, inl, inr, true,
  false, ◌&&◌, none, some, List, [], ◌∷◌, length, drop, All, ltb, arith, eq_iff, Bool-cases,
  false≢true, ◌==◌, string_comparable, if◌then◌else◌,
}
use ma_klaude.Autonomy.Request.{Subject}
use ma_klaude.Trust.Entry.{Entry, promotes, demotes}
use ma_klaude.Trust.Ledger.{
  trust, Ledger, history, scope_of, last_demoting, all_inconclusive, is_inconclusive,
  unobserved_streak, Tally, no_tally, tally, Standing, standing_over, standing, is_some, or_else,
  last_of,
}

-- The number of executions of a fix that a person approved and that converged.
unfoldable pub approvals : String → List Entry → ℕ
approvals fingerprint [] = 0
approvals fingerprint (e ∷ es) =
    let rest = approvals fingerprint es in
    if e.fingerprint == fingerprint && promotes e then suc rest else rest

-- The last `n` of a list.
abbrev pub last_n {ℓ} : {A : Type ℓ} → ℕ → List A → List A
last_n n xs = drop (length xs - n) xs

-- None of the entries demotes.
abbrev pub IsClean : List Entry → Type 0
IsClean = All (λ e. demotes e ≡ false)

-- The last three executions on record were all inconclusive.
abbrev pub IsBlind : List Entry → Type 0
IsBlind all = (3 ≤ length all) × All (λ e. is_inconclusive e.outcome ≡ true) (last_n 3 all)

-- What earns trust.
pub record HasEarned (subject : Subject) (all : List Entry) : Type 0 where
  pub named : subject.fingerprint ≢ ""
  pub approved : 3 ≤ approvals subject.fingerprint all
  pub clean : IsClean (last_n 10 all)
  pub seeing : ¬ IsBlind all

tally-approved :
    (fingerprint : String) (es : List Entry) (t : Tally)
    → (tally fingerprint t es).approved ≡ t.approved + approvals fingerprint es
unfolding tally approvals
tally-approved fingerprint [] t = ground arith
tally-approved fingerprint (e ∷ es) t = tally-approved fingerprint es _ ∙ ground arith

scope_lem : (all : List Entry) → scope_of all ≡ last_n 10 all
unfolding scope_of
scope_lem all = elim (Bool-cases (ltb 10 (length all))) [
  | inl t ↦ rw t refl
  | inr f ↦ let all_of_it : length all - 10 ≡ 0 = ground arith in rw (f, all_of_it) refl
]

last_demoting_found : (x : Entry) (es : List Entry) → last_demoting (some x) es ≢ none
unfolding last_demoting
last_demoting_found x [] h = cc h
last_demoting_found x (e ∷ es) h = elim (Bool-cases (demotes e)) [
  | inl t ↦ last_demoting_found e es (rw t at h)
  | inr f ↦ last_demoting_found x es (rw f at h)
]

last_demoting-none_iff : (es : List Entry) → (last_demoting none es ≡ none) ↔ IsClean es
unfolding last_demoting
last_demoting-none_iff [] = (λ h. tt, λ h. refl)
last_demoting-none_iff (e ∷ es) = elim (Bool-cases (demotes e)) [
  | inl t ↦
      (λ h. absurd (last_demoting_found e es (rw t at h)), λ h. absurd (false≢true (sym h.0 ∙ t)))
  | inr f ↦ let ih = last_demoting-none_iff es in (λ h. (f, ih.0 (rw f at h)), λ h. rw f (ih.1 h.1))
]

drop-nil {ℓ} : {A : Type ℓ} (n : ℕ) → drop {A = A} n [] ≡ []
drop-nil zero = refl
drop-nil (suc n) = refl

suc_add : (b a : ℕ) → suc (b + a) ≡ suc b + a
suc_add b a = omega arith

drop-drop {ℓ} : {A : Type ℓ} (a b : ℕ) (xs : List A) → drop a (drop b xs) ≡ drop (b + a) xs
drop-drop a zero xs = ap (λ n. drop n xs) (omega arith)
drop-drop a (suc b) [] = drop-nil a ∙ sym (drop-nil (suc b + a))
drop-drop a (suc b) (x ∷ xs) = drop-drop a b xs ∙ ap (λ n. drop n (x ∷ xs)) (suc_add b a)

length-drop {ℓ} : {A : Type ℓ} (n : ℕ) (xs : List A) → length (drop n xs) ≡ length xs - n
length-drop zero xs = omega arith
length-drop (suc n) [] = omega arith
length-drop (suc n) (x ∷ xs) = omega (arith, length-drop n xs)

-- The last three of the last ten are the last three.
last_n-last_n : (all : List Entry) → last_n 3 (last_n 10 all) ≡ last_n 3 all
last_n-last_n all =
    ap (λ n. drop (n - 3) (drop (length all - 10) all)) (length-drop (length all - 10) all)
    ∙ drop-drop (length all - (length all - 10) - 3) (length all - 10) all
    ∙ drop_same
  where
    drop_same :
        drop (length all - 10 + (length all - (length all - 10) - 3)) all
        ≡ drop (length all - 3) all
    drop_same = ap (λ n. drop n all) (omega arith)

all_inconclusive_iff :
    (es : List Entry)
    → (all_inconclusive es ≡ true) ↔ All (λ e. is_inconclusive e.outcome ≡ true) es
unfolding all_inconclusive
all_inconclusive_iff [] = (λ h. tt, λ h. refl)
all_inconclusive_iff (e ∷ es) =
    let ih = all_inconclusive_iff es in
    (λ h. (ground arith, ih.0 (ground arith)), λ h. ground (arith, h.0, ih.1 h.1))

length-last_n : (all : List Entry) → length (last_n 10 all) ≡ length all - (length all - 10)
length-last_n all = length-drop (length all - 10) all

last_of_found : (x : Entry) (es : List Entry) → last_of (some x) es ≢ none
last_of_found x [] h = cc h
last_of_found x (e ∷ es) h = last_of_found e es h

last_of_given : (es : List Entry) → 3 ≤ length es → last_of none es ≢ none
last_of_given [] h = absurd (ground arith)
last_of_given (e ∷ es) h = last_of_found e es

streak_iff :
    (scope : List Entry)
    → (unobserved_streak scope ≡ none)
      ↔ (¬ ((3 ≤ length scope) × (all_inconclusive (last_n 3 scope) ≡ true)))
unfolding unobserved_streak
streak_iff scope = elim (Bool-cases (ltb (length scope) 3)) [
  | inl t ↦ (λ h k. absurd (ground (arith, k.0)), λ h. rw t refl)
  | inr f ↦
      let enough : 3 ≤ length scope = ground arith in
      elim (Bool-cases (all_inconclusive (last_n 3 scope))) [
        | inl y ↦
            (λ h. absurd (last_of_given scope enough (rw (f, y) at h)), λ h. absurd (h (enough, y)))
        | inr n ↦ (λ h k. false≢true (sym n ∙ k.1), λ h. rw (f, n) refl)
      ]
]

streak_over_iff : (all : List Entry) → (unobserved_streak (scope_of all) ≡ none) ↔ (¬ IsBlind all)
streak_over_iff all =
    let s = streak_iff (last_n 10 all) in
    let same = last_n-last_n all in
    let size = length-last_n all in
    rw (scope_lem all) (
      λ h b. s.0 h (
        rw size (omega (arith, b.0)),
        subst (λ es. all_inconclusive es ≡ true) (sym same)
            ((all_inconclusive_iff (last_n 3 all)).1 b.1),
      ),
      λ h. s.1 (λ k. h (
        omega (arith, k.0, size),
        (all_inconclusive_iff (last_n 3 all)).0 (subst (λ es. all_inconclusive es ≡ true) same k.1),
      )),
    )

unblocked_iff :
    (all : List Entry)
    → (is_some (or_else (last_demoting none (scope_of all)) (unobserved_streak (scope_of all)))
        ≡ false)
      ↔ (IsClean (last_n 10 all) × (¬ IsBlind all))
unblocked_iff all =
    let d = last_demoting-none_iff (scope_of all) in
    let b = streak_over_iff all in
    let same = scope_lem all in
    (
      λ h. (subst IsClean same (d.0 (ground arith)), b.0 (ground arith)),
      λ h. nothing (d.1 (subst IsClean (sym same) h.0)) (b.1 h.1),
    )
  where
    nothing :
        last_demoting none (scope_of all) ≡ none
        → unobserved_streak (scope_of all) ≡ none
        → is_some (or_else (last_demoting none (scope_of all)) (unobserved_streak (scope_of all)))
          ≡ false
    nothing d b = ground (arith, d, b)

standing_over_iff :
    (subject : Subject) (all : List Entry)
    → ((standing_over subject all).trusted ≡ true) ↔ HasEarned subject all
standing_over_iff subject all =
    let u = unblocked_iff all in
    let t = tally-approved subject.fingerprint all no_tally in
    (
      λ h.
          let (clean, seeing) = u.0 (unfold standing_over in ground arith) in
          record {
            named = unfold standing_over in ground (arith, eq_iff subject.fingerprint "");
            approved = unfold standing_over in ground (arith, t);
            clean = clean;
            seeing = seeing;
          },
      λ e.
          let free = u.1 (e.clean, e.seeing) in
          unfold standing_over in
          ground (arith, e.named, e.approved, t, free, eq_iff subject.fingerprint ""),
    )

-- The ledger says that a fix is trusted exactly when its proposal has a fingerprint, at least
-- three of the recorded executions of that fingerprint in its shape were approved by a person and
-- converged, none of the last ten executions of the shape demotes (any outcome but converged and
-- inconclusive does), and the last three of them were not all inconclusive.
pub trust_iff :
    (cite : Standing → String) (l : Ledger) (subject : Subject)
    → ((trust cite l subject).trusted ≡ true) ↔ HasEarned subject (history l subject.shape)
trust_iff cite l subject =
    let e = standing_over_iff subject (history l subject.shape) in
    (
      λ h. e.0 (unfold trust standing in ground arith),
      λ h. let t = e.1 h in unfold trust standing in ground (arith, t),
    )
