-- ===== src/Trust/Derive/Worst.antt =====
-- `classify` of internal/trust/derive.go keeps the worst that any record of a lifecycle reports.
use mathlib.Core.List.{Permᴰ}
use ma_klaude.Prelude.{
  ℕ, ◌≤◌, ◌<◌, ◌≡◌, refl, sym, ◌∙◌, ap, ap₂, inl, inr, Bool, true, false, ◌||◌, Option, none, some,
  List, [], ◌∷◌, Elem, nat_beq, arith, Bool-cases, if◌then◌else◌,
}
use ma_klaude.Trust.Entry.{
  Outcome, unrecorded, converged, inconclusive, failed, drift_aborted, rolled_back, regressed,
  other_outcome, outcome_demotes,
}
use ma_klaude.Trust.Derive.{
  Phase, phase_failed, phase_rolled_back, phase_unknown, phase_proposed, phase_approved,
  phase_executed, phase_verified, other_phase, AuditRecord, rank, keep_worse, candidate_of,
  keep_candidate, classify_from, classify,
}

abbrev of_rank : ℕ → Outcome
of_rank n =
    if nat_beq n 1
    then converged
    else if nat_beq n 2
    then inconclusive
    else if nat_beq n 3
    then drift_aborted
    else if nat_beq n 4
    then failed
    else if nat_beq n 5
    then rolled_back
    else if nat_beq n 6
    then regressed
    else unrecorded

of_rank-rank : (o : Outcome) → 0 < rank o → of_rank (rank o) ≡ o
unfolding rank
of_rank-rank unrecorded h = absurd (ground arith)
of_rank-rank converged h = refl
of_rank-rank inconclusive h = refl
of_rank-rank drift_aborted h = refl
of_rank-rank failed h = refl
of_rank-rank rolled_back h = refl
of_rank-rank regressed h = refl
of_rank-rank (other_outcome n) h = absurd (ground arith)

rank_inj : (a b : Outcome) → 0 < rank a → rank a ≡ rank b → a ≡ b
rank_inj a b h e = sym (of_rank-rank a h) ∙ ap of_rank e ∙ of_rank-rank b (ground arith)

keep_worse_comm : (o a b : Outcome) → keep_worse (keep_worse o a) b ≡ keep_worse (keep_worse o b) a
unfolding keep_worse
keep_worse_comm o a b = ground (arith, rank_inj a b, rank_inj b a)

keep_candidate_comm :
    (o : Outcome) (a b : Option Outcome)
    → keep_candidate (keep_candidate o a) b ≡ keep_candidate (keep_candidate o b) a
keep_candidate_comm o none none = refl
keep_candidate_comm o none (some b) = refl
keep_candidate_comm o (some a) none = refl
keep_candidate_comm o (some a) (some b) = keep_worse_comm o a b

classify_from_swap :
    (a b : AuditRecord) (l : List AuditRecord) (o : Outcome) (r : Bool)
    → classify_from o r (a ∷ b ∷ l) ≡ classify_from o r (b ∷ a ∷ l)
unfolding classify_from
classify_from_swap a b l o r =
    ap₂ (λ x y. classify_from x y l)
      (keep_candidate_comm o (candidate_of a.phase a) (candidate_of b.phase b)) (ground arith)

classify_from-cons :
    (b : AuditRecord) (l : List AuditRecord) (o : Outcome) (r : Bool)
    → classify_from o r (b ∷ l)
      ≡ classify_from (keep_candidate o (candidate_of b.phase b)) (b.rollback_attempted || r) l
unfolding classify_from
classify_from-cons b l o r = refl

classify_from-perm :
    {xs ys : List AuditRecord}
    → Permᴰ xs ys
    → (o : Outcome) (r : Bool) → classify_from o r xs ≡ classify_from o r ys
classify_from-perm Permᴰ.nil o r = refl
classify_from-perm (Permᴰ.cons {a = a} {b = b} {l₁ = l} {l₂ = m} e p) o r =
    ap (λ x. classify_from o r (x ∷ l)) e
    ∙ classify_from-cons b l o r
    ∙ classify_from-perm p (keep_candidate o (candidate_of b.phase b)) (b.rollback_attempted || r)
    ∙ sym (classify_from-cons b m o r)
classify_from-perm (Permᴰ.swap {l = l} e f) o r =
    classify_from_swap _ _ l o r ∙ ap₂ (λ x y. classify_from o r (x ∷ y ∷ l)) f e
classify_from-perm (Permᴰ.trans p q) o r = classify_from-perm p o r ∙ classify_from-perm q o r

rank-keep_candidate : (o : Outcome) (c : Option Outcome) → rank o ≤ rank (keep_candidate o c)
unfolding keep_worse
rank-keep_candidate o none = ground arith
rank-keep_candidate o (some c) = ground arith

-- The rank of what is kept is at least that of what was kept before.
rank-classify_from :
    (o : Outcome) (r : Bool) (recs : List AuditRecord) → rank o ≤ rank (classify_from o r recs).0
unfolding classify_from
rank-classify_from o r [] = ground arith
rank-classify_from o r (rec ∷ recs) =
    let kept = keep_candidate o (candidate_of rec.phase rec) in
    let first = rank-keep_candidate o (candidate_of rec.phase rec) in
    let then_ = rank-classify_from kept (rec.rollback_attempted || r) recs in
    omega (arith, first, then_)

candidate_rank : (o c : Outcome) → rank c ≤ rank (keep_worse o c)
unfolding keep_worse
candidate_rank o c = ground arith

reported_rank :
    (recs : List AuditRecord) (o : Outcome) (r : Bool) (rec : AuditRecord) (c : Outcome)
    → Elem rec recs
    → candidate_of rec.phase rec ≡ some c
    → rank c ≤ rank (classify_from o r recs).0
unfolding classify_from
reported_rank [] o r rec c m e = absurd m
reported_rank (x ∷ recs) o r rec c (inl same) e =
    let mine : candidate_of x.phase x ≡ some c =
      ap (λ (y : AuditRecord). candidate_of y.phase y) same ∙ e in
    let first : rank c ≤ rank (keep_candidate o (candidate_of x.phase x)) =
      rw mine (candidate_rank o c) in
    let then_ =
      rank-classify_from (keep_candidate o (candidate_of x.phase x)) (x.rollback_attempted || r)
        recs in
    omega (arith, first, then_)
reported_rank (x ∷ recs) o r rec c (inr m) e = reported_rank recs _ _ rec c m e

high_demotes : (o : Outcome) → 3 ≤ rank o → outcome_demotes o ≡ true
unfolding rank outcome_demotes
high_demotes unrecorded h = refl
high_demotes converged h = absurd (ground arith)
high_demotes inconclusive h = absurd (ground arith)
high_demotes drift_aborted h = refl
high_demotes failed h = refl
high_demotes rolled_back h = refl
high_demotes regressed h = refl
high_demotes (other_outcome n) h = absurd (ground arith)

-- A record that says that something went wrong.
abbrev pub IsBad : Phase → Type 0
IsBad phase_failed = Unit
IsBad phase_rolled_back = Unit
IsBad _ = ⊥

bad_candidate :
    (rec : AuditRecord) (p : Phase)
    → IsBad p
    → (c : Outcome) × (candidate_of p rec ≡ some c) × (3 ≤ rank c)
unfolding candidate_of rank
bad_candidate rec phase_failed h = elim (Bool-cases rec.outcome.clean_abort) [
  | inl t ↦ (drift_aborted, rw t refl, ground arith)
  | inr f ↦ (failed, rw f refl, ground arith)
]
bad_candidate rec phase_rolled_back h = (rolled_back, refl, ground arith)
bad_candidate rec phase_unknown h = absurd h
bad_candidate rec phase_proposed h = absurd h
bad_candidate rec phase_approved h = absurd h
bad_candidate rec phase_executed h = absurd h
bad_candidate rec phase_verified h = absurd h
bad_candidate rec (other_phase n) h = absurd h

-- A lifecycle in which any record is of a failure or of a rollback demotes, whatever its other
-- records report and wherever the record stands among them.
pub failure_demotes :
    (recs : List AuditRecord) (rec : AuditRecord)
    → Elem rec recs
    → IsBad rec.phase
    → outcome_demotes (classify recs).0 ≡ true
unfolding classify
failure_demotes recs rec m bad =
    let (c, reported, high) = bad_candidate rec rec.phase bad in
    let above = reported_rank recs unrecorded false rec c m reported in
    high_demotes _ (omega (arith, high, above))

-- What a lifecycle is classified as does not depend on the order of its records.
pub classify-perm : (xs ys : List AuditRecord) → Permᴰ xs ys → classify xs ≡ classify ys
unfolding classify
classify-perm xs ys p = classify_from-perm p unrecorded false
