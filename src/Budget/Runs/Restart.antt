-- ===== src/Budget/Runs/Restart.antt =====
-- The state file over a run: what a process that opens it finds.
use Prim.Native.String.{◌++◌}
use text.Mathlib.TextLemmas.{append-eq-nil_iff}
use ma_klaude.Prelude.{
  false≢true, String, ◌≡◌, ◌≢◌, refl, sym, ◌∙◌, ap, subst, inl, inr, not, some, [], ◌∷◌, map, arith,
  eq_iff, Bool-cases, Option-cases, ◌==◌, string_comparable,
}
use ma_klaude.Budget.Limits.{Limits}
use ma_klaude.Budget.State.{
  ClusterState, State, cluster_of, with_cluster, File, loaded, load_entries, load, saved,
}
use ma_klaude.Budget.State.Pruning.{cluster_of-with_cluster}
use ma_klaude.Budget.Runs.{Call, begins, admits_at, records_at, trips_at, clears_at, step, Run, run}
use ma_klaude.Budget.Runs.Steps.{put, record_lem, trip_lem, clear_lem}
use ma_klaude.Budget.Admit.Looking.{cluster_of-left}
use ma_klaude.Budget.Admit.Ladder.{reason_of}
use ma_klaude.Budget.Limits.{admits, Grant}
use ma_klaude.Prelude.Text.{trim_space}
use ma_klaude.Prelude.Int.{Time}
use ma_klaude.Remediate.{Target, target_string}
use ma_klaude.Budget.Admit.{
  begin, check, suppress, admit, consume, Budget, World, write, persist, open_budget, opened,
}

load_entries-saved :
    (s : State) → load_entries (map (λ entry. (entry.0, some entry.1)) s) ≡ loaded s
unfolding load_entries
load_entries-saved [] = refl
load_entries-saved ((name, cs) ∷ s) = rw (load_entries-saved s) refl

-- What is saved reads back.
load-saved : (s : State) → load (saved s) ≡ loaded s
unfolding load saved
load-saved s = load_entries-saved s

-- A process that opens this file finds no damage, and every cluster as it is in `b`.
pub record Reopens (b : Budget) (f : File) : Type 0 where
  pub unsealed : (open_budget b.limits f).seal_detail ≡ ""
  pub clusters :
      (name : String) → cluster_of (open_budget b.limits f).state name ≡ cluster_of b.state name

-- There is a file, and it is up to date unless the budget is sealed.
pub record IsDurable (b : Budget) : Type 0 where
  pub file : File
  pub there : b.backing ≡ some file
  pub reopens : b.seal_detail ≡ "" → Reopens b file

open_saved :
    (l : Limits) (s : State)
    → ((open_budget l (saved s)).seal_detail ≡ "") × ((open_budget l (saved s)).state ≡ s)
unfolding open_budget opened
open_saved l s = rw (load-saved s) (refl, refl)

write_error-given :
    (e : String)
    → "the state could not be written, so the breaker and cooldowns are no longer durable: " ++ e
      ≢ ""
write_error-given e h = false≢true (
    (eq_iff "the state could not be written, so the breaker and cooldowns are no longer durable: "
        "").1
      (append-eq-nil_iff.0 h).0)

write-IsDurable :
    (w : World) (b : Budget) (s : State) (file : File)
    → b.backing ≡ some file
    → IsDurable (write w b s)
unfolding write
write-IsDurable w b s file there = elim (Option-cases w.write_error) [
  | inl ok ↦ rw ok (record {
    file = saved s;
    there = refl;
    reopens = λ _. record {
      unsealed = (open_saved b.limits s).0;
      clusters = λ name. ap (λ x. cluster_of x name) (open_saved b.limits s).1;
    };
  })
  | inr (e, failed) ↦
      rw failed
        (record { file = file; there = there; reopens = λ n. absurd (write_error-given e n) })
]

persist-IsDurable :
    (w : World) (b : Budget) (file : File) → b.backing ≡ some file → IsDurable (persist w b)
unfolding persist
persist-IsDurable w b file there = elim (Bool-cases (b.seal_detail == "")) [
  | inl t ↦ rw (t, there) (write-IsDurable w b _ file there)
  | inr n ↦ rw n (record {
    file = file;
    there = there;
    reopens = λ e. absurd (false≢true (sym n ∙ (eq_iff b.seal_detail "").1 e));
  })
]

-- What writes nothing, and says the same of each cluster.
unwritten :
    (b b' : Budget)
    → b'.limits ≡ b.limits
    → b'.backing ≡ b.backing
    → b'.seal_detail ≡ b.seal_detail
    → ((name : String) → cluster_of b'.state name ≡ cluster_of b.state name)
    → IsDurable b
    → IsDurable b'
unwritten b b' l f s c d = record {
  file = d.file;
  there = f ∙ d.there;
  reopens = λ e.
      let r = d.reopens (sym s ∙ e) in
      record {
        unsealed = rw l r.unsealed;
        clusters = λ name. rw l (r.clusters name) ∙ sym (c name);
      };
}

module _ (w : World) (b : Budget) (d : IsDurable b) where
  put-IsDurable : (cluster : String) (cs : ClusterState) → IsDurable (put w b cluster cs)
  unfolding put
  put-IsDurable cluster cs = persist-IsDurable w _ d.file d.there

  looked_up-IsDurable :
      (cluster : String) → IsDurable (record b { state = with_cluster b.state cluster })
  looked_up-IsDurable cluster =
      unwritten b _ refl refl refl (λ name. cluster_of-with_cluster b.state cluster name) d

  granted-IsDurable :
      (b' : Budget) (cluster key : String) (at : Time)
      → b'.backing ≡ b.backing
      → IsDurable (consume w b' cluster key at)
  unfolding consume
  granted-IsDurable b' cluster key at e = persist-IsDurable w _ d.file (e ∙ d.there)

  denied-IsDurable :
      (cluster : String) (target : Target) (at : Time) (g : Grant)
      → IsDurable (suppress (record b { state = (check b cluster target at).left }) g at)
  unfolding suppress
  denied-IsDurable cluster target at g =
      unwritten b _ refl refl refl (cluster_of-left b cluster target at) d

  admit-IsDurable :
      (cluster : String) (target : Target) (at : Time) → IsDurable (admit w b cluster target at).0
  unfolding admit
  admit-IsDurable cluster target at = elim (Bool-cases (admits (reason_of b cluster target at))) [
    | inl t ↦ rw t (granted-IsDurable _ cluster (target_string target) at refl)
    | inr f ↦ rw f (denied-IsDurable cluster target at _)
  ]

  step-IsDurable : (c : Call) → IsDurable (step w b c)
  step-IsDurable begins = unfold step begin in unwritten b _ refl refl refl (λ name. refl) d
  step-IsDurable (admits_at cluster target at) = unfold step in admit-IsDurable cluster target at
  step-IsDurable (records_at cluster target outcome at) =
      subst IsDurable (sym (record_lem w b cluster target outcome at)) (put-IsDurable cluster _)
  step-IsDurable (trips_at cluster detail at) =
      subst IsDurable (sym (trip_lem w b cluster detail at))
        (elim (Bool-cases (cluster_of b.state cluster).tripped) [
          | inl t ↦ rw t (looked_up-IsDurable cluster)
          | inr f ↦ rw f (put-IsDurable cluster _)
        ])
  step-IsDurable (clears_at cluster by at) =
      subst IsDurable (sym (clear_lem w b cluster by at)) (elim (Bool-cases (trim_space by == "")) [
        | inl t ↦ rw t d
        | inr f ↦ rw f (elim (Bool-cases (not (b.seal_detail == ""))) [
          | inl t ↦ rw t d
          | inr n ↦ rw n (put-IsDurable cluster _)
        ])
      ])

run-IsDurable : (r : Run) (b : Budget) → IsDurable b → IsDurable (run b r)
unfolding run
run-IsDurable [] b d = d
run-IsDurable ((w, c) ∷ r) b d = run-IsDurable r (step w b c) (step-IsDurable w b d c)

open-IsDurable : (l : Limits) (f : File) → IsDurable (open_budget l f)
open-IsDurable l f = record {
  file = f;
  there = open_backing;
  reopens = λ e. rw open_limits (record { unsealed = e; clusters = λ name. refl });
}
  where
    open_backing : (open_budget l f).backing ≡ some f
    open_backing = unfold open_budget opened in ground arith

    open_limits : (open_budget l f).limits ≡ l
    open_limits = unfold open_budget opened in ground arith

-- Nothing is lost when the process ends between two calls. Whatever calls are made on a budget that
-- was opened on a file, it has a file after them; if it is not sealed, a new process that opens
-- that file is not sealed either, and finds every breaker, count and cooldown of every cluster as
-- the old one left it.
pub restart_loses_nothing : (l : Limits) (f : File) (r : Run) → IsDurable (run (open_budget l f) r)
restart_loses_nothing l f r = run-IsDurable r (open_budget l f) (open-IsDurable l f)
