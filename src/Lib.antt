-- ===== src/Lib.antt =====
-- MaKlaude: an operator of Kubernetes clusters, from what it finds to what it does unattended.
--
-- MaKlaude watches clusters, diagnoses what it finds and proposes remediations. A proposal waits for
-- a person unless three parts agree that it need not: the policy (internal/autonomy) must return an
-- auto-apply verdict, for which it asks the trust ledger (internal/trust) whether this fix was
-- approved and worked before; and the blast-radius budget (internal/budget) must then admit it. What
-- happened is recorded by internal/audit, and the ledger learns from those records. This library has
-- these three parts and the words that they share, and besides what is on either side of them: the
-- detector and the correlator of findings (internal/detect, internal/correlate), the loader of the
-- rules (internal/rules), the attempt of an approved action (internal/execute), and the transports
-- that its requests go through (internal/kube).
--
-- Which file is about which code:
--   Prelude and its children: lists, texts, Go's integers, durations, maps and comparable types.
--   Remediate: internal/remediate/proposal.go (Operation, Catalog, Reversibility, Target).
--   Autonomy/Verdict: internal/autonomy/autonomy.go (Decision, Reason, Verdict, PolicyIdentity).
--   Autonomy/Rule: internal/autonomy/rule.go (Rule, Ruleset.Validate, what a rule covers).
--   Autonomy/Request: internal/autonomy/class.go and trust.go (Class, Request, TrustOracle).
--   Autonomy/Decide: internal/autonomy/decide.go (DecideRequest and its helpers).
--   Budget/Limits: internal/budget/budget.go (Limits, Reason, Outcome, Consequence).
--   Budget/State: internal/budget/store.go (the durable posture, prune, load, save).
--   Budget/Admit: internal/budget/admit.go (Open, Begin, Admit, persist).
--   Budget/Breaker: internal/budget/admit.go (RecordOutcome, Trip, Clear, Sealed).
--   Budget/Runs: a budget under any sequence of those calls.
--   Trust/Entry: internal/trust/trust.go (Outcome, Entry) and Authority of internal/audit/audit.go.
--   Trust/Ledger: internal/trust/ledger.go (Record, Rebuild, Standing, Trust, NoteRecurrence).
--   Trust/Derive: internal/trust/derive.go (EntryFrom, classify, RecordLifecycle) and the fields of
--     internal/audit/record.go that it reads.
--   Trust/Quarantine: internal/trust/quarantine.go (windows, and the recorder before the ledger).
--   Unattended: the policy with the ledger as its oracle.
--   Health: the types of internal/health/snapshot.go.
--   Detect/Finding, Detect/Rules, Detect/Events: internal/detect (finding.go and detector.go). Each
--     rule returns the findings that its Go function adds. What fmt and strings.ToLower write is a
--     parameter, Printing.
--   Correlate/UnionFind, Correlate/Edges, Correlate/Groups, Correlate/Incident: internal/correlate.
--     The slices of the union-find are lists. find runs on fuel, the sum of the sizes: a size is
--     smaller than that of the parent, so a walk to the root is shorter than that. sort.Slice is an
--     insertion sort (Prelude/Sorts); elements that compare as equal keep the order of the list.
--   Rules: internal/rules/rules.go after the YAML decoder. An operation is its token.
--   Kube/Transport: internal/kube/transport.go and writescope.go. A request is what the transports
--     read of it; what json.Unmarshal and strings.ToUpper give is a parameter, Go.
--   Execute: internal/execute, one attempt of Runner.execute, with what it reads of
--     internal/approve/authorization.go, internal/remediate/proposal.go and internal/kube/executor.go.
--     A World holds the answers of the write client, the observer and the recorder; the loop of send
--     has as much fuel as there are attempts, and each round uses one; the watch of observe.go has a
--     round for each nanosecond of its window, which is enough as an interval is at least one. Writes
--     are the calls of the write client, previews included.
-- The children of a file hold what is shown of it; each Tests file runs the code on a small case.
--
-- How the code is read:
--   A Go int, and a time.Duration, is an integer; a type with named values over int keeps a
--   constructor for the values without a name, except Severity, Convergence and FailureClass, which
--   only this code sets, to named values. An instant is its distance in nanoseconds from
--   the zero time, a natural number; Sub saturates as Go's does. A count that starts at 0 and is only
--   counted up is a natural number. A map is an association list in which a key comes once; where
--   order could show the source sorts. An error result is an Option. Loops are structural
--   recursions; three run on fuel, with enough given: find of Correlate/UnionFind, send and observe
--   of Execute. A method that holds the lock of its object is one step, from the object before to the
--   object after and the result, and interleavings of callers are sequences of such steps.
--   The world outside is an argument: the clock's reading and the error of a write (World of
--   Budget/Admit, write_error of Trust/Ledger), the answer of the trust ledger to the policy
--   (TrustOracle), the printing of instants and of unnamed numbers, the sentence of a citation.
--   time.Time is read in UTC and without its monotonic part.
--
-- Not here: prose (the String and Error methods, and the detail of a verdict beyond what it is made
-- of), the JSON of the state files, the files themselves and their temporary copies, Status of the
-- budget, and the rest of the program: collection, diagnosis,
-- the planner, approval, the rollback, the previews and the audit records of execution, escalation
-- and the clients of other services.
pub mod Prelude
pub mod Remediate
pub mod Autonomy
pub mod Budget
pub mod Trust
pub mod Rules
pub mod Kube
pub mod Execute
pub mod Health
pub mod Detect
pub mod Correlate
pub mod Unattended
