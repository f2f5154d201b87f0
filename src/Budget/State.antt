-- ===== src/Budget/State.antt =====
-- internal/budget/store.go: the durable posture, what is forgotten when it is written, and what a
-- state file reads as. The JSON codec is the standard library's; a file is its decoded value.
pub mod Pruning
use Prim.Native.String.{◌++◌}
use ma_klaude.Prelude.{
  is_empty, ℕ, String, Bool, true, false, not, ◌&&◌, Option, none, some, List, [], ◌∷◌, map,
  nat_beq, ◌==◌, string_comparable, if◌then◌else◌,
}
use ma_klaude.Prelude.Int.{ℤ, pos, leb_ℤ, eqb_ℤ, Time, time_sub}
use ma_klaude.Prelude.Assoc.{fetch, store, retain}

-- `TrippedDetail`: the sentence of `RecordOutcome`, or the caller's own text.
pub data TripDetail : Type 0 where
  no_trip : TripDetail
  by_failures : ℕ → String → TripDetail
  by_caller : String → TripDetail

-- A count of failures is a natural number: it starts at 0 and is only counted up.
pub record ClusterState : Type 0 where
  pub tripped : Bool
  pub tripped_at : Time
  pub tripped_detail : TripDetail
  pub consecutive_failures : ℕ
  pub cleared_at : Time
  pub cleared_by : String
  pub last_admitted : List (String × Time)

abbrev pub new_cluster : ClusterState
new_cluster = record {
  tripped = false;
  tripped_at = 0;
  tripped_detail = no_trip;
  consecutive_failures = 0;
  cleared_at = 0;
  cleared_by = "";
  last_admitted = [];
}

-- The clusters of `state`; its version is a constant of the build.
abbrev pub State : Type 0
State = List (String × ClusterState)

abbrev pub or_new : Option ClusterState → ClusterState
or_new none = new_cluster
or_new (some cs) = cs

-- What `state.cluster` returns.
unfoldable pub cluster_of : State → String → ClusterState
cluster_of s name = or_new (fetch s name)

-- What `state.cluster` leaves: a cluster asked about for the first time has an entry from then on.
unfoldable pub with_cluster : State → String → State
unfolding cluster_of
with_cluster s name = store s name (cluster_of s name)

-- The test under `delete(cs.LastAdmitted, key)`.
abbrev pub is_cooling : Time → ℤ → String → Time → Bool
is_cooling now cooldown key at = not (leb_ℤ cooldown (time_sub now at))

unfoldable pub prune_cluster : Time → ℤ → ClusterState → ClusterState
prune_cluster now cooldown cs = record cs {
  last_admitted = retain (is_cooling now cooldown) cs.last_admitted;
}

-- A cluster with nothing to remember is dropped.
abbrev pub is_kept : String → ClusterState → Bool
is_kept name cs = not (
    not cs.tripped
    && nat_beq cs.consecutive_failures 0
    && is_empty cs.last_admitted
    && cs.cleared_by == "")

-- `state.prune`.
unfoldable pub prune : Time → ℤ → State → State
unfolding prune_cluster
prune now cooldown s =
    if leb_ℤ cooldown (pos 0)
    then s
    else retain is_kept (map (λ entry. (entry.0, prune_cluster now cooldown entry.1)) s)

abbrev pub state_version : ℤ
state_version = pos 1

-- The state file when it is opened. An entry of a file may be null.
pub data File : Type 0 where
  absent : File
  unopened unparsed : String → File
  contents : ℤ → List (String × Option ClusterState) → File

pub data Loaded : Type 0 where
  loaded : State → Loaded
  load_error : String → Loaded

abbrev cons_loaded : String → ClusterState → Loaded → Loaded
cons_loaded name cs (loaded s) = loaded ((name, cs) ∷ s)
cons_loaded name cs (load_error e) = load_error e

-- The loop of `store.load` over the decoded clusters.
unfoldable pub load_entries : List (String × Option ClusterState) → Loaded
load_entries [] = loaded []
load_entries ((name, none) ∷ es) = load_error "the state file contains a null cluster entry"
load_entries ((name, some cs) ∷ es) = cons_loaded name cs (load_entries es)

-- `store.load`.
unfoldable pub load : File → Loaded
unfolding load_entries
load absent = loaded []
load (unopened e) = load_error ("the state file could not be opened: " ++ e)
load (unparsed e) = load_error ("the state file could not be parsed: " ++ e)
load (contents version es) =
    if eqb_ℤ version state_version
    then load_entries es
    else load_error "the state file is of another version"

-- `store.save` when it succeeds: what the file then holds.
unfoldable pub saved : State → File
saved s = contents state_version (map (λ entry. (entry.0, some entry.1)) s)
