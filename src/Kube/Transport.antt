-- ===== src/Kube/Transport.antt =====
-- internal/kube/transport.go and internal/kube/writescope.go. A request is what the transports read
-- of it; sending it on is `sent`.
use ma_klaude.Prelude.{
  false, ℕ, Bool, not, ◌&&◌, String, List, [], ◌∷◌, Option, none, some, take, contains,
  if◌then◌else◌, ◌==◌, string_comparable,
}
use ma_klaude.Prelude.Text.{trim_space}

-- `dry_run` is `URL.Query()["dryRun"]`, none without the key.
pub record Url : Type 0 where
  pub path : String
  pub dry_run : Option (List String)

-- `get_body` gives the bytes of the body: none without `GetBody`, without a body, or on an error.
pub record Request : Type 0 where
  pub method : String
  pub url : Option Url
  pub get_body : Option (List ℕ)

-- Of the standard library: `strings.ToUpper`, and the field `dryRun` that `json.Unmarshal` reads
-- from bytes, none on an error.
pub record Go : Type 0 where
  pub to_upper : String → String
  pub read_dry_run : List ℕ → Option (List String)

pub record WriteScope : Type 0 where
  pub method : String
  pub path : String
  pub require_dry_run : Bool

pub data Answer : Type 0 where
  sent : Answer
  write_forbidden : String → String → Answer
  write_out_of_scope : String → String → Answer
  dry_run_required : String → String → Answer

-- `readOnlyMethods`.
abbrev pub read_only_methods : List String
read_only_methods = "GET" ∷ "HEAD" ∷ "OPTIONS" ∷ []

-- `metav1.DryRunAll`.
abbrev pub dry_run_all : String
dry_run_all = "All"

abbrev pub max_dry_run_body_bytes : ℕ
max_dry_run_body_bytes = 65536

-- `requestTarget`.
unfoldable pub request_target : Request → String
request_target req = elim req.url [
  | none ↦ "<unknown>"
  | some url ↦ if url.path == "" then "/" else url.path
]

-- `isMutating`.
unfoldable pub is_mutating : WriteScope → Bool
is_mutating s = not (s.method == "") && not (s.path == "")

-- One value, and it is `All`.
unfoldable pub asks_all : List String → Bool
asks_all [] = false
asks_all (v ∷ []) = v == dry_run_all
asks_all (v ∷ w ∷ vs) = false

-- A list that is there and asks for a dry run of everything.
abbrev pub asks : Option (List String) → Bool
asks none = false
asks (some values) = asks_all values

-- `queryRequestsDryRun`.
unfoldable pub query_requests_dry_run : Url → Bool
query_requests_dry_run url = asks url.dry_run

module _ (go : Go) where
  -- `normalizeMethod`.
  unfoldable pub normalize_method : Request → String
  normalize_method req =
      let method = go.to_upper (trim_space req.method) in if method == "" then "GET" else method

  -- `bodyRequestsDryRun`.
  unfoldable pub body_requests_dry_run : Request → Bool
  body_requests_dry_run req = elim req.get_body [
    | none ↦ false
    | some bytes ↦ asks (go.read_dry_run (take max_dry_run_body_bytes bytes))
  ]

  -- `hasServerDryRun`.
  unfoldable pub has_server_dry_run : Request → Bool
  has_server_dry_run req = elim req.url [
    | none ↦ false
    | some url ↦
        if normalize_method req == "DELETE"
        then body_requests_dry_run req
        else query_requests_dry_run url
  ]

  -- `readOnlyRoundTripper.RoundTrip`.
  unfoldable pub read_only_round_trip : Request → Answer
  read_only_round_trip req =
      if not (contains read_only_methods (normalize_method req))
      then write_forbidden (normalize_method req) (request_target req)
      else sent

  -- `scopedWriteRoundTripper.RoundTrip`.
  unfoldable pub scoped_round_trip : WriteScope → Request → Answer
  scoped_round_trip scope req =
      let method = normalize_method req in
      let target = request_target req in
      if contains read_only_methods method
      then sent
      else if not (is_mutating scope)
      then write_out_of_scope method target
      else if not (method == scope.method)
      then write_out_of_scope method target
      else if not (target == scope.path)
      then write_out_of_scope method target
      else if scope.require_dry_run && not (has_server_dry_run req)
      then dry_run_required method target
      else sent
