-- ===== src/Kube/Tests.antt =====
-- A scope for the dry run of one deletion.
use ma_klaude.Prelude.{
  nat_beq, ◌==◌, string_comparable, if◌then◌else◌, ℕ, true, String, List, [], ◌∷◌, none, some,
  length, contains, ◌≡◌, ◌⊎◌, refl, All,
}
use ma_klaude.Prelude.Text.{trim_space}
use ma_klaude.Kube.Transport.{
  Request, Go, WriteScope, request_target, is_mutating, asks_all, query_requests_dry_run,
  normalize_method, body_requests_dry_run, has_server_dry_run, read_only_round_trip,
  scoped_round_trip,
}
use ma_klaude.Kube.Scoped.{passed, no_scope, IsReadOnly, IsGranted, passed-IsGranted}

-- A body says `All` by its length.
abbrev go : Go
go = record {
  to_upper = λ s. if s == "delete" then "DELETE" else s;
  read_dry_run = λ bytes. if nat_beq (length bytes) 3 then some ("All" ∷ []) else none;
}

abbrev delete_pod : WriteScope
delete_pod = record {
  method = "DELETE";
  path = "/api/v1/namespaces/web/pods/shop";
  require_dry_run = true;
}

abbrev request : String → String → List ℕ → Request
request method path body = record {
  method = method;
  url = some (record { path = path; dry_run = none });
  get_body = some body;
}

abbrev requests : List Request
requests =
    request "" "/api/v1/nodes" []
    ∷ request "delete" "/api/v1/namespaces/web/pods/shop" (1 ∷ 2 ∷ 3 ∷ [])
    ∷ request "DELETE" "/api/v1/namespaces/web/pods/shop" []
    ∷ request "DELETE" "/api/v1/namespaces/web/pods/cart" (1 ∷ 2 ∷ 3 ∷ [])
    ∷ request "PATCH" "/api/v1/namespaces/web/pods/shop" (1 ∷ 2 ∷ 3 ∷ [])
    ∷ []

two_pass : length (passed (scoped_round_trip go delete_pod) requests) ≡ 2
unfolding passed scoped_round_trip is_mutating has_server_dry_run body_requests_dry_run
    query_requests_dry_run normalize_method asks_all request_target contains trim_space
two_pass = refl

passed-IsGranted_example :
    All
      (λ req. IsReadOnly go req ⊎ IsGranted go delete_pod req)
      (passed (scoped_round_trip go delete_pod) requests)
    × (passed (scoped_round_trip go no_scope) requests ≡ passed (read_only_round_trip go) requests)
passed-IsGranted_example = passed-IsGranted go delete_pod requests
