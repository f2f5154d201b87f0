-- ===== src/Kube/Scoped.antt =====
-- Which requests reach the cluster.
use ma_klaude.Prelude.{
  ap₂, Bool, true, false, List, [], ◌∷◌, contains, if◌then◌else◌, string_comparable, ◌≡◌, ◌⊎◌, inl,
  inr, refl, All, Elem, Bool-cases, eq_iff, contains→Elem, arith,
}
use ma_klaude.Kube.Transport.{
  Request, Go, WriteScope, Answer, sent, write_forbidden, write_out_of_scope, dry_run_required,
  read_only_methods, request_target, is_mutating, normalize_method, has_server_dry_run,
  read_only_round_trip, scoped_round_trip,
}

-- The tests of the answer.
abbrev pub is_sent : Answer → Bool
is_sent sent = true
is_sent (write_forbidden m t) = false
is_sent (write_out_of_scope m t) = false
is_sent (dry_run_required m t) = false

-- The zero `WriteScope`.
abbrev pub no_scope : WriteScope
no_scope = record { method = ""; path = ""; require_dry_run = false }

-- The requests that a transport sends on, of all that a client makes.
unfoldable pub passed : (Request → Answer) → List Request → List Request
passed transport [] = []
passed transport (req ∷ reqs) =
    let rest = passed transport reqs in if is_sent (transport req) then req ∷ rest else rest

module _ (go : Go) where
  abbrev pub IsReadOnly : Request → Type 0
  IsReadOnly req = Elem (normalize_method go req) read_only_methods

  -- The one write that a scope grants.
  pub record IsGranted (scope : WriteScope) (req : Request) : Type 0 where
    pub method : normalize_method go req ≡ scope.method
    pub path : request_target req ≡ scope.path
    pub named : is_mutating scope ≡ true
    pub dry : (scope.require_dry_run ≡ false) ⊎ (has_server_dry_run go req ≡ true)

  scoped-sent :
      (scope : WriteScope) (req : Request)
      → is_sent (scoped_round_trip go scope req) ≡ true
      → IsReadOnly req ⊎ IsGranted scope req
  unfolding scoped_round_trip
  scoped-sent scope req h =
      elim (Bool-cases (contains read_only_methods (normalize_method go req))) [
        | inl t ↦ inl (contains→Elem read_only_methods (normalize_method go req) t)
        | inr t ↦ inr (record {
          method = (eq_iff (normalize_method go req) scope.method).0 (ground arith);
          path = (eq_iff (request_target req) scope.path).0 (ground arith);
          named = ground arith;
          dry = elim (Bool-cases scope.require_dry_run) [
            | inl d ↦ inr (ground arith)
            | inr d ↦ inl d
          ];
        })
      ]

  unscoped :
      (scope : WriteScope) (req : Request)
      → is_mutating scope ≡ false
      → is_sent (scoped_round_trip go scope req) ≡ is_sent (read_only_round_trip go req)
  unfolding scoped_round_trip read_only_round_trip
  unscoped scope req h = ground arith

  scoped_passed :
      (scope : WriteScope) (reqs : List Request)
      → All (λ req. IsReadOnly req ⊎ IsGranted scope req) (passed (scoped_round_trip go scope) reqs)
  unfolding passed
  scoped_passed scope [] = tt
  scoped_passed scope (req ∷ reqs) = elim (Bool-cases (is_sent (scoped_round_trip go scope req))) [
    | inl t ↦ rw t (scoped-sent scope req t, scoped_passed scope reqs)
    | inr t ↦ rw t (scoped_passed scope reqs)
  ]

  unscoped_passed :
      (scope : WriteScope) (reqs : List Request)
      → is_mutating scope ≡ false
      → passed (scoped_round_trip go scope) reqs ≡ passed (read_only_round_trip go) reqs
  unfolding passed
  unscoped_passed scope [] h = refl
  unscoped_passed scope (req ∷ reqs) h =
      ap₂ (λ b rest. if b then req ∷ rest else rest) (unscoped scope req h)
        (unscoped_passed scope reqs h)

  -- Of any requests, those that a scoped transport sends on are GET, HEAD or OPTIONS, or have the
  -- method and the path of the scope and, where it wants a dry run, ask for one; with a scope that
  -- names nothing they are the requests that the read-only transport sends on.
  pub passed-IsGranted :
      (scope : WriteScope) (reqs : List Request)
      → All (λ req. IsReadOnly req ⊎ IsGranted scope req) (passed (scoped_round_trip go scope) reqs)
        × (passed (scoped_round_trip go no_scope) reqs ≡ passed (read_only_round_trip go) reqs)
  passed-IsGranted scope reqs =
      (scoped_passed scope reqs, unscoped_passed no_scope reqs (unfold is_mutating in refl))
