-- ===== src/Util/Packages/Ends.antt =====
-- The search of `reachable_from` ends within its rounds, daml-util/src/package.rs.
use rust_daml_bindings.Base.{
  Result-cases, ℕ, zero, suc, ◌+◌, ◌≤◌, String, false, not, some, List, [], ◌∷◌, ◌++◌ as ◌⋄◌, ◌≡◌,
  refl, ◌≢◌, inl, inr, arith, length, length-append, contains, length-keep_if, str_eq_iff, Assoc,
  lookup, ok, err, Bool-cases, Option-cases, if◌then◌else◌,
}
use rust_daml_bindings.Lf.Payload.{DamlLfArchivePayload}
use rust_daml_bindings.Grpc.Error.{DamlResult}
use rust_daml_bindings.Util.Packages.{
  Walk, out_of_fuel, as_daml_error, collect_referenced_package_ids, unvisited, refs_of, search_loop,
  rounds, reachable_from,
}

-- What a package can still add to the queue.
abbrev pub cost : DamlResult (List String) → ℕ
cost (err e) = 0
cost (ok rs) = length rs

module _ (walk : Walk) where
  refs : DamlLfArchivePayload → DamlResult (List String)
  refs p = as_daml_error (collect_referenced_package_ids walk p)

  -- The cost of the packages that have not been visited.
  weight : List String → Assoc DamlLfArchivePayload → ℕ
  weight visited [] = 0
  weight visited ((id, p) ∷ l) =
      (if contains id visited then 0 else cost (refs p)) + weight visited l

  rounds-eq-weight : (l : Assoc DamlLfArchivePayload) → rounds walk l ≡ suc (weight [] l)
  unfolding rounds weight refs
  rounds-eq-weight [] = refl
  rounds-eq-weight ((id, p) ∷ l) = ground (arith, rounds-eq-weight l)

  weight_mono :
      (id : String) (visited : List String) (l : Assoc DamlLfArchivePayload)
      → weight (id ∷ visited) l ≤ weight visited l
  unfolding weight
  weight_mono id visited [] = omega arith
  weight_mono id visited ((j, p) ∷ l) = ground (arith, weight_mono id visited l)

  -- Visiting a package takes what it adds off the weight.
  weight-visit :
      (id : String) (visited : List String) (l : Assoc DamlLfArchivePayload)
      (p : DamlLfArchivePayload)
      → contains id visited ≡ false
      → lookup id l ≡ some p
      → cost (refs p) + weight (id ∷ visited) l ≤ weight visited l
  unfolding weight
  weight-visit id visited [] p new h = absurd (cc)
  weight-visit id visited ((j, q) ∷ l) p new h = ground (
    arith,
    weight-visit id visited l p,
    weight_mono id visited l,
    str_eq_iff j id,
    str_eq_iff id j,
  )

module _ (walk : Walk) (payloads : Assoc DamlLfArchivePayload) where
  weight-refs_of :
      (id : String) (visited rs : List String)
      → contains id visited ≡ false
      → refs_of walk payloads id ≡ ok rs
      → length rs + weight walk (id ∷ visited) payloads ≤ weight walk visited payloads
  unfolding refs_of refs
  weight-refs_of id visited rs new h = elim (Option-cases (lookup id payloads)) [
    | inl e ↦ ground (arith, weight_mono walk id visited payloads)
    | inr (p, e) ↦ ground (arith, weight-visit walk id visited payloads p)
  ]

  search_loop_ends :
      (fuel : ℕ) (queue visited : List String)
      → length queue + weight walk visited payloads ≤ fuel
      → search_loop walk payloads fuel queue visited ≢ out_of_fuel
  unfolding search_loop
  search_loop_ends zero [] visited h = λ e. cc
  search_loop_ends zero (id ∷ queue) visited h = absurd (omega arith)
  search_loop_ends (suc fuel) [] visited h = λ e. cc
  search_loop_ends (suc fuel) (id ∷ queue) visited h = elim (Bool-cases (contains id visited)) [
    | inl seen ↦ rw (seen, search_loop) (search_loop_ends fuel queue visited (omega arith))
    | inr new ↦ elim (Result-cases (refs_of walk payloads id)) [
      | inl (x, bad) ↦ rw (new, bad, search_loop) (λ e. cc)
      | inr (rs, e) ↦
          rw (new, e, search_loop)
            (search_loop_ends fuel (queue ⋄ unvisited (id ∷ visited) rs) (id ∷ visited) (
              omega (
                arith,
                weight-refs_of id visited rs new e,
                length-append queue (unvisited (id ∷ visited) rs),
                length-keep_if (λ r. not (contains r (id ∷ visited))) rs,
              )))
    ]
  ]

-- The search of `reachable_from` ends, whatever packages refer to one another in a cycle: it gives
-- a set, or the error of a package.
pub reachable_from_ends :
    (walk : Walk) (payloads : Assoc DamlLfArchivePayload) (root : String)
    → reachable_from walk payloads root ≢ out_of_fuel
unfolding reachable_from
reachable_from_ends walk payloads root =
    search_loop_ends walk payloads (rounds walk payloads) (root ∷ []) []
      (omega (arith, rounds-eq-weight walk payloads))
