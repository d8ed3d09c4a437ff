-- ===== src/Util/Packages/Reach.antt =====
-- `reachable_from` of daml-util/src/package.rs: it ends, and it collects the packages that the root
-- refers to, directly or not.
use rust_daml_bindings.Base.{
  Result-cases, ℕ, zero, suc, String, true, not, List, [], ◌∷◌, ◌++◌ as ◌⋄◌, ◌≡◌, subst, ◌↔◌, ◌||◌,
  ◌&&◌, inl, inr, arith, contains, contains-append, contains-keep_if, str_eq, str_eq_iff, Assoc, ok,
  err, Bool-cases,
}
use rust_daml_bindings.Lf.Payload.{DamlLfArchivePayload}
use rust_daml_bindings.Grpc.Error.{DamlError}
use rust_daml_bindings.Util.Packages.{
  Walk, done, failed, unvisited, refs_of, search_loop, rounds, reachable_from,
}

done-injective : {a b : List String} → done a ≡ done b → a ≡ b
done-injective e = cc

queued_lem :
    (b : String) (queue visited rs : List String)
    → contains b (queue ⋄ unvisited visited rs)
      ≡ (contains b queue || (contains b rs && not (contains b visited)))
queued_lem b queue visited rs = ground (
  arith,
  contains-append b queue (unvisited visited rs),
  contains-keep_if b (λ r. not (contains r visited)) rs,
)

module _ (walk : Walk) (payloads : Assoc DamlLfArchivePayload) where
  -- `b` is the root, or a package on the way from it refers to `b`.
  pub data Reaches (root : String) : String → Type 0 where
    here : Reaches root root
    step :
        {a b : String} (rs : List String)
        → Reaches root a
        → refs_of walk payloads a ≡ ok rs
        → contains b rs ≡ true
        → Reaches root b

  record Inv (root : String) (queue visited : List String) : Type 0 where
    start : (contains root visited || contains root queue) ≡ true
    sound_visited : (b : String) → contains b visited ≡ true → Reaches root b
    sound_queue : (b : String) → contains b queue ≡ true → Reaches root b
    closed :
        (a : String)
        → contains a visited ≡ true
        → (rs : List String) × (refs_of walk payloads a ≡ ok rs)
          × ((b : String) → contains b rs ≡ true → (contains b visited || contains b queue) ≡ true)

  Inv-again :
      (root id : String) (queue visited : List String)
      → contains id visited ≡ true
      → Inv root (id ∷ queue) visited
      → Inv root queue visited
  Inv-again root id queue visited seen h = record {
    start = ground (arith, start, str_eq_iff id root);
    sound_visited = sound_visited;
    sound_queue = λ b q. sound_queue b (ground (arith));
    closed = λ a v.
        let (rs, e, all) = closed a v in (rs, e, λ b m. ground (arith, all b m, str_eq_iff id b));
  }
    where
      open h use {start, sound_visited, sound_queue, closed}

  Inv-visit :
      (root id : String) (queue visited rs : List String)
      → refs_of walk payloads id ≡ ok rs
      → Inv root (id ∷ queue) visited
      → Inv root (queue ⋄ unvisited (id ∷ visited) rs) (id ∷ visited)
  Inv-visit root id queue visited rs refs h = record {
    start = ground (arith, start, now root);
    sound_visited = λ b v. elim (Bool-cases (str_eq id b)) [
      | inl e ↦ subst (Reaches root) ((str_eq_iff id b).0 e) at_id
      | inr e ↦ sound_visited b (ground (arith))
    ];
    sound_queue = λ b q. elim (Bool-cases (contains b queue)) [
      | inl e ↦ sound_queue b (ground arith)
      | inr e ↦ step rs at_id refs (ground (arith, now b))
    ];
    closed = λ a v. elim (Bool-cases (str_eq id a)) [
      | inl e ↦ (
        rs,
        subst (λ x. refs_of walk payloads x ≡ ok rs) ((str_eq_iff id a).0 e) refs,
        λ b m. ground (arith, now b),
      )
      | inr e ↦
          let (ss, e', all) = closed a (ground arith) in
          (ss, e', λ b m. ground (arith, all b m, now b))
    ];
  }
    where
      open h use {start, sound_visited, sound_queue, closed}

      at_id : Reaches root id
      at_id = sound_queue id (ground (arith, str_eq_iff id id))

      now :
          (b : String)
          → contains b (queue ⋄ unvisited (id ∷ visited) rs)
            ≡ (contains b queue || (contains b rs && not (contains b (id ∷ visited))))
      now b = queued_lem b queue (id ∷ visited) rs

  -- An invariant of the rounds holds when the search is done, with an empty queue.
  search_loop-Inv :
      (root : String) (fuel : ℕ) (queue visited t : List String)
      → Inv root queue visited
      → search_loop walk payloads fuel queue visited ≡ done t
      → Inv root [] t
  unfolding search_loop
  search_loop-Inv root zero [] visited t h e = subst (Inv root []) (done-injective e) h
  search_loop-Inv root zero (id ∷ queue) visited t h e = absurd (cc)
  search_loop-Inv root (suc fuel) [] visited t h e = subst (Inv root []) (done-injective e) h
  search_loop-Inv root (suc fuel) (id ∷ queue) visited t h e =
      elim (Bool-cases (contains id visited)) [
        | inl seen ↦
            search_loop-Inv root fuel queue visited t (Inv-again root id queue visited seen h)
              (rw (seen, search_loop) at e)
        | inr new ↦ elim (Result-cases (refs_of walk payloads id)) [
          | inl (x, bad) ↦ absurd (ground arith)
          | inr (rs, refs) ↦
              search_loop-Inv root fuel (queue ⋄ unvisited (id ∷ visited) rs) (id ∷ visited) t
                (Inv-visit root id queue visited rs refs h) (rw (new, refs, search_loop) at e)
        ]
      ]

  complete :
      (root : String) (t : List String)
      → Inv root [] t
      → {b : String} → Reaches root b
      → contains b t ≡ true
  complete root t h here = ground (arith, h.start)
  complete root t h (step {a} {b} rs r refs m) =
      let (ss, e, all) = h.closed a (complete root t h r) in ground (arith, all b (ground arith))

  Inv-start : (root : String) → Inv root (root ∷ []) []
  Inv-start root = record {
    start = ground (arith, str_eq_iff root root);
    sound_visited = λ b v. absurd (ground arith);
    sound_queue = λ b q. subst (Reaches root) ((str_eq_iff root b).0 (ground arith)) here;
    closed = λ a v. absurd (ground arith);
  }

  -- A failed search has met a package whose references cannot be collected.
  search_loop-failed :
      (root : String) (fuel : ℕ) (queue visited : List String) (x : DamlError)
      → Inv root queue visited
      → search_loop walk payloads fuel queue visited ≡ failed x
      → (a : String) × Reaches root a × (refs_of walk payloads a ≡ err x)
  unfolding search_loop
  search_loop-failed root zero [] visited x h e = absurd (cc)
  search_loop-failed root zero (id ∷ queue) visited x h e = absurd (cc)
  search_loop-failed root (suc fuel) [] visited x h e = absurd (cc)
  search_loop-failed root (suc fuel) (id ∷ queue) visited x h e =
      elim (Bool-cases (contains id visited)) [
        | inl seen ↦
            search_loop-failed root fuel queue visited x (Inv-again root id queue visited seen h)
              (rw (seen, search_loop) at e)
        | inr new ↦ elim (Result-cases (refs_of walk payloads id)) [
          | inl (y, bad) ↦ (id, h.sound_queue id (ground (arith, str_eq_iff id id)), ground arith)
          | inr (rs, refs) ↦
              search_loop-failed root fuel (queue ⋄ unvisited (id ∷ visited) rs) (id ∷ visited) x
                (Inv-visit root id queue visited rs refs h) (rw (new, refs, search_loop) at e)
        ]
      ]

-- When `reachable_from` returns a set, it holds exactly the root and the packages that the root
-- refers to through packages of the map; a package that the map lacks is in it too where it is
-- referred to.
pub reachable_from_correct :
    (walk : Walk) (payloads : Assoc DamlLfArchivePayload) (root : String) (t : List String)
    → reachable_from walk payloads root ≡ done t
    → (b : String) → (contains b t ≡ true) ↔ Reaches walk payloads root b
unfolding reachable_from
reachable_from_correct walk payloads root t h b =
    let inv =
      search_loop-Inv walk payloads root (rounds walk payloads) (root ∷ []) [] t
        (Inv-start walk payloads root) h in
    (inv.sound_visited b, complete walk payloads root t inv)

-- When `reachable_from` fails, the error is that of a package which the root refers to.
pub reachable_from_fails :
    (walk : Walk) (payloads : Assoc DamlLfArchivePayload) (root : String) (x : DamlError)
    → reachable_from walk payloads root ≡ failed x
    → (a : String) × Reaches walk payloads root a × (refs_of walk payloads a ≡ err x)
unfolding reachable_from
reachable_from_fails walk payloads root x h =
    search_loop-failed walk payloads root (rounds walk payloads) (root ∷ []) [] x
      (Inv-start walk payloads root) h
