-- ===== src/Avl/Invariant.antt =====
-- What every history of calls of the class keeps, and what the calls do to `find`.
use mathlib.Core.Path.{fun_ext}
use cpp_tricks.Prelude.{
  ℕ, ◌-◌, ◌%◌, ◌≡◌, refl, subst, ◌≢◌, ◌⊎◌, inl, inr, Bool, true, false, List, [], ◌∷◌, length,
  arith, if◌then◌else◌, Bool-cases,
}
use cpp_tricks.Order.{Less, lt}
use cpp_tricks.Avl.Node.{Tree, leaf, node, depth_of, inc32, u32_mod, sub32}
use cpp_tricks.Avl.Node
use cpp_tricks.Avl.Rotation.{IsAvl}
use cpp_tricks.Avl.Balance.{insert-IsAvl, remove-IsAvl}
use cpp_tricks.Avl.Sorted.{
  IsSorted, put-IsSorted, take_out-IsSorted, count-put_self, count-put_ne, count-take_out_self,
  count-take_out_ne,
}
use cpp_tricks.Avl.Refine.{entries, entries-insert, entries-remove, find_refines}
use cpp_tricks.Avl.Totals.{
  total, goes, total-put, length-put, length-take_out, total-take_out_ref, total-take_out_all,
  insert_reports, remove_reports,
}
use cpp_tricks.Avl.Container.{Avl, empty, find, insert, remove, drop, clear}

module _ {K : Type 0} ⦃o : Less K⦄ where
  pub record IsValid (t : Avl K) : Type 0 where
    pub balanced : IsAvl t.data_
    pub sorted : IsSorted (entries t.data_)
    pub counted : t.nodes ≡ total (entries t.data_) % u32_mod
    pub distinct : t.unique_nodes ≡ length (entries t.data_) % u32_mod

  pub empty-IsValid : IsValid empty
  unfolding empty total
  empty-IsValid = record { balanced = tt; sorted = tt; counted = refl; distinct = refl }

  insert-IsValid : (t : Avl K) (v : K) → IsValid t → IsValid (insert t v)
  unfolding insert
  insert-IsValid t v h =
      let e = entries-insert t.data_ v h.sorted in
      record {
        balanced = (insert-IsAvl t.data_ v h.balanced).0;
        sorted = rw e (put-IsSorted v (entries t.data_) h.sorted);
        counted = rw (e, total-put, h.counted) (omega arith);
        distinct =
            rw (e, insert_reports t.data_ v h.sorted, length-put, h.distinct)
              (elim (Bool-cases (goes v false (entries t.data_))) [
                | inl g ↦ rw g
                | inr g ↦ rw g (omega arith)
              ]);
      }

  unique_after :
      (v : K) (ref : Bool) (t : Avl K)
      → IsValid t
      → let m = Node.remove t.data_ v ref in
        (if m.1 then sub32 t.unique_nodes 1 else t.unique_nodes) ≡ length (entries m.0) % u32_mod
  unique_after v ref t h =
      let l = length-take_out v ref (entries t.data_) in
      rw (remove_reports t.data_ v ref h.sorted, entries-remove t.data_ v ref h.sorted, h.distinct)
        (elim (Bool-cases (goes v ref (entries t.data_))) [
          | inl g ↦ rw g (let k = rw g at l in omega arith)
          | inr g ↦ rw g (let k = rw g at l in omega arith)
        ])

  remove-IsValid : (t : Avl K) (v : K) → IsValid t → IsValid (remove t v)
  unfolding remove
  remove-IsValid t v h =
      let e = entries-remove t.data_ v true h.sorted in
      record {
        balanced = (remove-IsAvl t.data_ v true h.balanced).0;
        sorted = rw e (take_out-IsSorted v true (entries t.data_) h.sorted);
        counted =
            rw (find_refines t.data_ v h.sorted, e, h.counted)
              (omega (arith, total-take_out_ref v (entries t.data_)));
        distinct = unique_after v true t h;
      }

  drop-IsValid : (t : Avl K) (v : K) → IsValid t → IsValid (drop t v)
  unfolding drop
  drop-IsValid t v h =
      let e = entries-remove t.data_ v false h.sorted in
      record {
        balanced = (remove-IsAvl t.data_ v false h.balanced).0;
        sorted = rw e (take_out-IsSorted v false (entries t.data_) h.sorted);
        counted =
            rw (find_refines t.data_ v h.sorted, e, h.counted)
              (omega (arith, total-take_out_all v (entries t.data_)));
        distinct = unique_after v false t h;
      }

pub data Call (K : Type 0) : Type 0 where
  inserts removes drops : K → Call K

module _ {K : Type 0} ⦃o : Less K⦄ where
  unfoldable pub run : Avl K → List (Call K) → Avl K
  run t [] = t
  run t (inserts v ∷ cs) = run (insert t v) cs
  run t (removes v ∷ cs) = run (remove t v) cs
  run t (drops v ∷ cs) = run (drop t v) cs

  -- Neither value is below the other.
  abbrev pub same : K → K → Bool
  same u v = if lt u v then false else if lt v u then false else true

  -- The numbers of occurrences, as a function, after the same calls.
  unfoldable pub tally : (K → ℕ) → List (Call K) → K → ℕ
  tally f [] = f
  tally f (inserts v ∷ cs) = tally (λ u. if same u v then inc32 (f u) else f u) cs
  tally f (removes v ∷ cs) = tally (λ u. if same u v then f u - 1 else f u) cs
  tally f (drops v ∷ cs) = tally (λ u. if same u v then 0 else f u) cs

  -- After any calls of `insert`, `remove` and `drop` on a valid tree, the tree is valid: it is balanced with exact depths, its values
  -- are in strictly increasing order, `nodes` is the sum of the counters and `unique_nodes` the
  -- number of nodes, both modulo 2^32.
  pub run-IsValid : (t : Avl K) (cs : List (Call K)) → IsValid t → IsValid (run t cs)
  unfolding run
  run-IsValid t [] h = h
  run-IsValid t (inserts v ∷ cs) h = run-IsValid (insert t v) cs (insert-IsValid t v h)
  run-IsValid t (removes v ∷ cs) h = run-IsValid (remove t v) cs (remove-IsValid t v h)
  run-IsValid t (drops v ∷ cs) h = run-IsValid (drop t v) cs (drop-IsValid t v h)

  same_cases : (u v : K) → (same u v ≡ true) × (u ≡ v) ⊎ (same u v ≡ false) × (u ≢ v)
  same_cases u v = elim (Bool-cases (lt u v)) [
    | inl e ↦ inr (rw e, λ p. cc (o.irrefl v, subst (λ x. lt x v ≡ true) p e))
    | inr e ↦ elim (Bool-cases (lt v u)) [
      | inl f ↦ inr (rw (e, f), λ p. cc (o.irrefl v, subst (λ x. lt v x ≡ true) p f))
      | inr f ↦ inl (rw (e, f), o.connex u v e f)
    ]
  ]

  find-insert :
      (t : Avl K) (v : K)
      → IsValid t
      → find (insert t v) ≡ (λ u. if same u v then inc32 (find t u) else find t u)
  unfolding find insert
  find-insert t v h = fun_ext λ u.
      rw
        (
          find_refines (Node.insert t.data_ v).0 u (insert-IsValid t v h).sorted,
          find_refines t.data_ u h.sorted,
          entries-insert t.data_ v h.sorted,
        )
        (elim (same_cases u v) [
          | inl e ↦ rw (e.0, e.1) (count-put_self v (entries t.data_))
          | inr e ↦ rw e.0 (count-put_ne v u (entries t.data_) e.1)
        ])

  find-remove :
      (t : Avl K) (v : K)
      → IsValid t
      → find (remove t v) ≡ (λ u. if same u v then find t u - 1 else find t u)
  unfolding find remove
  find-remove t v h = fun_ext λ u.
      rw
        (
          find_refines (Node.remove t.data_ v true).0 u (remove-IsValid t v h).sorted,
          find_refines t.data_ u h.sorted,
          entries-remove t.data_ v true h.sorted,
        )
        (elim (same_cases u v) [
          | inl e ↦ rw (e.0, e.1) (count-take_out_self v true (entries t.data_) h.sorted)
          | inr e ↦ rw e.0 (count-take_out_ne v u true (entries t.data_) h.sorted e.1)
        ])

  find-drop :
      (t : Avl K) (v : K) → IsValid t → find (drop t v) ≡ (λ u. if same u v then 0 else find t u)
  unfolding find drop
  find-drop t v h = fun_ext λ u.
      rw
        (
          find_refines (Node.remove t.data_ v false).0 u (drop-IsValid t v h).sorted,
          find_refines t.data_ u h.sorted,
          entries-remove t.data_ v false h.sorted,
        )
        (elim (same_cases u v) [
          | inl e ↦ rw (e.0, e.1) (count-take_out_self v false (entries t.data_) h.sorted)
          | inr e ↦ rw e.0 (count-take_out_ne v u false (entries t.data_) h.sorted e.1)
        ])

  -- After any calls on a valid tree, `find` gives the number of occurrences that the same calls leave
  -- in a function from values to 32-bit counters: an insertion adds one, a removal takes one off
  -- unless there is none, `drop` sets it to 0, and no call touches another value.
  pub run_refines :
      (t : Avl K) (cs : List (Call K)) → IsValid t → find (run t cs) ≡ tally (find t) cs
  unfolding run tally
  run_refines t [] h = refl
  run_refines t (inserts v ∷ cs) h =
      rw (run_refines (insert t v) cs (insert-IsValid t v h), find-insert t v h)
  run_refines t (removes v ∷ cs) h =
      rw (run_refines (remove t v) cs (remove-IsValid t v h), find-remove t v h)
  run_refines t (drops v ∷ cs) h =
      rw (run_refines (drop t v) cs (drop-IsValid t v h), find-drop t v h)

  -- `clear` keeps the counters: if `nodes` was not 0, the cleared tree is not valid, though `find`
  -- gives 0 for every value.
  pub clear_not-IsValid :
      (t : Avl K) → t.nodes ≢ 0 → (¬ IsValid (clear t)) × ((v : K) → find (clear t) v ≡ 0)
  unfolding clear find total Node.find
  clear_not-IsValid t n = (λ h. n h.counted, λ v. refl)
