-- ===== src/Led/Ports.antt =====
-- Which ports a start asks for, and what a loop over the allocated ports does.
use cpp_tricks.Prelude.{
  ℕ, zero, suc, ◌+◌, ◌-◌, ◌<◌, ◌≡◌, refl, ap, sym, ◌∙◌, Bool, false, ◌&&◌, List, [], ◌∷◌, ◌++◌,
  some, drop, drop_all, length, get_elem?, count_if, one_if, leb, ltb, ◌==◌, arith, if◌then◌else◌,
  inl, inr, Bool-cases, Option-cases,
}
use cpp_tricks.Prelude.Bits.{bit}
use cpp_tricks.Led.{Kernel, Port, Pointer, allocated, find_ports, each_port, get_port}

-- How many of the ports are the port `q`.
abbrev pub count_port : ℕ → List ℕ → ℕ
count_port q l = count_if (λ p. p == q) l

count_port-append : (q : ℕ) (l m : List ℕ) → count_port q (l ++ m) ≡ count_port q l + count_port q m
count_port-append q [] m = omega arith
count_port-append q (p ∷ l) m = omega (arith, count_port-append q l m)

-- Is `q` the port of a bit of the mask, from bit `i` on, `n` bits?
abbrev pub is_asked : ℕ → ℕ → ℕ → ℕ → Bool
is_asked n i mask q = leb (i + 2) q && ltb q (i + n + 2) && bit mask (q - 2)

asked_step :
    (n i mask q : ℕ)
    → one_if (if bit mask i then i + 2 == q else false) + one_if (is_asked n (i + 1) mask q)
      ≡ one_if (is_asked (suc n) i mask q)
asked_step n i mask q = elim (Bool-cases (i + 2 == q)) [
  | inl e ↦ let same : q - 2 ≡ i = ground arith in ground (arith, ap (bit mask) same)
  | inr d ↦ ground arith
]

find_ports_from :
    (n i mask q : ℕ) (l : List ℕ)
    → count_port q (find_ports n i mask l) ≡ count_port q l + one_if (is_asked n i mask q)
unfolding find_ports
find_ports_from zero i mask q l = ground arith
find_ports_from (suc n) i mask q l = elim (Bool-cases (bit mask i)) [
  | inl e ↦ rw e (
      ground (
        arith,
        find_ports_from n (i + 1) mask q (l ++ ((i + 2) ∷ [])),
        count_port-append q l ((i + 2) ∷ []),
        asked_step n i mask q,
      ))
  | inr e ↦ rw e (ground (arith, find_ports_from n (i + 1) mask q l, asked_step n i mask q))
]

pub find_ports_lem :
    (mask q : ℕ)
    → count_if (λ p. p == q) (find_ports 26 0 mask [])
      ≡ one_if (leb 2 q && leb q 27 && bit mask (q - 2))
find_ports_lem mask q = ground (arith, find_ports_from 26 0 mask q [])

-- An element of a list, and the rest after it.
get_elem?-drop {ℓ} :
    {A : Type ℓ} (l : List A) (i : ℕ)
    → i < length l
    → (q : A) × (get_elem? l i ≡ some q) × (drop i l ≡ q ∷ drop (suc i) l)
get_elem?-drop [] i h = absurd (omega arith)
get_elem?-drop (x ∷ l) zero h = (x, refl, refl)
get_elem?-drop (x ∷ l) (suc i) h = get_elem?-drop l i (omega arith)

module _ {K : Type 0} (sys : Kernel K) (call : ℕ → K → K) where
  -- The calls for all ports in turn.
  abbrev pub for_ports : List Port → K → K
  for_ports [] k = k
  for_ports (q ∷ l) k = for_ports l (call q.gpio k)

  each_port_from :
      (l : List Port) (n i : ℕ) (k : K)
      → i + n ≡ length l
      → each_port sys call n i (allocated l) k ≡ some (for_ports (drop i l) k)
  unfolding each_port
  each_port_from l zero i k h = rw (drop_all l i (omega arith))
  each_port_from l (suc n) i k h =
      let (q, e, d) = get_elem?-drop l i (omega arith) in
      let next : suc i ≡ i + 1 = omega arith in
      rw (e, d, next) (each_port_from l n (i + 1) (call q.gpio k) (omega arith))

  -- The loop over an array that holds all of its ports ends without a fault.
  pub each_port_lem :
      (l : List Port) (k : K)
      → each_port sys call (length l) 0 (allocated l) k ≡ some (for_ports l k)
  each_port_lem l k = each_port_from l (length l) 0 k (omega arith)

  -- What every call keeps, the loop keeps.
  pub each_port_keeps {ℓ} :
      {A : Type ℓ} (f : K → A)
      → ((q : ℕ) (k : K) → f (call q k) ≡ f k)
      → (n i : ℕ) (p : Pointer) (k k' : K) → each_port sys call n i p k ≡ some k'
      → f k' ≡ f k
  unfolding each_port
  each_port_keeps f h zero i p k k' e = ap f (sym (cc e))
  each_port_keeps f h (suc n) i p k k' e = elim (Option-cases (get_port p i)) [
    | inl o ↦ absurd (cc (e, o))
    | inr (q, o) ↦ each_port_keeps f h n (i + 1) p (call q.gpio k) k' (rw o at e) ∙ h q.gpio k
  ]
