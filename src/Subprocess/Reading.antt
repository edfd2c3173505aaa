-- ===== src/Subprocess/Reading.antt =====
-- `read` and `expect`.
use cpp_tricks.Prelude.{
  ℕ, zero, suc, ◌-◌, ◌%◌, ◌≤◌, ◌<◌, ◌≡◌, ◌≢◌, refl, ap, ◌∙◌, true, false, [], ◌∷◌, ◌++◌,
  append_assoc, append-nil, none, some, take, drop, take_all, drop_all, take-append-drop, length,
  length-drop, length-take, lt→ltb, arith, if◌then◌else◌, inl, inr, Bool-cases,
}
use native.Mathlib.Decide.{dec_lt}
use cpp_tricks.Prelude.Text.{Text}
use cpp_tricks.Subprocess.{
  ok, timeout, closed, System, Subprocess, Ended, ended, waits, contains, read_loop, selected, read,
  expect_loop, expect,
}
use cpp_tricks.Subprocess.Streams.{IsPipes, is_empty_lt}

length-take_lt : (b : Text) → length b < 100 → take 100 b ≡ b
length-take_lt b h = take_all b 100 (omega arith)

empty_nil : (b : Text) → length b ≡ 0 → b ≡ []
empty_nil [] h = refl
empty_nil (c ∷ b) h = absurd (omega arith)

module _ {S : Type 0} (sys : System S) (w : IsPipes sys) where
  open w use {pending, alive, sent, reads}

  -- What the loop of `read` does with the bytes in the pipe, after `out`.
  abbrev ReadsAll : Text → S → Ended S → Type 0
  ReadsAll out s e =
      (length (pending s) % 100 ≢ 0
        → (s' : S) × (e ≡ ended ok (out ++ pending s) s')
          × (pending s' ≡ [])
          × (alive s' ≡ alive s))
      × (length (pending s) % 100 ≡ 0 → alive s ≡ true → e ≡ waits)
      × (length (pending s) % 100 ≡ 0
          → alive s ≡ false
          → (s' : S) × (e ≡ ended closed (out ++ pending s) s') × (pending s' ≡ []))

  empty_ReadsAll :
      (f fd : ℕ) (out : Text) (s : S)
      → pending s ≡ []
      → ReadsAll out s (read_loop sys (suc f) fd out s)
  unfolding read_loop
  empty_ReadsAll f fd out s e = (
    λ h. absurd (h (rw e)),
    λ h a. rw (w.read_waits fd s e a),
    λ h a. let (s', got, left) = w.read_end fd s e a in (s', rw (got, e, append-nil), left),
  )

  short_ReadsAll :
      (f fd : ℕ) (out : Text) (s : S)
      → 0 < length (pending s)
      → length (pending s) < 100
      → ReadsAll out s (read_loop sys (suc f) fd out s)
  unfolding read_loop
  short_ReadsAll f fd out s some_bytes few =
      let b = pending s in
      let (s', got, left, same) = w.read_lem fd s some_bytes in
      let all = length-take_lt b few in
      (
        λ h. (
          s',
          rw (got, all, is_empty_lt b some_bytes, lt→ltb (length b) 100 few),
          left ∙ drop_all b 100 (omega arith),
          same,
        ),
        λ h a. absurd (omega arith),
        λ h a. absurd (omega arith),
      )

  read_loop_lem :
      (f fd : ℕ) (out : Text) (s : S)
      → length (pending s) < f
      → ReadsAll out s (read_loop sys f fd out s)
  unfolding read_loop
  read_loop_lem zero fd out s h = absurd (omega arith)
  read_loop_lem (suc f) fd out s h = elim (dec_lt 0 (length (pending s))) [
    | no none_left ↦ empty_ReadsAll f fd out s (empty_nil (pending s) (omega arith))
    | yes some_bytes ↦ elim (dec_lt (length (pending s)) 100) [
      | yes few ↦ short_ReadsAll f fd out s some_bytes few
      | no many ↦
          let b = pending s in
          let (s', got, left, same) = w.read_lem fd s some_bytes in
          let size = length-take 100 b (omega arith) in
          let shorter : length (pending s') ≡ length b - 100 = rw left (length-drop 100 b) in
          let (good, wait, end) = read_loop_lem f fd (out ++ take 100 b) s' (omega arith) in
          let first = is_empty_lt (take 100 b) (omega arith) in
          let step : read_loop sys (suc f) fd out s ≡ read_loop sys f fd (out ++ take 100 b) s' =
            rw (got, first, size) in
          let whole : (out ++ take 100 b) ++ pending s' ≡ out ++ b = rw left (
            append_assoc out (take 100 b) (drop 100 b)
            ∙ ap (λ t. out ++ t) (take-append-drop 100 b)) in
          (
            λ h'.
                let (t, e, p, a) = good (λ z. h' (omega arith)) in
                (t, step ∙ e ∙ ap (λ o. ended ok o t) whole, p, a ∙ same),
            λ h' a. step ∙ wait (omega arith) (same ∙ a),
            λ h' a.
                let (t, e, p) = end (omega arith) (same ∙ a) in
                (t, step ∙ e ∙ ap (λ o. ended closed o t) whole, p),
          )
    ]
  ]

  select_ready :
      (fd t : ℕ) (s : S)
      → 0 < length (pending s)
      → (s' : S) × (sys.select fd t s ≡ (some true, s'))
        × (pending s' ≡ pending s)
        × (alive s' ≡ alive s)
  select_ready fd t s h =
      let (found, same, still) = w.select_lem fd t s in
      let yes_ready : (sys.select fd t s).0 ≡ some true = found ∙ rw (is_empty_lt (pending s) h) in
      ((sys.select fd t s).1, rw (← yes_ready) refl, same, still)

  -- While there are bytes in the pipe, and with more fuel than bytes: if their number is no multiple of 100, `read`
  -- returns Ok and all of them; if it is one, `read` waits for ever while the child lives, and returns
  -- Closed, with all of them, if it does not.
  pub read_whole :
      (fuel : ℕ) (p : Subprocess) (out : Text) (t : ℕ) (s : S)
      → 0 < length (pending s)
      → length (pending s) < fuel
      → let e = read sys fuel p out t s in
        (length (pending s) % 100 ≢ 0
          → (s' : S) × (e ≡ ended ok (out ++ pending s) s')
            × (pending s' ≡ [])
            × (alive s' ≡ alive s))
        × (length (pending s) % 100 ≡ 0 → alive s ≡ true → e ≡ waits)
        × (length (pending s) % 100 ≡ 0
            → alive s ≡ false
            → (s' : S) × (e ≡ ended closed (out ++ pending s) s') × (pending s' ≡ []))
  unfolding read selected
  read_whole fuel p out t s some_bytes enough =
      let (s', ready, same, still) = select_ready p.io_.child_in t s some_bytes in
      let (good, wait, end) = read_loop_lem fuel p.io_.child_in out s' (rw same enough) in
      (
        λ h.
            let (u, e, l, a) = good (rw same h) in
            (u, rw ready (e ∙ ap (λ b. ended ok (out ++ b) u) same), l, a ∙ still),
        λ h a. rw ready (wait (rw same h) (still ∙ a)),
        λ h a.
            let (u, e, l) = end (rw same h) (still ∙ a) in
            (u, rw ready (e ∙ ap (λ b. ended closed (out ++ b) u) same), l),
      )

  -- With nothing to come, a `read` ends by its time.
  read_nothing :
      (fuel : ℕ) (p : Subprocess) (out : Text) (t : ℕ) (s : S)
      → pending s ≡ []
      → alive s ≡ true
      → (s' : S) × (read sys fuel p out t s ≡ ended timeout out s')
  unfolding read selected
  read_nothing fuel p out t s empty a =
      let (found, same, still) = w.select_lem p.io_.child_in t s in
      let nothing : (sys.select p.io_.child_in t s).0 ≡ none = found ∙ rw (empty, a) in
      ((sys.select p.io_.child_in t s).1, rw nothing)

  -- `expect`, while the child lives and has written a number of bytes that is no multiple of 100, and with enough
  -- rounds and fuel: it returns Ok if the text is among them, else Timeout, after it has read them all.
  pub expect_lem :
      (rounds fuel : ℕ) (p : Subprocess) (text : Text) (s : S)
      → 2 ≤ rounds
      → length (pending s) < fuel
      → length (pending s) % 100 ≢ 0
      → alive s ≡ true
      → (s' : S) × (expect sys rounds fuel p text s
          ≡ ended (if contains text (pending s) then ok else timeout) (pending s) s')
  unfolding expect expect_loop
  expect_lem zero fuel p text s h enough size a = absurd (omega arith)
  expect_lem (suc zero) fuel p text s h enough size a = absurd (omega arith)
  expect_lem (suc (suc r)) fuel p text s h enough size a =
      let some_bytes : 0 < length (pending s) = positive (length (pending s)) size in
      let (good, wait, end) = read_whole fuel p [] 3 s some_bytes enough in
      let (s', e, left, still) = good size in
      let (u, late) = read_nothing fuel p (pending s) 3 s' left (still ∙ a) in
      elim (Bool-cases (contains text (pending s))) [
        | inl found ↦ (s', rw (e, found))
        | inr missing ↦ (u, rw (e, missing, late))
      ]
    where
      positive : (n : ℕ) → n % 100 ≢ 0 → 0 < n
      positive zero h = absurd (h refl)
      positive (suc n) h = omega arith
