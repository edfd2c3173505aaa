-- ===== src/Subprocess/Writing.antt =====
-- `write`.
use cpp_tricks.Prelude.{
  ℕ, zero, suc, ◌+◌, ◌≤◌, ◌<◌, ◌≡◌, refl, ap, ◌∙◌, true, not, ◌&&◌, leb, [], ◌++◌, append_assoc,
  none, some, take, drop, take_all, drop_all, take-append-drop, length, length-drop, arith,
  if◌then◌else◌, inl, inr, Bool-cases,
}
use native.Mathlib.Decide.{dec_lt}
use cpp_tricks.Prelude.Text.{Text}
use cpp_tricks.Subprocess.{ok, closed, System, Subprocess, ended, waits, write_loop, write}
use cpp_tricks.Subprocess.Streams.{IsPipes, is_empty_lt}

module _ {S : Type 0} (sys : System S) (w : IsPipes sys) where
  open w use {sent, reads, room}

  -- The loop of `write` with this fuel writes everything that fits.
  abbrev WritesAll : ℕ → ℕ → Type 0
  WritesAll f fd =
      (b : Text) (s : S)
      → length b < f
      → reads s ≡ true
      → 0 < length b
      → length b ≤ room s
      → (s' : S) × (write_loop sys f fd b s ≡ ended ok [] s') × (sent s' ≡ sent s ++ b)

  -- A round that writes `k` bytes, one at least.
  write_round :
      (f fd : ℕ) (b : Text) (s : S) (k : ℕ) (s' : S)
      → WritesAll f fd
      → length b < suc f
      → sys.write fd b s ≡ some (some k, s')
      → 0 < k
      → sent s' ≡ sent s ++ take k b
      → reads s' ≡ true
      → length b ≤ room s' + k
      → (u : S) × (write_loop sys (suc f) fd b s ≡ ended ok [] u) × (sent u ≡ sent s ++ b)
  unfolding write_loop
  write_round f fd b s zero s' again h e go more still fits = absurd (omega (arith, go))
  write_round f fd b s (suc k) s' again h e go more still fits = elim (dec_lt (suc k) (length b)) [
    | no all ↦
        let done = drop_all b (suc k) (omega arith) in
        (s', rw (e, done), rw more (ap (λ t. sent s ++ t) (take_all b (suc k) (omega arith))))
    | yes part ↦
        let rest = drop (suc k) b in
        let shorter = length-drop (suc k) b in
        let some_left : 0 < length rest = omega (arith, shorter) in
        let (u, e', more') =
          again rest s' (omega (arith, shorter)) still some_left (omega (arith, shorter)) in
        (
          u,
          rw (e, is_empty_lt rest some_left, e'),
          more'
              ∙ ap (λ t. t ++ rest) more
              ∙ append_assoc (sent s) (take (suc k) b) rest
              ∙ ap (λ t. sent s ++ t) (take-append-drop (suc k) b),
        )
  ]

  write_loop_WritesAll : (f fd : ℕ) → WritesAll f fd
  write_loop_WritesAll zero fd b s h r some_left fits = absurd (omega arith)
  write_loop_WritesAll (suc f) fd b s h r some_left fits =
      let (k, s', e, le, go, more, still, less) = w.write_lem fd b s r some_left fits in
      write_round f fd b s k s' (write_loop_WritesAll f fd) h e go more still (omega (arith, less))

  refused :
      (f fd : ℕ) (cmd : Text) (s s' : S)
      → sys.write fd cmd s ≡ some (none, s')
      → sys.is_epipe s' ≡ true
      → write_loop sys (suc f) fd cmd s ≡ ended closed cmd s'
  unfolding write_loop
  refused f fd cmd s s' e broken = rw (e, broken)

  blocked :
      (f fd : ℕ) (cmd : Text) (s : S)
      → sys.write fd cmd s ≡ none
      → write_loop sys (suc f) fd cmd s ≡ waits
  unfolding write_loop
  blocked f fd cmd s e = rw e

  -- With more fuel than bytes, and for a command that is not empty, `write` while the child is at rest: if the child
  -- can read and the command fits in the pipe, it ends with Ok and has sent all of it, in order; if it does not fit,
  -- it waits; if the child cannot read, it ends with Closed and has sent nothing.
  pub write_whole :
      (fuel : ℕ) (p : Subprocess) (cmd : Text) (s : S)
      → length cmd < fuel
      → 0 < length cmd
      → (s' : S) × (write sys fuel p cmd s ≡ (
          if not (reads s)
          then ended closed cmd s'
          else if leb (length cmd) (room s)
          then ended ok [] s'
          else waits))
        × (sent s' ≡ (if reads s && leb (length cmd) (room s) then sent s ++ cmd else sent s))
  unfolding write
  write_whole zero p cmd s h some_left = absurd (omega arith)
  write_whole (suc f) p cmd s h some_left =
      let fd = p.io_.parent_out in
      elim (Bool-cases (reads s)) [
        | inl r ↦ elim (Bool-cases (leb (length cmd) (room s))) [
          | inl fits ↦
              let (s', e, more) =
                write_loop_WritesAll (suc f) fd cmd s h r some_left (ground arith) in
              (s', rw (r, fits) e, rw (r, fits) more)
          | inr full ↦
              let e = blocked f fd cmd s (w.write_waits fd cmd s r (ground arith)) in
              (s, rw (r, full) e, rw (r, full) refl)
        ]
        | inr r ↦
            let (s', e, broken, same) = w.write_broken fd cmd s r some_left in
            (s', rw r (refused f fd cmd s s' e broken), rw r same)
      ]
