-- ===== src/Epoll/Handlers.antt =====
-- Which callback an event on a descriptor gets.
use cpp_tricks.Prelude.{
  ℕ, ◌≡◌, ◌<◌, refl, Bool, true, false, List, [], ◌∷◌, some, none, Option, if◌then◌else◌, arith,
  ◌==◌, inl, inr, Bool-cases,
}
use cpp_tricks.Prelude.Int.{ℤ, pos, same_ℤ, ltb_ℤ}
use cpp_tricks.Epoll.{Epoll, Kernel, find, emplace, erase, handlers_after, is_open, add, remove}

same_trans : (k fd x : ℤ) → same_ℤ k fd ≡ true → same_ℤ k x ≡ same_ℤ fd x
same_trans k fd x h = ground arith

other_key : (k fd x : ℤ) → same_ℤ k fd ≡ false → same_ℤ fd x ≡ true → same_ℤ k x ≡ false
other_key k fd x h e = ground arith

module _ {C : Type 0} where
  same_branches :
      (b : Bool) (n d m : Option C) → (if b then n else m) ≡ (if b then n else (if b then d else m))
  same_branches true n d m = refl
  same_branches false n d m = refl

  -- The entry that is there, or else the new one.
  abbrev pub kept : Option C → Option C → Option C
  kept (some c) d = some c
  kept none d = d

  kept_branches :
      (b : Bool) (d : C) (m n : Option C)
      → (if b then some d else m)
        ≡ (if b then kept (if b then some d else m) n else (if b then some d else m))
  kept_branches true d m n = refl
  kept_branches false d m n = refl

  if_same : (b : Bool) (m : Option C) → m ≡ (if b then m else m)
  if_same true m = refl
  if_same false m = refl

  kept-none : (b : Bool) (m : Option C) → m ≡ (if b then kept m none else m)
  kept-none true none = refl
  kept-none true (some c) = refl
  kept-none false m = refl

  find-erase :
      (m : List (ℤ × C)) (fd x : ℤ) → find (erase fd m) x ≡ (if same_ℤ fd x then none else find m x)
  unfolding find erase
  find-erase [] fd x = elim (Bool-cases (same_ℤ fd x)) [ inl t ↦ rw t refl | inr f ↦ rw f refl ]
  find-erase ((k, d) ∷ m) fd x =
      let ih = find-erase m fd x in
      elim (Bool-cases (same_ℤ k fd)) [
        | inl t ↦
            rw (t, ih, same_trans k fd x t) (same_branches (same_ℤ fd x) none (some d) (find m x))
        | inr f ↦ elim (Bool-cases (same_ℤ fd x)) [
          | inl t ↦ rw (f, other_key k fd x f t, ih, t) refl
          | inr g ↦ rw (f, ih, g) refl
        ]
      ]

  find-emplace :
      (m : List (ℤ × C)) (fd x : ℤ) (c : C)
      → find (emplace fd c m) x ≡ (if same_ℤ fd x then kept (find m x) (some c) else find m x)
  unfolding find emplace
  find-emplace [] fd x c = elim (Bool-cases (same_ℤ fd x)) [ inl t ↦ rw t refl | inr f ↦ rw f refl ]
  find-emplace ((k, d) ∷ m) fd x c =
      let ih = find-emplace m fd x c in
      elim (Bool-cases (same_ℤ k fd)) [
        | inl t ↦ rw (t, same_trans k fd x t) (kept_branches (same_ℤ fd x) d (find m x) (some c))
        | inr f ↦ elim (Bool-cases (same_ℤ fd x)) [
          | inl t ↦ rw (f, other_key k fd x f t, ih, t) refl
          | inr g ↦ rw (f, ih, g) refl
        ]
      ]

module _ {C K : Type 0} (sys : Kernel K) where
  -- What a descriptor's own callback is after an `add` that the kernel accepts, or does not.
  abbrev pub entry_after : Bool → Option C → Option C → Option C
  entry_after true old cb = kept old cb
  entry_after false old cb = old

  handlers_lem :
      (ok : Bool) (fd x : ℤ) (cb : Option C) (m : List (ℤ × C))
      → find (handlers_after ok fd cb m) x
        ≡ (if same_ℤ fd x then entry_after ok (find m x) cb else find m x)
  handlers_lem true fd x (some c) m = find-emplace m fd x c
  handlers_lem true fd x none m = kept-none (same_ℤ fd x) (find m x)
  handlers_lem false fd x cb m = if_same (same_ℤ fd x) (find m x)

  -- On an open dispatcher, after `Add` of a descriptor and of events that are not empty, the callback of that
  -- descriptor is the one that it had, or else the new one if the kernel accepts it, and after `Remove` it
  -- has none; the callbacks of other descriptors are as before, and the results are the kernel's.
  pub callbacks_lem :
      (s : Epoll C K) (fd : ℤ) (e : ℕ) (cb : Option C) (x : ℤ)
      → is_open s ≡ true
      → ltb_ℤ fd (pos 0) ≡ false
      → 0 < e
      → let a = add sys fd e cb s in
        let r = remove sys fd s in
        let ok = (sys.ctl_add s.kernel fd e).0 in
        (a.0 ≡ ok)
        × (find a.1.m_handlers x ≡ (
            if same_ℤ fd x then entry_after ok (find s.m_handlers x) cb else find s.m_handlers x))
        × (r.0 ≡ (sys.ctl_del s.kernel fd).0)
        × (find r.1.m_handlers x ≡ (if same_ℤ fd x then none else find s.m_handlers x))
  unfolding add remove
  callbacks_lem s fd e cb x o p h =
      let some_events : (e == 0) ≡ false = ground arith in
      rw (o, p, some_events)
        (
          refl,
          handlers_lem (sys.ctl_add s.kernel fd e).0 fd x cb s.m_handlers,
          refl,
          find-erase s.m_handlers fd x,
        )
