-- ===== src/Proxy/Scan.antt =====
-- The worker's round over the sessions.
use cpp_tricks.Prelude.{
  ℕ, ◌+◌, ◌≡◌, refl, ap, ◌∙◌, Bool, true, false, not, ◌&&◌, ◌||◌, List, [], ◌∷◌, map, inl, inr,
  Bool-cases, if◌then◌else◌, count_if, one_if, arith,
}
use cpp_tricks.Sockets.{Link, wait}
use cpp_tricks.Session.Stage.{Session, wait_for}
use cpp_tricks.Session.Laws.{alive_open}
use cpp_tricks.Session.{is_alive, work_pending}
use cpp_tricks.Proxy.{scan, start_ready}

module _ {A : Type 0} where
  abbrev pub filter_if : (A → Bool) → List A → List A
  filter_if p [] = []
  filter_if p (x ∷ xs) = if p x then x ∷ filter_if p xs else filter_if p xs

module _ {N : Type 0} (l : Link N) where
  -- Is being processed, or has both sockets open.
  abbrev pub stays : Session N → Bool
  stays s = s.processing_ || is_alive s

  -- Has something to read, as `::select` tells.
  abbrev pub readable : Session N → Bool
  readable s = (l.select s.client_.link true false 0).0 || (l.select s.server_.link true false 0).0

  abbrev pub is_ready : Session N → Bool
  is_ready s = not s.processing_ && (is_alive s && readable s)

  -- The second socket is asked only if the first has nothing to read.
  abbrev pub asked : Session N → Session N
  asked s =
      let r = l.select s.client_.link true false 0 in
      record s {
        client_ = record s.client_ { link = r.1 };
        server_ = record s.server_ {
          link = if r.0 then s.server_.link else (l.select s.server_.link true false 0).1;
        };
        processing_ = readable s;
      }

  abbrev pub after_round : Session N → Session N
  after_round s = if s.processing_ then s else asked s

  work_pending_lem :
      (s : Session N) (r : List (Session N) × ℕ)
      → s.processing_ ≡ false
      → is_alive s ≡ true
      → start_ready (work_pending l s) r ≡ (asked s ∷ r.0, one_if (readable s) + r.1)
  unfolding work_pending wait_for wait
  work_pending_lem s r p h =
      let (c, v) = alive_open s h in
      let quiet : Session N = record s {
        client_ = record s.client_ { link = (l.select s.client_.link true false 0).1 };
        server_ = record s.server_ { link = (l.select s.server_.link true false 0).1 };
      } in
      elim (Bool-cases (l.select s.client_.link true false 0).0) [
        | inl t ↦ rw (c, t) refl
        | inr f ↦ elim (Bool-cases (l.select s.server_.link true false 0).0) [
          | inl t ↦ rw (c, f, v, t) refl
          | inr g ↦
              rw (c, f, v, g)
                (ap (λ b. (record quiet { processing_ = b } ∷ r.0, r.1)) p
                  ∙ ap (λ n. (record quiet { processing_ = false } ∷ r.0, n)) (omega arith))
        ]
      ]

  branch :
      (p a b : Bool) (s s' : Session N) (r w : List (Session N) × ℕ)
      → (p ≡ false → a ≡ true → w ≡ (s' ∷ r.0, one_if b + r.1))
      → (if p then (s ∷ r.0, r.1) else if not a then r else w)
        ≡ (if p || a then ((if p then s else s') ∷ r.0, one_if (not p && (a && b)) + r.1) else r)
  branch true a b s s' r w h = ap (λ n. (s ∷ r.0, n)) (omega arith)
  branch false true b s s' r w h = h refl refl
  branch false false b s s' r w h = refl

  collect :
      (p a b : Bool) (s : Session N) (ss : List (Session N)) (n : ℕ)
      → let done : List (Session N) × ℕ = (map after_round ss, n) in
        (if p || a then (after_round s ∷ done.0, one_if (not p && (a && b)) + done.1) else done)
        ≡ (map after_round (if p || a then s ∷ ss else ss), one_if (not p && (a && b)) + n)
  collect true a b s ss n = refl
  collect false true b s ss n = refl
  collect false false b s ss n = ap (λ k. (map after_round ss, k)) (omega arith)

  -- A round keeps, in their order, the sessions that are being processed or have both sockets open. It
  -- leaves the former as they are, asks the sockets of the latter, and hands on those with something to read,
  -- which it counts.
  pub scan_lem :
      (ss : List (Session N))
      → scan l ss ≡ (map after_round (filter_if stays ss), count_if is_ready ss)
  unfolding scan
  scan_lem [] = refl
  scan_lem (s ∷ ss) =
      branch s.processing_ (is_alive s) (readable s) s (asked s) (scan l ss)
        (start_ready (work_pending l s) (scan l ss)) (work_pending_lem s (scan l ss))
      ∙ ap (λ r. if stays s then (after_round s ∷ r.0, one_if (is_ready s) + r.1) else r)
          (scan_lem ss)
      ∙ collect s.processing_ (is_alive s) (readable s) s (filter_if stays ss)
          (count_if is_ready ss)
