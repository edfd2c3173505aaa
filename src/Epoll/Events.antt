-- ===== src/Epoll/Events.antt =====
-- The flags that `Events` collects.
use cpp_tricks.Prelude.{ℕ, ◌≡◌, refl, sym, ap, ◌∙◌, Bool, true, false, ◌||◌, List, [], ◌∷◌, arith}
use cpp_tricks.Epoll.{
  Event, in_ready, out_ready, hangup, one_shot, edge_trigger, epollin, epollpri, epollout, epollerr,
  epollhup, epollrdhup, epolloneshot, epollet, has, put_event, put_all, events,
}

pub data Flag : Type 0 where
  input priority output error hung_up peer_hung_up once edge : Flag

abbrev pub bit : Flag → ℕ
bit input = epollin
bit priority = epollpri
bit output = epollout
bit error = epollerr
bit hung_up = epollhup
bit peer_hung_up = epollrdhup
bit once = epolloneshot
bit edge = epollet

-- Is the flag meant by the event?
abbrev pub means : Flag → Event → Bool
means input in_ready = true
means output out_ready = true
means error hangup = true
means hung_up hangup = true
means peer_hung_up hangup = true
means once one_shot = true
means edge edge_trigger = true
means f i = false

abbrev pub any_means : Flag → List Event → Bool
any_means f [] = false
any_means f (i ∷ l) = means f i || any_means f l

has-put_event :
    (f : Flag) (i : Event) (e : ℕ) → has (bit f) (put_event i e) ≡ (has (bit f) e || means f i)
has-put_event input in_ready e = ground arith
has-put_event input out_ready e = ground arith
has-put_event input hangup e = ground arith
has-put_event input one_shot e = ground arith
has-put_event input edge_trigger e = ground arith
has-put_event priority in_ready e = ground arith
has-put_event priority out_ready e = ground arith
has-put_event priority hangup e = ground arith
has-put_event priority one_shot e = ground arith
has-put_event priority edge_trigger e = ground arith
has-put_event output in_ready e = ground arith
has-put_event output out_ready e = ground arith
has-put_event output hangup e = ground arith
has-put_event output one_shot e = ground arith
has-put_event output edge_trigger e = ground arith
has-put_event error in_ready e = ground arith
has-put_event error out_ready e = ground arith
has-put_event error hangup e = ground arith
has-put_event error one_shot e = ground arith
has-put_event error edge_trigger e = ground arith
has-put_event hung_up in_ready e = ground arith
has-put_event hung_up out_ready e = ground arith
has-put_event hung_up hangup e = ground arith
has-put_event hung_up one_shot e = ground arith
has-put_event hung_up edge_trigger e = ground arith
has-put_event peer_hung_up in_ready e = ground arith
has-put_event peer_hung_up out_ready e = ground arith
has-put_event peer_hung_up hangup e = ground arith
has-put_event peer_hung_up one_shot e = ground arith
has-put_event peer_hung_up edge_trigger e = ground arith
has-put_event once in_ready e = ground arith
has-put_event once out_ready e = ground arith
has-put_event once hangup e = ground arith
has-put_event once one_shot e = ground arith
has-put_event once edge_trigger e = ground arith
has-put_event edge in_ready e = ground arith
has-put_event edge out_ready e = ground arith
has-put_event edge hangup e = ground arith
has-put_event edge one_shot e = ground arith
has-put_event edge edge_trigger e = ground arith

or_assoc : (a b c : Bool) → ((a || b) || c) ≡ (a || (b || c))
or_assoc true b c = refl
or_assoc false b c = refl

or_false : (a : Bool) → (a || false) ≡ a
or_false true = refl
or_false false = refl

has-put_all :
    (f : Flag) (l : List Event) (e : ℕ)
    → has (bit f) (put_all l e) ≡ (has (bit f) e || any_means f l)
has-put_all f [] e = sym (or_false (has (bit f) e))
has-put_all f (i ∷ l) e =
    has-put_all f l (put_event i e)
    ∙ ap (λ b. b || any_means f l) (has-put_event f i e)
    ∙ or_assoc (has (bit f) e) (means f i) (any_means f l)

-- `Events` of a list has each flag exactly if an event of the list means it.
pub has-events : (f : Flag) (l : List Event) → has (bit f) (events l) ≡ any_means f l
has-events input l = has-put_all input l 0
has-events priority l = has-put_all priority l 0
has-events output l = has-put_all output l 0
has-events error l = has-put_all error l 0
has-events hung_up l = has-put_all hung_up l 0
has-events peer_hung_up l = has-put_all peer_hung_up l 0
has-events once l = has-put_all once l 0
has-events edge l = has-put_all edge l 0
