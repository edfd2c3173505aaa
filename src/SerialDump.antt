-- ===== src/SerialDump.antt =====
-- serial_dump/serialdump.c: the options of the program, and how it prints bytes. The constants of termios.h, the
-- functions on `struct termios` and `strtoul` are a parameter. A flag word is the function that says
-- which of its bits are on.
pub mod Options
pub mod Flags
mod Tests
use cpp_tricks.Prelude.{
  ℕ, zero, suc, ◌+◌, ◌-◌, ◌/◌, ◌%◌, ◌^◌, Bool, true, false, not, ◌&&◌, ◌||◌, List, [], ◌∷◌, ◌++◌,
  Option, none, some, ltb, ◌==◌, if◌then◌else◌,
}
use cpp_tricks.Prelude.Chain.{◌>>=◌}
use cpp_tricks.Prelude.Text.{Text, codes, same_text}

abbrev pub Word : Type 0
Word = ℕ → Bool

-- `a | b` and `a & ~b`
abbrev pub or_word : Word → Word → Word
or_word a b i = a i || b i

abbrev pub and_not : Word → Word → Word
and_not a b i = a i && not (b i)

pub record Termios (T : Type 0) : Type 0 where
  pub cread : Word
  pub clocal : Word
  pub cs5 : Word
  pub cs6 : Word
  pub cs7 : Word
  pub cs8 : Word
  pub cstopb : Word
  pub inpck : Word
  pub parodd : Word
  pub parenb : Word
  -- the constant for a speed, such as B9600 for 9600
  pub speed : ℕ → ℕ
  -- both `cfsetospeed` and `cfsetispeed`, for the flags and the speed; none if one fails
  pub set_speeds : Word → Word → ℕ → Option T
  -- the number, and whether `errno` is set
  pub strtoul : Text → ℕ × Bool

pub record Settings : Type 0 where
  pub print_time : Bool
  pub c_cflag : Word
  pub c_iflag : Word
  pub baud : ℕ
  -- is `errno` not 0?
  pub errno : Bool

-- The speeds of the switch.
abbrev pub speeds : List ℕ
speeds =
    9600 ∷ 19200 ∷ 38400 ∷ 57600 ∷ 115200 ∷ 230400 ∷ 460800 ∷ 500000 ∷ 576000 ∷ 921600 ∷ 1000000
    ∷ 1152000 ∷ 1500000 ∷ 2000000 ∷ 2500000 ∷ 3000000 ∷ 3500000 ∷ 4000000 ∷ []

abbrev pub is_in : ℕ → List ℕ → Bool
is_in n [] = false
is_in n (m ∷ l) = n == m || is_in n l

module _ {T : Type 0} (sys : Termios T) where
  unfoldable pub defaults : Bool → Settings
  defaults errno = record {
    print_time = false;
    c_cflag = or_word (or_word sys.cread sys.clocal) sys.cs8;
    c_iflag = λ i. false;
    baud = 115200;
    errno = errno;
  }

  -- `num = strtoul( ... )` and the test of `errno`, which nothing has cleared: none is a bad argument. The
  -- result is cut to an `int`.
  unfoldable pub number : Text → Settings → Option (ℕ × Settings)
  number s t =
      let (n, bad) = sys.strtoul s in
      let e = t.errno || bad in if e then none else some (n % 2 ^ 32, record t { errno = e })

  unfoldable pub set_baud : ℕ → Settings → Option Settings
  set_baud n t = if is_in n speeds then some (record t { baud = n }) else none

  unfoldable pub set_stop : ℕ → Settings → Option Settings
  set_stop n t =
      if n == 1
      then some (record t { c_cflag = and_not t.c_cflag sys.cstopb })
      else if n == 2
      then some (record t { c_cflag = or_word t.c_cflag sys.cstopb })
      else none

  -- An option without an argument.
  unfoldable pub set_option : Text → Settings → Option Settings
  set_option a t =
      if same_text a (codes "-t")
      then some (record t { print_time = true })
      else if same_text a (codes "-5")
      then some (record t { c_cflag = or_word t.c_cflag sys.cs5 })
      else if same_text a (codes "-6")
      then some (record t { c_cflag = or_word t.c_cflag sys.cs6 })
      else if same_text a (codes "-7")
      then some (record t { c_cflag = or_word t.c_cflag sys.cs7 })
      else if same_text a (codes "-8")
      then some (record t { c_cflag = or_word t.c_cflag sys.cs8 })
      else if same_text a (codes "-o")
      then some (record t {
        c_iflag = or_word (or_word (or_word t.c_iflag sys.inpck) sys.parodd) sys.parenb;
      })
      else if same_text a (codes "-e")
      then some (record t { c_iflag = or_word (or_word t.c_iflag sys.inpck) sys.parenb })
      else if same_text a (codes "-n")
      then some (record t {
        c_iflag = and_not (and_not (and_not t.c_iflag sys.inpck) sys.parodd) sys.parenb;
      })
      else none

  -- The loop over the options; none is the result 1.
  unfoldable pub parse_options : List Text → Settings → Option Settings
  unfolding number set_baud set_stop set_option
  parse_options [] t = some t
  parse_options (a ∷ []) t =
      if same_text a (codes "-b") || same_text a (codes "-s") then none else set_option a t
  parse_options (a ∷ v ∷ l) t =
      if same_text a (codes "-b")
      then ((number v t >>= (λ r. set_baud r.0 r.1)) >>= (λ u. parse_options l u))
      else if same_text a (codes "-s")
      then ((number v t >>= (λ r. set_stop r.0 r.1)) >>= (λ u. parse_options l u))
      else (set_option a t >>= (λ u. parse_options (v ∷ l) u))

  -- `parse_args`, for `argv` and whether `errno` is set before it: the settings, and the `termios`.
  unfoldable pub parse_args : List Text → Bool → Option (Settings × T)
  unfolding defaults parse_options
  parse_args (app ∷ device ∷ a ∷ l) errno = parse_options (a ∷ l) (defaults errno) >>= λ t.
      sys.set_speeds t.c_cflag t.c_iflag (sys.speed t.baud) >>= λ term. some (t, term)
  parse_args _ errno = none

-- `%X`, with fuel for the digits.
hex_digits : ℕ → ℕ → Text
hex_digits zero n = []
hex_digits (suc f) n =
    let rest = hex_digits f (n / 16) in
    let d = n % 16 in
    let digit = if ltb d 10 then 48 + d else 55 + d in
    if ltb n 16 then digit ∷ [] else rest ++ (digit ∷ [])

-- `printf( "%X", c )` of a `char`, which has a sign: a byte from 128 on is a large `unsigned`.
unfoldable pub print_byte : ℕ → Text
unfolding hex_digits
print_byte c = hex_digits 8 (if ltb c 128 then c else 2 ^ 32 - 256 + c)

-- The bytes of one `read`.
unfoldable pub print_bytes : List ℕ → Text
unfolding print_byte
print_bytes [] = []
print_bytes (c ∷ l) = print_byte c ++ print_bytes l

-- A round of the loop of `main`: the signal has come, `select` fails or ends by its time, or `read` gives bytes,
-- none of them if it fails; with the text of the time of day.
pub data Round : Type 0 where
  stopped select_failed timed_out : Round
  received : List ℕ → Text → Round

-- The loop: what is printed.
unfoldable pub dump : Bool → List Round → Text
unfolding print_bytes
dump print_time [] = []
dump print_time (stopped ∷ l) = []
dump print_time (select_failed ∷ l) = []
dump print_time (timed_out ∷ l) = dump print_time l
dump print_time (received [] time ∷ l) = dump print_time l
dump print_time (received (c ∷ b) time ∷ l) =
    (if print_time then time else [])
    ++ print_bytes (c ∷ b)
    ++ (if print_time then codes "\n" else [])
    ++ dump print_time l
