-- ===== src/Led/Client/Tests.antt =====
-- A client on the driver of the board of `Led.Tests`, and one without a device.
use cpp_tricks.Prelude.{
  ℕ, ◌+◌, ◌-◌, ◌^◌, ◌%◌, ◌≡◌, refl, Bool, true, false, ◌&&◌, Option, none, some, leb, arith,
  if◌then◌else◌,
}
use cpp_tricks.Prelude.Bits.{bit, flip_bit}
use cpp_tricks.Prelude.Int.{ℤ, pos, negsuc, same_ℤ}
use cpp_tricks.Led.{Driver, loaded, dev_open, dev_release, dev_read, dev_write}
use cpp_tricks.Led.Tests.{Board, board, quiet, works}
use cpp_tricks.Led.Client.{Files, LedState, Led, set, get, new_led, is_open, set_leds, get_leds}
use cpp_tricks.Led.Client.Session.{IsDevice, session_lem}

descriptor : ℤ → ℤ
descriptor r = if same_ℤ r (pos 0) then pos 3 else negsuc 0

-- The driver's own functions as system calls.
abbrev device : Files (Driver Board)
device = record {
  open_device = λ d. (descriptor (dev_open board d).0, (dev_open board d).1);
  write = λ f cmd d. dev_write board 4 cmd d;
  read = λ f buf d. dev_read board 4 buf d;
  close = λ f d. (dev_release board d).1;
}

is_device : IsDevice board device
unfolding dev_open descriptor
is_device = record {
  driver = λ d. d;
  open_lem = λ d. (refl, ground arith);
  write_lem = λ f cmd d r s e. (r, s, e, refl, refl);
  read_lem = λ f buf d. (refl, refl, refl);
}

abbrev ports_12_18 : LedState
ports_12_18 = record { mask_ = 2 ^ 10 + 2 ^ 16 }

abbrev port_18 : LedState
port_18 = record { mask_ = 2 ^ 16 }

session_lem_example :
    (l : Led) × (d1 : Driver Board) × (d2 : Driver Board) × (new_led device ports_12_18
        (loaded quiet)
      ≡ some (l, d1))
    × (is_open l ≡ true)
    × (set_leds device l port_18 d1 ≡ some (true, d2))
    × ((q : ℕ)
        → (leb 2 q && leb q 27 && bit ((2 ^ 10 + 2 ^ 16) % 2 ^ 26) (q - 2)) ≡ true
        → works.level d2.kernel q ≡ bit (2 ^ 16) (q - 2))
    × ((get_leds device l ports_12_18 d2).0 ≡ true)
    × ((get_leds device l ports_12_18 d2).1 ≡ port_18)
unfolding is_device loaded
session_lem_example =
    session_lem board works device is_device ports_12_18 port_18 ports_12_18 (loaded quiet)
      (λ l k. refl) refl refl refl (omega arith)

-- A port that is off, set off, is on.
off_twice : get 12 (set 12 false port_18).1 ≡ true
unfolding set get flip_bit bit
off_twice = refl

-- There is no device, and the client says that it is open.
abbrev no_device : Files ℕ
no_device = record {
  open_device = λ d. (negsuc 0, d);
  write = λ f cmd d. some (negsuc 0, d);
  read = λ f buf d. (negsuc 0, buf, d);
  close = λ f d. d;
}

abbrev seems_open : Option (Led × ℕ) → Bool
seems_open none = false
seems_open (some (l, d)) = is_open l

not_there : seems_open (new_led no_device port_18 0) ≡ true
unfolding new_led is_open
not_there = refl
