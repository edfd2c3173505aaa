-- ===== src/Led/Tests.antt =====
-- A board of ports that are numbers, the driver on it, and a client.
use cpp_tricks.Prelude.{
  ℕ, ◌<◌, ◌≡◌, ◌≤◌, refl, Bool, true, false, not, [], ◌∷◌, Option, none, some, map, length, ltb,
  ◌==◌, List, arith, if◌then◌else◌, inr,
}
use cpp_tricks.Prelude.Bits.{bit}
use cpp_tricks.Prelude.Int.{pos, negsuc, same_ℤ}
use cpp_tricks.Led.{
  Kernel, Driver, Command, Port, allocated, loaded, find_ports, is_initialized, dev_read, dev_write,
  allocate, each_port, dev_open, initialized, led_port, gpio_num,
}
use cpp_tricks.Led.Laws.{IsBoard, Serves, ports}
use cpp_tricks.Led.Memory.{writes, writes_lem}
use cpp_tricks.Led.Opening.{IsMutex, Users, Reach, here, next, opens, open_lem}

pub record Board : Type 0 where
  pub values : ℕ → ℕ
  pub locked : Bool

abbrev put : ℕ → ℕ → Board → Board
put p v k = record k { values = λ q. if p == q then v else k.values q }

abbrev pub board : Kernel Board
board = record {
  gpiof_out_init_low = 0;
  gpiof_out_init_high = 2;
  minus_ebusy = negsuc 15;
  minus_efault = negsuc 13;
  kmalloc = λ n k. (true, k);
  gpio_request_array = λ l k. (pos 0, k);
  gpio_direction_output = put;
  gpio_set_value = put;
  gpio_free_array = λ l k. k;
  copy_to_user = λ c k. (false, k);
  mutex_trylock = λ k. (not k.locked, record k { locked = true });
  mutex_unlock = λ k. record k { locked = false };
}

abbrev pub quiet : Board
quiet = record { values = λ q. 0; locked = false }

abbrev start_5 : Command
start_5 = record { operation = 1; leds = 5 }

abbrev start_none : Command
start_none = record { operation = 1; leds = 0 }

abbrev stop : Command
stop = record { operation = 2; leds = 0 }

abbrev set_6 : Command
set_6 = record { operation = 3; leds = 6 }

abbrev set_2 : Command
set_2 = record { operation = 3; leds = 2 }

abbrev serving : Driver Board
serving = record {
  driver_state = initialized;
  leds_number = 2;
  leds = allocated (map (led_port board) (2 ∷ 4 ∷ []));
  led_state = 0;
  kernel = quiet;
}

level : Board → ℕ → Bool
level k q = ltb 0 (k.values q)

put_level : (p v q : ℕ) (k : Board) → level (put p v k) q ≡ (if p == q then ltb 0 v else level k q)
unfolding level
put_level p v q k = ground arith

pub works : IsBoard board
unfolding level
works = record {
  level = level;
  is_high = ltb 0;
  high_lem = refl;
  low_lem = refl;
  kmalloc_lem = λ n k. refl;
  set_value_lem = put_level;
  direction_lem = put_level;
}

locks : IsMutex board
locks = record {
  held = λ k. k.locked;
  busy_lem = refl;
  trylock_lem = λ k. (refl, refl);
  unlock_lem = λ k. refl;
  kmalloc_held = λ n k. refl;
  request_held = λ l k. refl;
  free_held = λ l k. refl;
  direction_held = λ p v k. refl;
  set_value_held = λ p v k. refl;
  copy_held = λ c k. refl;
}

-- Bits 0 and 2 are ports 2 and 4.
asked_5 : find_ports gpio_num 0 5 [] ≡ 2 ∷ 4 ∷ []
unfolding find_ports bit
asked_5 = refl

serves_5 : Serves board 5 serving
unfolding find_ports bit
serves_5 = record { is_on = refl; number = refl; array = inr refl }

-- Port 3 is in the second mask only, port 4 in both.
abbrev values_after : Option (Driver Board) → List ℕ
values_after none = []
values_after (some d) =
    d.kernel.values 2
    ∷ d.kernel.values 3
    ∷ d.kernel.values 4
    ∷ (dev_read board 4 stop d).1.leds
    ∷ []

runs : values_after (writes board (start_5 ∷ set_6 ∷ []) (loaded quiet)) ≡ 0 ∷ 0 ∷ 2 ∷ 6 ∷ []
unfolding writes loaded dev_write dev_read find_ports allocate each_port bit
runs = refl

-- The driver is started for no port, after it has been stopped: the next stop frees the array a second time.
freed_twice : writes board (start_5 ∷ stop ∷ start_none ∷ stop ∷ []) (loaded quiet) ≡ none
unfolding writes loaded dev_write find_ports allocate each_port bit
freed_twice = refl

-- A read of a driver that is stopped returns the size.
read_stopped : (dev_read board 4 set_6 (loaded quiet)).0 ≡ pos 4
unfolding dev_read loaded
read_stopped = refl

-- A start leaves `led_state` as it was, while the ports are low.
state_kept :
    values_after (writes board (start_5 ∷ set_6 ∷ stop ∷ start_5 ∷ []) (loaded quiet))
    ≡ 0 ∷ 0 ∷ 0 ∷ 6 ∷ []
unfolding writes loaded dev_write dev_read find_ports allocate each_port bit
state_kept = refl

some_ports : 0 < length (ports 5)
unfolding find_ports bit
some_ports = omega arith

writes_lem_example :
    (t : Driver Board) × (writes board (start_5 ∷ set_6 ∷ stop ∷ []) (loaded quiet) ≡ some t)
    × (is_initialized t.driver_state ≡ true
        → (a : List Port) × (t.leds ≡ allocated a) × (t.leds_number ≡ length a))
writes_lem_example =
    writes_lem board works (start_5 ∷ set_6 ∷ stop ∷ []) quiet
      (λ e. some_ports, (λ e. absurd (omega arith), (λ e. absurd (omega arith), tt)))

-- Two try to open the device.
abbrev nobody : Users Board
nobody = record { driver = serving; openers = 0 }

abbrev taken : Driver Board
taken = record serving { kernel = record quiet { locked = true } }

abbrev one_user : Users Board
one_user = record { driver = taken; openers = 1 }

two_try : Reach board nobody one_user
unfolding dev_open
two_try = next (next here (opens serving 0)) (opens taken 1)

open_lem_example : (1 ≤ 1) × (same_ℤ (dev_open board taken).0 (pos 0) ≡ (1 == 0))
unfolding locks
open_lem_example = open_lem board locks nobody one_user refl refl two_try
