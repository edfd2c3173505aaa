-- ===== src/Led/Client.antt =====
-- LinuxGpioLedDriver/ledgpio_client.cpp: `Gpio::Led` and `Gpio::Led::State`. The system calls on the device
-- are a parameter: `D` is the state that they change, and a `Files` says what they do.
pub mod State
pub mod Session
mod Tests
use cpp_tricks.Prelude.{
  ℕ, ◌-◌, ◌^◌, ◌%◌, Bool, true, false, not, ◌||◌, Option, some, leb, ltb, if◌then◌else◌,
}
use cpp_tricks.Prelude.Bits.{bit, set_bit, flip_bit}
use cpp_tricks.Prelude.Chain.{◌>>=◌}
use cpp_tricks.Prelude.Int.{ℤ, pos, ltb_ℤ, same_ℤ}
use cpp_tricks.Led.{
  Command, gpio_min_port, gpio_max_port, led_op_start, led_op_stop, led_op_set, led_op_get,
}

-- The calls on a descriptor of the device.
pub record Files (D : Type 0) : Type 0 where
  -- a descriptor, or a negative number
  pub open_device : D → ℤ × D
  -- none if the driver faults
  pub write : ℤ → Command → D → Option (ℤ × D)
  -- what the buffer is then, too
  pub read : ℤ → Command → D → ℤ × Command × D
  pub close : ℤ → D → D

-- `Led::State`
pub record LedState : Type 0 where
  pub mask_ : ℕ

-- `State::set`: the result is the port's state before, and a port that is off is toggled.
unfoldable pub set : ℕ → Bool → LedState → Bool × LedState
set port on s =
    let i = port - gpio_min_port in
    if ltb port gpio_min_port || ltb gpio_max_port port
    then (false, s)
    else (bit s.mask_ i, record { mask_ = if on then set_bit s.mask_ i else flip_bit s.mask_ i })

unfoldable pub get : ℕ → LedState → Bool
get port s =
    if ltb port gpio_min_port || ltb gpio_max_port port
    then false
    else bit s.mask_ (port - gpio_min_port)

unfoldable pub clean : LedState → LedState
clean s = record { mask_ = 0 }

pub record Led : Type 0 where
  pub f_ : ℤ

-- `led_cmd_t cmd = {op, mask}`: the field keeps 26 bits.
abbrev pub command : ℕ → ℕ → Command
command op mask = record { operation = op; leds = mask % 2 ^ 26 }

unfoldable pub is_open : Led → Bool
is_open l = not (same_ℤ l.f_ (pos 0))

module _ {D : Type 0} (sys : Files D) where
  -- `Led( state )` once the device is open: the result of the write decides.
  unfoldable pub after_start : ℤ → ℤ × D → Led × D
  after_start f (r, d) =
      if ltb_ℤ r (pos 0) then (record { f_ = pos 0 }, sys.close f d) else (record { f_ = f }, d)

  -- `Led( state )`; a descriptor that is negative is kept.
  unfoldable pub new_led : LedState → D → Option (Led × D)
  unfolding after_start
  new_led state d =
      let (f, d') = sys.open_device d in
      if ltb_ℤ f (pos 0)
      then some (record { f_ = f }, d')
      else sys.write f (command led_op_start state.mask_) d' >>= λ r. some (after_start f r)

  -- `~Led()`
  unfoldable pub destroy : Led → D → Option D
  destroy l d =
      if same_ℤ l.f_ (pos 0)
      then some d
      else sys.write l.f_ (command led_op_stop 0) d >>= λ r. some (sys.close l.f_ r.1)

  -- `get( state )`: the result and the new `state`.
  unfoldable pub get_leds : Led → LedState → D → Bool × LedState × D
  get_leds l state d =
      let (r, cmd, d') = sys.read l.f_ (command led_op_get state.mask_) d in
      if same_ℤ l.f_ (pos 0)
      then (false, state, d)
      else (not (ltb_ℤ r (pos 0)), record { mask_ = cmd.leds }, d')

  -- `set( state )`
  unfoldable pub set_leds : Led → LedState → D → Option (Bool × D)
  set_leds l state d =
      if same_ℤ l.f_ (pos 0)
      then some (false, d)
      else sys.write l.f_ (command led_op_set state.mask_) d >>= λ r.
          some (not (ltb_ℤ r.0 (pos 0)), r.1)
