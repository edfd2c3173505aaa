-- ===== src/Led.antt =====
-- LinuxGpioLedDriver/ledgpio.c and ledgpio.h: the driver of the LEDs. The kernel that it calls is a parameter:
-- `K` is its state, and a `Kernel` says what the calls do. `leds` is a pointer, so the model keeps
-- what it points to; none stands for an access through a pointer that does not point to enough, and
-- for a second `kfree`.
pub mod Registration
pub mod Client
pub mod Ports
pub mod Laws
pub mod Memory
pub mod Opening
pub mod Tests
use cpp_tricks.Prelude.{
  ℕ, zero, suc, ◌+◌, ◌-◌, Bool, true, false, not, List, [], ◌∷◌, ◌++◌, map, Option, none, some,
  take, length, get_elem?, leb, ◌==◌, if◌then◌else◌,
}
use cpp_tricks.Prelude.Bits.{bit}
use cpp_tricks.Prelude.Chain.{◌>>=◌}
use cpp_tricks.Prelude.Int.{ℤ, pos, same_ℤ}
use cpp_tricks.Prelude.Text.{Text, codes}

abbrev pub gpio_num : ℕ
gpio_num = 26

abbrev pub gpio_min_port : ℕ
gpio_min_port = 2

abbrev pub gpio_max_port : ℕ
gpio_max_port = 27

-- `led_operation_t`, whose field can hold other numbers
abbrev pub led_op_start : ℕ
led_op_start = 1

abbrev pub led_op_stop : ℕ
led_op_stop = 2

abbrev pub led_op_set : ℕ
led_op_set = 3

abbrev pub led_op_get : ℕ
led_op_get = 4

-- `led_cmd_t`: fields of 6 and 26 bits.
pub record Command : Type 0 where
  pub operation : ℕ
  pub leds : ℕ

-- `sizeof( led_cmd_t )`
abbrev pub sizeof_command : ℕ
sizeof_command = 4

-- The kernel's `struct gpio`.
pub record Port : Type 0 where
  pub gpio : ℕ
  pub flags : ℕ
  pub label : Text

pub record Kernel (K : Type 0) : Type 0 where
  pub gpiof_out_init_low : ℕ
  pub gpiof_out_init_high : ℕ
  -- `-EBUSY` and `-EFAULT`
  pub minus_ebusy : ℤ
  pub minus_efault : ℤ
  -- for a number of `struct gpio`: is the result not NULL?
  pub kmalloc : ℕ → K → Bool × K
  pub gpio_request_array : List Port → K → ℤ × K
  pub gpio_direction_output : ℕ → ℕ → K → K
  pub gpio_set_value : ℕ → ℕ → K → K
  pub gpio_free_array : List Port → K → K
  -- is the result not 0?
  pub copy_to_user : Command → K → Bool × K
  pub mutex_trylock : K → Bool × K
  pub mutex_unlock : K → K

pub data DriverState : Type 0 where
  not_initialized initialized : DriverState

abbrev pub is_initialized : DriverState → Bool
is_initialized not_initialized = false
is_initialized initialized = true

-- What `leds` points to.
pub data Pointer : Type 0 where
  null freed : Pointer
  allocated : List Port → Pointer

pub record Driver (K : Type 0) : Type 0 where
  pub driver_state : DriverState
  pub leds_number : ℕ
  pub leds : Pointer
  pub led_state : ℕ
  pub kernel : K

-- The initial values of the static variables.
unfoldable pub loaded : {K : Type 0} → K → Driver K
loaded k = record {
  driver_state = not_initialized;
  leds_number = 0;
  leds = null;
  led_state = 0;
  kernel = k;
}

-- `leds[i]`
abbrev pub get_port : Pointer → ℕ → Option Port
get_port null i = none
get_port freed i = none
get_port (allocated l) i = get_elem? l i

-- The first `n` elements, for a call that reads them.
abbrev pub get_ports : Pointer → ℕ → Option (List Port)
get_ports p zero = some []
get_ports null (suc n) = none
get_ports freed (suc n) = none
get_ports (allocated l) (suc n) = if leb (suc n) (length l) then some (take (suc n) l) else none

-- `led_gpio_init`, the first loop, from bit `i` on, for so many more rounds: the array `l`, up to `leds_number`.
unfoldable pub find_ports : ℕ → ℕ → ℕ → List ℕ → List ℕ
find_ports zero i mask l = l
find_ports (suc n) i mask l =
    find_ports n (i + 1) mask (if bit mask i then l ++ ((i + gpio_min_port) ∷ []) else l)

module _ {K : Type 0} (sys : Kernel K) where
  -- `leds[i]` as the second loop fills it.
  abbrev pub led_port : ℕ → Port
  led_port p = record { gpio = p; flags = sys.gpiof_out_init_low; label = codes "led" }

  -- The array for the ports `l`, and the second loop. NULL is not tested for.
  unfoldable pub allocate : List ℕ → Driver K → Option (Driver K)
  allocate [] s = some s
  allocate (p ∷ l) s =
      let r = sys.kmalloc (length (p ∷ l)) s.kernel in
      if r.0
      then some (record s { leds = allocated (map led_port (p ∷ l)); kernel = r.1 })
      else none

  -- `for(i = 0; i < leds_number; i++)` with a call for `leds[i]`: so many more rounds, from `i` on.
  unfoldable pub each_port : (ℕ → K → K) → ℕ → ℕ → Pointer → K → Option K
  each_port call zero i p k = some k
  each_port call (suc n) i p k = get_port p i >>= λ q. each_port call n (i + 1) p (call q.gpio k)

  -- `led_gpio_init` after its test of the state.
  unfoldable pub start_ports : Command → Driver K → Option (ℤ × Driver K)
  start_ports cmd s = do
    let l = find_ports gpio_num 0 cmd.leds []
    t ← allocate l (record s { leds_number = length l })
    ports ← get_ports t.leds t.leds_number
    let r = sys.gpio_request_array ports t.kernel
    k ←
        each_port (λ q. sys.gpio_direction_output q sys.gpiof_out_init_low) t.leds_number 0 t.leds
          r.1
    some (r.0, record t { kernel = k; driver_state = initialized })

  unfoldable pub led_gpio_init : Command → Driver K → Option (ℤ × Driver K)
  unfolding start_ports
  led_gpio_init cmd s = if is_initialized s.driver_state then some (pos 1, s) else start_ports cmd s

  -- `if (leds) kfree(leds)`, which leaves the pointer as it is.
  unfoldable pub free_leds : Pointer → Option Pointer
  free_leds null = some null
  free_leds (allocated l) = some freed
  free_leds freed = none

  -- `led_gpio_shutdown` after its test of the state.
  unfoldable pub stop_ports : Driver K → Option (ℤ × Driver K)
  unfolding free_leds
  stop_ports s = do
    k ← each_port (λ q. sys.gpio_set_value q sys.gpiof_out_init_low) s.leds_number 0 s.leds s.kernel
    ports ← get_ports s.leds s.leds_number
    p ← free_leds s.leds
    let freed_kernel = sys.gpio_free_array ports k
    some (pos 0, record s { kernel = freed_kernel; leds = p; driver_state = not_initialized })

  unfoldable pub led_gpio_shutdown : Driver K → Option (ℤ × Driver K)
  unfolding stop_ports
  led_gpio_shutdown s = if is_initialized s.driver_state then stop_ports s else some (pos 1, s)

  -- The value for a port: that of its bit.
  abbrev pub port_value : ℕ → ℕ → ℕ
  port_value mask q =
      if bit mask (q - gpio_min_port) then sys.gpiof_out_init_high else sys.gpiof_out_init_low

  -- `led_gpio_set` after its test of the state.
  unfoldable pub set_ports : Command → Driver K → Option (ℤ × Driver K)
  set_ports cmd s = do
    k ←
        each_port (λ q. sys.gpio_set_value q (port_value cmd.leds q)) s.leds_number 0 s.leds
          s.kernel
    some (pos 0, record s { kernel = k; led_state = cmd.leds })

  unfoldable pub led_gpio_set : Command → Driver K → Option (ℤ × Driver K)
  unfolding set_ports
  led_gpio_set cmd s = if is_initialized s.driver_state then set_ports cmd s else some (pos 1, s)

  -- `led_gpio_get`: the result, and what `cmd` is then.
  unfoldable pub led_gpio_get : Command → Driver K → ℤ × Command
  led_gpio_get cmd s =
      if is_initialized s.driver_state
      then (pos 0, record cmd { leds = s.led_state })
      else (pos 1, cmd)

  unfoldable pub dev_open : Driver K → ℤ × Driver K
  dev_open s =
      let r = sys.mutex_trylock s.kernel in
      (if r.0 then pos 0 else sys.minus_ebusy, record s { kernel = r.1 })

  unfoldable pub dev_release : Driver K → ℤ × Driver K
  dev_release s = (pos 0, record s { kernel = sys.mutex_unlock s.kernel })

  -- `dev_read`: the result and the buffer, which `cmd` points to. The last assignment to `ret` is its size
  -- whatever the calls before it return.
  unfoldable pub dev_read : ℕ → Command → Driver K → ℤ × Command × Driver K
  unfolding led_gpio_get
  dev_read len buf s =
      let r = led_gpio_get buf s in
      let c = sys.copy_to_user r.1 s.kernel in
      if not (len == sizeof_command)
      then (sys.minus_efault, buf, s)
      else (pos len, r.1, if same_ℤ r.0 (pos 0) then record s { kernel = c.1 } else s)

  -- `ret = call ? -EFAULT : 0`
  abbrev pub or_fault : Option (ℤ × Driver K) → Option (ℤ × Driver K)
  or_fault r = r >>= λ a. some (if same_ℤ a.0 (pos 0) then pos 0 else sys.minus_efault, a.1)

  unfoldable pub dev_write : ℕ → Command → Driver K → Option (ℤ × Driver K)
  unfolding led_gpio_init led_gpio_shutdown led_gpio_set
  dev_write len cmd s =
      if not (len == sizeof_command)
      then some (sys.minus_efault, s)
      else if cmd.operation == led_op_start
      then or_fault (led_gpio_init cmd s)
      else if cmd.operation == led_op_stop
      then or_fault (led_gpio_shutdown s)
      else if cmd.operation == led_op_set
      then or_fault (led_gpio_set cmd s)
      else some (sys.minus_efault, s)
