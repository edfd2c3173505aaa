-- ===== src/Led/Client/Session.antt =====
-- `Gpio::Led` on the driver.
use cpp_tricks.Prelude.{
  ℕ, ◌-◌, ◌<◌, ◌^◌, ◌%◌, ◌≡◌, ap, ◌∙◌, true, false, ◌&&◌, List, some, leb, arith, if◌then◌else◌,
}
use cpp_tricks.Prelude.Bits.{bit}
use cpp_tricks.Prelude.Int.{ℤ, pos, ltb_ℤ, same_ℤ}
use cpp_tricks.Led.{
  Kernel, Port, Driver, Command, is_initialized, sizeof_command, led_gpio_get, dev_read, dev_write,
  dev_open,
}
use cpp_tricks.Led.Laws.{IsBoard, Serves, start_lem, set_lem}
use cpp_tricks.Led.Client.{Files, LedState, Led, command, new_led, is_open, set_leds, get_leds}

-- The device is the driver's: `driver` is its state. A call of `open` returns a descriptor that is negative
-- exactly if the driver's `dev_open` is, and so on.
pub record IsDevice {K D : Type 0} (sys : Kernel K) (files : Files D) : Type 0 where
  pub driver : D → Driver K
  pub open_lem :
      (d : D)
      → let (f, d') = files.open_device d in
        let (r, s) = dev_open sys (driver d) in
        (driver d' ≡ s) × (ltb_ℤ f (pos 0) ≡ ltb_ℤ r (pos 0))
  pub write_lem :
      (f : ℤ) (cmd : Command) (d : D) (r : ℤ) (s : Driver K)
      → dev_write sys sizeof_command cmd (driver d) ≡ some (r, s)
      → (r' : ℤ) × (d' : D) × (files.write f cmd d ≡ some (r', d'))
        × (driver d' ≡ s)
        × (ltb_ℤ r' (pos 0) ≡ ltb_ℤ r (pos 0))
  pub read_lem :
      (f : ℤ) (buf : Command) (d : D)
      → let (r, cmd, d') = files.read f buf d in
        let (r', cmd', s) = dev_read sys sizeof_command buf (driver d) in
        (cmd ≡ cmd') × (driver d' ≡ s) × (ltb_ℤ r (pos 0) ≡ ltb_ℤ r' (pos 0))

module _ {K D : Type 0} (sys : Kernel K) (w : IsBoard sys) (files : Files D)
    (v : IsDevice sys files) where
  open w use {level}
  open v use {driver}

  -- What a driver that serves the ports of a mask does for a set, seen through a descriptor.
  set_write :
      (f : ℤ) (mask op : ℕ) (d : D)
      → Serves sys mask (driver d)
      → (r : ℤ) × (d' : D) × (files.write f (command 3 op) d ≡ some (r, d'))
        × Serves sys mask (driver d')
        × ((driver d').led_state ≡ op % 2 ^ 26)
        × ((q : ℕ)
            → level (driver d').kernel q ≡ (
                if leb 2 q && leb q 27 && bit mask (q - 2)
                then bit (op % 2 ^ 26) (q - 2)
                else level (driver d).kernel q))
        × (ltb_ℤ r (pos 0) ≡ false)
  unfolding dev_write
  set_write f mask op d o =
      let (t, e, o', kept, levels) = set_lem sys w mask (command 3 op) (driver d) o in
      let done : dev_write sys sizeof_command (command 3 op) (driver d) ≡ some (pos 0, t) = rw e in
      let (r, d', e', same, sign) = v.write_lem f (command 3 op) d (pos 0) t done in
      (
        r,
        d',
        e',
        rw same o',
        ap (λ (s : Driver K). s.led_state) same ∙ kept,
        λ q. ap (λ (s : Driver K). level s.kernel q) same ∙ levels q,
        sign,
      )

  -- The requests for ports succeed.
  abbrev Grants : Type 0
  Grants = (l : List Port) (k : K) → (sys.gpio_request_array l k).0 ≡ pos 0

  start_write :
      (f : ℤ) (mask : ℕ) (d : D)
      → Grants
      → is_initialized (driver d).driver_state ≡ false
      → (r : ℤ) × (d' : D) × (files.write f (command 1 mask) d ≡ some (r, d'))
        × Serves sys (mask % 2 ^ 26) (driver d')
        × (ltb_ℤ r (pos 0) ≡ false)
  unfolding dev_write
  start_write f mask d grants off =
      let (r, t, e, o, kept, fine, low) = start_lem sys w (command 1 mask) (driver d) off in
      let done : dev_write sys sizeof_command (command 1 mask) (driver d) ≡ some (pos 0, t) =
        rw (e, fine grants) in
      let (r', d', e', same, sign) = v.write_lem f (command 1 mask) d (pos 0) t done in
      (r', d', e', rw same o, sign)

  get_read :
      (f : ℤ) (buf : Command) (d : D)
      → is_initialized (driver d).driver_state ≡ true
      → let (r, cmd, d') = files.read f buf d in
        (ltb_ℤ r (pos 0) ≡ false) × (cmd.leds ≡ (driver d).led_state)
  unfolding dev_read
  get_read f buf d on =
      let (e, same, sign) = v.read_lem f buf d in
      (sign, ap (λ (c : Command). c.leds) e ∙ rw (led_gpio_get, on))

  -- On a device that is this driver, closed and stopped, with free ports, in a kernel that has memory for the array,
  -- and with a descriptor of `open` that is not 0: a `Led` for a state opens and starts it;
  -- `set` of a second state, of 26 bits, returns true, and each port of the first is then at the level that the
  -- second gives it; `get` returns true and the second state.
  pub session_lem :
      (st next old : LedState) (d : D)
      → ((l : List Port) (k : K) → (sys.gpio_request_array l k).0 ≡ pos 0)
      → is_initialized (driver d).driver_state ≡ false
      → (sys.mutex_trylock (driver d).kernel).0 ≡ true
      → same_ℤ (files.open_device d).0 (pos 0) ≡ false
      → next.mask_ < 2 ^ 26
      → (l : Led) × (d1 : D) × (d2 : D) × (new_led files st d ≡ some (l, d1))
        × (is_open l ≡ true)
        × (set_leds files l next d1 ≡ some (true, d2))
        × ((q : ℕ)
            → (leb 2 q && leb q 27 && bit (st.mask_ % 2 ^ 26) (q - 2)) ≡ true
            → level (driver d2).kernel q ≡ bit next.mask_ (q - 2))
        × ((get_leds files l old d2).0 ≡ true)
        × ((get_leds files l old d2).1 ≡ next)
  unfolding new_led is_open set_leds get_leds dev_open
  session_lem st next old d grants off free not_0 fits =
      let (f, d0) = files.open_device d in
      let (opened, sign) = v.open_lem d in
      let fd : ltb_ℤ f (pos 0) ≡ false = sign ∙ rw free in
      let stopped : is_initialized (driver d0).driver_state ≡ false =
        ap (λ (s : Driver K). is_initialized s.driver_state) opened ∙ off in
      let (r1, d1, e1, o1, s1) = start_write f st.mask_ d0 grants stopped in
      let (r2, d2, e2, o2, kept, levels, s2) = set_write f (st.mask_ % 2 ^ 26) next.mask_ d1 o1 in
      let whole : next.mask_ % 2 ^ 26 ≡ next.mask_ = omega arith in
      let (s3, e3) = get_read f (command 4 old.mask_) d2 o2.is_on in
      (
        record { f_ = f },
        d1,
        d2,
        rw (fd, e1, s1),
        rw not_0,
        rw (not_0, e2, s2),
        λ q asked. levels q ∙ rw (asked, whole),
        rw (not_0, s3),
        rw not_0 (ap (λ m. record { mask_ = m }) (e3 ∙ kept ∙ whole)),
      )
