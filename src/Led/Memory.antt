-- ===== src/Led/Memory.antt =====
-- The pointer `leds` over a sequence of writes.
use cpp_tricks.Prelude.{
  ℕ, ◌<◌, ◌≡◌, ◌⊎◌, refl, Bool, true, false, not, List, [], ◌∷◌, map, Option, some, All, length,
  ◌==◌, arith, if◌then◌else◌, inl, inr, Bool-cases,
}
use cpp_tricks.Prelude.Chain.{◌>>=◌}
use cpp_tricks.Prelude.Int.{ℤ, pos, same_ℤ}
use cpp_tricks.Led.{
  Kernel, Port, loaded, allocated, freed, not_initialized, Driver, Command, is_initialized,
  led_op_start, led_op_stop, led_op_set, sizeof_command, led_port, led_gpio_init, led_gpio_shutdown,
  stop_ports, led_gpio_set, set_ports, port_value, or_fault, dev_write,
}
use cpp_tricks.Led.Ports.{for_ports, each_port_lem}
use cpp_tricks.Led.Laws.{IsBoard, Serves, ports, start_lem, array_ports}

-- A driver that is started has an array of all its ports.
abbrev pub IsSafe : {K : Type 0} → Driver K → Type 0
IsSafe s =
    is_initialized s.driver_state ≡ true
    → (l : List Port) × (s.leds ≡ allocated l) × (s.leds_number ≡ length l)

-- The call ends without a fault, and the driver is safe then.
abbrev pub EndsSafe : {K : Type 0} → Option (ℤ × Driver K) → Type 0
EndsSafe {K} m = (r : ℤ) × (t : Driver K) × (m ≡ some (r, t)) × IsSafe t

-- A start asks for one port at least.
abbrev pub AsksForPort : Command → Type 0
AsksForPort cmd = cmd.operation ≡ 1 → 0 < length (ports cmd.leds)

module _ {K : Type 0} (sys : Kernel K) where
  array_IsSafe : (mask : ℕ) (t : Driver K) → 0 < length (ports mask) → Serves sys mask t → IsSafe t
  array_IsSafe mask t some_port o on = split (ports mask) some_port o.number o.array
    where
      split :
          (l : List ℕ)
          → 0 < length l
          → t.leds_number ≡ length (map (led_port sys) l)
          → (map (led_port sys) l ≡ []) ⊎ (t.leds ≡ allocated (map (led_port sys) l))
          → (l' : List Port) × (t.leds ≡ allocated l') × (t.leds_number ≡ length l')
      split [] h n a = absurd (omega arith)
      split (p ∷ l) h n (inl e) = absurd (cc e)
      split (p ∷ l) h n (inr e) = (map (led_port sys) (p ∷ l), e, n)

  -- The calls of a stop and of a set, on an array that holds all the ports.
  stop_EndsSafe :
      (s : Driver K) (l : List Port)
      → s.leds ≡ allocated l
      → s.leds_number ≡ length l
      → EndsSafe (stop_ports sys s)
  unfolding stop_ports
  stop_EndsSafe s l e n =
      let k = for_ports sys (λ q. sys.gpio_set_value q sys.gpiof_out_init_low) l s.kernel in
      let call = λ (q : ℕ). sys.gpio_set_value q sys.gpiof_out_init_low in
      (
        pos 0,
        record s { kernel = sys.gpio_free_array l k; leds = freed; driver_state = not_initialized },
        rw (
          e,
          n,
          each_port_lem sys call l s.kernel,
          array_ports sys (allocated l) l (length l) refl (inr refl),
        ),
        λ off. absurd (cc off),
      )

  set_EndsSafe :
      (cmd : Command) (s : Driver K) (l : List Port)
      → s.leds ≡ allocated l
      → s.leds_number ≡ length l
      → EndsSafe (set_ports sys cmd s)
  unfolding set_ports
  set_EndsSafe cmd s l e n =
      let call = λ (q : ℕ). sys.gpio_set_value q (port_value sys cmd.leds q) in
      (
        pos 0,
        record s { kernel = for_ports sys call l s.kernel; led_state = cmd.leds },
        rw (e, n, each_port_lem sys call l s.kernel),
        λ on. (l, e, n),
      )

  start_EndsSafe :
      (w : IsBoard sys) (cmd : Command) (s : Driver K)
      → IsSafe s
      → 0 < length (ports cmd.leds)
      → EndsSafe (led_gpio_init sys cmd s)
  unfolding led_gpio_init
  start_EndsSafe w cmd s safe some_port = elim (Bool-cases (is_initialized s.driver_state)) [
    | inl on ↦ (pos 1, s, rw on, safe)
    | inr off ↦
        let (r, t, e, serves, kept, fine, low) = start_lem sys w cmd s off in
        (r, t, e, array_IsSafe cmd.leds t some_port serves)
  ]

  shutdown_EndsSafe : (s : Driver K) → IsSafe s → EndsSafe (led_gpio_shutdown sys s)
  unfolding led_gpio_shutdown
  shutdown_EndsSafe s safe = elim (Bool-cases (is_initialized s.driver_state)) [
    | inl on ↦ let (l, e, n) = safe on in rw on (stop_EndsSafe s l e n)
    | inr off ↦ (pos 1, s, rw off, safe)
  ]

  leds_EndsSafe : (cmd : Command) (s : Driver K) → IsSafe s → EndsSafe (led_gpio_set sys cmd s)
  unfolding led_gpio_set
  leds_EndsSafe cmd s safe = elim (Bool-cases (is_initialized s.driver_state)) [
    | inl on ↦ let (l, e, n) = safe on in rw on (set_EndsSafe cmd s l e n)
    | inr off ↦ (pos 1, s, rw off, safe)
  ]

  or_fault-EndsSafe : (m : Option (ℤ × Driver K)) → EndsSafe m → EndsSafe (or_fault sys m)
  or_fault-EndsSafe m (r, t, e, safe) =
      (if same_ℤ r (pos 0) then pos 0 else sys.minus_efault, t, rw e, safe)

  if_EndsSafe :
      (b : Bool) (m n : Option (ℤ × Driver K))
      → (b ≡ true → EndsSafe m)
      → EndsSafe n
      → EndsSafe (if b then m else n)
  if_EndsSafe true m n h k = h refl
  if_EndsSafe false m n h k = k

  write_EndsSafe :
      (w : IsBoard sys) (len : ℕ) (cmd : Command) (s : Driver K)
      → IsSafe s
      → AsksForPort cmd
      → EndsSafe (dev_write sys len cmd s)
  unfolding dev_write
  write_EndsSafe w len cmd s safe asks =
      if_EndsSafe (not (len == sizeof_command)) _ _ (λ _. (sys.minus_efault, s, refl, safe))
        (if_EndsSafe (cmd.operation == led_op_start) _ _
          (λ e. or_fault-EndsSafe _ (start_EndsSafe w cmd s safe (asks (ground arith))))
          (if_EndsSafe (cmd.operation == led_op_stop) _ _
            (λ e. or_fault-EndsSafe _ (shutdown_EndsSafe s safe))
            (if_EndsSafe (cmd.operation == led_op_set) _ _
              (λ e. or_fault-EndsSafe _ (leds_EndsSafe cmd s safe))
              (sys.minus_efault, s, refl, safe))))

  -- Writes of the right size, one after the other.
  unfoldable pub writes : List Command → Driver K → Option (Driver K)
  writes [] s = some s
  writes (cmd ∷ l) s = dev_write sys sizeof_command cmd s >>= λ a. writes l a.1

  writes-IsSafe :
      (w : IsBoard sys) (l : List Command) (s : Driver K)
      → IsSafe s
      → All AsksForPort l
      → (t : Driver K) × (writes l s ≡ some t) × IsSafe t
  unfolding writes
  writes-IsSafe w [] s safe h = (s, refl, safe)
  writes-IsSafe w (cmd ∷ l) s safe h =
      let (r, t, e, safe') = write_EndsSafe w sizeof_command cmd s safe h.0 in
      let (u, e', safe'') = writes-IsSafe w l t safe' h.1 in (u, rw (e, e'), safe'')

  -- From the driver as it is loaded, where memory is always found: no sequence of writes faults, in which every
  -- start asks for at least one port. After it a driver that is started points to an array of all its ports.
  pub writes_lem :
      (w : IsBoard sys) (l : List Command) (k : K)
      → All (λ cmd. cmd.operation ≡ 1 → 0 < length (ports cmd.leds)) l
      → (t : Driver K) × (writes l (loaded k) ≡ some t)
        × (is_initialized t.driver_state ≡ true
            → (a : List Port) × (t.leds ≡ allocated a) × (t.leds_number ≡ length a))
  unfolding loaded
  writes_lem w l k h = writes-IsSafe w l (loaded k) (λ on. absurd (cc on)) h
