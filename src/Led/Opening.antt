-- ===== src/Led/Opening.antt =====
-- Who has the device open: opening, closing, reading and writing in any order.
use cpp_tricks.Prelude.{
  ℕ, suc, ◌+◌, ◌≤◌, ◌≡◌, refl, ap, sym, subst, ◌∙◌, Bool, true, false, not, List, [], ◌∷◌, Option,
  none, some, length, one_if, ◌==◌, arith, if◌then◌else◌, inl, inr, Bool-cases,
}
use cpp_tricks.Prelude.Chain.{◌>>=◌}
use cpp_tricks.Prelude.Int.{ℤ, pos, same_ℤ}
use cpp_tricks.Led.{
  Kernel, Port, Driver, Command, is_initialized, sizeof_command, led_op_start, led_op_stop,
  led_op_set, find_ports, each_port, get_ports, allocate, free_leds, start_ports, stop_ports,
  set_ports, led_gpio_init, led_gpio_shutdown, led_gpio_set, led_gpio_get, port_value, or_fault,
  dev_open, dev_release, dev_read, dev_write,
}
use cpp_tricks.Led.Ports.{each_port_keeps}

-- What the kernel documents of `device_mutex`, and that no other call changes it.
pub record IsMutex {K : Type 0} (sys : Kernel K) : Type 0 where
  pub held : K → Bool
  pub busy_lem : same_ℤ sys.minus_ebusy (pos 0) ≡ false
  pub trylock_lem :
      (k : K) → ((sys.mutex_trylock k).0 ≡ not (held k)) × (held (sys.mutex_trylock k).1 ≡ true)
  pub unlock_lem : (k : K) → held (sys.mutex_unlock k) ≡ false
  pub kmalloc_held : (n : ℕ) (k : K) → held (sys.kmalloc n k).1 ≡ held k
  pub request_held : (l : List Port) (k : K) → held (sys.gpio_request_array l k).1 ≡ held k
  pub free_held : (l : List Port) (k : K) → held (sys.gpio_free_array l k) ≡ held k
  pub direction_held : (p v : ℕ) (k : K) → held (sys.gpio_direction_output p v k) ≡ held k
  pub set_value_held : (p v : ℕ) (k : K) → held (sys.gpio_set_value p v k) ≡ held k
  pub copy_held : (c : Command) (k : K) → held (sys.copy_to_user c k).1 ≡ held k

-- The driver, and how many have it open.
pub record Users (K : Type 0) : Type 0 where
  pub driver : Driver K
  pub openers : ℕ

-- The kernel calls `dev_release` for a file that is open.
pub data Step {K : Type 0} (sys : Kernel K) : Users K → Users K → Type 0 where
  opens :
      (s : Driver K) (n : ℕ)
      → Step sys
          (record { driver = s; openers = n })
          (record {
            driver = (dev_open sys s).1;
            openers = n + one_if (same_ℤ (dev_open sys s).0 (pos 0));
          })
  releases :
      (s : Driver K) (n : ℕ)
      → Step sys
          (record { driver = s; openers = suc n })
          (record { driver = (dev_release sys s).1; openers = n })
  reads :
      (s : Driver K) (n len : ℕ) (buf : Command)
      → Step sys
          (record { driver = s; openers = n })
          (record { driver = (dev_read sys len buf s).2; openers = n })
  writes :
      (s t : Driver K) (n len : ℕ) (cmd : Command) (r : ℤ)
      → dev_write sys len cmd s ≡ some (r, t)
      → Step sys (record { driver = s; openers = n }) (record { driver = t; openers = n })

pub data Reach {K : Type 0} (sys : Kernel K) : Users K → Users K → Type 0 where
  here : {s : Users K} → Reach sys s s
  next : {s t u : Users K} → Reach sys s t → Step sys t u → Reach sys s u

module _ {K : Type 0} (sys : Kernel K) (w : IsMutex sys) where
  open w use {held}

  -- A call that ends leaves the mutex as it was.
  abbrev Holds : Bool → Option (ℤ × Driver K) → Type 0
  Holds b none = Unit {0}
  Holds b (some (r, t)) = held t.kernel ≡ b

  bind_Holds :
      {A : Type 0} (b : Bool) (m : Option A) (f : A → Option (ℤ × Driver K))
      → ((a : A) → m ≡ some a → Holds b (f a))
      → Holds b (m >>= f)
  bind_Holds b none f h = tt
  bind_Holds b (some a) f h = h a refl

  if_Holds :
      (b c : Bool) (m n : Option (ℤ × Driver K))
      → Holds b m
      → Holds b n
      → Holds b (if c then m else n)
  if_Holds b true m n h k = h
  if_Holds b false m n h k = k

  allocate_held :
      (l : List ℕ) (s t : Driver K) → allocate sys l s ≡ some t → held t.kernel ≡ held s.kernel
  unfolding allocate
  allocate_held [] s t e = ap held (cc e)
  allocate_held (p ∷ l) s t e = elim (Bool-cases (sys.kmalloc (length (p ∷ l)) s.kernel).0) [
    | inl ok ↦ ground (arith, rw ok at e, w.kmalloc_held (length (p ∷ l)) s.kernel)
    | inr full ↦ absurd (cc (rw full at e))
  ]

  start_Holds : (cmd : Command) (s : Driver K) → Holds (held s.kernel) (start_ports sys cmd s)
  unfolding start_ports
  start_Holds cmd s =
      let b = held s.kernel in
      let l = find_ports 26 0 cmd.leds [] in
      bind_Holds b (allocate sys l (record s { leds_number = length l })) _ (λ t made.
        bind_Holds b (get_ports t.leds t.leds_number) _ (λ ports _.
          bind_Holds b
            (each_port sys (λ q. sys.gpio_direction_output q sys.gpiof_out_init_low) t.leds_number 0
              t.leds (sys.gpio_request_array ports t.kernel).1)
            _
            (λ k e.
              each_port_keeps sys (λ q. sys.gpio_direction_output q sys.gpiof_out_init_low) held
                (λ q k. w.direction_held q sys.gpiof_out_init_low k) t.leds_number 0 t.leds
                (sys.gpio_request_array ports t.kernel).1 k e
              ∙ w.request_held ports t.kernel
              ∙ allocate_held l (record s { leds_number = length l }) t made)))

  stop_Holds : (s : Driver K) → Holds (held s.kernel) (stop_ports sys s)
  unfolding stop_ports
  stop_Holds s =
      let b = held s.kernel in
      let call = λ (q : ℕ). sys.gpio_set_value q sys.gpiof_out_init_low in
      bind_Holds b (each_port sys call s.leds_number 0 s.leds s.kernel) _ (λ k e.
        bind_Holds b (get_ports s.leds s.leds_number) _ (λ ports _.
          bind_Holds b (free_leds sys s.leds) _ (λ p _.
            w.free_held ports k
            ∙ each_port_keeps sys call held (λ q k. w.set_value_held q sys.gpiof_out_init_low k)
                s.leds_number 0 s.leds s.kernel k e)))

  set_Holds : (cmd : Command) (s : Driver K) → Holds (held s.kernel) (set_ports sys cmd s)
  unfolding set_ports
  set_Holds cmd s =
      let call = λ (q : ℕ). sys.gpio_set_value q (port_value sys cmd.leds q) in
      bind_Holds (held s.kernel) (each_port sys call s.leds_number 0 s.leds s.kernel) _ (λ k e.
        each_port_keeps sys call held (λ q k. w.set_value_held q (port_value sys cmd.leds q) k)
          s.leds_number 0 s.leds s.kernel k e)

  fault_Holds : (b : Bool) (m : Option (ℤ × Driver K)) → Holds b m → Holds b (or_fault sys m)
  fault_Holds b none h = tt
  fault_Holds b (some (r, t)) h = h

  write_Holds :
      (len : ℕ) (cmd : Command) (s : Driver K) → Holds (held s.kernel) (dev_write sys len cmd s)
  unfolding dev_write led_gpio_init led_gpio_shutdown led_gpio_set
  write_Holds len cmd s =
      let b = held s.kernel in
      let on = is_initialized s.driver_state in
      if_Holds b (not (len == sizeof_command)) _ _ refl (
        if_Holds b (cmd.operation == led_op_start) _ _
          (fault_Holds b _
            (if_Holds b on (some (pos 1, s)) (start_ports sys cmd s) refl (start_Holds cmd s)))
          (if_Holds b (cmd.operation == led_op_stop) _ _
            (fault_Holds b _
              (if_Holds b on (stop_ports sys s) (some (pos 1, s)) (stop_Holds s) refl))
            (if_Holds b (cmd.operation == led_op_set) _ _
              (fault_Holds b _
                (if_Holds b on (set_ports sys cmd s) (some (pos 1, s)) (set_Holds cmd s) refl))
              refl)))

  read_held :
      (len : ℕ) (buf : Command) (s : Driver K)
      → held (dev_read sys len buf s).2.kernel ≡ held s.kernel
  unfolding dev_read
  read_held len buf s =
      let sent = (led_gpio_get sys buf s).1 in ground (arith, w.copy_held sent s.kernel)

  -- As many have the device open as the mutex says.
  abbrev Counts : Users K → Type 0
  Counts u = u.openers ≡ one_if (held u.driver.kernel)

  Step-Counts : {s t : Users K} → Step sys s t → Counts s → Counts t
  unfolding dev_open dev_release
  Step-Counts (opens s n) h = elim (Bool-cases (held s.kernel)) [
    | inl on ↦ let (got, now) = w.trylock_lem s.kernel in ground (arith, w.busy_lem, got, now, on)
    | inr off ↦ let (got, now) = w.trylock_lem s.kernel in ground (arith, w.busy_lem, got, now, off)
  ]
  Step-Counts (releases s n) h = elim (Bool-cases (held s.kernel)) [
    | inl on ↦ ground (arith, w.unlock_lem s.kernel, on)
    | inr off ↦ ground (arith, w.unlock_lem s.kernel, off)
  ]
  Step-Counts (reads s n len buf) h = h ∙ ap one_if (sym (read_held len buf s))
  Step-Counts (writes s t n len cmd r e) h =
      h ∙ ap one_if (sym (subst (Holds (held s.kernel)) e (write_Holds len cmd s)))

  Reach-Counts : {s t : Users K} → Reach sys s t → Counts s → Counts t
  Reach-Counts here h = h
  Reach-Counts (next r st) h = Step-Counts st (Reach-Counts r h)

  -- With a mutex that does what the kernel says: from a driver that nobody has open and whose mutex is free,
  -- after any opening, closing, reading and writing that does not fault, at most one has it open; and a further
  -- `dev_open` returns 0 exactly if nobody has.
  pub open_lem :
      (s t : Users K)
      → s.openers ≡ 0
      → held s.driver.kernel ≡ false
      → Reach sys s t
      → (t.openers ≤ 1) × (same_ℤ (dev_open sys t.driver).0 (pos 0) ≡ (t.openers == 0))
  unfolding dev_open
  open_lem s t none_open free r =
      let n = Reach-Counts r (none_open ∙ ap one_if (sym free)) in
      let (got, now) = w.trylock_lem t.driver.kernel in
      elim (Bool-cases (held t.driver.kernel)) [
        | inl on ↦ (ground (arith, n, on), ground (arith, n, on, got, w.busy_lem))
        | inr off ↦ (ground (arith, n, off), ground (arith, n, off, got, w.busy_lem))
      ]
