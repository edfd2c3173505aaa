-- ===== src/Led/Laws.antt =====
-- A start, a set, a get and a stop on a board whose ports keep the values that are written to them.
use cpp_tricks.Prelude.{
  ℕ, suc, ◌+◌, ◌-◌, ◌≡◌, refl, ap, sym, ◌∙◌, Bool, true, false, ◌&&◌, List, [], ◌∷◌, map, some,
  take, take_all, length, count_if, one_if, leb, ◌==◌, arith, if◌then◌else◌, ◌⊎◌, inl, inr,
  Bool-cases,
}
use cpp_tricks.Prelude.Bits.{bit}
use cpp_tricks.Prelude.Int.{ℤ, pos}
use cpp_tricks.Led.{
  Kernel, Port, Pointer, allocated, Driver, initialized, is_initialized, Command, led_port,
  find_ports, each_port, get_ports, allocate, start_ports, led_gpio_init, set_ports, led_gpio_set,
  port_value,
}
use cpp_tricks.Led.Ports.{for_ports, each_port_lem, count_port, find_ports_lem}

-- What the kernel documents of ports and memory: a port has the value written to it last, and there is
-- memory for the array.
pub record IsBoard {K : Type 0} (sys : Kernel K) : Type 0 where
  pub level : K → ℕ → Bool
  pub is_high : ℕ → Bool
  pub high_lem : is_high sys.gpiof_out_init_high ≡ true
  pub low_lem : is_high sys.gpiof_out_init_low ≡ false
  pub kmalloc_lem : (n : ℕ) (k : K) → (sys.kmalloc n k).0 ≡ true
  pub set_value_lem :
      (p v q : ℕ) (k : K)
      → level (sys.gpio_set_value p v k) q ≡ (if p == q then is_high v else level k q)
  pub direction_lem :
      (p v q : ℕ) (k : K)
      → level (sys.gpio_direction_output p v k) q ≡ (if p == q then is_high v else level k q)

length-map {ℓ κ} : {A : Type ℓ} {B : Type κ} (f : A → B) (l : List A) → length (map f l) ≡ length l
length-map f [] = refl
length-map f (x ∷ l) = ap suc (length-map f l)

-- `p` points to the elements `l`, if there are any.
abbrev pub IsArray : Pointer → List Port → Type 0
IsArray p l = (l ≡ []) ⊎ (p ≡ allocated l)

-- The ports of a mask.
abbrev pub ports : ℕ → List ℕ
ports mask = find_ports 26 0 mask []

-- Is `q` one of them?
abbrev pub is_port : ℕ → ℕ → Bool
is_port mask q = leb 2 q && leb q 27 && bit mask (q - 2)

module _ {K : Type 0} (sys : Kernel K) where
  array_loop :
      (call : ℕ → K → K) (p : Pointer) (l : List Port) (n : ℕ) (k : K)
      → n ≡ length l
      → IsArray p l
      → each_port sys call n 0 p k ≡ some (for_ports sys call l k)
  unfolding each_port
  array_loop call p [] n k h (inl e) = rw h
  array_loop call p (x ∷ l) n k h (inl e) = absurd (cc e)
  array_loop call p l n k h (inr e) = rw (e, h) (each_port_lem sys call l k)

  pub array_ports :
      (p : Pointer) (l : List Port) (n : ℕ) → n ≡ length l → IsArray p l → get_ports p n ≡ some l
  array_ports p [] n h a = rw h
  array_ports p (x ∷ l) n h (inl e) = absurd (cc e)
  array_ports p (x ∷ l) n h (inr e) =
      let all : take (length (x ∷ l)) (x ∷ l) ≡ x ∷ l =
        take_all (x ∷ l) (length (x ∷ l)) (omega arith) in
      let fits : leb (length (x ∷ l)) (length (x ∷ l)) ≡ true = ground arith in rw (e, h, fits, all)

  count-led_port :
      (q : ℕ) (l : List ℕ)
      → count_if (λ (p : Port). p.gpio == q) (map (led_port sys) l) ≡ count_port q l
  count-led_port q [] = refl
  count-led_port q (p ∷ l) = ap (λ n. one_if (p == q) + n) (count-led_port q l)

  -- A driver that has been started with a mask, and not stopped since.
  pub record Serves (mask : ℕ) (s : Driver K) : Type 0 where
    pub is_on : is_initialized s.driver_state ≡ true
    pub number : s.leds_number ≡ length (map (led_port sys) (ports mask))
    pub array : IsArray s.leds (map (led_port sys) (ports mask))

  module _ (w : IsBoard sys) where
    open w use {level, is_high}

    -- The levels after a loop that writes `v q` to each port `q`.
    for_ports_level :
        (call : ℕ → K → K) (v : ℕ → ℕ)
        → ((p q : ℕ) (k : K) → level (call p k) q ≡ (if p == q then is_high (v p) else level k q))
        → (l : List Port) (k : K) (q : ℕ)
        → level (for_ports sys call l k) q
          ≡ (if leb 1 (count_if (λ (p : Port). p.gpio == q) l) then is_high (v q) else level k q)
    for_ports_level call v h [] k q = refl
    for_ports_level call v h (p ∷ l) k q = elim (Bool-cases (p.gpio == q)) [
      | inl e ↦
          let same : p.gpio ≡ q = ground arith in
          let now : is_high (v p.gpio) ≡ is_high (v q) = ap (λ r. is_high (v r)) same in
          ground (arith, for_ports_level call v h l (call p.gpio k) q, h p.gpio q k)
      | inr d ↦ ground (arith, for_ports_level call v h l (call p.gpio k) q, h p.gpio q k)
    ]

    mask_level :
        (call : ℕ → K → K) (v : ℕ → ℕ)
        → ((p q : ℕ) (k : K) → level (call p k) q ≡ (if p == q then is_high (v p) else level k q))
        → (mask : ℕ) (k : K) (q : ℕ)
        → level (for_ports sys call (map (led_port sys) (ports mask)) k) q
          ≡ (if is_port mask q then is_high (v q) else level k q)
    mask_level call v h mask k q =
        let counted = count-led_port q (ports mask) ∙ find_ports_lem mask q in
        elim (Bool-cases (is_port mask q)) [
          | inl e ↦
              rw e
                (for_ports_level call v h (map (led_port sys) (ports mask)) k q ∙ rw (counted, e))
          | inr e ↦
              rw e
                (for_ports_level call v h (map (led_port sys) (ports mask)) k q ∙ rw (counted, e))
        ]

    allocate_lem :
        (l : List ℕ) (s : Driver K)
        → (t : Driver K) × (allocate sys l s ≡ some t)
          × (t.leds_number ≡ s.leds_number)
          × (t.led_state ≡ s.led_state)
          × IsArray t.leds (map (led_port sys) l)
    unfolding allocate
    allocate_lem [] s = (s, refl, refl, refl, inl refl)
    allocate_lem (p ∷ l) s =
        let r = sys.kmalloc (length (p ∷ l)) s.kernel in
        (
          record s { leds = allocated (map (led_port sys) (p ∷ l)); kernel = r.1 },
          rw (w.kmalloc_lem (length (p ∷ l)) s.kernel),
          refl,
          refl,
          inr refl,
        )

    started :
        (cmd : Command) (s : Driver K)
        → (r : ℤ) × (t : Driver K) × (start_ports sys cmd s ≡ some (r, t))
          × Serves cmd.leds t
          × (t.led_state ≡ s.led_state)
          × (((l : List Port) (k : K) → (sys.gpio_request_array l k).0 ≡ pos 0) → r ≡ pos 0)
          × ((q : ℕ) → is_port cmd.leds q ≡ true → level t.kernel q ≡ false)
    unfolding start_ports
    started cmd s =
        let l = ports cmd.leds in
        let array = map (led_port sys) l in
        let (t, made, n, kept, a) = allocate_lem l (record s { leds_number = length l }) in
        let count : t.leds_number ≡ length array = n ∙ sym (length-map (led_port sys) l) in
        let r = sys.gpio_request_array array t.kernel in
        let call = λ (q : ℕ). sys.gpio_direction_output q sys.gpiof_out_init_low in
        (
          r.0,
          record t { kernel = for_ports sys call array r.1; driver_state = initialized },
          rw (
            made,
            array_ports t.leds array t.leds_number count a,
            array_loop call t.leds array t.leds_number r.1 count a,
          ),
          record { is_on = refl; number = count; array = a },
          kept,
          λ fine. fine array t.kernel,
          λ q asked.
              mask_level call (λ _. sys.gpiof_out_init_low)
                (λ p o k. w.direction_lem p sys.gpiof_out_init_low o k) cmd.leds r.1 q
              ∙ rw (asked, w.low_lem),
        )

    -- A start of a driver that is stopped does not fault, and then the driver serves the ports of the mask,
    -- which are low. It returns 0 if `gpio_request_array` does, whatever ports and state it is given.
    pub start_lem :
        (cmd : Command) (s : Driver K)
        → is_initialized s.driver_state ≡ false
        → (r : ℤ) × (t : Driver K) × (led_gpio_init sys cmd s ≡ some (r, t))
          × Serves cmd.leds t
          × (t.led_state ≡ s.led_state)
          × (((l : List Port) (k : K) → (sys.gpio_request_array l k).0 ≡ pos 0) → r ≡ pos 0)
          × ((q : ℕ)
              → (leb 2 q && leb q 27 && bit cmd.leds (q - 2)) ≡ true
              → level t.kernel q ≡ false)
    unfolding led_gpio_init
    start_lem cmd s off =
        let (r, t, e, serves, kept, fine, low) = started cmd s in
        (r, t, rw off e, serves, kept, fine, low)

    port_value_lem : (mask q : ℕ) → is_high (port_value sys mask q) ≡ bit mask (q - 2)
    port_value_lem mask q = elim (Bool-cases (bit mask (q - 2))) [
      | inl e ↦ rw (e, w.high_lem)
      | inr e ↦ rw (e, w.low_lem)
    ]

    -- A set, on a driver that serves the ports of a mask, succeeds: each of these ports has the level of its bit,
    -- every other port is as before, and the driver goes on serving the same ports.
    pub set_lem :
        (mask : ℕ) (cmd : Command) (s : Driver K)
        → Serves mask s
        → (t : Driver K) × (led_gpio_set sys cmd s ≡ some (pos 0, t))
          × Serves mask t
          × (t.led_state ≡ cmd.leds)
          × ((q : ℕ)
              → level t.kernel q ≡ (
                  if leb 2 q && leb q 27 && bit mask (q - 2)
                  then bit cmd.leds (q - 2)
                  else level s.kernel q))
    unfolding led_gpio_set set_ports
    set_lem mask cmd s o =
        let array = map (led_port sys) (ports mask) in
        let call = λ (q : ℕ). sys.gpio_set_value q (port_value sys cmd.leds q) in
        let k = for_ports sys call array s.kernel in
        let set : set_ports sys cmd s
            ≡ some (pos 0, record s { kernel = k; led_state = cmd.leds }) =
          rw (array_loop call s.leds array s.leds_number s.kernel o.number o.array) in
        (
          record s { kernel = k; led_state = cmd.leds },
          rw o.is_on set,
          record { is_on = o.is_on; number = o.number; array = o.array },
          refl,
          λ q.
              mask_level call (port_value sys cmd.leds)
                (λ p r k. w.set_value_lem p (port_value sys cmd.leds p) r k) mask s.kernel q
              ∙ rw (port_value_lem cmd.leds q),
        )
