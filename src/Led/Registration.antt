-- ===== src/Led/Registration.antt =====
-- LinuxGpioLedDriver/ledgpio.c: `drv_init` and `drv_exit`. The kernel's registers are a parameter: `R` is their
-- state, and a `Registry` says what the calls do.
mod Tests
use cpp_tricks.Prelude.{
  ℕ, ◌+◌, ◌-◌, ◌<◌, ◌≡◌, refl, ap, ◌∙◌, Bool, true, false, List, [], ◌∷◌, Option, none, some, arith,
  if◌then◌else◌, inl, inr, Bool-cases, Option-cases,
}
use cpp_tricks.Prelude.Int.{ℤ, pos, negsuc, ltb_ℤ, same_ℤ}

pub record Registry (R : Type 0) : Type 0 where
  -- a major number, or a negative error
  pub register_chrdev : R → ℤ × R
  pub unregister_chrdev : ℤ → R → R
  -- the error of `IS_ERR` and `PTR_ERR`, or none
  pub class_create : R → Option ℤ × R
  pub class_unregister : R → R
  pub class_destroy : R → R
  pub device_create : ℤ → R → Option ℤ × R
  pub device_destroy : ℤ → R → R
  pub mutex_init : R → R
  pub mutex_destroy : R → R

module _ {R : Type 0} (sys : Registry R) where
  -- `drv_init` from `device_create` on.
  unfoldable pub init_device : ℤ → Option ℤ × R → ℤ × R
  init_device major (some e, k) = (e, sys.unregister_chrdev major (sys.class_destroy k))
  init_device major (none, k) = (pos 0, sys.mutex_init k)

  -- `drv_init` from `class_create` on.
  unfoldable pub init_class : ℤ → Option ℤ × R → ℤ × R
  unfolding init_device
  init_class major (some e, k) = (e, sys.unregister_chrdev major k)
  init_class major (none, k) = init_device major (sys.device_create major k)

  unfoldable pub drv_init : R → ℤ × R
  unfolding init_class
  drv_init k =
      let (major, k') = sys.register_chrdev k in
      if ltb_ℤ major (pos 0) then (major, k') else init_class major (sys.class_create k')

  -- `drv_exit`, for the number that `drv_init` has got.
  unfoldable pub drv_exit : ℤ → R → R
  drv_exit major k = sys.mutex_destroy (
      sys.unregister_chrdev major
        (sys.class_destroy (sys.class_unregister (sys.device_destroy major k))))

-- What is registered: the numbers of the devices of characters, how many classes, and the number of each device.
pub record Registered : Type 0 where
  pub chrdevs : List ℤ
  pub classes : ℕ
  pub devices : List ℤ

-- The list without the first place of a number.
abbrev pub without_number : ℤ → List ℤ → List ℤ
without_number m [] = []
without_number m (x ∷ l) = if same_ℤ x m then l else x ∷ without_number m l

without_first : (m : ℤ) (l : List ℤ) → without_number m (m ∷ l) ≡ l
without_first m l = let same : same_ℤ m m ≡ true = ground arith in rw same refl

-- A call that may fail adds something, or fails and adds nothing.
abbrev pub Adds : Option ℤ → Registered → Registered → Registered → Type 0
Adds none old more new = new ≡ more
Adds (some e) old more new = (new ≡ old) × (ltb_ℤ e (pos 0) ≡ true)

-- What the kernel documents of them: a number is registered until this number is unregistered, and so on.
pub record IsRegistry {R : Type 0} (sys : Registry R) : Type 0 where
  pub registered : R → Registered
  pub register_lem :
      (k : R)
      → let (major, k') = sys.register_chrdev k in
        registered k' ≡ (
          if ltb_ℤ major (pos 0)
          then registered k
          else record (registered k) { chrdevs = major ∷ (registered k).chrdevs })
  pub unregister_lem :
      (major : ℤ) (k : R)
      → registered (sys.unregister_chrdev major k)
        ≡ record (registered k) { chrdevs = without_number major (registered k).chrdevs }
  pub class_create_lem :
      (k : R)
      → let (e, k') = sys.class_create k in
        Adds e
          (registered k)
          (record (registered k) { classes = (registered k).classes + 1 })
          (registered k')
  pub class_destroy_lem :
      (k : R)
      → 0 < (registered k).classes
      → registered (sys.class_destroy k)
        ≡ record (registered k) { classes = (registered k).classes - 1 }
  pub device_create_lem :
      (major : ℤ) (k : R)
      → let (e, k') = sys.device_create major k in
        Adds e
          (registered k)
          (record (registered k) { devices = major ∷ (registered k).devices })
          (registered k')
  pub mutex_init_lem : (k : R) → registered (sys.mutex_init k) ≡ registered k

module _ {R : Type 0} (sys : Registry R) (w : IsRegistry sys) where
  open w use {registered}

  -- With the number, a class and the device of the number.
  abbrev pub all_added : ℤ → Registered → Registered
  all_added major old = record {
    chrdevs = major ∷ old.chrdevs;
    classes = old.classes + 1;
    devices = major ∷ old.devices;
  }

  -- After a result of `drv_init`: all is there, or as before.
  abbrev Outcome : ℤ → Registered → ℤ × R → Type 0
  Outcome major old (r, k) = registered k ≡ (if ltb_ℤ r (pos 0) then old else all_added major old)

  unregistered :
      (old : Registered) (major : ℤ) (k : R)
      → registered k ≡ record old { chrdevs = major ∷ old.chrdevs }
      → registered (sys.unregister_chrdev major k) ≡ old
  unregistered old major k h =
      w.unregister_lem major k
      ∙ rw h (ap (λ l. record old { chrdevs = l }) (without_first major old.chrdevs))

  device_Outcome :
      (old : Registered) (major : ℤ) (k : R)
      → registered k ≡ record old { chrdevs = major ∷ old.chrdevs; classes = old.classes + 1 }
      → (r : Option ℤ × R)
      → Adds r.0
          (registered k)
          (record (registered k) { devices = major ∷ (registered k).devices })
          (registered r.1)
      → Outcome major old (init_device sys major r)
  unfolding init_device
  device_Outcome old major k h (none, k') a = w.mutex_init_lem k' ∙ rw (a, h)
  device_Outcome old major k h (some e, k') (a, neg) =
      let gone = w.class_destroy_lem k' (rw (a, h) (omega arith)) in
      rw neg (unregistered old major (sys.class_destroy k') (rw (gone, a, h) (ground arith)))

  class_Outcome :
      (old : Registered) (major : ℤ) (k : R)
      → registered k ≡ record old { chrdevs = major ∷ old.chrdevs }
      → (r : Option ℤ × R)
      → Adds r.0
          (registered k)
          (record (registered k) { classes = (registered k).classes + 1 })
          (registered r.1)
      → Outcome major old (init_class sys major r)
  unfolding init_class
  class_Outcome old major k h (none, k') a =
      device_Outcome old major k' (rw (a, h)) (sys.device_create major k')
        (w.device_create_lem major k')
  class_Outcome old major k h (some e, k') (a, neg) = rw neg (unregistered old major k' (a ∙ h))

  register_Outcome :
      (old : Registered) (major : ℤ) (k : R) (b : Bool)
      → ltb_ℤ major (pos 0) ≡ b
      → registered k ≡ (if b then old else record old { chrdevs = major ∷ old.chrdevs })
      → Outcome major old (if b then (major, k) else init_class sys major (sys.class_create k))
  register_Outcome old major k true neg h = h ∙ rw neg
  register_Outcome old major k false neg h =
      class_Outcome old major k h (sys.class_create k) (w.class_create_lem k)

  -- `drv_init` returns 0 or more with a number, a class and a device of this number added to what is registered, or
  -- a negative number with all that it has registered dropped again.
  pub drv_init_lem :
      (k : R)
      → let (r, k') = drv_init sys k in
        let (major, _) = sys.register_chrdev k in
        registered k' ≡ (if ltb_ℤ r (pos 0) then registered k else all_added major (registered k))
  unfolding drv_init
  drv_init_lem k =
      let (major, k') = sys.register_chrdev k in
      register_Outcome (registered k) major k' (ltb_ℤ major (pos 0)) refl (w.register_lem k)
