-- ===== src/Led/Registration/Tests.antt =====
-- A kernel that keeps what is registered, and has no room for a device or has.
use cpp_tricks.Prelude.{◌+◌, ◌-◌, ◌≡◌, refl, [], ◌∷◌, Option, none, some, if◌then◌else◌}
use cpp_tricks.Prelude.Int.{ℤ, pos, negsuc, ltb_ℤ}
use cpp_tricks.Led.Registration.{
  Registry, drv_init, drv_exit, Registered, without_number, IsRegistry, drv_init_lem,
}

-- A second class belongs to another driver.
abbrev before : Registered
before = record { chrdevs = []; classes = 1; devices = [] }

abbrev counting : Option ℤ → Registry Registered
counting full = record {
  register_chrdev = λ k. (pos 240, record k { chrdevs = pos 240 ∷ k.chrdevs });
  unregister_chrdev = λ m k. record k { chrdevs = without_number m k.chrdevs };
  class_create = λ k. (none, record k { classes = k.classes + 1 });
  class_unregister = λ k. record k { classes = k.classes - 1 };
  class_destroy = λ k. record k { classes = k.classes - 1 };
  device_create =
      λ m k. (full, elim full [ none ↦ record k { devices = m ∷ k.devices } | some e ↦ k ]);
  device_destroy = λ m k. record k { devices = without_number m k.devices };
  mutex_init = λ k. k;
  mutex_destroy = λ k. k;
}

counts : IsRegistry (counting (some (negsuc 11)))
counts = record {
  registered = λ k. k;
  register_lem = λ k. refl;
  unregister_lem = λ m k. refl;
  class_create_lem = λ k. refl;
  class_destroy_lem = λ k h. refl;
  device_create_lem = λ m k. (refl, refl);
  mutex_init_lem = λ k. refl;
}

drv_init_lem_example :
    let (r, k') = drv_init (counting (some (negsuc 11))) before in
    counts.registered k' ≡ (
      if ltb_ℤ r (pos 0)
      then before
      else record { chrdevs = pos 240 ∷ []; classes = 2; devices = pos 240 ∷ [] })
unfolding counts
drv_init_lem_example = drv_init_lem (counting (some (negsuc 11))) counts before

-- Unloading drops the class twice.
exit_twice :
    drv_exit (counting none) (pos 240) (drv_init (counting none) before).1
    ≡ record before { classes = 0 }
unfolding drv_init drv_exit
exit_twice = refl
