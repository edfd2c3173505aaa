-- ===== src/SerialDump/Tests.antt =====
-- The constants of Linux.
use cpp_tricks.Prelude.{ℕ, ◌<◌, ◌^◌, ◌≡◌, refl, Bool, true, false, ◌||◌, List, [], ◌∷◌, none, some}
use mathlib.Core.Option
use cpp_tricks.Prelude.Bits.{bit}
use cpp_tricks.Prelude.Text.{Text, codes, decimal, read_decimal, read_decimal-decimal}
use cpp_tricks.SerialDump.{Termios, Settings, defaults, parse_args, print_bytes}
use cpp_tricks.SerialDump.Options.{baud_rate, seven, even, render_all, apply_all, parse-render}
use cpp_tricks.SerialDump.Flags.{flags_lem}

abbrev linux : Termios (Bool × Bool × ℕ)
linux = record {
  cread = bit 0x80;
  clocal = bit 0x800;
  cs5 = bit 0;
  cs6 = bit 0x10;
  cs7 = bit 0x20;
  cs8 = bit 0x30;
  cstopb = bit 0x40;
  inpck = bit 0x10;
  parodd = bit 0x200;
  parenb = bit 0x100;
  speed = λ n. n;
  set_speeds = λ c i n. some (c 4, c 8, n);
  strtoul = λ s. (read_decimal 0 s, false);
}

reads : (n : ℕ) → n < 2 ^ 32 → linux.strtoul (decimal n) ≡ (n, false)
reads n h = rw (read_decimal-decimal n)

abbrev settings : Settings
settings = apply_all linux (baud_rate 9600 ∷ seven ∷ even ∷ []) (defaults linux false)

parse-render_example :
    parse_args linux
      (codes "app" ∷ codes "/dev/ttyS0" ∷ render_all (baud_rate 9600 ∷ seven ∷ even ∷ []))
      false
    ≡ some (settings, (true, false, 9600))
unfolding defaults bit
parse-render_example =
    parse-render linux (codes "app") (codes "/dev/ttyS0") (baud_rate 9600) (seven ∷ even ∷ [])
      (true, false, 9600) reads (refl, (tt, (tt, tt))) refl

abbrev argv : List Text
argv = codes "app" ∷ codes "/dev/ttyS0" ∷ codes "-7" ∷ []

abbrev seven_bits : Settings
seven_bits = apply_all linux (seven ∷ []) (defaults linux false)

accepted : parse_args linux argv false ≡ some (seven_bits, (true, false, 115200))
unfolding parse_args defaults bit
accepted = refl

flags_lem_example :
    (bit 0x30 4 ≡ true → bit 0x40 4 ≡ false → seven_bits.c_cflag 4 ≡ true)
    × (bit 0x100 4 ≡ true
        → (bit 0x80 4
            || bit 0x800 4
            || bit 0 4
            || bit 0x10 4
            || bit 0x20 4
            || bit 0x30 4
            || bit 0x40 4)
          ≡ false
        → seven_bits.c_cflag 4 ≡ false)
flags_lem_example = flags_lem linux 4 argv false seven_bits (true, false, 115200) accepted

-- A number that is cut to an `int` is 9600.
large_rate :
    Option.map
      (λ r. r.1)
      (parse_args linux
        (codes "app" ∷ codes "/dev/ttyS0" ∷ codes "-b" ∷ codes "4294976896" ∷ [])
        false)
    ≡ some (true, false, 9600)
unfolding parse_args defaults bit read_decimal
large_rate = refl

-- A device alone is not enough, and an `errno` of before is taken for one of `strtoul`.
refused :
    (parse_args linux (codes "app" ∷ codes "/dev/ttyS0" ∷ []) false ≡ none)
    × (parse_args linux (codes "app" ∷ codes "/dev/ttyS0" ∷ codes "-s" ∷ codes "1" ∷ []) true
        ≡ none)
unfolding parse_args defaults read_decimal
refused = (refl, refl)

-- Two outputs that are the same, and that of a byte from 128 on.
same_output : print_bytes (0x01 ∷ 0x23 ∷ []) ≡ print_bytes (0x12 ∷ 0x03 ∷ [])
unfolding print_bytes
same_output = refl

negative_byte : print_bytes (0xAB ∷ []) ≡ codes "FFFFFFAB"
unfolding print_bytes
negative_byte = refl
