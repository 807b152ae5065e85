-- ===== src/Tests/Random.antt =====
-- Tests of the generator, from the start of the kernel.
use cau_assignments.Base.{◌+◌, ◌≡◌, refl, false}
use cau_assignments.Random.Ops.{Generator, random_init, random_bytes}
use cau_assignments.Random.Shuffled.{Shuffled, Filled, Called, random_bytes-Shuffled}
use cau_assignments.Random.Stream.{random_bytes-random_bytes}

abbrev at_boot : Generator
at_boot = record { s = λ i. 0; s_i = 0; s_j = 0; inited = false; bytes = λ p. 0 }

-- Four bytes at the address 8, after a seed and two bytes that were drawn before.
random_bytes-Shuffled_example :
    Shuffled (random_bytes 8 4 (random_bytes 0 2 (random_init 42 at_boot)))
    × Filled 8 4
        (random_bytes 0 2 (random_init 42 at_boot))
        (random_bytes 8 4 (random_bytes 0 2 (random_init 42 at_boot)))
random_bytes-Shuffled_example =
    random_bytes-Shuffled 8 4 (random_bytes 0 2 (random_init 42 at_boot)) (
      Called.drawn 0 2 (random_init 42 at_boot)
        (Called.seeded 42 at_boot (Called.boot at_boot refl)))

random_bytes-random_bytes_example :
    random_bytes (8 + 2) 3 (random_bytes 8 2 at_boot) ≡ random_bytes 8 (2 + 3) at_boot
random_bytes-random_bytes_example = random_bytes-random_bytes 8 2 3 at_boot
