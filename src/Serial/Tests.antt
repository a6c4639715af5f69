-- ===== src/Serial/Tests.antt =====
-- A newline on a line that is ready at every second reading.
use sonna_os.Prelude.{◌%◌, ◌*◌, ◌≡◌, refl, some, [], ◌∷◌, ◌==◌, if◌then◌else◌}
use sonna_os.Serial.{serial_puts, wait_ready}

newline :
    serial_puts 3 3
      (λ k. 0x20 * (k % 2))
      (λ p. if p == 5 then 10 else 0)
      (record { readings = 0; written = [] })
      5
    ≡ some (record {
      readings = 4;
      written = record { port = 0x3F8; val = 13 } ∷ record { port = 0x3F8; val = 10 } ∷ [];
    })
unfolding serial_puts wait_ready
newline = refl
