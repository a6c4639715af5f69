-- ===== src/Lapic/Tests.antt =====
-- A controller with x2APIC.
use sonna_os.Prelude.{◌≡◌, refl, true, [], ◌∷◌}
use sonna_os.Lapic.{Lapic, msr, lapic_eoi, timer_writes}

abbrev controller : Lapic
controller = record { lapic_phys = 0xFEE00000; lapic_va = 0; x2apic_enabled = true }

end_of_interrupt : lapic_eoi controller ≡ (msr 0x80B, 0)
unfolding lapic_eoi
end_of_interrupt = refl

next_deadline :
    timer_writes (record { tsc_frequency_hz = 1000; tsc_ticks_per_10ms = 10 }) controller 7
    ≡ (msr 0x6E0, 17) ∷ (msr 0x80B, 0) ∷ []
unfolding timer_writes
next_deadline = refl
