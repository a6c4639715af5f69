-- ===== src/Ioapic/Tests.antt =====
-- The keyboard's interrupt on one chip.
use sonna_os.Prelude.{◌≡◌, refl, false, [], ◌∷◌, arith}
use sonna_os.Ioapic.{
  Ioapic, ioapic_for_gsi, ioapic_set_irq, low_value, ioapic_mask_irq, ioapic_unmask_irq,
}
use sonna_os.Ioapic.Pin.{first_serving, ioapic_for_gsi-first_serving}

abbrev chip : Ioapic
chip = record { ioapic_id = 0; gsi_base = 0; mmio_base_va = 4096; max_redirection = 23 }

keyboard_writes :
    ioapic_set_irq (chip ∷ []) 1 0x21 false false 0 0
    ≡ record { reg = 18; value = 0x10021 }
      ∷ record { reg = 19; value = 0 }
      ∷ record { reg = 18; value = 0x21 }
      ∷ []
unfolding ioapic_set_irq ioapic_for_gsi low_value
keyboard_writes = refl

ioapic_for_gsi-first_serving_example : ioapic_for_gsi (chip ∷ []) 1 ≡ first_serving (chip ∷ []) 1
ioapic_for_gsi-first_serving_example = ioapic_for_gsi-first_serving (chip ∷ []) 1 (omega arith, tt)

keyboard_masks :
    ioapic_mask_irq (λ io reg. 0x21) (chip ∷ []) 1 ≡ record { reg = 18; value = 0x10021 } ∷ []
unfolding ioapic_mask_irq ioapic_for_gsi
keyboard_masks = refl

keyboard_unmasks :
    ioapic_unmask_irq (λ io reg. 0x10021) (chip ∷ []) 1 ≡ record { reg = 18; value = 0x21 } ∷ []
unfolding ioapic_unmask_irq ioapic_for_gsi
keyboard_unmasks = refl
