-- ===== src/Driver/Virtio/Init.antt =====
-- `virtio_disk_init` of driver/virtio_disk.c: the values that it writes to the registers of the device.
-- What the device shows in a register is a parameter, as is the address of the descriptor table.
use riscv_os_lab.Prelude.{
  ℕ, ◌-◌, ◌/◌, ◌^◌, ◌<◌, ◌≡◌, refl, ◌⊎◌, inl, inr, Bool, true, false, ◌&&◌, not, List, [], ◌∷◌, ltb,
  ◌==◌, if◌then◌else◌, lt→ltb, Bool-cases,
}
use Prim.Native.Nat.{bit_and, bit_or}
use riscv_os_lab.Prelude.{for_each}
use riscv_os_lab.Prelude.Runs.{Reason, panic, Cmd, ◌>>◌, modify, halt}
use riscv_os_lab.Driver.Virtio.{num}

-- the registers in use, by their offset
abbrev pub magic_value : ℕ
magic_value = 0x000

abbrev pub version : ℕ
version = 0x004

abbrev pub device_id : ℕ
device_id = 0x008

abbrev pub vendor_id : ℕ
vendor_id = 0x00c

abbrev pub device_features : ℕ
device_features = 0x010

abbrev pub driver_features : ℕ
driver_features = 0x020

abbrev pub guest_page_size : ℕ
guest_page_size = 0x028

abbrev pub queue_sel : ℕ
queue_sel = 0x030

abbrev pub queue_num_max : ℕ
queue_num_max = 0x034

abbrev pub queue_num : ℕ
queue_num = 0x038

abbrev pub queue_align : ℕ
queue_align = 0x03c

abbrev pub queue_pfn : ℕ
queue_pfn = 0x040

abbrev pub status : ℕ
status = 0x070

-- What the initialisation changes: `disk.free`, and the writes to registers, the last one first.
pub record Setup : Type 0 where
  pub free : ℕ → Bool
  pub written : List (ℕ × ℕ)

-- *R(r) = v
abbrev pub write_register : ℕ → ℕ → Cmd Setup (Unit {0})
write_register r v = modify (λ s. record s { written = (r, v) ∷ s.written })

-- features & ~(1 << bit)
abbrev pub without : ℕ → ℕ → ℕ
without features bit = bit_and features (2 ^ 64 - 1 - 2 ^ bit)

-- RO, SCSI, CONFIG_WCE, MQ, ANY_LAYOUT, EVENT_IDX and INDIRECT_DESC
abbrev pub accepted : ℕ → ℕ
accepted features =
    without (without (without (without (without (without (without features 5) 7) 11) 12) 27) 29) 28

-- the test of the first four registers
abbrev pub is_block_device : (ℕ → ℕ) → Bool
is_block_device read =
    (read magic_value == 0x7472_6976)
    && (read version == 1)
    && (read device_id == 2)
    && (read vendor_id == 0x554d_4551)

unfoldable pub virtio_disk_init : (read : ℕ → ℕ) → (desc_table : ℕ) → Cmd Setup (Unit {0})
virtio_disk_init read desc_table =
    if not (is_block_device read) then halt Reason.virtio_disk_init_failed else do
      write_register status 0
      write_register status 1
      write_register status (bit_or 1 2)
      write_register driver_features (accepted (read device_features))
      write_register status (bit_or (bit_or 1 2) 8)
      write_register guest_page_size 4096
      write_register queue_sel 0
      if read queue_num_max == 0
          then halt Reason.virtio_disk_no_queue
          else if ltb (read queue_num_max) num
          then halt Reason.virtio_disk_queue_too_short
          else do
            write_register queue_num num
            write_register queue_align 4096
            write_register queue_pfn (desc_table / 2 ^ 12)
            modify (λ s. record s { free = for_each num 0 (λ _ _. true) s.free })
            write_register status (bit_or (bit_or (bit_or 1 2) 8) 4)

-- the values written to register `r`, the last one first
abbrev pub values_of : ℕ → List (ℕ × ℕ) → List ℕ
values_of r [] = []
values_of r ((q, v) ∷ writes) = if q == r then v ∷ values_of r writes else values_of r writes

-- What a successful initialisation leaves: the device went through reset, ACKNOWLEDGE, DRIVER,
-- FEATURES_OK and DRIVER_OK in this order, it has a queue of `num` entries at the table, and every
-- descriptor is free.
pub record Ready (read : ℕ → ℕ) (desc_table : ℕ) (s : Setup) : Type 0 where
  pub handshake : values_of status s.written ≡ 15 ∷ 11 ∷ 3 ∷ 1 ∷ 0 ∷ []
  pub features : values_of driver_features s.written ≡ accepted (read device_features) ∷ []
  pub table : values_of queue_pfn s.written ≡ desc_table / 2 ^ 12 ∷ []
  pub entries : values_of queue_num s.written ≡ num ∷ []
  pub all_free : (i : ℕ) → i < num → s.free i ≡ true

-- `virtio_disk_init` panics where the device is no block device, or its queue has fewer than `num`
-- entries.
pub virtio_disk_init-panic :
    (read : ℕ → ℕ) (desc_table : ℕ) (s : Setup)
    → (is_block_device read ≡ false) ⊎ (read queue_num_max < num)
    → (r : Reason) × (virtio_disk_init read desc_table s ≡ panic r)
unfolding virtio_disk_init
virtio_disk_init-panic read desc_table s (inl other) = rw other (_, refl)
virtio_disk_init-panic read desc_table s (inr short) = elim (Bool-cases (is_block_device read)) [
  | inr other ↦ rw other (_, refl)
  | inl block ↦ elim (Bool-cases (read queue_num_max == 0)) [
    | inl none_at_all ↦ rw (block, none_at_all) (_, refl)
    | inr some_queue ↦
        let t : ltb (read queue_num_max) num ≡ true = lt→ltb (read queue_num_max) num short in
        rw (block, some_queue, t) (_, refl)
  ]
]
