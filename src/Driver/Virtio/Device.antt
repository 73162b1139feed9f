-- ===== src/Driver/Virtio/Device.antt =====
-- The VirtIO block device as the driver of driver/virtio_disk.c relies on it, and the driver's
-- `virtio_disk_rw` with it. The device is hardware: what it does to the shared memory between two looks
-- of the driver is a parameter, with the laws that the VirtIO specification states for one request.
use riscv_os_lab.Prelude.{ℕ, zero, suc, ◌+◌, ◌*◌, ◌%◌, ◌^◌, ◌≡◌, ◌≢◌, Bool, if◌then◌else◌, update}
use riscv_os_lab.Prelude.Runs.{ok, out_of_fuel, Cmd, ◌>>=◌, ◌>>◌, modify, in_part}
use riscv_os_lab.Fs.Bio.{Block, bsize}
use riscv_os_lab.Driver.Virtio.{
  num, desc_next, desc_write, blk_in, blk_out, op_at, data_at, status_at, Virtio, alloc_desc,
  free_chain, fill, submit, take_used,
}

-- The available ring holds one request that the device, which has seen `seen` of them, has not: to read
-- block `n` into buffer `b` or to write it, with its three descriptors `h`, `i1` and `i2`.
pub record Pending (seen : ℕ) (write : Bool) (b n h i1 i2 : ℕ) (v : Virtio) : Type 0 where
  pub one_more : v.avail_idx ≡ (seen + 1) % 2 ^ 16
  pub head : v.avail_ring (seen % num) ≡ h
  pub header : v.desc h ≡ record { addr = op_at h; len = 16; flags = desc_next; next = i1 }
  pub request : v.ops h ≡ record { kind = if write then blk_out else blk_in; sector = n * 2 }
  pub body :
      v.desc i1
      ≡ record { addr = data_at b; len = bsize; flags = if write then 1 else 3; next = i2 }
  pub status : v.desc i2 ≡ record { addr = status_at h; len = 1; flags = desc_write; next = 0 }

-- the memory when the device has done the request, with `x` the data that it read
abbrev pub served : (write : Bool) (b h : ℕ) → Block → Virtio → Virtio
served write b h x v = record v {
  used_ring = update v.used_ring (v.used_next % num) h;
  used_next = (v.used_next + 1) % 2 ^ 16;
  info_status = update v.info_status h 0;
  data_of = if write then v.data_of else update v.data_of b x;
}

-- The device: what it stores, how many requests it has seen, and for how many polls it is still at
-- work. It does one pending request as a whole, sooner or later, and touches the disk only for a write.
pub record Device : Type 1 where
  pub Media : Type 0
  pub block : Media → ℕ → Block
  pub seen : Media → ℕ
  pub delay : Media → ℕ
  pub notify : Media → Media
  pub poll : Virtio → Media → Virtio × Media
  pub notify_lem :
      (m : Media) → (seen (notify m) ≡ seen m) × ((j : ℕ) → block (notify m) j ≡ block m j)
  pub busy_lem :
      (v : Virtio) (m : Media) (write : Bool) (b n h i1 i2 k : ℕ)
      → Pending (seen m) write b n h i1 i2 v
      → delay m ≡ suc k
      → (m' : Media) × (poll v m ≡ (v, m'))
        × (delay m' ≡ k)
        × (seen m' ≡ seen m)
        × ((j : ℕ) → block m' j ≡ block m j)
  pub done_lem :
      (v : Virtio) (m : Media) (write : Bool) (b n h i1 i2 : ℕ)
      → Pending (seen m) write b n h i1 i2 v
      → delay m ≡ 0
      → (m' : Media) × (poll v m ≡ (served write b h (block m n) v, m'))
        × (seen m' ≡ (seen m + 1) % 2 ^ 16)
        × (block m' n ≡ (if write then v.data_of b else block m n))
        × ((j : ℕ) → j ≢ n → block m' j ≡ block m j)

-- the driver's memory, and the device
pub record Io (M : Type 0) : Type 0 where
  pub memory : Virtio
  pub media : M

module _ ⦃device : Device⦄ where
  abbrev pub IoState : Type 0
  IoState = Io device.Media

  abbrev pub on_memory : {A : Type 0} → Cmd Virtio A → Cmd IoState A
  on_memory = in_part (λ s. s.memory) (λ v s. record s { memory = v })

  -- what the device does until the driver looks again
  abbrev pub device_runs : IoState → IoState
  device_runs s = let (v, m) = device.poll s.memory s.media in record { memory = v; media = m }

  -- while(b->disk == 1) …, with a poll of the device in each round
  unfoldable pub busy_wait : ℕ → ℕ → Cmd IoState (Unit {0})
  busy_wait zero b s = out_of_fuel
  busy_wait (suc n) b s =
      let rest = (on_memory (take_used (num + 1)) >> busy_wait n b) (device_runs s) in
      if s.memory.busy b then rest else ok tt s

  unfoldable pub virtio_disk_rw : ℕ → Bool → (b blockno : ℕ) → Cmd IoState (Unit {0})
  virtio_disk_rw fuel write b blockno = do
    i0 ← on_memory alloc_desc
    i1 ← on_memory alloc_desc
    i2 ← on_memory alloc_desc
    modify (λ s. record s { memory = submit i0 (fill write b blockno i0 i1 i2 s.memory) })
    modify (λ s. record s { media = device.notify s.media })
    busy_wait fuel b
    on_memory (free_chain num i0)
