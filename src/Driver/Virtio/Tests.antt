-- ===== src/Driver/Virtio/Tests.antt =====
-- The driver of driver/virtio_disk.c with a device that keeps its blocks in memory and is at work for
-- three polls on each request.
use riscv_os_lab.Prelude.{
  ℕ, zero, suc, ◌+◌, ◌*◌, ◌/◌, ◌%◌, ◌^◌, ◌≡◌, refl, ◌≢◌, Bool, true, false, arith, ◌==◌,
  if◌then◌else◌, ==_refl, ==-false, update,
}
use riscv_os_lab.Prelude.Runs.{Returns}
use riscv_os_lab.Fs.Bio.{Block}
use riscv_os_lab.Driver.Virtio.{num, Address, data_at, nowhere, Virtio}
use riscv_os_lab.Driver.Virtio.Device.{Pending, served, Device, Io, virtio_disk_rw}
use riscv_os_lab.Driver.Virtio.Rw.{Idle}
use riscv_os_lab.Driver.Virtio.Transfer.{Transfer, virtio_disk_rw_lem}

abbrev buffer_of : Address → ℕ
buffer_of (data_at b) = b
buffer_of _ = 0

record Media : Type 0 where
  blocks : ℕ → Block
  seen : ℕ
  left : ℕ

-- the parts of the request that the device sees next
abbrev head_of : Virtio → Media → ℕ
head_of v m = v.avail_ring (m.seen % num)

abbrev buffer_at : Virtio → Media → ℕ
buffer_at v m = buffer_of (v.desc (v.desc (head_of v m)).next).addr

abbrev block_at : Virtio → Media → ℕ
block_at v m = (v.ops (head_of v m)).sector / 2

abbrev poll_done : Bool → Virtio → Media → Virtio × Media
poll_done write v m = (
  served write (buffer_at v m) (head_of v m) (m.blocks (block_at v m)) v,
  record m {
    seen = (m.seen + 1) % 2 ^ 16;
    blocks = if write then update m.blocks (block_at v m) (v.data_of (buffer_at v m)) else m.blocks;
  },
)

abbrev poll_from : ℕ → Virtio → Media → Virtio × Media
poll_from zero v m = poll_done ((v.ops (head_of v m)).kind == 1) v m
poll_from (suc k) v m = (v, record m { left = k })

done :
    (v : Virtio) (m : Media) (write : Bool) (b n h i1 i2 : ℕ)
    → Pending m.seen write b n h i1 i2 v
    → (m' : Media) × (poll_done ((v.ops (head_of v m)).kind == 1) v m
        ≡ (served write b h (m.blocks n) v, m'))
      × (m'.seen ≡ (m.seen + 1) % 2 ^ 16)
      × (m'.blocks n ≡ (if write then v.data_of b else m.blocks n))
      × ((j : ℕ) → j ≢ n → m'.blocks j ≡ m.blocks j)
done v m true b n h i1 i2 p =
    let half : n * 2 / 2 ≡ n = omega arith in
    rw (p.head, p.header, p.request, p.body, half)
      (_, refl, refl, rw (==_refl n) refl, λ j ne. rw (==-false j n ne) refl)
done v m false b n h i1 i2 p =
    let half : n * 2 / 2 ≡ n = omega arith in
    rw (p.head, p.header, p.request, p.body, half) (_, refl, refl, refl, λ j ne. refl)

done_from :
    (l : ℕ) (v : Virtio) (m : Media) (write : Bool) (b n h i1 i2 : ℕ)
    → l ≡ 0
    → Pending m.seen write b n h i1 i2 v
    → (m' : Media) × (poll_from l v m ≡ (served write b h (m.blocks n) v, m'))
      × (m'.seen ≡ (m.seen + 1) % 2 ^ 16)
      × (m'.blocks n ≡ (if write then v.data_of b else m.blocks n))
      × ((j : ℕ) → j ≢ n → m'.blocks j ≡ m.blocks j)
done_from zero v m write b n h i1 i2 e p = done v m write b n h i1 i2 p
done_from (suc l) v m write b n h i1 i2 e p = absurd (omega arith)

abbrev memory_device : Device
memory_device = record {
  Media = Media;
  block = λ m. m.blocks;
  seen = λ m. m.seen;
  delay = λ m. m.left;
  notify = λ m. record m { left = 3 };
  poll = λ v m. poll_from m.left v m;
  notify_lem = λ m. (refl, λ j. refl);
  busy_lem =
      λ v m write b n h i1 i2 k p e. rw e (record m { left = k }, refl, refl, refl, λ j. refl);
  done_lem = λ v m write b n h i1 i2 p e. done_from m.left v m write b n h i1 i2 e p;
}

-- a driver after 65535 requests
abbrev wrapped : Io Media
wrapped = record {
  memory = record {
    desc = λ _. record { addr = nowhere; len = 0; flags = 0; next = 0 };
    avail_idx = 65535;
    avail_ring = λ _. 0;
    used_next = 65535;
    used_ring = λ _. 0;
    free = λ _. true;
    used_idx = 65535;
    info_b = λ _. 0;
    info_status = λ _. 0;
    ops = λ _. record { kind = 0; sector = 0 };
    busy = λ _. false;
    data_of = λ _ _. 7;
  };
  media = record { blocks = λ n _. n; seen = 65535; left = 0 };
}

wrapped-Idle : Idle 65535 wrapped.memory
wrapped-Idle = record {
  all_free = λ i lt. refl;
  seen_all = refl;
  done_all = refl;
  avail_fits = omega arith;
  used_fits = omega arith;
}

virtio_disk_rw_lem_example :
    Returns
      (λ _. Transfer ⦃device = memory_device⦄ false 2 40 wrapped)
      (virtio_disk_rw ⦃device = memory_device⦄ 9 false 2 40 wrapped)
virtio_disk_rw_lem_example =
    virtio_disk_rw_lem ⦃device = memory_device⦄ 9 false 2 40 wrapped wrapped-Idle (omega arith)

-- the registers of QEMU's device
abbrev registers : ℕ → ℕ
registers r =
    if r == 0
    then 0x7472_6976
    else if r == 4
    then 1
    else if r == 8
    then 2
    else if r == 12
    then 0x554d_4551
    else 1024

-- a device with a queue of 4 entries
abbrev short_queue : ℕ → ℕ
short_queue r = if r == 52 then 4 else registers r
