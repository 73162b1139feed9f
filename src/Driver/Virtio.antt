-- ===== src/Driver/Virtio.antt =====
-- driver/virtio_disk.c: the driver of the VirtIO block device. The memory that the driver shares with
-- the device is the record Virtio; a `struct buf *` is a number, and a descriptor's address says what
-- it points to. The device is the interface of Driver/Virtio/Device.
pub mod Device
pub mod Rw
mod Tests
pub mod Init
pub mod Transfer
use riscv_os_lab.Prelude.{
  ℕ, zero, suc, ◌+◌, ◌-◌, ◌*◌, ◌/◌, ◌%◌, ◌^◌, ◌≤◌, ◌<◌, min, ◌≡◌, refl, sym, ap, ◌∙◌, subst,
  fun_ext, ◌≢◌, ◌⊎◌, inl, inr, Bool, true, false, ◌&&◌, ◌||◌, not, Option, none, some, List, [],
  ◌∷◌, ◌++◌, map, arith, ltb, leb, ◌==◌, ◌!=◌, if◌then◌else◌, is_some, length, ==_refl, ==-false,
  ltb→lt, lt→ltb, Bool-cases, Option-cases, ℕ-cases, update, find_first, find_first-some,
  find_first-none, update_self, update_ne,
}
use Prim.Native.Nat.{bit_and, bit_or}
use riscv_os_lab.Prelude.Runs.{
  Reason, Run, ok, panic, out_of_fuel, Cmd, ◌>>=◌, ◌>>◌, pure, get, modify, halt,
}
use riscv_os_lab.Fs.Bio.{Block, bsize}

-- the descriptors of the queue
abbrev pub num : ℕ
num = 8

abbrev pub desc_next : ℕ
desc_next = 1

abbrev pub desc_write : ℕ
desc_write = 2

-- VIRTIO_BLK_T_IN and VIRTIO_BLK_T_OUT
abbrev pub blk_in : ℕ
blk_in = 0

abbrev pub blk_out : ℕ
blk_out = 1

-- &disk.ops[i], b->data, &disk.info[i].status, and the null of a descriptor that was never filled
pub data Address : Type 0 where
  op_at data_at status_at : ℕ → Address
  nowhere : Address

-- struct virtq_desc
pub record Desc : Type 0 where
  pub addr : Address
  pub len : ℕ
  pub flags : ℕ
  pub next : ℕ

-- struct virtio_blk_req, less `reserved`
pub record Request : Type 0 where
  pub kind : ℕ
  pub sector : ℕ

-- The driver's `disk`, with the rings, and the fields `disk` and `data` of the buffers: `used_next` is
-- the index in the used ring, which the device writes, and `used_idx` the driver's copy of it.
pub record Virtio : Type 0 where
  pub desc : ℕ → Desc
  pub avail_idx : ℕ
  pub avail_ring : ℕ → ℕ
  pub used_next : ℕ
  pub used_ring : ℕ → ℕ
  pub free : ℕ → Bool
  pub used_idx : ℕ
  pub info_b : ℕ → ℕ
  pub info_status : ℕ → ℕ
  pub ops : ℕ → Request
  pub busy : ℕ → Bool
  pub data_of : ℕ → Block

abbrev pub set_desc : ℕ → Desc → Virtio → Virtio
set_desc i d v = record v { desc = update v.desc i d }

-- The first free descriptor, taken.
unfoldable pub alloc_desc : Cmd Virtio ℕ
alloc_desc v = elim (find_first v.free num 0) [
  | none ↦ panic Reason.virtio_no_desc
  | some i ↦ ok i (record v { free = update v.free i false })
]

-- A round for each descriptor of a chain, which has at most `num`.
unfoldable pub free_chain : ℕ → ℕ → Cmd Virtio (Unit {0})
free_chain zero i v = out_of_fuel
free_chain (suc n) i v =
    let d = v.desc i in
    let v' = set_desc i (record d { flags = 0 }) (record v { free = update v.free i true }) in
    let rest = free_chain n d.next v' in if bit_and d.flags desc_next != 0 then rest else ok tt v'

-- The three descriptors of a request for buffer `b`: the request itself, the data and the status.
unfoldable pub fill : Bool → (b blockno i0 i1 i2 : ℕ) → Virtio → Virtio
fill write b blockno i0 i1 i2 v0 =
    let v1 = record v0 {
      ops =
          update v0.ops i0
            (record { kind = if write then blk_out else blk_in; sector = blockno * (bsize / 512) });
    } in
    let v2 = set_desc i0 (record { addr = op_at i0; len = 16; flags = desc_next; next = i1 }) v1 in
    let v3 =
      set_desc i1
        (record {
          addr = data_at b;
          len = bsize;
          flags = bit_or (if write then 0 else desc_write) desc_next;
          next = i2;
        })
        v2 in
    let v4 = record v3 { info_status = update v3.info_status i0 0xff } in
    let v5 =
      set_desc i2 (record { addr = status_at i0; len = 1; flags = desc_write; next = 0 }) v4 in
    record v5 { info_b = update v5.info_b i0 b; busy = update v5.busy b true }

-- the head of the chain goes to the available ring
unfoldable pub submit : ℕ → Virtio → Virtio
submit i0 v = record v {
  avail_ring = update v.avail_ring (v.avail_idx % num) i0;
  avail_idx = (v.avail_idx + 1) % 2 ^ 16;
}

-- The inner loop of the wait: the requests that the device has done since the driver looked last, of
-- which there are at most `num`.
unfoldable pub take_used : ℕ → Cmd Virtio (Unit {0})
take_used zero v = out_of_fuel
take_used (suc n) v =
    let id = v.used_ring (v.used_idx % num) in
    let v' = record v {
      busy = update v.busy (v.info_b id) false;
      used_idx = (v.used_idx + 1) % 2 ^ 16;
    } in
    let rest = take_used n v' in
    if v.used_idx == v.used_next
    then ok tt v
    else if v.info_status id != 0
    then panic Reason.virtio_disk_rw_status_error
    else rest
