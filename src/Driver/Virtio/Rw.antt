-- ===== src/Driver/Virtio/Rw.antt =====
-- `virtio_disk_rw` of driver/virtio_disk.c from an idle driver to an idle driver.
use riscv_os_lab.Prelude.{
  ℕ, zero, suc, ◌+◌, ◌-◌, ◌%◌, ◌^◌, ◌<◌, ◌≡◌, refl, sym, ◌∙◌, ◌≢◌, inl, inr, Bool, true, false,
  arith, ◌==◌, if◌then◌else◌, ==_refl, ==-false, ℕ-cases, update, find_first,
}
use Prim.Native.Nat.{bit_and}
use riscv_os_lab.Prelude.Runs
use riscv_os_lab.Prelude.Runs.{
  Reason, Run, ok, panic, out_of_fuel, Cmd, ◌>>=◌, ◌>>◌, pure, get, modify, in_part, Returns,
  returns,
}
use riscv_os_lab.Fs.Bio.{Block}
use riscv_os_lab.Driver.Virtio.{
  num, desc_next, Virtio, alloc_desc, free_chain, fill, submit, take_used,
}
use riscv_os_lab.Driver.Virtio.Device.{
  Pending, served, Device, IoState, on_memory, device_runs, busy_wait,
}

-- No request is under way: every descriptor is free, and the device has seen and done all that the
-- driver submitted and the driver all that the device has done.
pub record Idle (seen : ℕ) (v : Virtio) : Type 0 where
  pub all_free : (i : ℕ) → i < num → v.free i ≡ true
  pub seen_all : v.avail_idx ≡ seen
  pub done_all : v.used_next ≡ v.used_idx
  pub avail_fits : v.avail_idx < 2 ^ 16
  pub used_fits : v.used_idx < 2 ^ 16

-- the memory when three descriptors are taken
abbrev pub taken : Virtio → Virtio
taken v = record v { free = update (update (update v.free 0 false) 1 false) 2 false }

pub alloc_first :
    (v : Virtio) → v.free 0 ≡ true → alloc_desc v ≡ ok 0 (record v { free = update v.free 0 false })
unfolding alloc_desc find_first
alloc_first v h = rw (alloc_desc, h) refl

pub alloc_second :
    (v : Virtio)
    → v.free 0 ≡ false
    → v.free 1 ≡ true
    → alloc_desc v ≡ ok 1 (record v { free = update v.free 1 false })
unfolding alloc_desc find_first
alloc_second v h0 h1 = rw (alloc_desc, h0, h1) refl

pub alloc_third :
    (v : Virtio)
    → v.free 0 ≡ false
    → v.free 1 ≡ false
    → v.free 2 ≡ true
    → alloc_desc v ≡ ok 2 (record v { free = update v.free 2 false })
unfolding alloc_desc find_first
alloc_third v h0 h1 h2 = rw (alloc_desc, h0, h1, h2) refl

-- the memory when the request is submitted
abbrev pub submitted : Bool → (b n : ℕ) → Virtio → Virtio
submitted write b n v = submit 0 (fill write b n 0 1 2 (taken v))

pub submitted-Pending :
    (write : Bool) (b n seen : ℕ) (v : Virtio)
    → Idle seen v
    → Pending seen write b n 0 1 2 (submitted write b n v)
unfolding submit fill
submitted-Pending true b n seen v idle = record {
  one_more = rw idle.seen_all refl;
  head = rw (idle.seen_all, ==_refl (seen % num)) refl;
  header = refl;
  request = refl;
  body = refl;
  status = refl;
}
submitted-Pending false b n seen v idle = record {
  one_more = rw idle.seen_all refl;
  head = rw (idle.seen_all, ==_refl (seen % num)) refl;
  header = refl;
  request = refl;
  body = refl;
  status = refl;
}

-- what the driver does with the one request that is done
abbrev pub finished : ℕ → Virtio → Virtio
finished b v = record v { busy = update v.busy b false; used_idx = (v.used_idx + 1) % 2 ^ 16 }

take_used-stop : (n : ℕ) (v : Virtio) → v.used_idx ≡ v.used_next → take_used (suc n) v ≡ ok tt v
unfolding take_used
take_used-stop n v e = let t : (v.used_idx == v.used_next) ≡ true = ground arith in rw t refl

take_used-next :
    (n id : ℕ) (v : Virtio)
    → v.used_idx ≢ v.used_next
    → v.used_ring (v.used_idx % num) ≡ id
    → v.info_status id ≡ 0
    → take_used (suc n) v ≡ take_used n (finished (v.info_b id) v)
unfolding take_used
take_used-next n id v ne ring status = rw (==-false v.used_idx v.used_next ne, ring, status) refl

take_used-one :
    (write : Bool) (b h : ℕ) (x : Block) (v : Virtio)
    → v.used_next ≡ v.used_idx
    → v.used_idx < 2 ^ 16
    → v.info_b h ≡ b
    → take_used (num + 1) (served write b h x v) ≡ ok tt (finished b (served write b h x v))
take_used-one write b h x v e fits info =
    take_used-next 8 h (served write b h x v) (λ same. omega arith)
      (rw (e, ==_refl (v.used_idx % num)) refl) (rw (==_refl h) refl)
    ∙ rw info (take_used-stop 7 (finished b (served write b h x v)) (omega arith))

-- the chain of a request, as `free_chain` reads it
pub record IsChain (v : Virtio) : Type 0 where
  pub first_flags : bit_and (v.desc 0).flags desc_next ≡ 1
  pub first_next : (v.desc 0).next ≡ 1
  pub second_flags : bit_and (v.desc 1).flags desc_next ≡ 1
  pub second_next : (v.desc 1).next ≡ 2
  pub third_flags : bit_and (v.desc 2).flags desc_next ≡ 0

-- the memory when the chain from descriptor 0 on is freed
abbrev pub freed : Virtio → Virtio
freed v = record v {
  desc =
      update
        (update (update v.desc 0 (record (v.desc 0) { flags = 0 })) 1
          (record (v.desc 1) { flags = 0 }))
        2 (record (v.desc 2) { flags = 0 });
  free = update (update (update v.free 0 true) 1 true) 2 true;
}

pub free_chain-three : (v : Virtio) → IsChain v → free_chain num 0 v ≡ ok tt (freed v)
unfolding free_chain
free_chain-three v c =
    rw (c.first_flags, c.first_next, c.second_flags, c.second_next, c.third_flags) refl

module _ ⦃device : Device⦄ where
  -- the state when the wait for a request ends
  pub record Waited (write : Bool) (b n : ℕ) (v : Virtio) (m : device.Media) (s : IoState)
      : Type 0 where
    pub memory : s.memory ≡ finished b (served write b 0 (device.block m n) v)
    pub seen : device.seen s.media ≡ (device.seen m + 1) % 2 ^ 16
    pub block : device.block s.media n ≡ (if write then v.data_of b else device.block m n)
    pub others : (j : ℕ) → j ≢ n → device.block s.media j ≡ device.block m j

  -- a request that waits in the ring, and a driver that has taken note of all others
  pub record Waits (write : Bool) (b n : ℕ) (v : Virtio) (m : device.Media) : Type 0 where
    pub pending : Pending (device.seen m) write b n 0 1 2 v
    pub busy : v.busy b ≡ true
    pub info : v.info_b 0 ≡ b
    pub done_all : v.used_next ≡ v.used_idx
    pub used_fits : v.used_idx < 2 ^ 16

  Waited-later :
      {write : Bool} {b n : ℕ} {v : Virtio} {m m' : device.Media} {s : IoState}
      → device.seen m' ≡ device.seen m
      → ((j : ℕ) → device.block m' j ≡ device.block m j)
      → Waited write b n v m' s
      → Waited write b n v m s
  Waited-later {n = n} same blocks w = record {
    memory = rw (← blocks n) w.memory;
    seen = rw (← same) w.seen;
    block = rw (← blocks n) w.block;
    others = λ j ne. w.others j ne ∙ blocks j;
  }

  busy_wait-round :
      (fuel b : ℕ) (s : IoState)
      → s.memory.busy b ≡ true
      → busy_wait (suc fuel) b s
        ≡ (on_memory (take_used (num + 1)) >> busy_wait fuel b) (device_runs s)
  unfolding busy_wait
  busy_wait-round fuel b s h = rw h refl

  busy_wait-stop :
      (fuel b : ℕ) (s : IoState) → s.memory.busy b ≡ false → busy_wait (suc fuel) b s ≡ ok tt s
  unfolding busy_wait
  busy_wait-stop fuel b s h = rw h refl

  pub busy_wait_lem :
      (fuel : ℕ) (write : Bool) (b n : ℕ) (v : Virtio) (m : device.Media)
      → Waits write b n v m
      → device.delay m + 1 < fuel
      → Returns (λ _. Waited write b n v m) (busy_wait fuel b (record { memory = v; media = m }))
  busy_wait_lem zero write b n v m w lt = absurd (omega arith)
  busy_wait_lem (suc zero) write b n v m w lt = absurd (omega arith)
  busy_wait_lem (suc (suc fuel)) write b n v m w lt = elim (ℕ-cases (device.delay m) 0) [
    | inl z ↦
        let (m', polled, seen, block, others) = device.done_lem v m write b n 0 1 2 w.pending z in
        rw
          (
            busy_wait-round (suc fuel) b (record { memory = v; media = m }) w.busy,
            polled,
            take_used-one write b 0 (device.block m n) v w.done_all w.used_fits w.info,
          )
          (rw
            (busy_wait-stop fuel b
              (record { memory = finished b (served write b 0 (device.block m n) v); media = m' })
              (rw (==_refl b) refl))
            (returns (record { memory = refl; seen = seen; block = block; others = others })))
    | inr nz ↦
        let k = device.delay m - 1 in
        let (m', polled, less, seen, blocks) =
          device.busy_lem v m write b n 0 1 2 k w.pending (omega arith) in
        rw
          (
            busy_wait-round (suc fuel) b (record { memory = v; media = m }) w.busy,
            polled,
            take_used-stop num v (sym w.done_all),
          )
          (Runs.mono
            (busy_wait_lem (suc fuel) write b n v m'
              (record {
                pending = rw seen w.pending;
                busy = w.busy;
                info = w.info;
                done_all = w.done_all;
                used_fits = w.used_fits;
              })
              (omega (arith, less)))
            λ _ s h. Waited-later seen blocks h)
  ]
