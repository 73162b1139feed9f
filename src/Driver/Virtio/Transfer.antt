-- ===== src/Driver/Virtio/Transfer.antt =====
-- A whole transfer of `virtio_disk_rw`, and the driver as the disk driver of the block cache.
use riscv_os_lab.Prelude.{
  ℕ, ◌+◌, ◌%◌, ◌^◌, ◌<◌, ◌≡◌, refl, ap, ◌∙◌, ◌≢◌, inl, inr, Bool, true, false, arith, ◌==◌,
  if◌then◌else◌, ==_refl, ==-false, ℕ-cases, update,
}
use riscv_os_lab.Prelude.Runs
use riscv_os_lab.Prelude.Runs.{
  Reason, Run, ok, panic, out_of_fuel, Cmd, ◌>>=◌, ◌>>◌, pure, get, modify, in_part, Returns,
  returns,
}
use riscv_os_lab.Fs.Bio.{Block, BlockDriver}
use riscv_os_lab.Driver.Virtio.{num, Virtio, free_chain, fill, submit}
use riscv_os_lab.Driver.Virtio.Device.{
  served, Device, IoState, on_memory, busy_wait, virtio_disk_rw,
}
use riscv_os_lab.Driver.Virtio.Rw.{
  Idle, alloc_first, alloc_second, alloc_third, submitted, submitted-Pending, finished, IsChain,
  freed, free_chain-three, Waits, busy_wait_lem,
}

module _ ⦃device : Device⦄ where
  -- what `virtio_disk_rw` does for buffer `b` and block `n`
  pub record Transfer (write : Bool) (b n : ℕ) (s s' : IoState) : Type 0 where
    pub idle : Idle (device.seen s'.media) s'.memory
    pub data_moved :
        s'.memory.data_of b ≡ (if write then s.memory.data_of b else device.block s.media n)
    pub other_data : (j : ℕ) → j ≢ b → s'.memory.data_of j ≡ s.memory.data_of j
    pub not_busy : s'.memory.busy b ≡ false
    pub block_moved :
        device.block s'.media n ≡ (if write then s.memory.data_of b else device.block s.media n)
    pub other_blocks : (j : ℕ) → j ≢ n → device.block s'.media j ≡ device.block s.media j

  submitted-Waits :
      (write : Bool) (b n : ℕ) (s : IoState)
      → Idle (device.seen s.media) s.memory
      → Waits write b n (submitted write b n s.memory) (device.notify s.media)
  unfolding submit fill
  submitted-Waits write b n s idle = record {
    pending =
        rw ((device.notify_lem s.media).0)
          (submitted-Pending write b n (device.seen s.media) s.memory idle);
    busy = rw (==_refl b) refl;
    info = refl;
    done_all = idle.done_all;
    used_fits = idle.used_fits;
  }

  start-ok :
      (fuel : ℕ) (write : Bool) (b n : ℕ) (s : IoState)
      → Idle (device.seen s.media) s.memory
      → virtio_disk_rw fuel write b n s
        ≡ (busy_wait fuel b >> on_memory (free_chain num 0))
            (record { memory = submitted write b n s.memory; media = device.notify s.media })
  unfolding virtio_disk_rw
  start-ok fuel write b n s idle =
      let v0 = s.memory in
      let v1 = record v0 { free = update v0.free 0 false } in
      let v2 = record v1 { free = update v1.free 1 false } in
      rw
        (
          alloc_first v0 (idle.all_free 0 (omega arith)),
          alloc_second v1 refl (idle.all_free 1 (omega arith)),
          alloc_third v2 refl refl (idle.all_free 2 (omega arith)),
        )
        refl

  submitted-IsChain :
      (write : Bool) (b n : ℕ) (x : Block) (v : Virtio)
      → IsChain (finished b (served write b 0 x (submitted write b n v)))
  unfolding submit fill
  submitted-IsChain true b n x v = record {
    first_flags = refl;
    first_next = refl;
    second_flags = refl;
    second_next = refl;
    third_flags = refl;
  }
  submitted-IsChain false b n x v = record {
    first_flags = refl;
    first_next = refl;
    second_flags = refl;
    second_next = refl;
    third_flags = refl;
  }

  -- the memory at the end
  abbrev pub after : Bool → (b n : ℕ) → Block → Virtio → Virtio
  after write b n x v = freed (finished b (served write b 0 x (submitted write b n v)))

  after-Idle :
      (write : Bool) (b n seen : ℕ) (x : Block) (v : Virtio)
      → Idle seen v
      → Idle ((seen + 1) % 2 ^ 16) (after write b n x v)
  unfolding submit fill
  after-Idle write b n seen x v idle = record {
    all_free = λ i lt. ground (arith, idle.all_free i lt);
    seen_all = rw idle.seen_all refl;
    done_all = rw idle.done_all refl;
    avail_fits = omega arith;
    used_fits = omega arith;
  }

  after-data :
      (write : Bool) (b n j : ℕ) (x : Block) (v : Virtio)
      → (after write b n x v).data_of j
        ≡ (if write then v.data_of j else if j == b then x else v.data_of j)
  unfolding submit fill
  after-data true b n j x v = refl
  after-data false b n j x v = refl

  after-own_data :
      (write : Bool) (b n : ℕ) (x : Block) (v : Virtio)
      → (after write b n x v).data_of b ≡ (if write then v.data_of b else x)
  after-own_data true b n x v = after-data true b n b x v
  after-own_data false b n x v = after-data false b n b x v ∙ rw (==_refl b) refl

  after-other_data :
      (write : Bool) (b n j : ℕ) (x : Block) (v : Virtio)
      → j ≢ b
      → (after write b n x v).data_of j ≡ v.data_of j
  after-other_data true b n j x v ne = after-data true b n j x v
  after-other_data false b n j x v ne = after-data false b n j x v ∙ rw (==-false j b ne) refl

  after-busy :
      (write : Bool) (b n : ℕ) (x : Block) (v : Virtio) → (after write b n x v).busy b ≡ false
  unfolding submit fill
  after-busy write b n x v = rw (==_refl b) refl

  submitted-data :
      (write : Bool) (b n : ℕ) (v : Virtio) → (submitted write b n v).data_of b ≡ v.data_of b
  unfolding submit fill
  submitted-data write b n v = refl

  -- An idle driver moves one block between the buffer and the disk and is idle again: with more rounds
  -- of the busy wait than the device needs, `virtio_disk_rw` returns, the data of the buffer is what the
  -- disk holds for a read and the disk holds it for a write, and no other block or buffer changes.
  pub virtio_disk_rw_lem :
      (fuel : ℕ) (write : Bool) (b n : ℕ) (s : IoState)
      → Idle (device.seen s.media) s.memory
      → device.delay (device.notify s.media) + 1 < fuel
      → Returns (λ _. Transfer write b n s) (virtio_disk_rw fuel write b n s)
  virtio_disk_rw_lem fuel write b n s idle lt = rw (start-ok fuel write b n s idle) (
      Runs.bind
        (busy_wait_lem fuel write b n (submitted write b n s.memory) (device.notify s.media)
          (submitted-Waits write b n s idle) lt)
        λ _ s1 w.
          let x = device.block (device.notify s.media) n in
          let same_x : x ≡ device.block s.media n = (device.notify_lem s.media).1 n in
          rw
            (
              w.memory,
              free_chain-three (finished b (served write b 0 x (submitted write b n s.memory)))
                  (submitted-IsChain write b n x s.memory),
            )
            (returns (record {
              idle =
                  rw (w.seen, (device.notify_lem s.media).0)
                    (after-Idle write b n (device.seen s.media) x s.memory idle);
              data_moved =
                  after-own_data write b n x s.memory
                  ∙ ap (λ d. if write then s.memory.data_of b else d) same_x;
              other_data = λ j ne. after-other_data write b n j x s.memory ne;
              not_busy = after-busy write b n x s.memory;
              block_moved =
                  w.block
                  ∙ ap (λ d. if write then d else x) (submitted-data write b n s.memory)
                  ∙ ap (λ d. if write then s.memory.data_of b else d) same_x;
              other_blocks = λ j ne. w.others j ne ∙ (device.notify_lem s.media).1 j;
            })))

  -- `virtio_disk_rw` as the block cache calls it: the data of the buffer goes in and comes out. The
  -- device is given the rounds that it needs.
  unfoldable pub move_block : Bool → ℕ → Block → Cmd IoState Block
  move_block write n x s0 =
      let s = record s0 {
        memory = record (s0.memory) { data_of = update s0.memory.data_of 0 x };
      } in
      (virtio_disk_rw (device.delay (device.notify s.media) + 2) write 0 n
          >> (λ t. ok (t.memory.data_of 0) t))
        s

  moved :
      (write : Bool) (n : ℕ) (x : Block) (s : IoState)
      → Idle (device.seen s.media) s.memory
      → (s' : IoState) × (move_block write n x s
          ≡ ok (if write then x else device.block s.media n) s')
        × Idle (device.seen s'.media) s'.memory
        × (device.block s'.media n ≡ (if write then x else device.block s.media n))
        × ((j : ℕ) → j ≢ n → device.block s'.media j ≡ device.block s.media j)
  unfolding move_block
  moved write n x s0 idle =
      let s = record s0 {
        memory = record (s0.memory) { data_of = update s0.memory.data_of 0 x };
      } in
      let idle' : Idle (device.seen s.media) s.memory = record {
        all_free = idle.all_free;
        seen_all = idle.seen_all;
        done_all = idle.done_all;
        avail_fits = idle.avail_fits;
        used_fits = idle.used_fits;
      } in
      let (u, s', e, t) = Runs.Returns-result _ (
        virtio_disk_rw_lem (device.delay (device.notify s.media) + 2) write 0 n s idle'
          (omega arith)) in
      (s', rw e (ap (λ d. ok d s') t.data_moved), t.idle, t.block_moved, t.other_blocks)

  -- The driver with its device meets what the block cache relies on, from every state in which the driver
  -- is idle.
  pub virtio_driver : BlockDriver
  virtio_driver = record {
    Disk = IoState;
    IsReady = λ s. Idle (device.seen s.media) s.memory;
    block = λ s n. device.block s.media n;
    virtio_disk_rw = move_block;
    read_lem = λ s n old idle.
        let (s', e, idle', same, others) = moved false n old s idle in
        (s', e, idle', λ m. elim (ℕ-cases m n) [ inl at ↦ rw at same | inr off ↦ others m off ]);
    write_lem = λ s n x idle. moved true n x s idle;
  }
