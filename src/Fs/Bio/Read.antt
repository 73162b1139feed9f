-- ===== src/Fs/Bio/Read.antt =====
-- `bread` of fs/bio.c.
use riscv_os_lab.Prelude.{
  ℕ, ◌+◌, ◌%◌, ◌^◌, ◌≤◌, ◌<◌, ◌≡◌, refl, ◌≢◌, inl, inr, Bool, true, false, ◌||◌, Option, none, some,
  List, [], ◌∷◌, arith, is_some, length, ==_refl, Bool-cases,
}
use riscv_os_lab.Prelude.Lists.{first}
use riscv_os_lab.Prelude.Runs
use riscv_os_lab.Prelude.Runs.{
  Reason, Run, ok, panic, out_of_fuel, fault, Cmd, ◌>>=◌, ◌>>◌, and_then, put_back, pure, get,
  modify, halt, in_part, Returns, returns,
}
use riscv_os_lab.Fs.Bio.{Block, nbuf, BlockDriver, is_block, set_buf, bget, Cache, disk_rw, bread}
use riscv_os_lab.Fs.Bio.Ring.{Ring}
use riscv_os_lab.Fs.Bio.Lru.{Ring-frame, cached, evicted, hit_or, take_over, bget_lem}

first-passes : (test : ℕ → Bool) (b : ℕ) (xs : List ℕ) → first test xs ≡ some b → test b ≡ true
first-passes test b [] e = cc
first-passes test b (x ∷ xs) e = elim (Bool-cases (test x)) [
  | inl y ↦ let same : x ≡ b = ground (arith) in rw⁻¹ same y
  | inr z ↦ first-passes test b xs (rw z at e)
]

module _ ⦃driver : BlockDriver⦄ where
  -- `b` is a buffer for the block, which holds what the disk does if it is valid.
  record Held (dev blockno : ℕ) (xs : List ℕ) (disk : driver.Disk) (b : ℕ) (c : Cache)
      : Type 0 where
    ring : Ring c.nodes xs
    for_dev : (c.nodes b).dev ≡ dev
    for_block : (c.nodes b).blockno ≡ blockno
    counted : (c.nodes b).refcnt ≢ 0
    synced : (c.nodes b).valid ≡ true → (c.nodes b).data_of ≡ driver.block disk blockno
    same_disk : c.disk ≡ disk

  -- the result of `bread`
  pub record Loaded (dev blockno : ℕ) (xs : List ℕ) (disk : driver.Disk) (b : ℕ) (c : Cache)
      : Type 0 where
    pub ring : Ring c.nodes xs
    pub for_dev : (c.nodes b).dev ≡ dev
    pub for_block : (c.nodes b).blockno ≡ blockno
    pub counted : (c.nodes b).refcnt ≢ 0
    pub valid : (c.nodes b).valid ≡ true
    pub data_read : (c.nodes b).data_of ≡ driver.block disk blockno
    pub ready : driver.IsReady c.disk
    pub same_disk : (m : ℕ) → driver.block c.disk m ≡ driver.block disk m

  -- one more reference does not wrap around, and the copy in the cache is not stale
  abbrev pub InSync : ℕ → ℕ → List ℕ → Cache → Type 0
  InSync dev blockno xs c =
      (b : ℕ)
      → cached dev blockno c.nodes xs ≡ some b
      → ((c.nodes b).refcnt + 1 < 2 ^ 32)
        × ((c.nodes b).valid ≡ true → (c.nodes b).data_of ≡ driver.block c.disk blockno)

  hit-Held :
      (dev blockno b : ℕ) (xs : List ℕ) (c : Cache)
      → Ring c.nodes xs
      → InSync dev blockno xs c
      → cached dev blockno c.nodes xs ≡ some b
      → Held dev blockno xs c.disk b
          (set_buf b (λ x. record x { refcnt = (x.refcnt + 1) % 2 ^ 32 }) c)
  hit-Held dev blockno b xs c r sync e =
      let m : is_block dev blockno (c.nodes b) ≡ true = first-passes _ b xs e in
      let small : (c.nodes b).refcnt + 1 < 2 ^ 32 = (sync b e).0 in
      record {
        ring = Ring-frame r (λ j. ground arith) (λ j. ground arith);
        for_dev = ground arith;
        for_block = ground arith;
        counted = rw (==_refl b) (λ z. omega arith);
        synced = rw (==_refl b) ((sync b e).1);
        same_disk = refl;
      }

  miss-Held :
      (dev blockno b : ℕ) (xs : List ℕ) (c : Cache)
      → Ring c.nodes xs
      → Held dev blockno xs c.disk b
          (set_buf b (λ x. record x { dev = dev; blockno = blockno; valid = false; refcnt = 1 }) c)
  miss-Held dev blockno b xs c r = record {
    ring = Ring-frame r (λ j. ground arith) (λ j. ground arith);
    for_dev = ground arith;
    for_block = ground arith;
    counted = rw (==_refl b) (λ z. omega arith);
    synced = rw (==_refl b) (λ v. cc);
    same_disk = refl;
  }

  acquired-Held :
      (dev blockno : ℕ) (xs : List ℕ) (c : Cache) (o o' : Option ℕ)
      → cached dev blockno c.nodes xs ≡ o
      → (is_some o || is_some o') ≡ true
      → Ring c.nodes xs
      → InSync dev blockno xs c
      → Returns (Held dev blockno xs c.disk) (hit_or o (take_over dev blockno o' c) c)
  acquired-Held dev blockno xs c (some b) o' e found r sync =
      returns (hit-Held dev blockno b xs c r sync e)
  acquired-Held dev blockno xs c none (some b) e found r sync =
      returns (miss-Held dev blockno b xs c r)
  acquired-Held dev blockno xs c none none e found r sync = cc

  -- a valid buffer of a cache whose disk is ready
  loaded :
      {dev blockno b : ℕ} {xs : List ℕ} {disk : driver.Disk} {c : Cache}
      → Held dev blockno xs disk b c
      → (c.nodes b).valid ≡ true
      → driver.IsReady disk
      → Loaded dev blockno xs disk b c
  loaded h v ready = record {
    ring = h.ring;
    for_dev = h.for_dev;
    for_block = h.for_block;
    counted = h.counted;
    valid = v;
    data_read = h.synced v;
    ready = rw h.same_disk ready;
    same_disk = λ m. rw h.same_disk refl;
  }

  disk_rw-read :
      (b : ℕ) (c : Cache) (d : driver.Disk) (x : Block)
      → driver.virtio_disk_rw false (c.nodes b).blockno (c.nodes b).data_of c.disk ≡ ok x d
      → disk_rw false b c
        ≡ ok tt (set_buf b (λ y. record y { data_of = x }) (record c { disk = d }))
  unfolding disk_rw
  disk_rw-read b c d x e = rw e refl

  abbrev filled : ℕ → Block → driver.Disk → Cache → Cache
  filled b x d c =
      set_buf b (λ y. record y { valid = true })
        (set_buf b (λ y. record y { data_of = x }) (record c { disk = d }))

  filled-Loaded :
      {dev blockno b : ℕ} {xs : List ℕ} {disk : driver.Disk} {c : Cache} (d : driver.Disk)
      → Held dev blockno xs disk b c
      → driver.IsReady d
      → ((m : ℕ) → driver.block d m ≡ driver.block disk m)
      → Loaded dev blockno xs disk b (filled b (driver.block disk blockno) d c)
  filled-Loaded {b = b} d h ready same = record {
    ring = Ring-frame h.ring (λ j. ground arith) (λ j. ground arith);
    for_dev = rw (==_refl b) h.for_dev;
    for_block = rw (==_refl b) h.for_block;
    counted = rw (==_refl b) h.counted;
    valid = rw (==_refl b) refl;
    data_read = rw (==_refl b) refl;
    ready = ready;
    same_disk = same;
  }

  -- `bread`, with the disk ready, returns a buffer of the list that is valid, stands for the block,
  -- has a reference and holds what the disk does, and leaves the disk's blocks and the order of the
  -- list: if the block is in the cache or a buffer is unused, and a copy in the cache is not stale.
  pub bread_lem :
      (dev blockno : ℕ) (xs : List ℕ) (c : Cache)
      → Ring c.nodes xs
      → length xs ≤ nbuf
      → driver.IsReady c.disk
      → (is_some (cached dev blockno c.nodes xs) || is_some (evicted c.nodes xs)) ≡ true
      → InSync dev blockno xs c
      → Returns (Loaded dev blockno xs c.disk) (bread dev blockno c)
  unfolding bread
  bread_lem dev blockno xs c r lt ready found sync =
      Runs.bind {r = bget dev blockno c}
        (rw (bget_lem dev blockno xs c r lt) (acquired-Held dev blockno xs c _ _ refl found r sync))
        λ b c1 h. elim (Bool-cases (c1.nodes b).valid) [
          | inl v ↦ rw v (returns (loaded h v ready))
          | inr v ↦
              let (d, got, ready', same) =
                driver.read_lem c.disk blockno (c1.nodes b).data_of ready in
              rw
                (
                  v,
                  disk_rw-read b c1 d (driver.block c.disk blockno)
                      (rw (h.for_block, h.same_disk) got),
                )
                (returns (filled-Loaded d h ready' same))
        ]
