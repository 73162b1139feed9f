-- ===== src/Fs/Bio/Fetch.antt =====
-- `bread` of fs/bio.c on a cache that agrees with the disk.
use riscv_os_lab.Prelude.{
  ℕ, ◌+◌, ◌%◌, ◌^◌, ◌≡◌, refl, sym, ap, ◌∙◌, fun_ext, ◌≢◌, inl, inr, true, false, none, some, List,
  arith, ==_refl, ==-false, Option-cases, ℕ-cases, update,
}
use riscv_os_lab.Prelude.Lists.{has}
use riscv_os_lab.Prelude.Runs.{ok, Returns, returns}
use riscv_os_lab.Fs.Bio.{
  Block, BlockDriver, is_block, is_unused, set_buf, Cache, bget, disk_rw, bread,
}
use riscv_os_lab.Fs.Bio.Lru.{Ring-frame, cached, bget_lem}
use riscv_os_lab.Fs.Bio.Choice.{first-some, first-none, last_match-some, last_match-finds}
use riscv_os_lab.Fs.Bio.Coherence.{OneEach-frame, Steady, InUse, disk_rw-ok}

module _ ⦃driver : BlockDriver⦄ where
  abbrev counted_up : ℕ → Cache → Cache
  counted_up b c = set_buf b (λ x. record x { refcnt = (x.refcnt + 1) % 2 ^ 32 }) c

  hit-InUse :
      (dev n b : ℕ) (dk : ℕ → Block) (xs : List ℕ) (c : Cache)
      → Steady dev dk xs c
      → cached dev n c.nodes xs ≡ some b
      → InUse dev dk xs n (dk n) b (counted_up b c)
  hit-InUse dev n b dk xs c s e =
      let (is, member) = first-some (λ j. is_block dev n (c.nodes j)) b xs e in
      let for_dev : (c.nodes b).dev ≡ dev = ground arith in
      let for_block : (c.nodes b).blockno ≡ n = ground arith in
      let sync = s.synced b member for_dev in
      let free = s.unused b member in
      record {
        ring = Ring-frame s.ring (λ j. ground arith) (λ j. ground arith);
        short = s.short;
        member = member;
        for_dev = rw (==_refl b) for_dev;
        for_block = rw (==_refl b) for_block;
        counted = rw (==_refl b, free) refl;
        valid = rw (==_refl b) sync.0;
        holds = rw (==_refl b) (rw for_block at sync.1);
        unused = λ j h ne. rw (==-false j b ne) (s.unused j h);
        synced = λ j h ne. rw (==-false j b ne) (s.synced j h);
        one =
            OneEach-frame dev c.nodes (counted_up b c).nodes xs (λ j. ground arith)
              (λ j. ground arith) s.one;
        ready = s.ready;
        on_disk = s.on_disk;
      }

  -- the buffer `b` taken over and filled from the disk
  abbrev fetched : (dev n b : ℕ) → Block → driver.Disk → Cache → Cache
  fetched dev n b x d c = record {
    nodes =
        update c.nodes b
          (record (c.nodes b) { dev = dev; blockno = n; valid = true; refcnt = 1; data_of = x });
    disk = d;
  }

  fetched-InUse :
      (dev n b : ℕ) (dk : ℕ → Block) (xs : List ℕ) (c : Cache) (d : driver.Disk)
      → Steady dev dk xs c
      → cached dev n c.nodes xs ≡ none
      → has b xs ≡ true
      → driver.IsReady d
      → ((m : ℕ) → driver.block d m ≡ dk m)
      → InUse dev dk xs n (dk n) b (fetched dev n b (dk n) d c)
  fetched-InUse dev n b dk xs c d s none_there member ready same = record {
    ring = Ring-frame s.ring (λ j. ground arith) (λ j. ground arith);
    short = s.short;
    member = member;
    for_dev = rw (==_refl b) refl;
    for_block = rw (==_refl b) refl;
    counted = rw (==_refl b) refl;
    valid = rw (==_refl b) refl;
    holds = rw (==_refl b) refl;
    unused = λ j h ne. rw (==-false j b ne) (s.unused j h);
    synced = λ j h ne. rw (==-false j b ne) (s.synced j h);
    one = λ i j hi hj. elim (ℕ-cases i b) [
      | inl ib ↦ elim (ℕ-cases j b) [
        | inl jb ↦ λ di dj e. ib ∙ sym jb
        | inr jn ↦ rw (ib, ==_refl b, ==-false j b jn) (λ di dj e. absurd (other j hj dj (sym e)))
      ]
      | inr in' ↦ elim (ℕ-cases j b) [
        | inl jb ↦ rw (jb, ==_refl b, ==-false i b in') (λ di dj e. absurd (other i hi di e))
        | inr jn ↦ rw (==-false i b in', ==-false j b jn) (s.one i j hi hj)
      ]
    ];
    ready = ready;
    on_disk = same;
  }
    where
      other : (j : ℕ) → has j xs ≡ true → (c.nodes j).dev ≡ dev → (c.nodes j).blockno ≢ n
      other j h dj nj =
          let no : is_block dev n (c.nodes j) ≡ false =
            first-none (λ j. is_block dev n (c.nodes j)) xs none_there j h in
          let yes : is_block dev n (c.nodes j) ≡ true = rw (dj, nj, ==_refl dev, ==_refl n) refl in
          cc

  -- what `bread` does to a buffer that it takes over: `bget`, the read, and the flag
  read_in :
      (dev n b : ℕ) (x : Block) (d : driver.Disk) (c : Cache)
      → set_buf b
          (λ y. record y { valid = true })
          (set_buf b
            (λ y. record y { data_of = x })
            (record (set_buf b
              (λ y. record y { dev = dev; blockno = n; valid = false; refcnt = 1 })
              c) { disk = d }))
        ≡ fetched dev n b x d c
  read_in dev n b x d c =
      ap (λ t. record c { nodes = t; disk = d })
        (fun_ext (λ j. elim (ℕ-cases j b) [
          | inl e ↦ rw (e, ==_refl b) refl
          | inr ne ↦ rw (==-false j b ne) refl
        ]))

  bread-hit :
      (dev n b : ℕ) (c c1 : Cache)
      → bget dev n c ≡ ok b c1
      → (c1.nodes b).valid ≡ true
      → bread dev n c ≡ ok b c1
  unfolding bread
  bread-hit dev n b c c1 got v = rw (got, v) refl

  bread-miss :
      (dev n b : ℕ) (c c1 c2 : Cache)
      → bget dev n c ≡ ok b c1
      → (c1.nodes b).valid ≡ false
      → disk_rw false b c1 ≡ ok tt c2
      → bread dev n c ≡ ok b (set_buf b (λ x. record x { valid = true }) c2)
  unfolding bread
  bread-miss dev n b c c1 c2 got v read = rw (got, v, read) refl

  abbrev taken : (dev n b : ℕ) → Cache → Cache
  taken dev n b c =
      set_buf b (λ y. record y { dev = dev; blockno = n; valid = false; refcnt = 1 }) c

  bread-fetched :
      (dev n b : ℕ) (c : Cache) (d : driver.Disk) (x : Block)
      → bget dev n c ≡ ok b (taken dev n b c)
      → driver.virtio_disk_rw false n (c.nodes b).data_of c.disk ≡ ok x d
      → bread dev n c ≡ ok b (fetched dev n b x d c)
  bread-fetched dev n b c d x got read =
      bread-miss dev n b c (taken dev n b c) _ got (rw (==_refl b) refl)
        (disk_rw-ok false b (taken dev n b c) d x (rw (==_refl b) read))
      ∙ ap (ok b) (read_in dev n b x d c)

  -- With no buffer in use, `bread` returns one for the block, in use and with what the disk holds.
  pub bread-Steady :
      (dev n : ℕ) (dk : ℕ → Block) (xs : List ℕ) (c : Cache)
      → Steady dev dk xs c
      → Returns (InUse dev dk xs n (dk n)) (bread dev n c)
  bread-Steady dev n dk xs c s = elim (Option-cases (cached dev n c.nodes xs)) [
    | inr (b, hit) ↦
        let u = hit-InUse dev n b dk xs c s hit in
        rw
          (bread-hit dev n b c (counted_up b c) (bget_lem dev n xs c s.ring s.short ∙ rw hit refl)
            u.valid)
          (returns u)
    | inl miss ↦
        let (b0, h0) = s.some_buffer in
        let free : is_unused (c.nodes b0) ≡ true = rw (s.unused b0 h0) refl in
        let (b, out) = last_match-finds (λ j. is_unused (c.nodes j)) b0 xs h0 free in
        let member = last_match-some (λ j. is_unused (c.nodes j)) b xs out in
        let (d, got, ready, same) = driver.read_lem c.disk n (c.nodes b).data_of s.ready in
        let u = fetched-InUse dev n b dk xs c d s miss member ready (λ m. same m ∙ s.on_disk m) in
        rw
          (bread-fetched dev n b c d (dk n)
            (bget_lem dev n xs c s.ring s.short ∙ rw (miss, out) refl)
            (got ∙ ap (λ x. ok x d) (s.on_disk n)))
          (returns u)
  ]
  -- A change of the data of the buffer in use.
