-- ===== src/Fs/Bio/Coherence.antt =====
-- The cache of fs/bio.c against the disk: between two operations of the file system no buffer is in
-- use and every buffer for the device holds what the disk does. `bwrite` and a change of a buffer.
use riscv_os_lab.Prelude.{
  ℕ, ◌≤◌, ◌≡◌, refl, sym, ap, ◌∙◌, ◌≢◌, inl, inr, Bool, true, List, arith, length, ==_refl,
  ==-false, ℕ-cases, update,
}
use riscv_os_lab.Prelude.Lists.{has}
use riscv_os_lab.Prelude.Runs.{ok, Returns, returns}
use riscv_os_lab.Fs.Bio.{Block, Nodes, nbuf, BlockDriver, set_buf, Cache, disk_rw, bwrite}
use riscv_os_lab.Fs.Bio.Ring.{Ring}
use riscv_os_lab.Fs.Bio.Lru.{Ring-frame}

-- no two buffers of the list are for one block of the device
abbrev pub OneEach : ℕ → Nodes → List ℕ → Type 0
OneEach dev t xs =
    (i j : ℕ)
    → has i xs ≡ true
    → has j xs ≡ true
    → (t i).dev ≡ dev
    → (t j).dev ≡ dev
    → (t i).blockno ≡ (t j).blockno
    → i ≡ j

pub OneEach-frame :
    (dev : ℕ) (t t' : Nodes) (xs : List ℕ)
    → ((j : ℕ) → (t' j).dev ≡ (t j).dev)
    → ((j : ℕ) → (t' j).blockno ≡ (t j).blockno)
    → OneEach dev t xs
    → OneEach dev t' xs
OneEach-frame dev t t' xs devs blocks one i j hi hj di dj same =
    one i j hi hj (sym (devs i) ∙ di) (sym (devs j) ∙ dj) (sym (blocks i) ∙ same ∙ blocks j)

module _ ⦃driver : BlockDriver⦄ where
  -- No buffer is in use, every buffer for the device `dev` holds what the blocks `dk` of the disk do, and
  -- no two are for one block.
  pub record Steady (dev : ℕ) (dk : ℕ → Block) (xs : List ℕ) (c : Cache) : Type 0 where
    pub ring : Ring c.nodes xs
    pub short : length xs ≤ nbuf
    pub some_buffer : (b : ℕ) × (has b xs ≡ true)
    pub unused : (j : ℕ) → has j xs ≡ true → (c.nodes j).refcnt ≡ 0
    pub synced :
        (j : ℕ)
        → has j xs ≡ true
        → (c.nodes j).dev ≡ dev
        → ((c.nodes j).valid ≡ true) × ((c.nodes j).data_of ≡ dk (c.nodes j).blockno)
    pub one : OneEach dev c.nodes xs
    pub ready : driver.IsReady c.disk
    pub on_disk : (m : ℕ) → driver.block c.disk m ≡ dk m

  -- The same, but for the buffer `b`, which is in use for block `n` and holds `x`.
  pub record InUse (dev : ℕ) (dk : ℕ → Block) (xs : List ℕ) (n : ℕ) (x : Block) (b : ℕ) (c : Cache)
      : Type 0 where
    pub ring : Ring c.nodes xs
    pub short : length xs ≤ nbuf
    pub member : has b xs ≡ true
    pub for_dev : (c.nodes b).dev ≡ dev
    pub for_block : (c.nodes b).blockno ≡ n
    pub counted : (c.nodes b).refcnt ≡ 1
    pub valid : (c.nodes b).valid ≡ true
    pub holds : (c.nodes b).data_of ≡ x
    pub unused : (j : ℕ) → has j xs ≡ true → j ≢ b → (c.nodes j).refcnt ≡ 0
    pub synced :
        (j : ℕ)
        → has j xs ≡ true
        → j ≢ b
        → (c.nodes j).dev ≡ dev
        → ((c.nodes j).valid ≡ true) × ((c.nodes j).data_of ≡ dk (c.nodes j).blockno)
    pub one : OneEach dev c.nodes xs
    pub ready : driver.IsReady c.disk
    pub on_disk : (m : ℕ) → driver.block c.disk m ≡ dk m

  pub disk_rw-ok :
      (write : Bool) (b : ℕ) (c : Cache) (d : driver.Disk) (x : Block)
      → driver.virtio_disk_rw write (c.nodes b).blockno (c.nodes b).data_of c.disk ≡ ok x d
      → disk_rw write b c
        ≡ ok tt (set_buf b (λ y. record y { data_of = x }) (record c { disk = d }))
  unfolding disk_rw
  disk_rw-ok write b c d x e = rw e refl

  pub InUse-set :
      (dev n b : ℕ) (dk : ℕ → Block) (xs : List ℕ) (x : Block) (f : Block → Block) (c : Cache)
      → InUse dev dk xs n x b c
      → InUse dev dk xs n (f x) b (set_buf b (λ y. record y { data_of = f y.data_of }) c)
  InUse-set dev n b dk xs x f c u = record {
    ring = Ring-frame u.ring (λ j. ground arith) (λ j. ground arith);
    short = u.short;
    member = u.member;
    for_dev = rw (==_refl b) u.for_dev;
    for_block = rw (==_refl b) u.for_block;
    counted = rw (==_refl b) u.counted;
    valid = rw (==_refl b) u.valid;
    holds = rw (==_refl b) (ap f u.holds);
    unused = λ j h ne. rw (==-false j b ne) (u.unused j h ne);
    synced = λ j h ne. rw (==-false j b ne) (u.synced j h ne);
    one =
        OneEach-frame dev c.nodes (set_buf b (λ y. record y { data_of = f y.data_of }) c).nodes xs
          (λ j. ground arith) (λ j. ground arith) u.one;
    ready = u.ready;
    on_disk = u.on_disk;
  }

  -- `bwrite` of the buffer in use puts what it holds on the disk.
  pub bwrite-InUse :
      (dev n b : ℕ) (dk : ℕ → Block) (xs : List ℕ) (x : Block) (c : Cache)
      → InUse dev dk xs n x b c
      → Returns (λ _. InUse dev (update dk n x) xs n x b) (bwrite b c)
  unfolding bwrite
  bwrite-InUse dev n b dk xs x c u =
      let (d, wrote, ready, own, rest) = driver.write_lem c.disk n x u.ready in
      let same : disk_rw true b c
          ≡ ok tt (set_buf b (λ y. record y { data_of = x }) (record c { disk = d })) =
        disk_rw-ok true b c d x (rw (u.for_block, u.holds) wrote) in
      rw same (
        returns (record {
          ring = Ring-frame u.ring (λ j. ground arith) (λ j. ground arith);
          short = u.short;
          member = u.member;
          for_dev = rw (==_refl b) u.for_dev;
          for_block = rw (==_refl b) u.for_block;
          counted = rw (==_refl b) u.counted;
          valid = rw (==_refl b) u.valid;
          holds = rw (==_refl b) refl;
          unused = λ j h ne. rw (==-false j b ne) (u.unused j h ne);
          synced = λ j h ne. rw (==-false j b ne) (λ dj.
              let off : (c.nodes j).blockno ≢ n =
                (λ e. ne (u.one j b h u.member dj u.for_dev (e ∙ sym u.for_block))) in
              rw (==-false (c.nodes j).blockno n off) (u.synced j h ne dj));
          one =
              OneEach-frame dev c.nodes (set_buf b (λ y. record y { data_of = x }) c).nodes xs
                (λ j. ground arith) (λ j. ground arith) u.one;
          ready = ready;
          on_disk = λ m. elim (ℕ-cases m n) [
            | inl e ↦ rw (e, ==_refl n) own
            | inr ne ↦ rw (==-false m n ne) (rest m ne ∙ u.on_disk m)
          ];
        }))
