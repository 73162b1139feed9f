-- ===== src/Fs/Bio.antt =====
-- fs/bio.c: the buffer cache. The buffers are the nodes 0 to NBUF - 1 and the list head is the node
-- NBUF, so that a `struct buf *` is a number. `virtio_disk_rw`, which moves a block between a
-- buffer and the disk, comes with the interface `BlockDriver`.
pub mod Ring
pub mod Lru
pub mod Read
pub mod Release
pub mod Choice
pub mod Coherence
pub mod Fetch
pub mod Settle
pub mod Start
use riscv_os_lab.Prelude.{
  ℕ, zero, suc, ◌+◌, ◌-◌, ◌*◌, ◌/◌, ◌%◌, ◌^◌, ◌≤◌, ◌<◌, min, ◌≡◌, refl, sym, ap, ◌∙◌, subst,
  fun_ext, ◌≢◌, ◌⊎◌, inl, inr, Bool, true, false, ◌&&◌, ◌||◌, not, Option, none, some, List, [],
  ◌∷◌, ◌++◌, map, arith, ltb, leb, ◌==◌, ◌!=◌, if◌then◌else◌, is_some, length, ==_refl, ==-false,
  ltb→lt, lt→ltb, Bool-cases, Option-cases, ℕ-cases, update, find_first, find_first-some,
  find_first-none, update_self, update_ne,
}
use riscv_os_lab.Prelude.Words.{Bytes}
use riscv_os_lab.Prelude.Runs.{
  Reason, Run, ok, panic, out_of_fuel, fault, Cmd, ◌>>=◌, ◌>>◌, and_then, put_back, pure, get,
  modify, halt, in_part,
}

-- uchar data[BSIZE]
abbrev pub Block : Type 0
Block = Bytes

abbrev pub bsize : ℕ
bsize = 1024

abbrev pub nbuf : ℕ
nbuf = 30

-- What the cache relies on in the disk driver: while the driver is ready, a read hands over what
-- the disk holds and changes nothing, and a write changes the one block.
pub record BlockDriver : Type 1 where
  pub Disk : Type 0
  pub IsReady : Disk → Type 0
  pub block : Disk → ℕ → Block
  pub virtio_disk_rw : Bool → ℕ → Block → Cmd Disk Block
  pub read_lem :
      (d : Disk) (n : ℕ) (old : Block)
      → IsReady d
      → (d' : Disk) × (virtio_disk_rw false n old d ≡ ok (block d n) d')
        × IsReady d'
        × ((m : ℕ) → block d' m ≡ block d m)
  pub write_lem :
      (d : Disk) (n : ℕ) (x : Block)
      → IsReady d
      → (d' : Disk) × (virtio_disk_rw true n x d ≡ ok x d')
        × IsReady d'
        × (block d' n ≡ x)
        × ((m : ℕ) → m ≢ n → block d' m ≡ block d m)

-- struct buf, less the flag `disk` of the driver
pub record Buf : Type 0 where
  pub valid : Bool
  pub dev : ℕ
  pub blockno : ℕ
  pub refcnt : ℕ
  pub prev : ℕ
  pub next : ℕ
  pub data_of : Block

abbrev pub Nodes : Type 0
Nodes = ℕ → Buf

-- &bcache.head
abbrev pub head : ℕ
head = nbuf

abbrev pub set_next : ℕ → ℕ → Nodes → Nodes
set_next b v t = update t b (record (t b) { next = v })

abbrev pub set_prev : ℕ → ℕ → Nodes → Nodes
set_prev b v t = update t b (record (t b) { prev = v })

-- The four writes that put `b` behind the head, and the two that take it out of the list.
unfoldable pub push_front : ℕ → Nodes → Nodes
push_front b t0 =
    let t1 = set_next b (t0 head).next t0 in
    let t2 = set_prev b head t1 in let t3 = set_prev (t2 head).next b t2 in set_next head b t3

unfoldable pub unlink : ℕ → Nodes → Nodes
unlink b t0 = let t1 = set_prev (t0 b).next (t0 b).prev t0 in set_next (t1 b).prev (t1 b).next t1

unfoldable pub binit_loop : ℕ → ℕ → Nodes → Nodes
binit_loop zero b t = t
binit_loop (suc n) b t = binit_loop n (b + 1) (push_front b t)

unfoldable pub binit : Nodes → Nodes
unfolding push_front binit_loop
binit t = binit_loop nbuf 0 (set_next head head (set_prev head head t))

-- The walks of `bget` from the node `b`, forwards and backwards, to the first node that passes.
-- `none` is the end of the list, and the fuel is the number of nodes.
unfoldable pub forwards : (Buf → Bool) → ℕ → ℕ → Nodes → Option ℕ
forwards test zero b t = none
forwards test (suc n) b t =
    let rest = forwards test n (t b).next t in
    if b == head then none else if test (t b) then some b else rest

unfoldable pub backwards : (Buf → Bool) → ℕ → ℕ → Nodes → Option ℕ
backwards test zero b t = none
backwards test (suc n) b t =
    let rest = backwards test n (t b).prev t in
    if b == head then none else if test (t b) then some b else rest

abbrev pub is_block : ℕ → ℕ → Buf → Bool
is_block dev blockno b = (b.dev == dev) && (b.blockno == blockno)

abbrev pub is_unused : Buf → Bool
is_unused b = b.refcnt == 0

-- The cache: its nodes, and the disk behind the driver.
pub record Bcache (D : Type 0) : Type 0 where
  pub nodes : Nodes
  pub disk : D

abbrev pub set_buf : {D : Type 0} → ℕ → (Buf → Buf) → Bcache D → Bcache D
set_buf b f c = record c { nodes = update c.nodes b (f (c.nodes b)) }

module _ {D : Type 0} where
  unfoldable pub recycle : ℕ → ℕ → ℕ → Cmd (Bcache D) ℕ
  recycle dev blockno b = do
    modify (set_buf b (λ x. record x { dev = dev; blockno = blockno; valid = false; refcnt = 1 }))
    pure b

  unfoldable pub bget_free : ℕ → ℕ → Cmd (Bcache D) ℕ
  bget_free dev blockno c = elim (backwards is_unused (nbuf + 1) (c.nodes head).prev c.nodes) [
    | none ↦ panic Reason.bget_no_buffers
    | some b ↦ recycle dev blockno b c
  ]

  unfoldable pub bget : ℕ → ℕ → Cmd (Bcache D) ℕ
  bget dev blockno c =
      elim (forwards (is_block dev blockno) (nbuf + 1) (c.nodes head).next c.nodes) [
        | none ↦ bget_free dev blockno c
        | some b ↦ ok b (set_buf b (λ x. record x { refcnt = (x.refcnt + 1) % 2 ^ 32 }) c)
      ]

  unfoldable pub brelse : ℕ → Cmd (Bcache D) (Unit {0})
  brelse b = do
    modify (set_buf b (λ x. record x { refcnt = (x.refcnt + 2 ^ 32 - 1) % 2 ^ 32 }))
    c ← get
    if (c.nodes b).refcnt == 0
        then modify (λ c. record c { nodes = push_front b (unlink b c.nodes) })
        else pure tt

module _ ⦃driver : BlockDriver⦄ where
  abbrev pub Cache : Type 0
  Cache = Bcache driver.Disk

  -- virtio_disk_rw(b, write)
  unfoldable pub disk_rw : Bool → ℕ → Cmd Cache (Unit {0})
  disk_rw write b = do
    c ← get
    x ←
        in_part (λ c. c.disk) (λ d c. record c { disk = d })
          (driver.virtio_disk_rw write (c.nodes b).blockno (c.nodes b).data_of)
    modify (set_buf b (λ y. record y { data_of = x }))

  unfoldable pub bread : ℕ → ℕ → Cmd Cache ℕ
  bread dev blockno = do
    b ← bget dev blockno
    c ← get
    if (c.nodes b).valid
        then pure b
        else do disk_rw false b; modify (set_buf b (λ x. record x { valid = true })); pure b

  unfoldable pub bwrite : ℕ → Cmd Cache (Unit {0})
  bwrite b = disk_rw true b
