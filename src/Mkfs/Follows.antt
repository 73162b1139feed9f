-- ===== src/Mkfs/Follows.antt =====
-- The functions of mkfs/mkfs.c on a file do what they do on an image in memory.
use riscv_os_lab.Prelude.{
  ℕ, zero, suc, ◌+◌, ◌-◌, ◌*◌, ◌/◌, ◌%◌, ◌^◌, refl, inl, inr, ltb, ◌==◌, ◌!=◌, Bool-cases,
}
use riscv_os_lab.Prelude.Words.{Bytes, load32, store32, memmove}
use riscv_os_lab.Prelude.Runs.{Cmd, returns}
use riscv_os_lab.Fs.Bio.{Block, bsize}
use riscv_os_lab.Fs.State.{ndirect, nindirect, rootino, t_dir, Superblock}
use riscv_os_lab.Mkfs.{
  ImageFile, Mkfs, MkfsState, bpb, ipb, sblock, set_bit, dinode_at, new_dinode, store_superblock,
  addr_of, size_of, balloc_mark, next_block, winode, rinode, ialloc,
}
use riscv_os_lab.Mkfs.Main.{
  chunk, dot_entry, dotdot_entry, dirent_size, own_addr, slot_of, indirect_addr, file_block,
  put_chunk, iappend_loop, iappend, mark_blocks, write_layout, write_entries, write_root, report,
  fill_image,
}
use riscv_os_lab.Mkfs.Paper.{Paper, paper, Sees, Follows, over, moved, then_Follows}
use riscv_os_lab.Mkfs.Sectors.{rsect-Follows, wsect-Follows}

module _ ⦃image : ImageFile⦄ where
  -- The run of `m` over a file follows that of `m'` over the image, from states that agree.
  abbrev pub Alike : {A : Type 0} → Cmd MkfsState A → Cmd (Mkfs Paper) A → Type 0
  Alike m m' = (t : Mkfs Paper) (f : image.File) → Sees t (over t f) → Follows (m (over t f)) (m' t)

  balloc_mark-Alike : (b : ℕ) → Alike (balloc_mark b) (balloc_mark ⦃image = paper⦄ b)
  unfolding balloc_mark
  balloc_mark-Alike b t f h =
      then_Follows _ _
        (λ buf t1 f1 h1.
          wsect-Follows (t.sb.bmapstart + b / bpb) (set_bit b buf) t1 (over t1 f1) h1)
        _ _ (rsect-Follows (t.sb.bmapstart + b / bpb) t (over t f) h)

  next_block-Alike : Alike next_block (next_block ⦃image = paper⦄)
  unfolding next_block
  next_block-Alike t f h =
      let t0 = record t { freeblock = (t.freeblock + 1) % 2 ^ 32 } in
      then_Follows _ _ (λ u t1 f1 h1. returns (refl, h1)) _ _
        (balloc_mark-Alike t.freeblock t0 f (moved t t0 f refl h))

  winode-Alike :
      (inum : ℕ) (din : Bytes) → Alike (winode inum din) (winode ⦃image = paper⦄ inum din)
  unfolding winode
  winode-Alike inum din t f h =
      then_Follows _ _
        (λ buf t1 f1 h1.
          wsect-Follows (t.sb.inodestart + inum / ipb) (memmove buf (dinode_at inum) din 0 64) t1
            (over t1 f1) h1)
        _ _ (rsect-Follows (t.sb.inodestart + inum / ipb) t (over t f) h)

  rinode-Alike : (inum : ℕ) → Alike (rinode inum) (rinode ⦃image = paper⦄ inum)
  unfolding rinode
  rinode-Alike inum t f h =
      then_Follows _ _ (λ buf t1 f1 h1. returns (refl, h1)) _ _
        (rsect-Follows (t.sb.inodestart + inum / ipb) t (over t f) h)

  ialloc-Alike : (kind : ℕ) → Alike (ialloc kind) (ialloc ⦃image = paper⦄ kind)
  unfolding ialloc
  ialloc-Alike kind t f h =
      let t0 = record t { freeinode = (t.freeinode + 1) % 2 ^ 32 } in
      then_Follows _ _ (λ u t1 f1 h1. returns (refl, h1)) _ _
        (winode-Alike t.freeinode (new_dinode kind) t0 f (moved t t0 f refl h))

  own_addr-Alike : (i : ℕ) (din : Bytes) → Alike (own_addr i din) (own_addr ⦃image = paper⦄ i din)
  unfolding own_addr
  own_addr-Alike i din t f h = elim (Bool-cases (addr_of din i == 0)) [
    | inl none_yet ↦
        rw none_yet
          (then_Follows _ _ (λ x t1 f1 h1. returns (refl, h1)) _ _ (next_block-Alike t f h))
    | inr there ↦ rw there (returns (refl, h))
  ]

  slot_of-Alike :
      (blk i : ℕ) (ibuf : Block) → Alike (slot_of blk i ibuf) (slot_of ⦃image = paper⦄ blk i ibuf)
  unfolding slot_of
  slot_of-Alike blk i ibuf t f h = elim (Bool-cases (load32 ibuf (4 * i) == 0)) [
    | inl none_yet ↦ rw none_yet (
        then_Follows _ _
          (λ x t1 f1 h1.
            then_Follows _ _ (λ u t2 f2 h2. returns (refl, h2)) _ _
              (wsect-Follows blk (store32 ibuf (4 * i) x) t1 (over t1 f1) h1))
          _ _ (next_block-Alike t f h))
    | inr there ↦ rw there (returns (refl, h))
  ]

  indirect_addr-Alike :
      (blk i : ℕ) → Alike (indirect_addr blk i) (indirect_addr ⦃image = paper⦄ blk i)
  unfolding indirect_addr
  indirect_addr-Alike blk i t f h =
      then_Follows _ _ (slot_of-Alike blk i) _ _ (rsect-Follows blk t (over t f) h)

  file_block-Alike :
      (fbn : ℕ) (din : Bytes) → Alike (file_block fbn din) (file_block ⦃image = paper⦄ fbn din)
  unfolding file_block
  file_block-Alike fbn din t f h = elim (Bool-cases (ltb fbn ndirect)) [
    | inl direct ↦ rw direct (own_addr-Alike fbn din t f h)
    | inr behind ↦ rw behind (
        then_Follows _ _
          (λ r t1 f1 h1.
            then_Follows _ _ (λ x t2 f2 h2. returns (refl, h2)) _ _
              (indirect_addr-Alike r.0 (fbn - ndirect) t1 f1 h1))
          _ _ (own_addr-Alike ndirect din t f h))
  ]

  put_chunk-Alike :
      (src : Bytes) (p n off : ℕ) (din : Bytes)
      → Alike (put_chunk src p n off din) (put_chunk ⦃image = paper⦄ src p n off din)
  unfolding put_chunk
  put_chunk-Alike src p n off din t f h =
      then_Follows _ _
        (λ r t1 f1 h1.
          then_Follows _ _
            (λ buf t2 f2 h2.
              then_Follows _ _ (λ u t3 f3 h3. returns (refl, h3)) _ _
                (wsect-Follows r.0 (memmove buf (off % bsize) src p n) t2 (over t2 f2) h2))
            _ _ (rsect-Follows r.0 t1 (over t1 f1) h1))
        _ _ (file_block-Alike (off / bsize) din t f h)

  iappend_loop-Alike :
      (fuel : ℕ) (src : Bytes) (p n off : ℕ) (din : Bytes)
      → Alike
          (iappend_loop fuel src p n off din)
          (iappend_loop ⦃image = paper⦄ fuel src p n off din)
  unfolding iappend_loop
  iappend_loop-Alike zero src p n off din t f h = elim (Bool-cases (n == 0)) [
    | inl end ↦ rw end (returns (refl, h))
    | inr more ↦ rw more tt
  ]
  iappend_loop-Alike (suc fuel) src p n off din t f h = elim (Bool-cases (n == 0)) [
    | inl end ↦ rw end (returns (refl, h))
    | inr more ↦ elim (Bool-cases (ltb (off / bsize) (ndirect + nindirect))) [
      | inr long ↦ rw (more, long) tt
      | inl fits ↦
          rw (more, fits)
            (then_Follows _ _
              (λ din' t1 f1 h1.
                iappend_loop-Alike fuel src (p + chunk off n) (n - chunk off n) (off + chunk off n)
                  din' t1 f1 h1)
              _ _ (put_chunk-Alike src p (chunk off n) off din t f h))
    ]
  ]

  iappend-Alike :
      (inum : ℕ) (src : Bytes) (n : ℕ)
      → Alike (iappend inum src n) (iappend ⦃image = paper⦄ inum src n)
  unfolding iappend
  iappend-Alike inum src n t f h =
      then_Follows _ _
        (λ din t1 f1 h1.
          then_Follows _ _ (λ r t2 f2 h2. winode-Alike inum (store32 r.1 8 r.0) t2 f2 h2) _ _
            (iappend_loop-Alike n src 0 n (size_of din) din t1 f1 h1))
        _ _ (rinode-Alike inum t f h)

  mark_blocks-Alike : (n i : ℕ) → Alike (mark_blocks n i) (mark_blocks ⦃image = paper⦄ n i)
  unfolding mark_blocks
  mark_blocks-Alike zero i t f h = returns (refl, h)
  mark_blocks-Alike (suc n) i t f h =
      then_Follows _ _ (λ u t1 f1 h1. mark_blocks-Alike n (i + 1) t1 f1 h1) _ _
        (balloc_mark-Alike i t f h)

  write_entries-Alike : (inum : ℕ) → Alike (write_entries inum) (write_entries ⦃image = paper⦄ inum)
  unfolding write_entries
  write_entries-Alike inum t f h = elim (Bool-cases (inum != rootino)) [
    | inl other ↦ rw other tt
    | inr root ↦ rw root (
        then_Follows _ _
          (λ u t1 f1 h1.
            then_Follows _ _ (λ v t2 f2 h2. returns (refl, h2)) _ _
              (iappend-Alike inum (dotdot_entry inum) dirent_size t1 f1 h1))
          _ _ (iappend-Alike inum (dot_entry inum) dirent_size t f h))
  ]

  write_root-Alike : Alike write_root (write_root ⦃image = paper⦄)
  unfolding write_root
  write_root-Alike t f h =
      then_Follows _ _ (λ inum t1 f1 h1. write_entries-Alike inum t1 f1 h1) _ _
        (ialloc-Alike t_dir t f h)

  write_layout-Alike :
      (sb : Superblock) (meta : ℕ)
      → Alike (write_layout sb meta) (write_layout ⦃image = paper⦄ sb meta)
  unfolding write_layout
  write_layout-Alike sb meta t f h =
      let t0 = record t { sb = sb } in
      then_Follows _ _
        (λ u t1 f1 h1.
          let t2 = record t1 { freeblock = meta } in
          mark_blocks-Alike meta 0 t2 f1 (moved t1 t2 f1 refl h1))
        _ _
        (wsect-Follows sblock (store_superblock sb (λ _. 0)) t0 (over t0 f) (moved t t0 f refl h))

  report-Alike :
      (total : ℕ) (sb : Superblock) (meta inum : ℕ)
      → Alike (report total sb meta inum) (report ⦃image = paper⦄ total sb meta inum)
  unfolding report
  report-Alike total sb meta inum t f h =
      then_Follows _ _ (λ din t1 f1 h1. returns (refl, moved t1 _ f1 refl h1)) _ _
        (rinode-Alike inum t f h)

  -- `fill_image` on a file follows its run on an image in memory.
  pub fill_image-Alike :
      (total : ℕ) (sb : Superblock) (meta : ℕ)
      → Alike (fill_image total sb meta) (fill_image ⦃image = paper⦄ total sb meta)
  unfolding fill_image
  fill_image-Alike total sb meta t f h =
      then_Follows _ _
        (λ u t1 f1 h1.
          then_Follows _ _ (λ inum t2 f2 h2. report-Alike total sb meta inum t2 f2 h2) _ _
            (write_root-Alike t1 f1 h1))
        _ _ (write_layout-Alike sb meta t f h)
