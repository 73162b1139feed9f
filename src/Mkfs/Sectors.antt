-- ===== src/Mkfs/Sectors.antt =====
-- `rsect` and `wsect` of mkfs/mkfs.c on a file and on an image in memory.
use riscv_os_lab.Prelude.{
  ℕ, ◌+◌, ◌*◌, ◌/◌, ◌≤◌, ◌<◌, ◌≡◌, refl, ap, ◌∙◌, subst, inl, inr, true, false, arith, ltb, ◌==◌,
  ◌!=◌, if◌then◌else◌, ==_refl, ==-false, ltb→lt, lt→ltb, Bool-cases, ℕ-cases, update,
}
use riscv_os_lab.Prelude.Runs
use riscv_os_lab.Prelude.Runs.{
  Reason, Run, ok, panic, out_of_fuel, fault, Cmd, and_then, ◌>>=◌, Returns, returns,
}
use riscv_os_lab.Fs.Bio.{Block, bsize}
use riscv_os_lab.Mkfs.{ImageFile, Mkfs, MkfsState, wsect, rsect}
use riscv_os_lab.Mkfs.Paper.{Paper, paper, Sees, Follows}

!=_refl : (x : ℕ) → (x != x) ≡ false
!=_refl x = ground arith

update_agree :
    (f g : ℕ → Block) (n : ℕ) (x : Block) (m : ℕ) → f m ≡ g m → update f n x m ≡ update g n x m
update_agree f g n x m e = elim (ℕ-cases m n) [
  | inl at ↦ rw (at, ==_refl n) refl
  | inr off ↦ rw (==-false m n off) e
]

-- what a read and a write of block `n` leave
abbrev pub seek_to : ℕ → Mkfs Paper → Mkfs Paper
seek_to n t = record t { file = record (t.file) { position = n * bsize } }

abbrev pub put_block : ℕ → Block → Mkfs Paper → Mkfs Paper
put_block n x t = record t {
  file = record (t.file) { block = update t.file.block n x; position = n * bsize };
}

abbrev pub grow : ℕ → Block → Mkfs Paper → Mkfs Paper
grow n x t = record t {
  file = record (t.file) { block = update t.file.block n x; blocks = n + 1; position = n * bsize };
}

module _ ⦃image : ImageFile⦄ where
  rsect-paper :
      (n : ℕ) (t : Mkfs Paper)
      → rsect ⦃image = paper⦄ n t ≡ (
          if ltb n t.file.blocks then ok (t.file.block n) (seek_to n t) else panic Reason.mkfs_read)
  unfolding rsect
  rsect-paper n t =
      let at : n * 1024 / 1024 ≡ n = omega arith in
      elim (Bool-cases (ltb n t.file.blocks)) [
        | inl within ↦ rw (!=_refl (n * 1024), at, within) refl
        | inr past ↦ rw (!=_refl (n * 1024), at, past) refl
      ]

  pub rsect-Follows :
      (n : ℕ) (t : Mkfs Paper) (s : MkfsState)
      → Sees t s
      → Follows (rsect n s) (rsect ⦃image = paper⦄ n t)
  unfolding rsect
  rsect-Follows n t s h = elim (Bool-cases (ltb n t.file.blocks)) [
    | inr past ↦ rw (rsect-paper n t, past) tt
    | inl within ↦
        let lt = ltb→lt n t.file.blocks within in
        let (f1, e1, o1, p1, b1, c1) = image.lseek_lem s.file (n * bsize) h.opened in
        let long1 : t.file.blocks ≤ image.blocks f1 = omega (arith, b1, h.long) in
        let (f2, e2, o2, b2, c2) = image.read_lem f1 n o1 p1 (omega (arith, lt, long1)) in
        rw (rsect-paper n t, within, e1, !=_refl (n * 1024), e2)
          (returns (
            ap (λ g. g n) c1 ∙ h.same n lt,
            record {
              opened = o2;
              long = omega (arith, b2, long1);
              same = λ m mlt. ap (λ g. g m) (c2 ∙ c1) ∙ h.same m mlt;
              sb = h.sb;
              freeblock = h.freeblock;
              freeinode = h.freeinode;
              printed = h.printed;
            },
          ))
  ]

  wsect-paper :
      (n : ℕ) (x : Block) (t : Mkfs Paper)
      → n < t.file.blocks
      → wsect ⦃image = paper⦄ n x t ≡ ok tt (put_block n x t)
  unfolding wsect
  wsect-paper n x t lt =
      let at : n * 1024 / 1024 ≡ n = omega arith in
      rw (!=_refl (n * 1024), at, lt→ltb n t.file.blocks lt) refl

  wsect-inside :
      (n : ℕ) (x : Block) (t : Mkfs Paper) (s : MkfsState)
      → Sees t s
      → n < t.file.blocks
      → Follows (wsect n x s) (wsect ⦃image = paper⦄ n x t)
  unfolding wsect
  wsect-inside n x t s h lt =
      let (f1, e1, o1, p1, b1, c1) = image.lseek_lem s.file (n * bsize) h.opened in
      let long1 : t.file.blocks ≤ image.blocks f1 = omega (arith, b1, h.long) in
      let (f2, e2, o2, b2, c2) = image.write_lem f1 n x o1 p1 (omega (arith, lt, long1)) in
      let inside : (n == image.blocks f1) ≡ false =
        ==-false n (image.blocks f1) (λ e. omega (arith, e, lt, long1)) in
      let b3 : image.blocks f2 ≡ image.blocks f1 = rw inside at b2 in
      rw (wsect-paper n x t lt, e1, !=_refl (n * 1024), e2)
        (returns (
          refl,
          record {
            opened = o2;
            long = omega (arith, b3, long1);
            same = λ m mlt.
                ap (λ g. g m) c2
                ∙ update_agree (image.block f1) t.file.block n x m
                    (ap (λ g. g m) c1 ∙ h.same m mlt);
            sb = h.sb;
            freeblock = h.freeblock;
            freeinode = h.freeinode;
            printed = h.printed;
          },
        ))

  -- Where the image agrees on the first `n` blocks, a write of block `n` makes it agree on `n + 1`.
  pub wsect-grows :
      (n : ℕ) (x : Block) (t : Mkfs Paper) (s : MkfsState)
      → Sees t s
      → t.file.blocks ≡ n
      → Returns (λ _. Sees (grow n x t)) (wsect n x s)
  unfolding wsect
  wsect-grows n x t s h e =
      let (f1, e1, o1, p1, b1, c1) = image.lseek_lem s.file (n * bsize) h.opened in
      let long1 : n ≤ image.blocks f1 = omega (arith, b1, h.long, e) in
      let (f2, e2, o2, b2, c2) = image.write_lem f1 n x o1 p1 long1 in
      let longer : n + 1 ≤ image.blocks f2 = elim (ℕ-cases n (image.blocks f1)) [
        | inl end ↦
            let is : (n == image.blocks f1) ≡ true = subst (λ m. (n == m) ≡ true) end (==_refl n) in
            let b3 : image.blocks f2 ≡ n + 1 = rw is at b2 in omega (arith, b3)
        | inr off ↦
            let b3 : image.blocks f2 ≡ image.blocks f1 =
              rw (==-false n (image.blocks f1) off) at b2 in
            omega (arith, b3, off, long1)
      ] in
      rw (e1, !=_refl (n * 1024), e2)
        (returns (record {
          opened = o2;
          long = longer;
          same = λ m mlt. ap (λ g. g m) c2 ∙ elim (ℕ-cases m n) [
            | inl at ↦ rw (at, ==_refl n) refl
            | inr off ↦ rw (==-false m n off) (ap (λ g. g m) c1 ∙ h.same m (omega arith))
          ];
          sb = h.sb;
          freeblock = h.freeblock;
          freeinode = h.freeinode;
          printed = h.printed;
        }))

  wsect-paper_past :
      (n : ℕ) (x : Block) (t : Mkfs Paper)
      → ltb n t.file.blocks ≡ false
      → wsect ⦃image = paper⦄ n x t ≡ (
          if n == t.file.blocks
          then ok tt (record (grow n x t) {
            file = record ((grow n x t).file) { blocks = t.file.blocks + 1 };
          })
          else panic Reason.mkfs_write)
  unfolding wsect
  wsect-paper_past n x t past =
      let at : n * 1024 / 1024 ≡ n = omega arith in
      elim (Bool-cases (n == t.file.blocks)) [
        | inl end ↦ rw (!=_refl (n * 1024), at, past, end) refl
        | inr far ↦ rw (!=_refl (n * 1024), at, past, far) refl
      ]

  pub wsect-Follows :
      (n : ℕ) (x : Block) (t : Mkfs Paper) (s : MkfsState)
      → Sees t s
      → Follows (wsect n x s) (wsect ⦃image = paper⦄ n x t)
  wsect-Follows n x t s h = elim (Bool-cases (ltb n t.file.blocks)) [
    | inl within ↦ wsect-inside n x t s h (ltb→lt n t.file.blocks within)
    | inr past ↦ elim (Bool-cases (n == t.file.blocks)) [
      | inr far ↦ rw (wsect-paper_past n x t past, far) tt
      | inl end ↦
          let e : t.file.blocks ≡ n = ground arith in
          rw (wsect-paper_past n x t past, end, e)
            (Runs.mono (wsect-grows n x t s h e) (λ a s' h'. (refl, h')))
    ]
  ]
