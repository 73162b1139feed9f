-- ===== src/Fs/Data/View.antt =====
-- The contents of a file of fs/fs.c whose blocks may be missing, and what `balloc` and a write to a block
-- do to them.
use riscv_os_lab.Prelude.{
  ℕ, ◌+◌, ◌-◌, ◌/◌, ◌%◌, ◌≤◌, ◌<◌, ◌≡◌, refl, sym, ap, ◌∙◌, subst, ◌≢◌, inl, inr, true, false, ◌&&◌,
  arith, ltb, leb, ◌==◌, if◌then◌else◌, ==_refl, ==-false, Bool-cases, ℕ-cases, update, update_self,
  update_ne,
}
use riscv_os_lab.Prelude.Words.{Bytes, memmove}
use riscv_os_lab.Fs.Bio.{Block, bsize}
use riscv_os_lab.Fs.State.{ndirect, Superblock, Inode}
use riscv_os_lab.Fs.Bitmap.Count.{count, count-same, count-less}
use riscv_os_lab.Fs.Bitmap.Marks.{disk_free, OfBytes, NotBitmap, Allocated}
use riscv_os_lab.Fs.Bitmap.Scan.{is_clear}
use riscv_os_lab.Fs.Bitmap.{bpb}
use riscv_os_lab.Fs.Inode.Stored.{dinode_block}
use riscv_os_lab.Fs.Data.{set_addr}
use riscv_os_lab.Fs.Data.Contents.{file_bytes}
use riscv_os_lab.Fs.Data.Overwrite.{OneBlockEach, chunk-Written}

-- byte `o` of the file, 0 where it has no block
abbrev pub file_view : (ℕ → Block) → Inode → Bytes
file_view dk ip o = if ip.addrs (o / bsize) == 0 then 0 else file_bytes dk ip o

-- how many direct blocks the file does not have, and how many blocks are free
abbrev pub missing : Inode → ℕ
missing ip = count ndirect (λ k. ip.addrs k == 0)

abbrev pub free_blocks : Superblock → (ℕ → Block) → ℕ
free_blocks sb dk = count sb.size (disk_free sb dk)

-- The direct blocks of the file are in use, each at one place, and none is of the bitmap; no free block is
-- block 0 or of the bitmap; the block of its inode is in use for that only; and there are free blocks for those that the file does not have.
pub record WellKept (sb : Superblock) (ip : Inode) (dk : ℕ → Block) : Type 0 where
  pub bytes : OfBytes dk
  pub used : (k : ℕ) → k < ndirect → ip.addrs k ≢ 0 → disk_free sb dk (ip.addrs k) ≡ false
  pub inside : (k : ℕ) → k < ndirect → ip.addrs k ≢ 0 → ip.addrs k < sb.size
  pub apart : (k : ℕ) → k < ndirect → ip.addrs k ≢ 0 → NotBitmap sb (ip.addrs k)
  pub one : OneBlockEach ip
  pub reserved : (y : ℕ) → y < sb.size → disk_free sb dk y ≡ true → (y ≢ 0) × NotBitmap sb y
  pub home_used : disk_free sb dk (dinode_block sb ip.inum) ≡ false
  pub home_inside : dinode_block sb ip.inum < sb.size
  pub home_apart : (k : ℕ) → k < ndirect → ip.addrs k ≢ 0 → ip.addrs k ≢ dinode_block sb ip.inum
  pub enough : missing ip ≤ free_blocks sb dk

-- Block `x` is taken for the direct block `bn`, which the file does not have.
module _ (sb : Superblock) (ip : Inode) (dk dk' : ℕ → Block) (bn x : ℕ) (w : WellKept sb ip dk)
    (a : Allocated sb x dk dk') (direct : bn < ndirect) (lacks : ip.addrs bn ≡ 0) (lt : x < sb.size)
    (free : disk_free sb dk x ≡ true) where
  other_block : (k : ℕ) → k < ndirect → ip.addrs k ≢ 0 → ip.addrs k ≢ x
  other_block k lk there e =
      let in_use : disk_free sb dk x ≡ false =
        subst (λ (y : ℕ). disk_free sb dk y ≡ false) e (w.used k lk there) in
      cc

  other_home : dinode_block sb ip.inum ≢ x
  other_home e =
      let in_use : disk_free sb dk x ≡ false =
        subst (λ (y : ℕ). disk_free sb dk y ≡ false) e w.home_used in
      cc

  taken-used :
      (k : ℕ)
      → k < ndirect
      → (if k == bn then x else ip.addrs k) ≢ 0
      → disk_free sb dk' (if k == bn then x else ip.addrs k) ≡ false
  taken-used k lk there = elim (Bool-cases (k == bn)) [
    | inl y ↦ rw y (a.used)
    | inr z ↦
        let there' : ip.addrs k ≢ 0 = rw z at there in
        rw z (
          a.others (ip.addrs k) (w.inside k lk there') (other_block k lk there')
          ∙ w.used k lk there')
  ]

  taken-one : OneBlockEach (set_addr bn x ip)
  taken-one j k lj lk there e = elim (Bool-cases (j == bn)) [
    | inl y ↦ elim (Bool-cases (k == bn)) [
      | inl y' ↦ ground arith
      | inr z' ↦
          let e' : x ≡ ip.addrs k = rw (y, z') at e in
          let there' : x ≢ 0 = rw y at there in
          absurd (other_block k lk (λ h. there' (e' ∙ h)) (sym e'))
    ]
    | inr z ↦ elim (Bool-cases (k == bn)) [
      | inl y' ↦
          let e' : ip.addrs j ≡ x = rw (z, y') at e in
          let there' : ip.addrs j ≢ 0 = rw z at there in absurd (other_block j lj there' e')
      | inr z' ↦
          let e' : ip.addrs j ≡ ip.addrs k = rw (z, z') at e in
          let there' : ip.addrs j ≢ 0 = rw z at there in w.one j k lj lk there' e'
    ]
  ]

  pub taken-WellKept : WellKept sb (set_addr bn x ip) dk'
  taken-WellKept =
      let (some_block, no_bitmap) = w.reserved x lt free in
      record {
        bytes = a.of_bytes;
        used = taken-used;
        inside = λ k lk there. elim (Bool-cases (k == bn)) [
          | inl y ↦ rw y lt
          | inr z ↦ rw z (w.inside k lk (rw z at there))
        ];
        apart = λ k lk there. elim (Bool-cases (k == bn)) [
          | inl y ↦ rw y no_bitmap
          | inr z ↦ rw z (w.apart k lk (rw z at there))
        ];
        one = taken-one;
        reserved = λ y ly is.
            let other : y ≢ x = (λ e.
              let in_use : disk_free sb dk' y ≡ false =
                subst (λ (v : ℕ). disk_free sb dk' v ≡ false) (sym e) a.used in
              cc) in
            w.reserved y ly (sym (a.others y ly other) ∙ is);
        home_used = a.others (dinode_block sb ip.inum) w.home_inside other_home ∙ w.home_used;
        home_inside = w.home_inside;
        home_apart = λ k lk there. elim (Bool-cases (k == bn)) [
          | inl y ↦ rw y (λ e. other_home (sym e))
          | inr z ↦ rw z (w.home_apart k lk (rw z at there))
        ];
        enough =
            (let one_more =
                count-less ndirect bn (λ k. ip.addrs k == 0) (λ k. (set_addr bn x ip).addrs k == 0)
                  direct (rw lacks refl) (rw (==_refl bn) (==-false x 0 some_block))
                  (λ k lk off. rw (==-false k bn off) refl) in
              let one_less =
                count-less sb.size x (disk_free sb dk) (disk_free sb dk') lt free a.used a.others in
              omega (arith, w.enough, one_more, one_less));
      }

  pub taken-view :
      (o : ℕ) → o / bsize < ndirect → file_view dk' (set_addr bn x ip) o ≡ file_view dk ip o
  taken-view o lo =
      let k = o / bsize in
      let (some_block, no_bitmap) = w.reserved x lt free in
      elim (ℕ-cases k bn) [
        | inl at ↦
            let zero_byte : dk' x (o % bsize) ≡ 0 = a.cleared (o % bsize) (omega arith) in
            rw (at, ==_refl bn, lacks, ==-false x 0 some_block) zero_byte
        | inr off ↦ rw (==-false k bn off) (elim (ℕ-cases (ip.addrs k) 0) [
          | inl none_there ↦ rw none_there refl
          | inr there ↦
              rw
                (a.rest (ip.addrs k) (other_block k lo there)
                  (λ e. w.apart k lo there x lt (sym e)))
                refl
        ])
      ]

-- The bytes of `mem` are written to a direct block that the file has.
module _ (sb : Superblock) (ip : Inode) (dk : ℕ → Block) (mem : Bytes) (src off m : ℕ)
    (w : WellKept sb ip dk) (direct : off / bsize < ndirect)
    (there : ip.addrs (off / bsize) ≢ 0) where
  abbrev pub chunk_written : ℕ → Block
  chunk_written =
      update dk (ip.addrs (off / bsize))
        (memmove (dk (ip.addrs (off / bsize))) (off % bsize) mem src m)

  same_bitmap : (y : ℕ) → y < sb.size → disk_free sb chunk_written y ≡ disk_free sb dk y
  same_bitmap y lt =
      ap (λ (d : Block). is_clear (d (y % bpb / 8)) (y % 8))
        (update_ne dk (ip.addrs (off / bsize)) _ (w.apart (off / bsize) direct there y lt))

  written_bytes : ((i : ℕ) → mem i < 256) → OfBytes chunk_written
  unfolding memmove
  written_bytes small b i = elim (ℕ-cases b (ip.addrs (off / bsize))) [
    | inr other ↦
        rw
          (update_ne dk (ip.addrs (off / bsize))
            (memmove (dk (ip.addrs (off / bsize))) (off % bsize) mem src m) other)
          (w.bytes b i)
    | inl same ↦
        rw
          (
            same,
            update_self dk (ip.addrs (off / bsize))
                (memmove (dk (ip.addrs (off / bsize))) (off % bsize) mem src m),
          )
          (elim (Bool-cases (leb (off % bsize) i && ltb i (off % bsize + m))) [
            | inl is ↦ rw is (small (src + (i - off % bsize)))
            | inr isnt ↦ rw isnt (w.bytes (ip.addrs (off / bsize)) i)
          ])
  ]

  pub written-WellKept : ((i : ℕ) → mem i < 256) → WellKept sb ip chunk_written
  written-WellKept small = record {
    bytes = written_bytes small;
    used = λ k lk th. same_bitmap (ip.addrs k) (w.inside k lk th) ∙ w.used k lk th;
    inside = w.inside;
    apart = w.apart;
    one = w.one;
    reserved = λ y ly is. w.reserved y ly (sym (same_bitmap y ly) ∙ is);
    home_used = same_bitmap (dinode_block sb ip.inum) w.home_inside ∙ w.home_used;
    home_inside = w.home_inside;
    home_apart = w.home_apart;
    enough =
        (let same = count-same sb.size (disk_free sb dk) (disk_free sb chunk_written) same_bitmap in
          omega (arith, w.enough, same));
  }

  pub written-view :
      m + off % bsize ≤ bsize
      → (o : ℕ) → o / bsize < ndirect
      → file_view chunk_written ip o ≡ memmove (file_view dk ip) off mem src m o
  unfolding memmove
  written-view fits o lo =
      let wr = chunk-Written ip mem src off m dk w.one direct there fits in
      elim (ℕ-cases (ip.addrs (o / bsize)) 0) [
        | inl none_there ↦
            let elsewhere : o / bsize ≢ off / bsize =
              (λ e. there (ap ip.addrs (sym e) ∙ none_there)) in
            rw none_there (ground arith)
        | inr some_there ↦
            let inside = wr.inside o lo some_there in
            rw (==-false (ip.addrs (o / bsize)) 0 some_there) (inside)
      ]
