-- ===== src/Fs/Inode/Stored.antt =====
-- `iupdate` and `ilock` of fs/fs.c against the inodes on the disk.
use riscv_os_lab.Prelude.{
  ℕ, ◌+◌, ◌/◌, ◌≡◌, refl, sym, ◌∙◌, subst, fun_ext, ◌≢◌, inl, inr, true, false, some, arith,
  ==_refl, ==-false, ℕ-cases, update, update_self, update_ne,
}
use riscv_os_lab.Prelude.Runs
use riscv_os_lab.Prelude.Runs.{Run, ok, Cmd, and_then, ◌>>=◌, ◌>>◌, Returns, returns}
use riscv_os_lab.Fs.Bio.{Block, BlockDriver, Cache}
use riscv_os_lab.Fs.State.{Superblock, Inode, is_pos, FileSystem, set_inode, data_at, set_data}
use riscv_os_lab.Fs.Inode.{ipb, dinode_at, load_dinode, store_dinode, ilock, ilock_load, iupdate}
use riscv_os_lab.Fs.Inode.Dinode.{Fits, SameDinode, load_dinode-store_dinode}
use riscv_os_lab.Fs.Access.{
  Settled, OnDisk, with_cache, with_bread, with_bwrite, with_brelse, last_brelse, Holds-set,
}

-- the block of the disk that holds the dinode of `inum`
abbrev pub dinode_block : Superblock → ℕ → ℕ
dinode_block sb inum = sb.inodestart + inum / ipb

-- the inode `ip` with the dinode of `inum` loaded from the blocks `dk` of the disk
abbrev pub disk_inode : Superblock → (ℕ → Block) → ℕ → Inode → Inode
disk_inode sb dk inum ip = load_dinode (dk (dinode_block sb inum)) (dinode_at inum) ip

-- the blocks `dk` with the dinode of `ip` stored in them
abbrev pub store_inode : Superblock → Inode → (ℕ → Block) → ℕ → Block
store_inode sb ip dk =
    let n = dinode_block sb ip.inum in update dk n (store_dinode ip (dinode_at ip.inum) (dk n))

SameDinode-refl : (a : Inode) → SameDinode a a
SameDinode-refl a = record {
  kind = refl;
  major = refl;
  minor = refl;
  nlink = refl;
  size = refl;
  addrs = λ i h. refl;
}

update_twice : {A : Type 0} (t : ℕ → A) (i : ℕ) (x y : A) → update (update t i x) i y ≡ update t i y
update_twice t i x y = fun_ext (λ j. ground arith)

-- On the disk, the dinode of `ip` is stored, and that of every other inode is what it was.
pub store_inode_lem :
    (sb : Superblock) (ip old : Inode) (dk : ℕ → Block)
    → Fits ip
    → SameDinode (disk_inode sb (store_inode sb ip dk) ip.inum old) ip
      × ((j : ℕ)
          → j ≢ ip.inum
          → SameDinode (disk_inode sb (store_inode sb ip dk) j old) (disk_inode sb dk j old))
store_inode_lem sb ip old dk fits =
    let n = dinode_block sb ip.inum in
    let o = dinode_at ip.inum in
    let (stored, others) = load_dinode-store_dinode ip old o (dk n) fits in
    (
      rw (update_self dk n (store_dinode ip o (dk n))) stored,
      λ j other. elim (ℕ-cases (dinode_block sb j) n) [
        | inl same ↦
            rw (same, update_self dk n (store_dinode ip o (dk n)))
              (others (dinode_at j) (ground arith))
        | inr elsewhere ↦
            rw (update_ne dk n (store_dinode ip o (dk n)) elsewhere)
              (SameDinode-refl (load_dinode (dk (dinode_block sb j)) (dinode_at j) old))
      ],
    )

-- From the blocks `dk` to `dk'`, the dinode of `ip` is stored.
pub record Stored (sb : Superblock) (ip : Inode) (dk dk' : ℕ → Block) : Type 0 where
  pub stored : (old : Inode) → SameDinode (disk_inode sb dk' ip.inum old) ip
  pub others :
      (j : ℕ) (old : Inode)
      → j ≢ ip.inum
      → SameDinode (disk_inode sb dk' j old) (disk_inode sb dk j old)
  pub rest : (m : ℕ) → m ≢ dinode_block sb ip.inum → dk' m ≡ dk m

store_inode-Stored :
    (sb : Superblock) (ip : Inode) (dk : ℕ → Block)
    → Fits ip
    → Stored sb ip dk (store_inode sb ip dk)
store_inode-Stored sb ip dk fits = record {
  stored = λ old. (store_inode_lem sb ip old dk fits).0;
  others = λ j old. (store_inode_lem sb ip old dk fits).1 j;
  rest = λ m off. update_ne dk (dinode_block sb ip.inum) _ off;
}

module _ ⦃driver : BlockDriver⦄ where
  pub iupdate_lem :
      (i : ℕ) (dk : ℕ → Block) (s : FileSystem)
      → Settled (s.inode i).dev dk s.cache
      → Returns
          (λ _ s'. OnDisk (s.inode i).dev (store_inode s.sb (s.inode i) dk) s s')
          (iupdate i s)
  unfolding iupdate
  iupdate_lem i dk s h =
      let ip = s.inode i in
      let n = dinode_block s.sb ip.inum in
      let f = store_dinode ip (dinode_at ip.inum) in
      with_bread ip.dev n dk s _ h λ b c u.
        with_bwrite ip.dev n dk (set_data b f (with_cache s c)) b (f (dk n)) _
          (Holds-set ip.dev n b dk (dk n) f (with_cache s c) u)
          λ c1 u1.
            last_brelse ip.dev n (update dk n (f (dk n))) (with_cache s c1) b (f (dk n)) u1
              (sym (update_self dk n (f (dk n))))
              λ c2 h2. record { cache_only = refl; settled = h2 }

  pub iupdate-as :
      (i : ℕ) (ip : Inode) (dk : ℕ → Block) (s : FileSystem)
      → s.inode i ≡ ip
      → Settled ip.dev dk s.cache
      → Returns (λ _ s'. OnDisk ip.dev (store_inode s.sb ip dk) s s') (iupdate i s)
  iupdate-as i ip dk s e h =
      subst
        (λ (a : Inode). Returns (λ _ s'. OnDisk a.dev (store_inode s.sb a dk) s s') (iupdate i s)) e
        (iupdate_lem i dk s (subst (λ (a : Inode). Settled a.dev dk s.cache) (sym e) h))

  by_load :
      (i : ℕ) (s : FileSystem)
      → is_pos (s.inode i).ref ≡ true
      → (s.inode i).valid ≡ false
      → ilock (some i) s ≡ ilock_load i s
  unfolding ilock
  by_load i s held fresh = rw (held, fresh) refl

  -- what `ilock` leaves of an inode that was not read before
  abbrev pub locked : FileSystem → (ℕ → Block) → ℕ → Inode
  locked s dk i = record (disk_inode s.sb dk (s.inode i).inum (s.inode i)) { valid = true }

  pub ilock_load_lem :
      (i : ℕ) (dk : ℕ → Block) (s : FileSystem)
      → Settled (s.inode i).dev dk s.cache
      → (locked s dk i).kind ≢ 0
      → Returns
          (λ _ s'. OnDisk (s.inode i).dev dk (set_inode i (λ _. locked s dk i) s) s')
          (ilock_load i s)
  unfolding ilock_load
  ilock_load_lem i dk s h has_type =
      let ip = s.inode i in
      let n = dinode_block s.sb ip.inum in
      let loaded = disk_inode s.sb dk ip.inum ip in
      with_bread ip.dev n dk s _ h λ b c u.
        let s1 =
          set_inode i (load_dinode (data_at b (with_cache s c)) (dinode_at ip.inum))
            (with_cache s c) in
        with_brelse ip.dev n dk s1 b (dk n) _ u refl λ c1 h1.
          rw
            (
              u.1.holds,
              update_self s.inode i loaded,
              update_twice s.inode i loaded (locked s dk i),
              ==_refl i,
              ==-false (locked s dk i).kind 0 has_type,
            )
            (returns record { cache_only = refl; settled = h1 })

  pub ilock-fresh :
      (i : ℕ) (dk : ℕ → Block) (s : FileSystem)
      → Settled (s.inode i).dev dk s.cache
      → (locked s dk i).kind ≢ 0
      → is_pos (s.inode i).ref ≡ true
      → (s.inode i).valid ≡ false
      → Returns
          (λ _ s'. OnDisk (s.inode i).dev dk (set_inode i (λ _. locked s dk i) s) s')
          (ilock (some i) s)
  unfolding ilock
  ilock-fresh i dk s h has_type held fresh =
      subst (Returns (λ _ s'. OnDisk (s.inode i).dev dk (set_inode i (λ _. locked s dk i) s) s'))
        (sym (by_load i s held fresh)) (ilock_load_lem i dk s h has_type)

  -- With a coherent cache, `iupdate` of an inode whose fields fit their C types leaves a disk on
  -- which the inode reads as the one in memory and every other inode as it did before, and on
  -- which no block but that of the inode has changed; of the state of the file system only the
  -- cache changes, and it stays coherent.
  pub iupdate-Stored :
      (i : ℕ) (dk : ℕ → Block) (s : FileSystem)
      → Settled (s.inode i).dev dk s.cache
      → Fits (s.inode i)
      → Returns
          (λ _ s'.
            (dk' : ℕ → Block) × Stored s.sb (s.inode i) dk dk' × OnDisk (s.inode i).dev dk' s s')
          (iupdate i s)
  iupdate-Stored i dk s h fits =
      Runs.mono (iupdate_lem i dk s h)
        λ _ s' d. (store_inode s.sb (s.inode i) dk, store_inode-Stored s.sb (s.inode i) dk fits, d)

  SameDinode-locked :
      (s : FileSystem) (dk : ℕ → Block) (j : ℕ) (ip : Inode)
      → SameDinode (disk_inode s.sb dk (s.inode j).inum (s.inode j)) ip
      → SameDinode (locked s dk j) ip
  SameDinode-locked s dk j ip q = record {
    kind = q.kind;
    major = q.major;
    minor = q.minor;
    nlink = q.nlink;
    size = q.size;
    addrs = q.addrs;
  }

  -- the entry `j` of the table after `ilock`, against the entry `i` of `s`
  abbrev pub SameEntry : (i j : ℕ) → FileSystem → Unit {0} → FileSystem → Type 0
  SameEntry i j s _ s' =
      SameDinode (s'.inode j) (s.inode i)
      × ((s'.inode j).valid ≡ true)
      × ((s'.inode j).ref ≡ (s.inode j).ref)

  module _ (i j : ℕ) (dk dk' : ℕ → Block) (s : FileSystem) (c : Cache) where
    locked_entry :
        (s' : FileSystem)
        → SameDinode (locked s dk' j) (s.inode i)
        → (locked s dk' j).ref ≡ (s.inode j).ref
        → OnDisk (s.inode j).dev dk' (set_inode j (λ _. locked s dk' j) (with_cache s c)) s'
        → SameEntry i j s tt s'
    locked_entry s' q r d =
        subst (SameEntry i j s tt) (sym d.cache_only) (rw (==_refl j) (q, refl, r))

    ilock-Stored :
        Settled (s.inode i).dev dk' c
        → Stored s.sb (s.inode i) dk dk'
        → (s.inode i).kind ≢ 0
        → (s.inode j).dev ≡ (s.inode i).dev
        → (s.inode j).inum ≡ (s.inode i).inum
        → is_pos (s.inode j).ref ≡ true
        → (s.inode j).valid ≡ false
        → Returns (SameEntry i j s) (ilock (some j) (with_cache s c))
    ilock-Stored h st has_type dev inum held fresh =
        let q : SameDinode (disk_inode s.sb dk' (s.inode j).inum (s.inode j)) (s.inode i) =
          subst (λ (m : ℕ). SameDinode (disk_inode s.sb dk' m (s.inode j)) (s.inode i)) (sym inum)
            (st.stored (s.inode j)) in
        let kept : (locked s dk' j).ref ≡ (s.inode j).ref = unfold load_dinode in refl in
        Runs.mono
          (ilock-fresh j dk' (with_cache s c) (subst (λ (v : ℕ). Settled v dk' c) (sym dev) h)
            (λ e. has_type (sym q.kind ∙ e)) held fresh)
          λ _ s' d. locked_entry s' (SameDinode-locked s dk' j (s.inode i) q) kept d

  -- With a coherent cache, `iupdate` of an inode that has a type and whose fields fit their C
  -- types, followed by `ilock` of another entry of the table for the same inode, which has a
  -- reference and is not valid: the entry has the fields of the first, its 13 block addresses
  -- included, is valid and keeps its reference count.
  pub iupdate-ilock :
      (i j : ℕ) (dk : ℕ → Block) (s : FileSystem)
      → Settled (s.inode i).dev dk s.cache
      → Fits (s.inode i)
      → (s.inode i).kind ≢ 0
      → (s.inode j).dev ≡ (s.inode i).dev
      → (s.inode j).inum ≡ (s.inode i).inum
      → is_pos (s.inode j).ref ≡ true
      → (s.inode j).valid ≡ false
      → Returns (SameEntry i j s) ((iupdate i >> ilock (some j)) s)
  iupdate-ilock i j dk s h fits has_type dev inum held fresh =
      Runs.bind (iupdate-Stored i dk s h fits) λ _ s1 (dk', stored, d).
        subst (λ (t : FileSystem). Returns (SameEntry i j s) (ilock (some j) t)) (sym d.cache_only)
          (ilock-Stored i j dk dk' s s1.cache d.settled stored has_type dev inum held fresh)
