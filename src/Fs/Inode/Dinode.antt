-- ===== src/Fs/Inode/Dinode.antt =====
-- The 64 bytes of a dinode: what `iupdate` of fs/fs.c writes, `ilock` reads.
use riscv_os_lab.Prelude.{
  ℕ, zero, suc, ◌+◌, ◌*◌, ◌^◌, ◌≤◌, ◌<◌, ◌≡◌, refl, ◌∙◌, ◌⊎◌, inl, inr, arith, ℕ-cases,
}
use riscv_os_lab.Prelude.Words.{load32, store16, store32, load16-store16_self}
use riscv_os_lab.Prelude.Fields.{
  SameRange, load16-frame, load32-frame, load32-store32_self, store16-SameRange, store32-SameRange,
}
use riscv_os_lab.Fs.Bio.{Block}
use riscv_os_lab.Fs.State.{ndirect, Inode}
use riscv_os_lab.Fs.Inode.{load_dinode, store_addrs, store_dinode}

-- Every field fits its type.
pub record Fits (ip : Inode) : Type 0 where
  pub kind : ip.kind < 2 ^ 16
  pub major : ip.major < 2 ^ 16
  pub minor : ip.minor < 2 ^ 16
  pub nlink : ip.nlink < 2 ^ 16
  pub size : ip.size < 2 ^ 32
  pub addrs : (i : ℕ) → ip.addrs i < 2 ^ 32

-- the same contents, as far as a dinode holds them
pub record SameDinode (a b : Inode) : Type 0 where
  pub kind : a.kind ≡ b.kind
  pub major : a.major ≡ b.major
  pub minor : a.minor ≡ b.minor
  pub nlink : a.nlink ≡ b.nlink
  pub size : a.size ≡ b.size
  pub addrs : (i : ℕ) → i < ndirect + 1 → a.addrs i ≡ b.addrs i

store_addrs-SameRange :
    (n i : ℕ) (addrs : ℕ → ℕ) (o : ℕ) (d : Block) (b k : ℕ)
    → (b + k ≤ o + 12 + 4 * i) ⊎ (o + 12 + 4 * (i + n) ≤ b)
    → SameRange b k d (store_addrs n i addrs o d)
unfolding store_addrs
store_addrs-SameRange zero i addrs o d b k h e lt = refl
store_addrs-SameRange (suc n) i addrs o d b k h e lt =
    store_addrs-SameRange n (i + 1) addrs o (store32 d (o + 12 + 4 * i) (addrs i)) b k
      (elim h [ inl l ↦ inl (omega arith) | inr r ↦ inr (omega arith) ]) e lt
    ∙ store32-SameRange d (o + 12 + 4 * i) (addrs i) b k
        (elim h [ inl l ↦ inl (omega arith) | inr r ↦ inr (omega arith) ]) e lt

store_addrs-load :
    (n i : ℕ) (addrs : ℕ → ℕ) (o : ℕ) (d : Block) (j : ℕ)
    → i ≤ j
    → j < i + n
    → addrs j < 2 ^ 32
    → load32 (store_addrs n i addrs o d) (o + 12 + 4 * j) ≡ addrs j
unfolding store_addrs
store_addrs-load zero i addrs o d j lo hi fits = absurd (omega arith)
store_addrs-load (suc n) i addrs o d j lo hi fits = elim (ℕ-cases j i) [
  | inr off ↦
      store_addrs-load n (i + 1) addrs o (store32 d (o + 12 + 4 * i) (addrs i)) j (omega arith)
        (omega arith) fits
  | inl at ↦
      let d' = store32 d (o + 12 + 4 * i) (addrs i) in
      rw at (
        load32-frame d' (store_addrs n (i + 1) addrs o d') (o + 12 + 4 * i)
          (store_addrs-SameRange n (i + 1) addrs o d' (o + 12 + 4 * i) 4 (inl (omega arith)))
        ∙ load32-store32_self d (o + 12 + 4 * i) (addrs i) (rw at at fits))
]

-- the block as the fields before the addresses leave it
abbrev with_fields : Inode → ℕ → Block → Block
with_fields ip o d =
    store32
      (store16 (store16 (store16 (store16 d o ip.kind) (o + 2) ip.major) (o + 4) ip.minor) (o + 6)
        ip.nlink)
      (o + 8) ip.size

store_dinode-eq :
    (ip : Inode) (o : ℕ) (d : Block)
    → store_dinode ip o d ≡ store_addrs (ndirect + 1) 0 ip.addrs o (with_fields ip o d)
unfolding store_dinode
store_dinode-eq ip o d = refl

-- Outside its 64 bytes nothing changes.
pub store_dinode-SameRange :
    (ip : Inode) (o : ℕ) (d : Block) (b k : ℕ)
    → (b + k ≤ o) ⊎ (o + 64 ≤ b)
    → SameRange b k d (store_dinode ip o d)
store_dinode-SameRange ip o d b k h e lt =
    let d1 = store16 d o ip.kind in
    let d2 = store16 d1 (o + 2) ip.major in
    let d3 = store16 d2 (o + 4) ip.minor in
    let d4 = store16 d3 (o + 6) ip.nlink in
    rw (store_dinode-eq ip o d) (
      store_addrs-SameRange 13 0 ip.addrs o (with_fields ip o d) b k
        (elim h [ inl l ↦ inl (omega arith) | inr r ↦ inr (omega arith) ]) e lt
      ∙ store32-SameRange d4 (o + 8) ip.size b k
          (elim h [ inl l ↦ inl (omega arith) | inr r ↦ inr (omega arith) ]) e lt
      ∙ store16-SameRange d3 (o + 6) ip.nlink b k
          (elim h [ inl l ↦ inl (omega arith) | inr r ↦ inr (omega arith) ]) e lt
      ∙ store16-SameRange d2 (o + 4) ip.minor b k
          (elim h [ inl l ↦ inl (omega arith) | inr r ↦ inr (omega arith) ]) e lt
      ∙ store16-SameRange d1 (o + 2) ip.major b k
          (elim h [ inl l ↦ inl (omega arith) | inr r ↦ inr (omega arith) ]) e lt
      ∙ store16-SameRange d o ip.kind b k
          (elim h [ inl l ↦ inl (omega arith) | inr r ↦ inr (omega arith) ]) e lt)

-- the block after the first one, two, three and four fields
abbrev with_kind : Inode → ℕ → Block → Block
with_kind ip o d = store16 d o ip.kind

abbrev with_major : Inode → ℕ → Block → Block
with_major ip o d = store16 (with_kind ip o d) (o + 2) ip.major

abbrev with_minor : Inode → ℕ → Block → Block
with_minor ip o d = store16 (with_major ip o d) (o + 4) ip.minor

abbrev with_nlink : Inode → ℕ → Block → Block
with_nlink ip o d = store16 (with_minor ip o d) (o + 6) ip.nlink

-- A store does not reach back over the fields before it.
module _ (ip : Inode) (o : ℕ) (d : Block) where
  after_size : (b k : ℕ) → b + k ≤ o + 12 → SameRange b k (with_fields ip o d) (store_dinode ip o d)
  after_size b k h e lt =
      rw (store_dinode-eq ip o d)
        (store_addrs-SameRange 13 0 ip.addrs o (with_fields ip o d) b k (inl (omega arith)) e lt)

  after_nlink : (b k : ℕ) → b + k ≤ o + 8 → SameRange b k (with_nlink ip o d) (store_dinode ip o d)
  after_nlink b k h e lt =
      after_size b k (omega arith) e lt
      ∙ store32-SameRange (with_nlink ip o d) (o + 8) ip.size b k (inl h) e lt

  after_minor : (b k : ℕ) → b + k ≤ o + 6 → SameRange b k (with_minor ip o d) (store_dinode ip o d)
  after_minor b k h e lt =
      after_nlink b k (omega arith) e lt
      ∙ store16-SameRange (with_minor ip o d) (o + 6) ip.nlink b k (inl h) e lt

  after_major : (b k : ℕ) → b + k ≤ o + 4 → SameRange b k (with_major ip o d) (store_dinode ip o d)
  after_major b k h e lt =
      after_minor b k (omega arith) e lt
      ∙ store16-SameRange (with_major ip o d) (o + 4) ip.minor b k (inl h) e lt

  after_kind : (b k : ℕ) → b + k ≤ o + 2 → SameRange b k (with_kind ip o d) (store_dinode ip o d)
  after_kind b k h e lt =
      after_major b k (omega arith) e lt
      ∙ store16-SameRange (with_kind ip o d) (o + 2) ip.major b k (inl h) e lt

-- A dinode that lies wholly before or after reads as it did.
other_dinode :
    (ip old : Inode) (o : ℕ) (d : Block) (p : ℕ)
    → (p + 64 ≤ o) ⊎ (o + 64 ≤ p)
    → SameDinode (load_dinode (store_dinode ip o d) p old) (load_dinode d p old)
unfolding load_dinode
other_dinode ip old o d p apart =
    let e = store_dinode ip o d in
    let part = λ (i k : ℕ) (le : i + k ≤ 64).
      store_dinode-SameRange ip o d (p + i) k
        (elim apart [ inl l ↦ inl (omega arith) | inr r ↦ inr (omega arith) ]) in
    record {
      kind = load16-frame d e p (
          store_dinode-SameRange ip o d p 2
            (elim apart [ inl l ↦ inl (omega arith) | inr r ↦ inr (omega arith) ]));
      major = load16-frame d e (p + 2) (part 2 2 (omega arith));
      minor = load16-frame d e (p + 4) (part 4 2 (omega arith));
      nlink = load16-frame d e (p + 6) (part 6 2 (omega arith));
      size = load32-frame d e (p + 8) (part 8 4 (omega arith));
      addrs = λ i lt. load32-frame d e (p + 12 + 4 * i) (
          store_dinode-SameRange ip o d (p + 12 + 4 * i) 4
            (elim apart [ inl l ↦ inl (omega arith) | inr r ↦ inr (omega arith) ]));
    }

-- When every field of an inode fits its C type, the dinode that `ilock` reads from the bytes
-- `iupdate` wrote at `o` has the fields of that inode, its 13 block addresses included, and a
-- dinode that lies wholly before or after these 64 bytes reads as it did before.
pub load_dinode-store_dinode :
    (ip old : Inode) (o : ℕ) (d : Block)
    → Fits ip
    → SameDinode (load_dinode (store_dinode ip o d) o old) ip
      × ((p : ℕ)
          → (p + 64 ≤ o) ⊎ (o + 64 ≤ p)
          → SameDinode (load_dinode (store_dinode ip o d) p old) (load_dinode d p old))
unfolding load_dinode
load_dinode-store_dinode ip old o d fits =
    let e = store_dinode ip o d in
    let own : SameDinode (load_dinode e o old) ip = record {
      kind =
          load16-frame (with_kind ip o d) e o (after_kind ip o d o 2 (omega arith))
          ∙ load16-store16_self d o ip.kind fits.kind;
      major =
          load16-frame (with_major ip o d) e (o + 2) (after_major ip o d (o + 2) 2 (omega arith))
          ∙ load16-store16_self (with_kind ip o d) (o + 2) ip.major fits.major;
      minor =
          load16-frame (with_minor ip o d) e (o + 4) (after_minor ip o d (o + 4) 2 (omega arith))
          ∙ load16-store16_self (with_major ip o d) (o + 4) ip.minor fits.minor;
      nlink =
          load16-frame (with_nlink ip o d) e (o + 6) (after_nlink ip o d (o + 6) 2 (omega arith))
          ∙ load16-store16_self (with_minor ip o d) (o + 6) ip.nlink fits.nlink;
      size =
          load32-frame (with_fields ip o d) e (o + 8) (after_size ip o d (o + 8) 4 (omega arith))
          ∙ load32-store32_self (with_nlink ip o d) (o + 8) ip.size fits.size;
      addrs = λ i lt.
          rw (store_dinode-eq ip o d) (
            store_addrs-load 13 0 ip.addrs o (with_fields ip o d) i (omega arith) lt
              (fits.addrs i));
    } in
    (own, other_dinode ip old o d)
