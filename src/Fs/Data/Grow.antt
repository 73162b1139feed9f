-- ===== src/Fs/Data/Grow.antt =====
-- `writei` of fs/fs.c on a file that may lack direct blocks of the range: `bmap` allocates them.
use riscv_os_lab.Prelude.{
  ℕ, zero, suc, ◌+◌, ◌-◌, ◌*◌, ◌/◌, ◌%◌, ◌≤◌, ◌<◌, ◌≡◌, refl, sym, ap, ◌∙◌, subst, ◌≢◌, inl, inr,
  arith, ltb, ◌==◌, ==_refl, ltb→lt, Bool-cases, update, update_self,
}
use riscv_os_lab.Prelude.Words.{Bytes, memmove}
use riscv_os_lab.Prelude.Runs
use riscv_os_lab.Prelude.Runs.{Run, ok, Cmd, and_then, ◌>>=◌, ◌>>◌, get, modify, Returns, returns}
use riscv_os_lab.Fs.Bio.{Block, BlockDriver, Cache, bsize}
use riscv_os_lab.Fs.State.{ndirect, FileSystem, set_data, bread, bwrite, brelse}
use riscv_os_lab.Fs.Access.{with_bread, with_bwrite, with_brelse, Holds-set}
use riscv_os_lab.Fs.Data.{chunk, writei_loop}
use riscv_os_lab.Fs.Data.Contents.{chunk-bounds, memmove_none}
use riscv_os_lab.Fs.Data.View.{file_view, written-WellKept, written-view}
use riscv_os_lab.Fs.Data.Mapped.{file, st, InWord, Kept, Mapped, bmap_lem}

move_base :
    (v v1 mem : Bytes) (src off n o : ℕ)
    → v1 o ≡ v o
    → memmove v1 off mem src n o ≡ memmove v off mem src n o
unfolding memmove
move_base v v1 mem src off n o e = ground (arith, e)

move_on :
    (v v1 mem : Bytes) (src off m left o : ℕ)
    → m ≤ left
    → v1 o ≡ memmove v off mem src m o
    → memmove v1 (off + m) mem (src + m) (left - m) o ≡ memmove v off mem src left o
unfolding memmove
move_on v v1 mem src off m left o le e = ground (arith, e)

module _ ⦃driver : BlockDriver⦄ (i : ℕ) (s0 : FileSystem) where
  -- what the rounds of `writei` leave that write `n` bytes at `off`
  pub record Filled (a : ℕ → ℕ) (dk : ℕ → Block) (mem : Bytes) (src off n end : ℕ) (s' : FileSystem)
      : Type 0 where
    pub a' : ℕ → ℕ
    pub dk' : ℕ → Block
    pub c' : Cache
    pub end_at : end ≡ off + n
    pub state : s' ≡ st i s0 a' c'
    pub kept : Kept i s0 a' dk' c'
    pub has : (o : ℕ) → off ≤ o → o < off + n → a' (o / bsize) ≢ 0
    pub stays : (k : ℕ) → k < ndirect → a k ≢ 0 → a' k ≡ a k
    pub small : InWord i s0 a → InWord i s0 a'
    pub seen :
        (o : ℕ)
        → o / bsize < ndirect
        → file_view dk' (file i s0 a') o ≡ memmove (file_view dk (file i s0 a)) off mem src n o

  nothing_left :
      (a : ℕ → ℕ) (dk : ℕ → Block) (c : Cache) (mem : Bytes) (src off : ℕ)
      → Kept i s0 a dk c
      → Filled a dk mem src off 0 off (st i s0 a c)
  nothing_left a dk c mem src off k = record {
    a' = a;
    dk' = dk;
    c' = c;
    end_at = omega arith;
    state = refl;
    kept = k;
    has = λ o lo hi. absurd (omega arith);
    stays = λ k lk h. refl;
    small = λ h. h;
    seen = λ o lo.
        sym (ap (λ (f : Bytes). f o) (memmove_none (file_view dk (file i s0 a)) off mem src));
  }

  then_filled :
      (bn : ℕ) (mem : Bytes) (src off m left : ℕ) (a : ℕ → ℕ) (dk dk1 : ℕ → Block) (end : ℕ)
      (s' : FileSystem)
      → m ≤ left
      → m + off % bsize ≤ bsize
      → off / bsize ≡ bn
      → a bn ≢ 0
      → bn < ndirect
      → ((o : ℕ)
          → o / bsize < ndirect
          → file_view dk1 (file i s0 a) o ≡ memmove (file_view dk (file i s0 a)) off mem src m o)
      → Filled a dk1 mem (src + m) (off + m) (left - m) end s'
      → Filled a dk mem src off left end s'
  then_filled bn mem src off m left a dk dk1 end s' le fits at there direct view p = record {
    a' = p.a';
    dk' = p.dk';
    c' = p.c';
    end_at = omega (arith, p.end_at);
    state = p.state;
    kept = p.kept;
    has = λ o lo hi. elim (Bool-cases (ltb o (off + m))) [
      | inl now ↦
          let lt = ltb→lt o (off + m) now in
          let same : o / bsize ≡ bn = omega arith in
          rw same (λ e. there (sym (p.stays bn direct there) ∙ e))
      | inr later ↦ p.has o (ground arith) (omega arith)
    ];
    stays = p.stays;
    small = p.small;
    seen = λ o lo.
        p.seen o lo
        ∙ move_on (file_view dk (file i s0 a)) (file_view dk1 (file i s0 a)) mem src off m left o le
            (view o lo);
  }

  -- a round after its call of `bmap`
  abbrev round_rest : ℕ → Bytes → (src off left : ℕ) → ℕ → Cmd FileSystem ℕ
  round_rest fuel mem src off left blockno = do
    s ← get
    bp ← bread (s.inode i).dev blockno
    let m = chunk off left
    modify (set_data bp (λ d. memmove d (off % bsize) mem src m))
    bwrite bp
    brelse bp
    writei_loop fuel i mem (src + m) (off + m) (left - m)

  round_lem :
      (fuel : ℕ) (mem : Bytes) (src off left : ℕ) (a : ℕ → ℕ) (dk : ℕ → Block) (c : Cache)
      → ((j : ℕ) → mem j < 256)
      → left ≢ 0
      → off / bsize < ndirect
      → a (off / bsize) ≢ 0
      → Kept i s0 a dk c
      → ((dk1 : ℕ → Block) (c1 : Cache)
          → Kept i s0 a dk1 c1
          → Returns
              (Filled a dk1 mem
                (src + chunk off left)
                (off + chunk off left)
                (left - chunk off left))
              (writei_loop fuel i mem
                (src + chunk off left)
                (off + chunk off left)
                (left - chunk off left)
                (st i s0 a c1)))
      → Returns
          (Filled a dk mem src off left)
          (round_rest fuel mem src off left (a (off / bsize)) (st i s0 a c))
  round_lem fuel mem src off left a dk c small some_left direct there k rest =
      let dev = (s0.inode i).dev in
      let n = a (off / bsize) in
      let m = chunk off left in
      let x = memmove (dk n) (off % bsize) mem src m in
      let (m_some, m_le, m_fits) = chunk-bounds off left some_left in
      rw (==_refl i) (
        with_bread dev n dk (st i s0 a c) _ k.settled λ b c1 u.
          with_bwrite dev n dk (set_data b (λ d. memmove d (off % bsize) mem src m) (st i s0 a c1))
            b x _
            (Holds-set dev n b dk (dk n) (λ d. memmove d (off % bsize) mem src m) (st i s0 a c1) u)
            λ c2 u2.
              with_brelse dev n (update dk n x) (st i s0 a c2) b x _ u2 (sym (update_self dk n x))
                λ c3 h3.
                  Runs.mono
                    (rest (update dk n x) c3 (record {
                      settled = h3;
                      well =
                          written-WellKept s0.sb (file i s0 a) dk mem src off m k.well direct there
                            small;
                    }))
                    λ end s' p.
                      then_filled (off / bsize) mem src off m left a dk (update dk n x) end s' m_le
                        m_fits refl there direct
                        (written-view s0.sb (file i s0 a) dk mem src off m k.well direct there
                          m_fits)
                        p)

  after_bmap :
      (a : ℕ → ℕ) (dk : ℕ → Block) (bn r : ℕ) (s1 : FileSystem) (mp : Mapped i s0 a dk bn r s1)
      (mem : Bytes) (src off left end : ℕ) (s' : FileSystem)
      → Filled mp.a' mp.dk' mem src off left end s'
      → Filled a dk mem src off left end s'
  after_bmap a dk bn r s1 mp mem src off left end s' p = record {
    a' = p.a';
    dk' = p.dk';
    c' = p.c';
    end_at = p.end_at;
    state = p.state;
    kept = p.kept;
    has = p.has;
    small = λ h. p.small (mp.small h);
    stays = λ k lk h. p.stays k lk (λ e. h (sym (mp.stays k lk h) ∙ e)) ∙ mp.stays k lk h;
    seen = λ o lo.
        p.seen o lo
        ∙ move_base (file_view dk (file i s0 a)) (file_view mp.dk' (file i s0 mp.a')) mem src off
            left o (mp.seen o lo);
  }

  pub writei_loop-Filled :
      (fuel : ℕ) (mem : Bytes) (src off left : ℕ) (a : ℕ → ℕ) (dk : ℕ → Block) (c : Cache)
      → ((j : ℕ) → mem j < 256)
      → left ≤ fuel
      → off + left ≤ ndirect * bsize
      → Kept i s0 a dk c
      → Returns (Filled a dk mem src off left) (writei_loop fuel i mem src off left (st i s0 a c))
  unfolding writei_loop
  writei_loop-Filled zero mem src off left a dk c small le direct k =
      let e : left ≡ 0 = ground arith in rw e (returns (nothing_left a dk c mem src off k))
  writei_loop-Filled (suc fuel) mem src off left a dk c small le direct k =
      elim (Bool-cases (left == 0)) [
        | inl y ↦
            let e : left ≡ 0 = ground arith in rw e (returns (nothing_left a dk c mem src off k))
        | inr z ↦
            let some_left : left ≢ 0 = ground arith in
            let (m_some, m_le, m_fits) = chunk-bounds off left some_left in
            let here : off / bsize < ndirect = omega arith in
            rw z (
              Runs.bind (bmap_lem i s0 a dk c (off / bsize) here k) λ r s1 mp.
                subst
                  (λ (v : ℕ).
                    Returns (Filled a dk mem src off left) (round_rest fuel mem src off left v s1))
                  (sym mp.result)
                  (subst
                    (λ (t : FileSystem).
                      Returns (Filled a dk mem src off left)
                        (round_rest fuel mem src off left (mp.a' (off / bsize)) t))
                    (sym mp.state)
                    (Runs.mono
                      (round_lem fuel mem src off left mp.a' mp.dk' mp.c' small some_left here
                        mp.there mp.kept
                        λ dk1 c1 k1.
                          writei_loop-Filled fuel mem (src + chunk off left) (off + chunk off left)
                            (left - chunk off left) mp.a' dk1 c1 small (omega arith) (omega arith)
                            k1)
                      λ end s' p. after_bmap a dk (off / bsize) r s1 mp mem src off left end s' p)))
      ]
