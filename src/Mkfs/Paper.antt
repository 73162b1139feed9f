-- ===== src/Mkfs/Paper.antt =====
-- The code of mkfs/mkfs.c run on an image in memory, as a reference for its runs on a file: what the
-- file holds is what the image holds.
use riscv_os_lab.Prelude.{
  ℕ, ◌+◌, ◌/◌, ◌≤◌, ◌<◌, ◌≡◌, refl, sym, ap, subst, inl, inr, true, false, arith, ltb, ◌==◌,
  if◌then◌else◌, lt→ltb, Bool-cases, update,
}
use riscv_os_lab.Prelude.Runs.{Run, ok, panic, out_of_fuel, fault, Cmd, and_then, Returns, returns}
use riscv_os_lab.Fs.Bio.{Block, bsize}
use riscv_os_lab.Mkfs.{ImageFile, Mkfs, MkfsState}

-- an image of `blocks` blocks, and a position in it
pub record Paper : Type 0 where
  pub block : ℕ → Block
  pub blocks : ℕ
  pub position : ℕ

-- A read or a write past the end moves nothing.
abbrev pub read_paper : Cmd Paper (ℕ × Block)
read_paper p =
    if ltb (p.position / bsize) p.blocks
    then ok (bsize, p.block (p.position / bsize)) p
    else ok (0, λ _. 0) p

abbrev pub write_paper : Block → Cmd Paper ℕ
write_paper x p =
    if ltb (p.position / bsize) p.blocks
    then ok bsize (record p { block = update p.block (p.position / bsize) x })
    else if p.position / bsize == p.blocks
    then ok bsize
        (record p { block = update p.block (p.position / bsize) x; blocks = p.blocks + 1 })
    else ok 0 p

pub write_ok :
    (f : Paper) (n : ℕ) (x : Block)
    → f.position / bsize ≡ n
    → n ≤ f.blocks
    → (f' : Paper) × (write_paper x f ≡ ok bsize f')
      × (Unit {0})
      × (f'.blocks ≡ (if n == f.blocks then n + 1 else f.blocks))
      × (f'.block ≡ update f.block n x)
write_ok f n x at le = elim (Bool-cases (ltb n f.blocks)) [
  | inl within ↦
      let inside : (n == f.blocks) ≡ false = ground arith in
      rw (at, within, inside) (_, refl, tt, refl, refl)
  | inr past ↦
      let end : n ≡ f.blocks = ground arith in
      let is : (n == f.blocks) ≡ true = ground arith in
      rw (at, past, is) (_, refl, tt, sym (ap (λ m. m + 1) end), refl)
]

abbrev pub paper : ImageFile
paper = record {
  File = Paper;
  IsOpen = λ _. Unit {0};
  position = λ p. p.position;
  blocks = λ p. p.blocks;
  block = λ p. p.block;
  lseek = λ to p. ok to (record p { position = to });
  read = read_paper;
  write = write_paper;
  lseek_lem = λ f to o. (_, refl, tt, refl, refl, refl);
  read_lem = λ f n o e lt.
      let at : f.position / bsize ≡ n = omega arith in
      let within : ltb n f.blocks ≡ true = lt→ltb n f.blocks lt in
      rw (at, within) (f, refl, tt, refl, refl);
  write_lem = λ f n x o e le. write_ok f n x (omega arith) le;
}

module _ ⦃image : ImageFile⦄ where
  -- The state `s` over the file agrees with `t` over the image, on the blocks that the image has.
  pub record Sees (t : Mkfs Paper) (s : MkfsState) : Type 0 where
    pub opened : image.IsOpen s.file
    pub long : t.file.blocks ≤ image.blocks s.file
    pub same : (n : ℕ) → n < t.file.blocks → image.block s.file n ≡ t.file.block n
    pub sb : s.sb ≡ t.sb
    pub freeblock : s.freeblock ≡ t.freeblock
    pub freeinode : s.freeinode ≡ t.freeinode
    pub printed : s.printed ≡ t.printed

  -- Where the run over the image returns, so does the run over the file, with the same result.
  abbrev pub Follows : {A : Type 0} → Run MkfsState A → Run (Mkfs Paper) A → Type 0
  Follows r (ok a t) = Returns (λ b s. (b ≡ a) × Sees t s) r
  Follows r (panic e) = Unit {0}
  Follows r out_of_fuel = Unit {0}
  Follows r fault = Unit {0}

  -- the state `t` with the file `f` in place of the image
  abbrev pub over : Mkfs Paper → image.File → MkfsState
  over t f = record {
    file = f;
    sb = t.sb;
    freeblock = t.freeblock;
    freeinode = t.freeinode;
    printed = t.printed;
  }

  pub over_file : (t : Mkfs Paper) (s : MkfsState) → Sees t s → s ≡ over t s.file
  over_file t s h = rw (← h.sb, ← h.freeblock, ← h.freeinode, ← h.printed) refl

  module _ {A B : Type 0} (k : A → Cmd MkfsState B) (l : A → Cmd (Mkfs Paper) B)
      (next : (a : A) (t : Mkfs Paper) (f : image.File)
        → Sees t (over t f)
        → Follows (k a (over t f)) (l a t)) where
    after :
        (a : A) (t : Mkfs Paper) (r : Run MkfsState A)
        → Returns (λ b s. (b ≡ a) × Sees t s) r
        → Follows (and_then r k) (l a t)
    after a t r (returns {a = b} {s = s} (e, h)) =
        let same : s ≡ over t s.file = over_file t s h in
        subst (λ x. Follows (k x s) (l a t)) (sym e)
          (subst (λ x. Follows (k a x) (l a t)) (sym same)
            (next a t s.file (subst (Sees t) same h)))

    pub then_Follows :
        (r : Run MkfsState A) (q : Run (Mkfs Paper) A)
        → Follows r q
        → Follows (and_then r k) (and_then q l)
    then_Follows r (ok a t) h = after a t r h
    then_Follows r (panic e) h = tt
    then_Follows r out_of_fuel h = tt
    then_Follows r fault h = tt

  -- A change of the static variables keeps the agreement.
  pub moved :
      (t t1 : Mkfs Paper) (f : image.File)
      → t.file ≡ t1.file
      → Sees t (over t f)
      → Sees t1 (over t1 f)
  moved t t1 f e h = record {
    opened = h.opened;
    long = rw (← e) h.long;
    same = λ n lt. subst (λ q. (m : ℕ) → m < q.blocks → image.block f m ≡ q.block m) e h.same n lt;
    sb = refl;
    freeblock = refl;
    freeinode = refl;
    printed = refl;
  }
