-- ===== src/Mm/Kalloc.antt =====
-- mm/kalloc.c: the physical page allocator. A free page holds the address of the next one in its
-- first 8 bytes. Memory is the whole byte-addressed memory; `end_address`, the linker's symbol, is
-- a parameter.
pub mod FreeList
pub mod Init
pub mod Tests
use riscv_os_lab.Prelude.{
  ℕ, zero, suc, ◌+◌, ◌-◌, ◌*◌, ◌/◌, ◌%◌, ◌^◌, ◌≤◌, ◌<◌, min, ◌≡◌, refl, sym, ap, ◌∙◌, subst,
  fun_ext, ◌≢◌, ◌⊎◌, inl, inr, Bool, true, false, ◌&&◌, ◌||◌, not, Option, none, some, List, [],
  ◌∷◌, ◌++◌, map, arith, ltb, leb, ◌==◌, ◌!=◌, if◌then◌else◌, is_some, length, ==_refl, ==-false,
  ltb→lt, lt→ltb, Bool-cases, Option-cases, ℕ-cases, update, find_first, find_first-some,
  find_first-none, update_self, update_ne,
}
use riscv_os_lab.Prelude.Words.{Bytes, load64, store64}
use riscv_os_lab.Prelude.Runs.{Reason, Run, ok, panic, out_of_fuel, Cmd, ◌>>=◌, ◌>>◌, pure}

abbrev pub pgsize : ℕ
pgsize = 4096

-- KERNBASE + 128 * 1024 * 1024
abbrev pub phystop : ℕ
phystop = 0x8800_0000

-- PGROUNDUP and PGROUNDDOWN, on 64-bit addresses
abbrev pub pgroundup : ℕ → ℕ
pgroundup a = (a + pgsize - 1) % 2 ^ 64 / pgsize * pgsize

abbrev pub pgrounddown : ℕ → ℕ
pgrounddown a = a / pgsize * pgsize

-- Memory and the head of the list of free pages; 0 is the null pointer.
pub record Pages : Type 0 where
  pub mem : Bytes
  pub free_mem_list : ℕ

-- p[i] = 0 for the `n` words from address `p` on
unfoldable pub zero_words : ℕ → ℕ → Bytes → Bytes
zero_words zero p m = m
zero_words (suc n) p m = zero_words n (p + 8) (store64 m p 0)

-- An exhausted list gives the null pointer; a page that is handed out is cleared.
unfoldable pub kalloc : Cmd Pages ℕ
kalloc k =
    let r = k.free_mem_list in
    if r == 0
    then ok 0 k
    else ok r (record { mem = zero_words (pgsize / 8) r k.mem; free_mem_list = load64 k.mem r })

module _ (end_address : ℕ) where
  -- what `kfree` accepts
  abbrev pub valid_address : ℕ → Bool
  valid_address pa = (pa % pgsize == 0) && leb end_address pa && ltb pa phystop

  unfoldable pub kfree : ℕ → Cmd Pages (Unit {0})
  kfree pa k =
      if pa % pgsize != 0 || ltb pa end_address || leb phystop pa
      then panic Reason.kfree_invalid_address
      else ok tt (record { mem = store64 k.mem pa k.free_mem_list; free_mem_list = pa })

  -- for(; p + PGSIZE <= PHYSTOP; p += PGSIZE) kfree(p);
  unfoldable pub kinit_loop : ℕ → ℕ → Cmd Pages (Unit {0})
  kinit_loop zero p k = out_of_fuel
  kinit_loop (suc fuel) p k =
      let rest = (kfree p >> kinit_loop fuel (p + pgsize)) k in
      if leb (p + pgsize) phystop then rest else ok tt k

  -- One round for each page below PHYSTOP, and one for the test that ends the loop.
  unfoldable pub kinit : Cmd Pages (Unit {0})
  unfolding kinit_loop
  kinit = kinit_loop (phystop / pgsize + 1) (pgroundup end_address)
