-- ===== src/Proc/Init.antt =====
-- `userinit` of proc/proc.c, which makes the first process. The code of the program, which the build
-- generates, the address of `forkret` and the kernel's page table are parameters.
use riscv_os_lab.Prelude.{
  ℕ, ◌+◌, ◌*◌, ◌/◌, ◌%◌, ◌^◌, false, none, some, List, [], ◌∷◌, ◌==◌, if◌then◌else◌, update,
}
use Prim.Native.Nat.{bit_or}
use riscv_os_lab.Prelude.Words.{Bytes, load64, store64}
use riscv_os_lab.Prelude.Runs.{Reason, Cmd, ◌>>=◌, ◌>>◌, pure, modify, halt, in_part}
use riscv_os_lab.Mm.Kalloc.{pgsize, zero_words}
use riscv_os_lab.Mm.Vm.{walk, pte_x}
use riscv_os_lab.Proc.{ready, proczero_created, Procs, set_proc, page_alloc, allocproc, set_mem}

-- PTE_U
abbrev pub pte_u : ℕ
pte_u = 16

-- dst[i] = proczero_code[i]
unfoldable pub copy_code : List ℕ → ℕ → Bytes → Bytes
copy_code [] dst m = m
copy_code (c ∷ code) dst m = copy_code code (dst + 1) (update m dst c)

-- kalloc(), or a panic if it returns null
unfoldable pub alloc_or : Reason → Cmd Procs ℕ
alloc_or r = do page ← page_alloc; if page == 0 then halt r else pure page

-- pte = walk(kernel_pagetable, va, 0); *pte |= bits;
unfoldable pub allow : Reason → (pagetable va bits : ℕ) → Cmd Procs (Unit {0})
allow r pagetable va bits = do
  pte ← in_part (λ k. k.pages) (λ g k. record k { pages = g }) (walk pagetable va false)
  if pte == 0 then halt r else modify (set_mem (λ m. store64 m pte (bit_or (load64 m pte) bits)))

-- "proczero"; for (i = 0; name[i] && i < 15; i++) p->name[i] = name[i]; p->name[i] = 0;
abbrev pub set_name : (ℕ → ℕ) → ℕ → ℕ
set_name old i =
    if i == 0
    then b'p'
    else if i == 1
    then b'r'
    else if i == 2
    then b'o'
    else if i == 3
    then b'c'
    else if i == 4
    then b'z'
    else if i == 5
    then b'e'
    else if i == 6
    then b'r'
    else if i == 7
    then b'o'
    else if i == 8
    then 0
    else old i

-- The trapframe: cleared, with word 3, `epc`, at the code and word 6, `sp`, at the top of the stack.
abbrev pub first_frame : (trapframe code stack : ℕ) → Bytes → Bytes
first_frame trapframe code stack m =
    store64 (store64 (zero_words (pgsize / 8) trapframe m) (trapframe + 8 * 3) code)
      (trapframe + 8 * 6) ((stack + pgsize) % 2 ^ 64)

module _ (forkret kernel_pagetable : ℕ) (code : List ℕ) where
  unfoldable pub userinit_at : ℕ → Cmd Procs (Unit {0})
  unfolding alloc_or copy_code allow
  userinit_at p = do
    stack ← alloc_or Reason.userinit_kstack_failed
    modify (
        set_proc p (λ q. record q {
          kstack = stack;
          context = update q.context 13 ((stack + pgsize) % 2 ^ 64);
        }))
    code_page ← alloc_or Reason.userinit_user_code_failed
    modify (set_mem (copy_code code code_page))
    allow Reason.userinit_walk_user_code_failed kernel_pagetable code_page (bit_or pte_x pte_u)
    stack_page ← alloc_or Reason.userinit_user_stack_failed
    allow Reason.userinit_walk_user_stack_failed kernel_pagetable stack_page pte_u
    modify (λ k. set_mem (first_frame (k.proc p).trapframe code_page stack_page) k)
    modify (
        set_proc p (λ q. record q {
          pagetable = kernel_pagetable;
          sz = pgsize * 2;
          name = set_name q.name;
          parent = none;
          status = ready;
        }))
    modify (λ k. record k {
      console =
          proczero_created (k.proc p).pid code_page ((stack_page + pgsize) % 2 ^ 64) ∷ k.console;
    })

  unfoldable pub userinit : Cmd Procs (Unit {0})
  unfolding userinit_at
  userinit = do
    slot ← allocproc forkret
    elim slot [ none ↦ halt Reason.userinit_allocproc_failed | some p ↦ userinit_at p ]
