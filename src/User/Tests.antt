-- ===== src/User/Tests.antt =====
-- The user program over a kernel that keeps what is printed, with a file that holds one text.
use riscv_os_lab.Prelude.{ℕ, ◌^◌, ◌≡◌, refl, some, List, [], ◌∷◌, ◌++◌, arith, true}
use riscv_os_lab.Prelude.Runs.{ok, Returns, returns}
use riscv_os_lab.Driver.Console.{printint}
use riscv_os_lab.User.{Kernel, printnum}
use riscv_os_lab.User.Numbers.{PrintsAfter, printnum-printint}

-- the world is what was printed
abbrev paper_kernel : Kernel
paper_kernel = record {
  World = List ℕ;
  printed = λ w. w;
  sys_getpid = λ w. ok 1 w;
  sys_fork = λ w. ok 2 w;
  sys_wait = λ w. ok (2, 1) w;
  sys_exit = λ code w. ok tt w;
  sys_write = λ fd out w. ok 20 (w ++ out);
  sys_open = λ path mode w. ok 3 w;
  sys_read = λ fd buf n w. ok (0, buf) w;
  sys_close = λ fd w. ok 0 w;
  write_lem = λ out w. returns refl;
}

-- -2147483648
printnum-printint_example :
    (out : List ℕ) × (printint (2 ^ 31) 10 true ≡ some out)
    × Returns
        (PrintsAfter ⦃kernel = paper_kernel⦄ (b'>' ∷ []) out)
        (printnum ⦃kernel = paper_kernel⦄ (2 ^ 31) (b'>' ∷ []))
printnum-printint_example =
    printnum-printint ⦃kernel = paper_kernel⦄ (2 ^ 31) (b'>' ∷ []) (omega arith)
