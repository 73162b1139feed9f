-- ===== src/Driver/Console/Tests.antt =====
-- The properties of driver/console.c at small inputs.
use riscv_os_lab.Prelude.{
  ℕ, ◌-◌, ◌^◌, ◌≤◌, ◌≡◌, refl, inl, true, some, List, [], ◌∷◌, arith, length,
}
use riscv_os_lab.Driver.Console.{an_int, sent_first, printint, printf}
use riscv_os_lab.Driver.Console.Numbers.{Prints, printint_lem}
use riscv_os_lab.Driver.Console.Formats.{printf-int}

-- -1
printint_lem_example :
    (out : List ℕ) × (printint (2 ^ 32 - 1) 10 true ≡ some out)
    × (length out ≤ 16)
    × Prints 32 (2 ^ 32 - 1) 10 true out
printint_lem_example = printint_lem (2 ^ 32 - 1) 10 true (inl refl) (omega arith)

printf-int_example :
    (out : List ℕ) × Prints 32 42 10 true out
    × (printf (some (b'a' ∷ b'%' ∷ b'd' ∷ b'b' ∷ [])) (an_int 42 ∷ [])
        ≡ sent_first (b'a' ∷ []) (sent_first out (printf (some (b'b' ∷ [])) [])))
printf-int_example =
    printf-int (b'a' ∷ []) (b'b' ∷ []) 42 [] ((λ e. omega (arith, e)), tt) (omega arith)
