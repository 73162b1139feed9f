-- ===== src/Driver/Uart/Tests.antt =====
-- driver/uart.c with a port that is busy for one read of LSR after each byte.
use riscv_os_lab.Prelude.{
  ℕ, zero, suc, ◌+◌, ◌≤◌, ◌<◌, ◌≡◌, refl, ◌≢◌, Bool, true, false, List, [], ◌∷◌, arith, ◌==◌,
  if◌then◌else◌,
}
use Prim.Native.Nat.{bit_and}
use riscv_os_lab.Prelude.Words.{Bytes}
use riscv_os_lab.Prelude.Runs.{Returns}
use riscv_os_lab.Driver.Uart.{Port, thr, sent_after, uart_puts, uart_puts_lem}

record Line : Type 0 where
  waiting : Bool
  bytes : List ℕ

abbrev left_of : Bool → ℕ
left_of b = if b then 1 else 0

abbrev read_line : ℕ → Line → ℕ × Line
read_line r l = (if l.waiting then 0 else 32, record l { waiting = false })

left_lem : (b : Bool) → left_of b ≤ 1
left_lem true = omega arith
left_lem false = omega arith

busy_read :
    (b : Bool) (k : ℕ)
    → left_of b ≡ suc k
    → (bit_and (if b then 0 else 32) 32 == 0 ≡ true) × (0 ≡ k)
busy_read true k e = (refl, omega (arith, e))
busy_read false k e = absurd (omega (arith, e))

idle_read : (b : Bool) → left_of b ≡ 0 → bit_and (if b then 0 else 32) 32 == 0 ≡ false
idle_read true e = absurd (omega (arith, e))
idle_read false e = refl

abbrev slow_port : Port
slow_port = record {
  State = Line;
  sent = λ l. l.bytes;
  delay = λ l. left_of l.waiting;
  slowest = 1;
  read = read_line;
  write = λ r c l. record { waiting = true; bytes = if r == thr then c ∷ l.bytes else l.bytes };
  delay_lem = λ l. left_lem l.waiting;
  busy_lem = λ l k e. let (bit, less) = busy_read l.waiting k e in (bit, less, refl);
  idle_lem = λ l e. (idle_read l.waiting e, refl, refl);
  write_lem = λ l c e. refl;
}

-- "hi"
abbrev greeting : Bytes
greeting i = if i == 4 then b'h' else if i == 5 then b'i' else 0

no_nul : (i : ℕ) → i < 2 → greeting (4 + i) ≢ 0
no_nul zero lt e = absurd cc
no_nul (suc zero) lt e = absurd cc
no_nul (suc (suc i)) lt e = absurd (omega arith)

uart_puts_lem_example :
    Returns
      (λ _ l. l.bytes ≡ b'i' ∷ b'h' ∷ [])
      (uart_puts ⦃port = slow_port⦄ 9 greeting 4 (record { waiting = true; bytes = [] }))
unfolding sent_after
uart_puts_lem_example =
    uart_puts_lem ⦃port = slow_port⦄ 2 9 greeting 4 (record { waiting = true; bytes = [] })
      (omega arith) refl no_nul
