-- ===== src/Driver/Uart.antt =====
-- driver/uart.c: the serial port. The 16550 behind its registers is the interface Port.
mod Tests
use riscv_os_lab.Prelude.{
  ℕ, zero, suc, ◌+◌, ◌-◌, ◌*◌, ◌/◌, ◌%◌, ◌^◌, ◌≤◌, ◌<◌, min, ◌≡◌, refl, sym, ap, ◌∙◌, subst,
  fun_ext, ◌≢◌, ◌⊎◌, inl, inr, Bool, true, false, ◌&&◌, ◌||◌, not, Option, none, some, List, [],
  ◌∷◌, ◌++◌, map, arith, ltb, leb, ◌==◌, ◌!=◌, if◌then◌else◌, is_some, length, ==_refl, ==-false,
  ltb→lt, lt→ltb, Bool-cases, Option-cases, ℕ-cases, update, find_first, find_first-some,
  find_first-none, update_self, update_ne,
}
use Prim.Native.Nat.{bit_and}
use native.Mathlib.Nat.{add-zero}
use riscv_os_lab.Prelude.Words.{Bytes}
use riscv_os_lab.Prelude.Runs
use riscv_os_lab.Prelude.Runs.{
  Run, ok, out_of_fuel, Cmd, ◌>>=◌, ◌>>◌, pure, get, modify, Returns, returns,
}

-- the registers, by their offset
abbrev pub thr : ℕ
thr = 0

abbrev pub ier : ℕ
ier = 1

abbrev pub fcr : ℕ
fcr = 2

abbrev pub lcr : ℕ
lcr = 3

abbrev pub mcr : ℕ
mcr = 4

abbrev pub lsr : ℕ
lsr = 5

abbrev pub ier_rx_enable : ℕ
ier_rx_enable = 1

-- The serial port: `sent` are the bytes that it has taken, the last one first, and `delay` the number
-- of reads of LSR before it can take one, at most `slowest`. It counts down from read to read; a byte
-- written to THR when it is 0 is sent.
pub record Port : Type 1 where
  pub State : Type 0
  pub sent : State → List ℕ
  pub delay : State → ℕ
  pub slowest : ℕ
  pub read : ℕ → State → ℕ × State
  pub write : ℕ → ℕ → State → State
  pub delay_lem : (p : State) → delay p ≤ slowest
  pub busy_lem :
      (p : State) (k : ℕ)
      → delay p ≡ suc k
      → (bit_and (read lsr p).0 (2 ^ 5) == 0 ≡ true)
        × (delay (read lsr p).1 ≡ k)
        × (sent (read lsr p).1 ≡ sent p)
  pub idle_lem :
      (p : State)
      → delay p ≡ 0
      → (bit_and (read lsr p).0 (2 ^ 5) == 0 ≡ false)
        × (delay (read lsr p).1 ≡ 0)
        × (sent (read lsr p).1 ≡ sent p)
  pub write_lem : (p : State) (c : ℕ) → delay p ≡ 0 → sent (write thr c p) ≡ c ∷ sent p

-- the bytes [s, s + n), the last one first, in front of `l`
unfoldable pub sent_after : ℕ → Bytes → ℕ → List ℕ → List ℕ
sent_after zero mem s l = l
sent_after (suc n) mem s l = sent_after n mem (s + 1) (mem s ∷ l)

module _ ⦃port : Port⦄ where
  -- *Reg(r) = v
  abbrev pub set_reg : ℕ → ℕ → Cmd port.State (Unit {0})
  set_reg r v = modify (port.write r v)

  unfoldable pub uartinit : Cmd port.State (Unit {0})
  uartinit = do
    set_reg ier 0
    set_reg lcr 0x80
    set_reg 0 3
    set_reg 1 0
    set_reg lcr 3
    set_reg fcr 7
    set_reg mcr 0x0b
    set_reg ier ier_rx_enable

  -- while ((*Reg(LSR) & (1 << 5)) == 0);
  unfoldable pub wait_ready : ℕ → Cmd port.State (Unit {0})
  wait_ready zero p = out_of_fuel
  wait_ready (suc fuel) p =
      let rest = wait_ready fuel (port.read lsr p).1 in
      if bit_and (port.read lsr p).0 (2 ^ 5) == 0 then rest else ok tt (port.read lsr p).1

  unfoldable pub uart_putc : ℕ → Cmd port.State (Unit {0})
  uart_putc c = do wait_ready (port.slowest + 1); set_reg thr c

  -- The loop on the string at `s`, with `n` rounds and the test that ends it.
  unfoldable pub puts_loop : ℕ → Bytes → ℕ → Cmd port.State (Unit {0})
  puts_loop zero mem s = if mem s == 0 then pure tt else (λ p. out_of_fuel)
  puts_loop (suc n) mem s =
      if mem s == 0 then pure tt else (do uart_putc (mem s); puts_loop n mem (s + 1))

  -- a string of at most `limit` bytes
  unfoldable pub uart_puts : (limit : ℕ) → Bytes → ℕ → Cmd port.State (Unit {0})
  uart_puts limit mem s = puts_loop limit mem s

  wait_ready_lem :
      (fuel : ℕ) (p : port.State)
      → port.delay p < fuel
      → Returns (λ _ q. (port.delay q ≡ 0) × (port.sent q ≡ port.sent p)) (wait_ready fuel p)
  unfolding wait_ready
  wait_ready_lem zero p lt = absurd (omega arith)
  wait_ready_lem (suc fuel) p lt = elim (ℕ-cases (port.delay p) 0) [
    | inl idle ↦ let (bit, after, same) = port.idle_lem p idle in rw bit (returns (after, same))
    | inr busy ↦
        let k = port.delay p - 1 in
        let (bit, after, same) = port.busy_lem p k (omega arith) in
        rw bit (
          Runs.mono (wait_ready_lem fuel (port.read lsr p).1 (omega arith))
            (λ u q h. (h.0, h.1 ∙ same)))
  ]

  -- `uart_putc` returns, and has sent exactly its byte.
  pub uart_putc_lem :
      (c : ℕ) (p : port.State) → Returns (λ _ q. port.sent q ≡ c ∷ port.sent p) (uart_putc c p)
  unfolding uart_putc
  uart_putc_lem c p =
      Runs.bind (wait_ready_lem (port.slowest + 1) p (omega (arith, port.delay_lem p)))
        λ u q h. returns (port.write_lem q c h.0 ∙ ap (λ l. c ∷ l) h.1)

  puts_loop_lem :
      (n limit : ℕ) (mem : Bytes) (s : ℕ) (p : port.State)
      → n ≤ limit
      → mem (s + n) ≡ 0
      → ((i : ℕ) → i < n → mem (s + i) ≢ 0)
      → Returns (λ _ q. port.sent q ≡ sent_after n mem s (port.sent p)) (puts_loop limit mem s p)
  unfolding puts_loop sent_after
  puts_loop_lem zero limit mem s p le end no_nul =
      let here : mem s ≡ 0 = subst (λ x. mem x ≡ 0) (add-zero s) end in
      let nul : (mem s == 0) ≡ true = rw here refl in ended limit nul
    where
      ended :
          (limit : ℕ)
          → (mem s == 0) ≡ true
          → Returns (λ _ q. port.sent q ≡ port.sent p) (puts_loop limit mem s p)
      ended zero nul = rw nul (returns refl)
      ended (suc limit) nul = rw nul (returns refl)
  puts_loop_lem (suc n) zero mem s p le end no_nul = absurd (omega arith)
  puts_loop_lem (suc n) (suc limit) mem s p le end no_nul =
      let first : mem s ≢ 0 = subst (λ x. mem x ≢ 0) (add-zero s) (no_nul 0 (omega arith)) in
      let assoc = λ (i : ℕ). (let e : s + suc i ≡ s + 1 + i = omega arith in e) in
      rw (==-false (mem s) 0 first) (
        Runs.bind (uart_putc_lem (mem s) p) λ u q h.
          Runs.mono
            (puts_loop_lem n limit mem (s + 1) q (omega arith)
              (subst (λ x. mem x ≡ 0) (assoc n) end)
              (λ i lt. subst (λ x. mem x ≢ 0) (assoc i) (no_nul (suc i) (omega arith))))
            (λ v r h'. h' ∙ ap (sent_after n mem (s + 1)) h))

  -- `uart_puts` of a string of `n` bytes, whatever the port's delays, returns and has sent exactly the
  -- bytes before the NUL, in their order.
  pub uart_puts_lem :
      (n limit : ℕ) (mem : Bytes) (s : ℕ) (p : port.State)
      → n ≤ limit
      → mem (s + n) ≡ 0
      → ((i : ℕ) → i < n → mem (s + i) ≢ 0)
      → Returns (λ _ q. port.sent q ≡ sent_after n mem s (port.sent p)) (uart_puts limit mem s p)
  unfolding uart_puts
  uart_puts_lem n limit mem s p le end no_nul = puts_loop_lem n limit mem s p le end no_nul
