-- ===== src/Driver/Console/Formats.antt =====
-- What `printf` of driver/console.c makes of a format.
use riscv_os_lab.Prelude.{
  ℕ, ◌^◌, ◌<◌, ◌≡◌, refl, sym, ap, ◌∙◌, ◌≢◌, inl, true, some, List, [], ◌∷◌, ◌++◌, ==-false,
}
use riscv_os_lab.Driver.Console.{
  Arg, an_int, plain, Printed, sent, past_end, sent_first, printint, printf_loop, printf,
}
use riscv_os_lab.Driver.Console.Numbers.{Prints, printint_lem}

-- no byte is a percent sign
abbrev pub NoPercent : List ℕ → Type 0
NoPercent [] = Unit
NoPercent (c ∷ xs) = (c ≢ b'%') × NoPercent xs

sent_first-twice :
    (a : List ℕ) (c : ℕ) (r : Printed) → sent_first (c ∷ []) (sent_first a r) ≡ sent_first (c ∷ a) r
sent_first-twice a c (sent x) = refl
sent_first-twice a c Printed.bad_argument = refl
sent_first-twice a c Printed.buffer_overrun = refl
sent_first-twice a c Printed.past_end = refl

sent_first-nothing : (r : Printed) → sent_first [] r ≡ r
sent_first-nothing (sent x) = refl
sent_first-nothing Printed.bad_argument = refl
sent_first-nothing Printed.buffer_overrun = refl
sent_first-nothing Printed.past_end = refl

-- Text without a percent sign is sent as it stands, and uses no argument.
pub printf_loop-plain :
    (a b : List ℕ) (args : List Arg)
    → NoPercent a
    → printf_loop (a ++ b) plain args ≡ sent_first a (printf_loop b plain args)
unfolding printf_loop
printf_loop-plain [] b args h = sym (sent_first-nothing (printf_loop b plain args))
printf_loop-plain (c ∷ a) b args h =
    rw (==-false c b'%' h.0, printf_loop-plain a b args h.1)
      (sent_first-twice a c (printf_loop b plain args))

printf_loop-int :
    (b out : List ℕ) (v : ℕ) (args : List Arg)
    → printint v 10 true ≡ some out
    → printf_loop (b'%' ∷ b'd' ∷ b) plain (an_int v ∷ args)
      ≡ sent_first out (printf_loop b plain args)
unfolding printf_loop
printf_loop-int b out v args e = rw e refl

-- `printf` of text, "%d" and a further format sends the text and the `int` in decimal, and goes on
-- with the further format and the arguments after that one.
pub printf-int :
    (a b : List ℕ) (v : ℕ) (args : List Arg)
    → NoPercent a
    → v < 2 ^ 32
    → (out : List ℕ) × Prints 32 v 10 true out
      × (printf (some (a ++ (b'%' ∷ b'd' ∷ b))) (an_int v ∷ args)
          ≡ sent_first a (sent_first out (printf (some b) args)))
unfolding printf
printf-int a b v args h lt =
    let (out, e, len, prints) = printint_lem v 10 true (inl refl) lt in
    (
      out,
      prints,
      printf_loop-plain a (b'%' ∷ b'd' ∷ b) (an_int v ∷ args) h
          ∙ ap (sent_first a) (printf_loop-int b out v args e),
    )
