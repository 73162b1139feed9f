-- ===== src/Driver/Console.antt =====
-- driver/console.c: the kernel's `printf`. What is sent to the UART is a list of bytes, in order; a
-- format and a string are their bytes up to the NUL.
pub mod Numbers
pub mod Formats
mod Tests
use riscv_os_lab.Prelude.{
  ℕ, zero, suc, ◌+◌, ◌-◌, ◌*◌, ◌/◌, ◌%◌, ◌^◌, ◌≤◌, ◌<◌, min, ◌≡◌, refl, sym, ap, ◌∙◌, subst,
  fun_ext, ◌≢◌, ◌⊎◌, inl, inr, Bool, true, false, ◌&&◌, ◌||◌, not, Option, none, some, List, [],
  ◌∷◌, ◌++◌, map, arith, ltb, leb, ◌==◌, ◌!=◌, if◌then◌else◌, is_some, length, ==_refl, ==-false,
  ltb→lt, lt→ltb, Bool-cases, Option-cases, ℕ-cases, update, find_first, find_first-some,
  find_first-none, update_self, update_ne,
}

-- digits[d]
unfoldable pub digit : ℕ → ℕ
digit d = if ltb d 10 then b'0' + d else b'a' + (d - 10)

-- The loop that fills `buf`. The digit written last is the first of the list, so that the list is
-- what the loop at the end of `printint` sends. The fuel is the size of `buf`, past which it is not
-- written: `none` is a write that is out of bounds.
unfoldable pub convert : ℕ → ℕ → ℕ → List ℕ → Option (List ℕ)
convert zero base x buf = none
convert (suc room) base x buf =
    let rest = convert room base (x / base) (digit (x % base) ∷ buf) in
    if x / base == 0 then some (digit (x % base) ∷ buf) else rest

-- buf[i++] = '-'
abbrev pub put_sign : ℕ → Bool → Option (List ℕ) → Option (List ℕ)
put_sign size negative none = none
put_sign size negative (some buf) =
    if negative then if ltb (length buf) size then some (b'-' ∷ buf) else none else some buf

-- `xx` is negative as an integer of `w` bits
abbrev pub is_negative : ℕ → ℕ → Bool
is_negative w xx = leb (2 ^ (w - 1)) xx

-- -xx if it is negative and `sign` is set, else xx
abbrev pub magnitude : ℕ → ℕ → Bool → ℕ
magnitude w xx sign = if sign && is_negative w xx then (2 ^ w - xx) % 2 ^ w else xx

-- An `int` in a buffer of 16 bytes, and a `long` in one of 20, each as its bit pattern.
unfoldable pub printint : ℕ → ℕ → Bool → Option (List ℕ)
unfolding convert
printint xx base sign =
    put_sign 16 (sign && is_negative 32 xx) (convert 16 base (magnitude 32 xx sign) [])

unfoldable pub printlong : ℕ → ℕ → Bool → Option (List ℕ)
unfolding convert
printlong xx base sign =
    put_sign 20 (sign && is_negative 64 xx) (convert 20 base (magnitude 64 xx sign) [])

-- The arguments after the format; `none` is the null pointer for a string.
pub data Arg : Type 0 where
  an_int : ℕ → Arg
  a_long : ℕ → Arg
  a_string : Option (List ℕ) → Arg

-- What the loop of `printf` has read of a conversion: nothing, the percent sign, or "%l".
pub data Mode : Type 0 where
  plain percent percent_l : Mode

-- How `printf` ends: with what it has sent, or in behaviour that is undefined, a `va_arg` that has
-- no argument of its type, a digit past the end of `buf`, or a read past the NUL of the format.
pub data Printed : Type 0 where
  sent : List ℕ → Printed
  bad_argument : Printed
  buffer_overrun : Printed
  past_end : Printed

abbrev pub sent_first : List ℕ → Printed → Printed
sent_first out (sent rest) = sent (out ++ rest)
sent_first out r = r

abbrev pub number : Option (List ℕ) → Printed → Printed
number none r = buffer_overrun
number (some out) r = sent_first out r

-- "(null)"
abbrev pub null_text : List ℕ
null_text = b'(' ∷ b'n' ∷ b'u' ∷ b'l' ∷ b'l' ∷ b')' ∷ []

-- one conversion, given what the rest of the loop does with the arguments that are left
abbrev pub int_conv : ℕ → Bool → List Arg → (List Arg → Printed) → Printed
int_conv base sign (an_int v ∷ args) go = number (printint v base sign) (go args)
int_conv base sign _ go = bad_argument

abbrev pub long_conv : ℕ → Bool → List Arg → (List Arg → Printed) → Printed
long_conv base sign (a_long v ∷ args) go = number (printlong v base sign) (go args)
long_conv base sign _ go = bad_argument

abbrev pub string_conv : List Arg → (List Arg → Printed) → Printed
string_conv (a_string none ∷ args) go = sent_first null_text (go args)
string_conv (a_string (some s) ∷ args) go = sent_first s (go args)
string_conv _ go = bad_argument

abbrev pub char_conv : List Arg → (List Arg → Printed) → Printed
char_conv (an_int v ∷ args) go = sent_first (v % 256 ∷ []) (go args)
char_conv _ go = bad_argument

-- the loop at the byte `c` of the format; `go` is the loop on the bytes after it
abbrev pub at_byte : Mode → ℕ → List Arg → (Mode → List Arg → Printed) → Printed
at_byte plain c args go = if c == b'%' then go percent args else sent_first (c ∷ []) (go plain args)
at_byte percent c args go =
    if c == b'd'
    then int_conv 10 true args (go plain)
    else if c == b'x'
    then int_conv 16 false args (go plain)
    else if c == b'p'
    then long_conv 16 false args (go plain)
    else if c == b's'
    then string_conv args (go plain)
    else if c == b'c'
    then char_conv args (go plain)
    else if c == b'%'
    then sent_first (b'%' ∷ []) (go plain args)
    else if c == b'l'
    then go percent_l args
    else sent_first (b'%' ∷ c ∷ []) (go plain args)
at_byte percent_l c args go =
    if c == b'd'
    then long_conv 10 true args (go plain)
    else if c == b'u'
    then long_conv 10 false args (go plain)
    else if c == b'x'
    then long_conv 16 false args (go plain)
    else sent_first (b'%' ∷ b'l' ∷ c ∷ []) (go plain args)

-- At the NUL the loop ends, and after a percent sign it breaks; after "%l" it sends both bytes, and
-- the next round reads the byte behind the NUL.
unfoldable pub printf_loop : List ℕ → Mode → List Arg → Printed
printf_loop [] plain args = sent []
printf_loop [] percent args = sent []
printf_loop [] percent_l args = past_end
printf_loop (c ∷ fmt) mode args = at_byte mode c args (printf_loop fmt)

-- `none` is a null format.
unfoldable pub printf : Option (List ℕ) → List Arg → Printed
printf none args = sent []
printf (some fmt) args = printf_loop fmt plain args

-- one call of `printf` after another
abbrev pub then_print : Printed → Printed → Printed
then_print (sent out) r = sent_first out r
then_print r _ = r

unfoldable pub clear_screen : Printed
clear_screen =
    then_print (printf (some (27 ∷ b'[' ∷ b'2' ∷ b'J' ∷ [])) [])
      (printf (some (27 ∷ b'[' ∷ b'H' ∷ [])) [])

-- what `panic` prints before it halts
unfoldable pub panic_texts : Option (List ℕ) → Printed
panic_texts msg = then_print (printf (some (10 ∷ 10 ∷ [])) []) (
    then_print
      (printf
        (some (
          b'!' ∷ b'!' ∷ b'!' ∷ b' ' ∷ b'K' ∷ b'E' ∷ b'R' ∷ b'N' ∷ b'E' ∷ b'L' ∷ b' ' ∷ b'P' ∷ b'A'
          ∷ b'N' ∷ b'I' ∷ b'C' ∷ b' ' ∷ b'!' ∷ b'!' ∷ b'!' ∷ 10 ∷ []))
        [])
      (then_print
        (printf
          (some (b'R' ∷ b'e' ∷ b'a' ∷ b's' ∷ b'o' ∷ b'n' ∷ b':' ∷ b' ' ∷ b'%' ∷ b's' ∷ 10 ∷ []))
          (a_string msg ∷ []))
        (printf
          (some (
            b'S' ∷ b'y' ∷ b's' ∷ b't' ∷ b'e' ∷ b'm' ∷ b' ' ∷ b'h' ∷ b'a' ∷ b'l' ∷ b't' ∷ b'e' ∷ b'd'
            ∷ b'.' ∷ 10 ∷ []))
          [])))
