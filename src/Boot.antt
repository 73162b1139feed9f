-- ===== src/Boot.antt =====
-- The start of the hart in machine mode, kernel/boot/start.c, and the timer interrupt in machine mode,
-- `timervec` of kernel/trap/kernelvec.S.
pub mod Timer
mod Tests
use riscv_os_lab.Prelude.{ℕ, ◌+◌, ◌-◌, ◌*◌, ◌%◌, ◌^◌, update}
use Prim.Native.Nat.{bit_and, bit_or}

-- The registers that are used, and memory with the registers of the CLINT in it, by 64-bit words at their
-- addresses.
pub record Hart : Type 0 where
  pub mhartid : ℕ
  pub mstatus : ℕ
  pub mepc : ℕ
  pub medeleg : ℕ
  pub mideleg : ℕ
  pub mie : ℕ
  pub mtvec : ℕ
  pub mscratch : ℕ
  pub pmpaddr0 : ℕ
  pub pmpcfg0 : ℕ
  pub sie : ℕ
  pub sip : ℕ
  pub satp : ℕ
  pub tp : ℕ
  pub a0 : ℕ
  pub a1 : ℕ
  pub a2 : ℕ
  pub words : ℕ → ℕ

-- int interval
abbrev pub interval : ℕ
interval = 1000000

abbrev pub clint : ℕ
clint = 0x200_0000

abbrev pub clint_mtimecmp : ℕ → ℕ
clint_mtimecmp hartid = clint + 0x4000 + 8 * hartid

abbrev pub clint_mtime : ℕ
clint_mtime = clint + 0xbff8

abbrev pub mstatus_mpp_mask : ℕ
mstatus_mpp_mask = 3 * 2 ^ 11

abbrev pub mstatus_mpp_s : ℕ
mstatus_mpp_s = 2 ^ 11

abbrev pub mstatus_mie : ℕ
mstatus_mie = 2 ^ 3

abbrev pub mie_mtie : ℕ
mie_mtie = 2 ^ 7

-- SIE_SEIE | SIE_STIE | SIE_SSIE
abbrev pub sie_all : ℕ
sie_all = 2 ^ 9 + 2 ^ 5 + 2

-- a store of a 64-bit word
abbrev pub sd : ℕ → ℕ → Hart → Hart
sd a v s = record s { words = update s.words a v }

-- &timer_scratch[hartid][0]
abbrev pub scratch_at : (timer_scratch hartid : ℕ) → ℕ
scratch_at timer_scratch hartid = timer_scratch + 40 * hartid

-- The addresses of `timer_scratch`, of `timervec` and of `start_main` are the linker's.
module _ (timer_scratch timervec_at start_main : ℕ) where
  unfoldable pub timerinit : Hart → Hart
  timerinit s0 =
      let hartid = s0.mhartid in
      let s1 = sd (clint_mtimecmp hartid) ((s0.words clint_mtime + interval) % 2 ^ 64) s0 in
      let scratch = scratch_at timer_scratch hartid in
      let s2 = sd (scratch + 24) (clint_mtimecmp hartid) s1 in
      let s3 = sd (scratch + 32) interval s2 in
      record s3 {
        mscratch = scratch;
        mtvec = timervec_at;
        mie = bit_or s3.mie mie_mtie;
        mstatus = bit_or s3.mstatus mstatus_mie;
      }

  -- `start` up to its `mret`
  unfoldable pub start : Hart → Hart
  start s0 =
      let x = bit_or (bit_and s0.mstatus (2 ^ 64 - 1 - mstatus_mpp_mask)) mstatus_mpp_s in
      let s1 = record s0 {
        mstatus = x;
        mepc = start_main;
        medeleg = 0xffff;
        mideleg = 0xffff;
        sie = bit_or s0.sie sie_all;
        pmpaddr0 = 0x3f_ffff_ffff_ffff;
        pmpcfg0 = 0xf;
        satp = 0;
      } in
      let s2 = timerinit s1 in record s2 { tp = s2.mhartid }

-- csrrw a0, mscratch, a0
abbrev pub swap_scratch : Hart → Hart
swap_scratch s = record s { a0 = s.mscratch; mscratch = s.a0 }

-- The instructions of `timervec` before its `mret`.
unfoldable pub timervec : Hart → Hart
timervec s0 =
    let s1 = swap_scratch s0 in
    let s2 = sd (s1.a0 + 8) s1.a1 s1 in
    let s3 = sd (s2.a0 + 16) s2.a2 s2 in
    let s4 = record s3 { a1 = s3.words (s3.a0 + 24) } in
    let s5 = record s4 { a2 = s4.words (s4.a0 + 32) } in
    let s6 = record s5 { a1 = s5.words s5.a1 } in
    let s7 = record s6 { a1 = (s6.a1 + s6.a2) % 2 ^ 64 } in
    let s8 = record s7 { a2 = s7.words (s7.a0 + 24) } in
    let s9 = sd s8.a2 s8.a1 s8 in
    let s10 = record s9 { a1 = 2 } in
    let s11 = record s10 { sip = s10.a1 } in
    let s12 = record s11 { a2 = s11.words (s11.a0 + 16) } in
    let s13 = record s12 { a1 = s12.words (s12.a0 + 8) } in swap_scratch s13
