-- ===== src/Proc/Reaps.antt =====
-- What `wait` of proc/proc.c leaves unchanged: it touches the child that it reaps, or puts the
-- caller to sleep.
use riscv_os_lab.Prelude.{
  ℕ, zero, suc, ◌+◌, ◌%◌, ◌≡◌, refl, ◌∙◌, ◌⊎◌, inl, inr, Bool, true, false, ◌&&◌, ◌||◌, some, arith,
  ltb, leb, ◌==◌, ◌!=◌, if◌then◌else◌, Bool-cases, ℕ-cases,
}
use riscv_os_lab.Prelude.Words.{store32}
use riscv_os_lab.Prelude.Runs.{ok, pure, modify, Returns, returns}
use riscv_os_lab.Mm.Kalloc
use riscv_os_lab.Mm.Kalloc.{Pages, pgsize}
use riscv_os_lab.Prelude.Runs.{
  Ensures, done, panics, Ensures-bind, Ensures-mono, Ensures-of_Returns,
}
use riscv_os_lab.Proc.Wait.{Round, returned, asleep, is_child, page_free, release, reap, wait_scan}
use riscv_os_lab.Proc.{free, sleeping, zombie, is_zombie, Procs, set_proc, set_mem, sleep}
use riscv_os_lab.Proc.Touches.{Touches, myproc-ok}

-- Only memory and the free list may differ.
pub record OnlyPages (k k' : Procs) : Type 0 where
  pub current : k'.current ≡ k.current
  pub same : (j : ℕ) → k'.proc j ≡ k.proc j

only_pages : (k : Procs) (g : Pages) → OnlyPages k (record k { pages = g })
only_pages k g = record { current = refl; same = λ j. refl }

-- the slot that is reaped is free, and the others are as they were
abbrev pub Reaped : ℕ → Procs → Round → Procs → Type 0
Reaped c k r k' = (r ≡ returned (k.proc c).pid) × Touches c k k' × ((k'.proc c).status ≡ free)

-- What a round of `wait` by `p` leaves: a reaped zombie at most, or `p` asleep on itself.
abbrev pub Waited : ℕ → Procs → Round → Procs → Type 0
Waited p k (returned v) k' =
    (k'.current ≡ k.current)
    × ((i : ℕ)
        → (k'.proc i ≡ k.proc i) ⊎ (((k.proc i).status ≡ zombie) × ((k'.proc i).status ≡ free)))
Waited p k asleep k' =
    Touches p k k' × ((k'.proc p).status ≡ sleeping) × ((k'.proc p).chan ≡ some p)

module _ (end_address : ℕ) where
  page_free-OnlyPages :
      (pa : ℕ) (k : Procs) → Ensures (λ _. OnlyPages k) (page_free end_address pa k)
  unfolding page_free Kalloc.kfree
  page_free-OnlyPages pa k =
      elim (Bool-cases (pa % pgsize != 0 || ltb pa end_address || leb Kalloc.phystop pa)) [
        | inl bad ↦ rw bad panics
        | inr good ↦ rw good (done (only_pages k _))
      ]

  release-OnlyPages : (pa : ℕ) (k : Procs) → Ensures (λ _. OnlyPages k) (release end_address pa k)
  unfolding release
  release-OnlyPages pa k = elim (Bool-cases (pa == 0)) [
    | inl null ↦ rw null (done (only_pages k k.pages))
    | inr page ↦ rw page (page_free-OnlyPages pa k)
  ]

  store_exit-OnlyPages :
      (addr v : ℕ) (k : Procs)
      → Returns
          (λ _. OnlyPages k)
          ((if addr == 0 then pure tt else modify (set_mem (λ m. store32 m addr v))) k)
  store_exit-OnlyPages addr v k = elim (Bool-cases (addr == 0)) [
    | inl null ↦ rw null (returns (only_pages k k.pages))
    | inr there ↦ rw there (returns (only_pages k _))
  ]

  pub reap-Reaped : (addr c : ℕ) (k : Procs) → Ensures (Reaped c k) (reap end_address addr c k)
  unfolding reap
  reap-Reaped addr c k =
      Ensures-bind (Ensures-of_Returns (store_exit-OnlyPages addr (k.proc c).xstate k)) λ _ k1 o1.
        Ensures-bind (release-OnlyPages (k.proc c).trapframe _) λ _ k2 o2.
          Ensures-bind (release-OnlyPages (k.proc c).kstack _) λ _ k3 o3. done (
            refl,
            record {
              current = o3.current ∙ o2.current ∙ o1.current;
              others = λ j ne. ground (arith, o3.same j, o2.same j, o1.same j);
            },
            ground (arith, o3.same c, o2.same c, o1.same c),
          )

  Waited-of_Reaped :
      (p c : ℕ) (k : Procs)
      → (k.proc c).status ≡ zombie
      → (r : Round) (k' : Procs) → Reaped c k r k'
      → Waited p k r k'
  Waited-of_Reaped p c k z asleep k' (e, touch, now) = cc
  Waited-of_Reaped p c k z (returned v) k' (e, touch, now) = (
    touch.current,
    λ i. elim (ℕ-cases i c) [
      | inl at ↦ inr (rw at z, rw at now)
      | inr off ↦ inl (touch.others i off)
    ],
  )

  sleep-ok :
      (p : ℕ) (k : Procs)
      → k.current ≡ some p
      → sleep (some p) k ≡ ok tt (set_proc p (λ q. record q { chan = some p; status = sleeping }) k)
  unfolding sleep
  sleep-ok p k cur = rw (myproc-ok p k cur)

  pub wait_scan-Waited :
      (n i : ℕ) (havekids : Bool) (addr p : ℕ) (k : Procs)
      → k.current ≡ some p
      → Ensures (Waited p k) (wait_scan end_address n i havekids addr p k)
  unfolding wait_scan
  wait_scan-Waited zero i false addr p k cur = done (refl, λ i. inl refl)
  wait_scan-Waited zero i true addr p k cur =
      rw (sleep-ok p k cur) (
        done (record { current = refl; others = λ j ne. ground arith }, ground arith, ground arith))
  wait_scan-Waited (suc n) i havekids addr p k cur =
      elim (Bool-cases (is_child p (k.proc i) && is_zombie (k.proc i).status)) [
        | inl hit ↦
            rw hit (Ensures-mono (reap-Reaped addr i k) (Waited-of_Reaped p i k (ground arith)))
        | inr miss ↦
            rw miss (wait_scan-Waited n (i + 1) (is_child p (k.proc i) || havekids) addr p k cur)
      ]
