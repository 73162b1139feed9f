-- ===== src/Fs/Bio/Start.antt =====
-- The cache of fs/bio.c after `binit` on buffers that are all zero, as the kernel is loaded.
use riscv_os_lab.Prelude.{ℕ, zero, suc, ◌+◌, ◌≡◌, refl, sym, ◌∙◌, ◌≢◌, arith}
use riscv_os_lab.Fs.Bio.{
  Nodes, nbuf, head, BlockDriver, set_next, set_prev, push_front, binit_loop, binit,
}
use riscv_os_lab.Fs.Bio.Release.{below, binit-Ring}
use riscv_os_lab.Fs.Bio.Coherence.{Steady}

-- No buffer has a device or a user.
abbrev pub Idle : Nodes → Type 0
Idle t = (j : ℕ) → ((t j).dev ≡ 0) × ((t j).refcnt ≡ 0)

set_next-Idle : (b v : ℕ) (t : Nodes) → Idle t → Idle (set_next b v t)
set_next-Idle b v t h j = ground (arith, h j, h b)

set_prev-Idle : (b v : ℕ) (t : Nodes) → Idle t → Idle (set_prev b v t)
set_prev-Idle b v t h j = ground (arith, h j, h b)

push_front-Idle : (b : ℕ) (t : Nodes) → Idle t → Idle (push_front b t)
unfolding push_front
push_front-Idle b t h =
    let t1 = set_next b (t head).next t in
    let t2 = set_prev b head t1 in
    let t3 = set_prev (t2 head).next b t2 in
    set_next-Idle head b t3 (
      set_prev-Idle (t2 head).next b t2
        (set_prev-Idle b head t1 (set_next-Idle b (t head).next t h)))

binit_loop-Idle : (n b : ℕ) (t : Nodes) → Idle t → Idle (binit_loop n b t)
unfolding binit_loop
binit_loop-Idle zero b t h = h
binit_loop-Idle (suc n) b t h = binit_loop-Idle n (b + 1) (push_front b t) (push_front-Idle b t h)

binit-Idle : (t : Nodes) → Idle t → Idle (binit t)
unfolding binit
binit-Idle t h =
    binit_loop-Idle nbuf 0 (set_next head head (set_prev head head t))
      (set_next-Idle head head (set_prev head head t) (set_prev-Idle head head t h))

module _ ⦃driver : BlockDriver⦄ where
  -- After `binit` on buffers with no device and no user, with the disk ready, the list holds all
  -- NBUF of them, each once, none is in use, and the cache is coherent with the disk for every
  -- device but 0.
  pub binit-Steady :
      (dev : ℕ) (t : Nodes) (d : driver.Disk)
      → dev ≢ 0
      → Idle t
      → driver.IsReady d
      → Steady dev (driver.block d) (below nbuf) (record { nodes = binit t; disk = d })
  binit-Steady dev t d some_dev idle ready = record {
    ring = binit-Ring t;
    short = omega arith;
    some_buffer = (0, refl);
    unused = λ j h. (binit-Idle t idle j).1;
    synced = λ j h e. absurd (some_dev (sym e ∙ (binit-Idle t idle j).0));
    one = λ i j hi hj di dj same. absurd (some_dev (sym di ∙ (binit-Idle t idle i).0));
    ready = ready;
    on_disk = λ m. refl;
  }
