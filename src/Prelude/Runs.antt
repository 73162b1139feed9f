-- ===== src/Prelude/Runs.antt =====
-- Runs of kernel code over a state: a value with the new state, the halt of `panic`, the end of a loop's
-- fuel, or a null dereference.
use riscv_os_lab.Prelude.{◌≡◌, refl}

-- One constructor for each message that the kernel hands to `panic`, and for each exit of mkfs.
pub data Reason : Type 0 where
  kfree_invalid_address : Reason
  walk_out_of_range : Reason
  mappages_size_is_0 : Reason
  mappages_remap : Reason
  kvmininit_out_of_memory : Reason
  userinit_allocproc_failed userinit_kstack_failed userinit_user_code_failed : Reason
  userinit_walk_user_code_failed userinit_user_stack_failed userinit_walk_user_stack_failed : Reason
  exit_zombie_returned : Reason
  bget_no_buffers : Reason
  disk_failed : Reason
  invalid_file_system : Reason
  balloc_out_of_blocks freeing_free_block : Reason
  iget_no_inodes ilock_bad_inode ilock_no_type iunlock_bad_inode ialloc_no_inodes : Reason
  bmap_out_of_range dirlookup_read_error dirlink_read dirlink_write : Reason
  filedup_unreferenced fileclose_unreferenced : Reason
  sys_open_ialloc sys_open_dirlink : Reason
  argraw_invalid_argument_index : Reason
  virtio_disk_init_failed virtio_disk_no_queue virtio_disk_queue_too_short : Reason
  virtio_no_desc virtio_disk_rw_status_error : Reason
  trap_not_from_supervisor trap_interrupts_enabled trap_unexpected_exception : Reason
  usertrap_unexpected : Reason
  mkfs_usage mkfs_open mkfs_lseek mkfs_read mkfs_write mkfs_assert : Reason

pub data Run (S : Type 0) (A : Type 0) : Type 0 where
  ok : A → S → Run S A
  panic : Reason → Run S A
  out_of_fuel : Run S A
  -- a null pointer that is dereferenced
  fault : Run S A

-- code over the state `S` that returns an `A`
abbrev pub Cmd : Type 0 → Type 0 → Type 0
Cmd S A = S → Run S A

abbrev pub and_then : {S A B : Type 0} → Run S A → (A → Cmd S B) → Run S B
and_then (ok a s) k = k a s
and_then (panic r) k = panic r
and_then out_of_fuel k = out_of_fuel
and_then fault k = fault

infixl 5 ◌>>=◌ ◌>>◌
abbrev pub ◌>>=◌ : {S A B : Type 0} → Cmd S A → (A → Cmd S B) → Cmd S B
m >>= k = λ s. and_then (m s) k

abbrev pub ◌>>◌ : {S A B : Type 0} → Cmd S A → Cmd S B → Cmd S B
m >> n = λ s. and_then (m s) (λ _. n)

abbrev pub pure : {S A : Type 0} → A → Cmd S A
pure = ok

-- the state itself, and a change of it
abbrev pub get : {S : Type 0} → Cmd S S
get s = ok s s

abbrev pub modify : {S : Type 0} → (S → S) → Cmd S (Unit {0})
modify f s = ok tt (f s)

abbrev pub halt : {S A : Type 0} → Reason → Cmd S A
halt r s = panic r

abbrev pub put_back : {S T A : Type 0} → (T → S → S) → S → Run T A → Run S A
put_back put s (ok a t) = ok a (put t s)
put_back put s (panic r) = panic r
put_back put s out_of_fuel = out_of_fuel
put_back put s fault = fault

-- code over a part of the state
abbrev pub in_part : {S T A : Type 0} → (S → T) → (T → S → S) → Cmd T A → Cmd S A
in_part part put m s = put_back put s (m (part s))

-- A run that ends without a panic, in a value and a state of which `P` holds.
pub data Returns {S A : Type 0} (P : A → S → Type 0) : Run S A → Type 0 where
  returns : {a : A} {s : S} → P a s → Returns P (ok a s)

module _ {S A : Type 0} {P : A → S → Type 0} where
  pub bind :
      {B : Type 0} {Q : B → S → Type 0} {r : Run S A} {k : A → Cmd S B}
      → Returns P r
      → ((a : A) (s : S) → P a s → Returns Q (k a s))
      → Returns Q (and_then r k)
  bind (returns p) next = next _ _ p

  pub mono :
      {Q : A → S → Type 0} {r : Run S A}
      → Returns P r
      → ((a : A) (s : S) → P a s → Q a s)
      → Returns Q r
  mono (returns p) weaken = returns (weaken _ _ p)

  -- what such a run ends in
  pub Returns-result : (r : Run S A) → Returns P r → (a : A) × (s : S) × (r ≡ ok a s) × P a s
  Returns-result r (returns p) = (_, _, refl, p)

pub and_then_assoc :
    {S A B C : Type 0} (r : Run S A) (f : A → Cmd S B) (g : B → Cmd S C)
    → and_then (and_then r f) g ≡ and_then r (λ a. f a >>= g)
and_then_assoc (ok a s) f g = refl
and_then_assoc (panic e) f g = refl
and_then_assoc out_of_fuel f g = refl
and_then_assoc fault f g = refl

-- Partial correctness: if the run ends in a value, `P` holds of it.
pub data Ensures {S A : Type 0} (P : A → S → Type 0) : Run S A → Type 0 where
  done : {a : A} {s : S} → P a s → Ensures P (ok a s)
  panics : {r : Reason} → Ensures P (panic r)
  runs_out : Ensures P out_of_fuel
  faults : Ensures P fault

module _ {S A : Type 0} {P : A → S → Type 0} where
  pub Ensures-bind :
      {B : Type 0} {Q : B → S → Type 0} {r : Run S A} {k : A → Cmd S B}
      → Ensures P r
      → ((a : A) (s : S) → P a s → Ensures Q (k a s))
      → Ensures Q (and_then r k)
  Ensures-bind (done p) next = next _ _ p
  Ensures-bind panics next = panics
  Ensures-bind runs_out next = runs_out
  Ensures-bind faults next = faults

  pub Ensures-mono :
      {Q : A → S → Type 0} {r : Run S A}
      → Ensures P r
      → ((a : A) (s : S) → P a s → Q a s)
      → Ensures Q r
  Ensures-mono (done p) weaken = done (weaken _ _ p)
  Ensures-mono panics weaken = panics
  Ensures-mono runs_out weaken = runs_out
  Ensures-mono faults weaken = faults

  pub Ensures-of_Returns : {r : Run S A} → Returns P r → Ensures P r
  Ensures-of_Returns (returns p) = done p
