-- ===== src/Fs/Inode/Slots.antt =====
-- The slots of the inode cache of fs/fs.c, under `iget` and `iput`.
use riscv_os_lab.Prelude.{
  ℕ, ◌+◌, ◌%◌, ◌^◌, ◌<◌, ◌≡◌, refl, sym, ◌∙◌, ◌≢◌, ◌⊎◌, inl, inr, true, false, none, some, arith,
  ==_refl, ==-false, ℕ-cases, update,
}
use riscv_os_lab.Prelude.Runs.{Reason, Run, ok, panic, Returns, returns}
use riscv_os_lab.Fs.State.{ninode, Inode, is_pos, Fs}
use riscv_os_lab.Fs.Inode.{is_inode, Lookup, hit, miss, iget_scan, put_inode, iget_from, iget, iput}
use riscv_os_lab.Fs.Inode.Scan.{Found, iget_scan-Found}

-- Each inode in use has one slot.
abbrev pub OneSlot : (ℕ → Inode) → Type 0
OneSlot t =
    (i j : ℕ)
    → i < ninode
    → j < ninode
    → is_pos (t i).ref ≡ true
    → is_pos (t j).ref ≡ true
    → (t i).dev ≡ (t j).dev
    → (t i).inum ≡ (t j).inum
    → i ≡ j

-- What `iget` returns: a slot for the inode, in use, with one slot for each inode still; the other
-- slots are unchanged.
pub record Got {D : Type 0} (dev inum : ℕ) (s : Fs D) (i : ℕ) (s' : Fs D) : Type 0 where
  pub in_table : i < ninode
  pub for_dev : (s'.inode i).dev ≡ dev
  pub for_inum : (s'.inode i).inum ≡ inum
  pub in_use : is_pos (s'.inode i).ref ≡ true
  pub one_slot : OneSlot s'.inode
  pub counted :
      ((is_inode dev inum (s.inode i) ≡ true) × ((s'.inode i).ref ≡ (s.inode i).ref + 1))
      ⊎ (((s.inode i).ref ≡ 0) × ((s'.inode i).ref ≡ 1))
  pub others : (j : ℕ) → j ≢ i → s'.inode j ≡ s.inode j

hit-OneSlot :
    (t : ℕ → Inode) (i : ℕ)
    → OneSlot t
    → is_pos (t i).ref ≡ true
    → OneSlot (update t i (record (t i) { ref = ((t i).ref + 1) % 2 ^ 32 }))
hit-OneSlot t i one pos a b la lb pa pb ed ei =
    one a b la lb (was a pa) (was b pb) (dev_was a b ed) (inum_was a b ei)
  where
    was :
        (j : ℕ)
        → is_pos (update t i (record (t i) { ref = ((t i).ref + 1) % 2 ^ 32 }) j).ref ≡ true
        → is_pos (t j).ref ≡ true
    was j h = elim (ℕ-cases j i) [ inl e ↦ rw e pos | inr ne ↦ rw (==-false j i ne) at h ]

    dev_of :
        (j : ℕ) → (update t i (record (t i) { ref = ((t i).ref + 1) % 2 ^ 32 }) j).dev ≡ (t j).dev
    dev_of j = ground arith

    inum_of :
        (j : ℕ) → (update t i (record (t i) { ref = ((t i).ref + 1) % 2 ^ 32 }) j).inum ≡ (t j).inum
    inum_of j = ground arith

    dev_was :
        (a b : ℕ)
        → (update t i (record (t i) { ref = ((t i).ref + 1) % 2 ^ 32 }) a).dev
          ≡ (update t i (record (t i) { ref = ((t i).ref + 1) % 2 ^ 32 }) b).dev
        → (t a).dev ≡ (t b).dev
    dev_was a b e = sym (dev_of a) ∙ e ∙ dev_of b

    inum_was :
        (a b : ℕ)
        → (update t i (record (t i) { ref = ((t i).ref + 1) % 2 ^ 32 }) a).inum
          ≡ (update t i (record (t i) { ref = ((t i).ref + 1) % 2 ^ 32 }) b).inum
        → (t a).inum ≡ (t b).inum
    inum_was a b e = sym (inum_of a) ∙ e ∙ inum_of b

miss-OneSlot :
    (t : ℕ → Inode) (dev inum i : ℕ)
    → OneSlot t
    → ((j : ℕ) → j < ninode → is_inode dev inum (t j) ≡ false)
    → OneSlot (update t i (record (t i) { dev = dev; inum = inum; ref = 1; valid = false }))
miss-OneSlot t dev inum i one absent a b la lb pa pb ed ei = elim (ℕ-cases a i) [
  | inl ea ↦ elim (ℕ-cases b i) [
    | inl eb ↦ ea ∙ sym eb
    | inr nb ↦ absurd (ground (arith, absent b lb))
  ]
  | inr na ↦ elim (ℕ-cases b i) [
    | inl eb ↦ absurd (ground (arith, absent a la))
    | inr nb ↦ ground (arith, one a b la lb)
  ]
]

-- How `iget` ends: in a slot, or in a panic with every slot in use and none for the inode.
abbrev pub IgetEnds : {D : Type 0} → ℕ → ℕ → Fs D → Run (Fs D) ℕ → Type 0
IgetEnds {D} dev inum s r =
    ((i : ℕ) × (s' : Fs D) × (r ≡ ok i s') × Got dev inum s i s')
    ⊎ ((r ≡ panic Reason.iget_no_inodes)
        × ((j : ℕ) → j < ninode → ((s.inode j).ref ≢ 0) × (is_inode dev inum (s.inode j) ≡ false)))

module _ {D : Type 0} where
  iget_from-ends :
      (dev inum : ℕ) (s : Fs D) (l : Lookup)
      → OneSlot s.inode
      → ((j : ℕ) → j < ninode → (s.inode j).ref + 1 < 2 ^ 31)
      → Found ninode 0 none dev inum s.inode l
      → IgetEnds dev inum s (iget_from dev inum l s)
  unfolding iget_from
  iget_from-ends dev inum s (hit i) one small (lt, match) =
      let lt' : i < ninode = omega arith in
      let bound : (s.inode i).ref + 1 < 2 ^ 31 = small i lt' in
      inl (
        i,
        _,
        refl,
        record {
          in_table = lt';
          for_dev = ground arith;
          for_inum = ground arith;
          in_use = ground arith;
          one_slot = hit-OneSlot s.inode i one (ground arith);
          counted = inl (match, ground arith);
          others = λ j ne. rw (==-false j i ne) refl;
        },
      )
  iget_from-ends dev inum s (miss (some i)) one small (absent, slot, full) =
      let from : (i < 0 + ninode) × ((s.inode i).ref ≡ 0) = elim (slot i refl) [
        | inl n ↦ cc
        | inr h ↦ h
      ] in
      inl (
        i,
        _,
        refl,
        record {
          in_table = omega (arith, from.0);
          for_dev = ground arith;
          for_inum = ground arith;
          in_use = ground arith;
          one_slot =
              miss-OneSlot s.inode dev inum i one (λ j lt. absent j (omega arith) (omega arith));
          counted = inr (from.1, ground arith);
          others = λ j ne. rw (==-false j i ne) refl;
        },
      )
  iget_from-ends dev inum s (miss none) one small (absent, slot, full) = inr (
    refl,
    λ j lt. ((full refl).1 j (omega arith) (omega arith), absent j (omega arith) (omega arith)),
  )

  -- `iget`, with one slot for each inode in use and no reference count at its limit, either returns a
  -- slot for the inode, counts one more reference on it or takes an unused slot with the first one,
  -- changes no other slot and keeps one slot for each inode in use; or it panics, and then every slot
  -- is in use and none is for the inode.
  pub iget_lem :
      (dev inum : ℕ) (s : Fs D)
      → OneSlot s.inode
      → ((j : ℕ) → j < ninode → (s.inode j).ref + 1 < 2 ^ 31)
      → IgetEnds dev inum s (iget dev inum s)
  unfolding iget
  iget_lem dev inum s one small =
      iget_from-ends dev inum s (iget_scan ninode 0 none dev inum s.inode) one small
        (iget_scan-Found ninode 0 none dev inum s.inode)

  -- `iput` of a slot in use keeps one slot for each inode in use, counts one reference less and
  -- changes no other slot.
  pub iput_lem :
      (i : ℕ) (s : Fs D)
      → OneSlot s.inode
      → is_pos (s.inode i).ref ≡ true
      → Returns
          (λ _ s'.
            OneSlot s'.inode
            × ((s'.inode i).ref + 1 ≡ (s.inode i).ref)
            × ((j : ℕ) → j ≢ i → s'.inode j ≡ s.inode j))
          (iput i s)
  unfolding iput
  iput_lem i s one pos = returns (one_slot, less, λ j ne. rw (==-false j i ne) refl)
    where
      less : (update s.inode i (put_inode (s.inode i)) i).ref + 1 ≡ (s.inode i).ref
      less = rw (==_refl i) (ground arith)

      was :
          (j : ℕ)
          → is_pos (update s.inode i (put_inode (s.inode i)) j).ref ≡ true
          → is_pos (s.inode j).ref ≡ true
      was j h = elim (ℕ-cases j i) [ inl e ↦ rw e pos | inr ne ↦ rw (==-false j i ne) at h ]

      dev_of : (j : ℕ) → (update s.inode i (put_inode (s.inode i)) j).dev ≡ (s.inode j).dev
      dev_of j = elim (ℕ-cases j i) [
        | inl e ↦ rw (e, ==_refl i) refl
        | inr ne ↦ rw (==-false j i ne) refl
      ]

      inum_of : (j : ℕ) → (update s.inode i (put_inode (s.inode i)) j).inum ≡ (s.inode j).inum
      inum_of j = elim (ℕ-cases j i) [
        | inl e ↦ rw (e, ==_refl i) refl
        | inr ne ↦ rw (==-false j i ne) refl
      ]

      one_slot : OneSlot (update s.inode i (put_inode (s.inode i)))
      one_slot a b la lb pa pb ed ei =
          one a b la lb (was a pa) (was b pb) (sym (dev_of a) ∙ ed ∙ dev_of b)
            (sym (inum_of a) ∙ ei ∙ inum_of b)
