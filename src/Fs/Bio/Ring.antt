-- ===== src/Fs/Bio/Ring.antt =====
-- The doubly linked list of fs/bio.c as the list of its nodes, the most recently used first.
use riscv_os_lab.Prelude.{
  ℕ, ◌≡◌, refl, sym, ◌∙◌, ◌≢◌, ◌⊎◌, inl, inr, true, List, [], ◌∷◌, arith, ◌==◌, if◌then◌else◌,
  ==_refl, ==-false, ℕ-cases,
}
use riscv_os_lab.Prelude.Lists.{
  has, NotIn, IsDistinct, remove, ne-of_NotIn, NotIn-remove, NotIn-remove_self, IsDistinct-remove,
}
use riscv_os_lab.Fs.Bio.{Nodes, head, push_front, unlink}

-- From the node `a` the list goes on through `xs` and back to the head, with the links both ways.
abbrev pub Links : Nodes → ℕ → List ℕ → Type 0
Links t a [] = ((t a).next ≡ head) × ((t head).prev ≡ a)
Links t a (x ∷ xs) = ((t a).next ≡ x) × ((t x).prev ≡ a) × Links t x xs

-- the nodes of the list, from the head on
pub record Ring (t : Nodes) (xs : List ℕ) : Type 0 where
  pub links : Links t head xs
  pub distinct : IsDistinct xs
  pub no_head : NotIn head xs

pub Links-frame :
    (t t' : Nodes) (a : ℕ) (xs : List ℕ)
    → Links t a xs
    → ((j : ℕ) → has j (a ∷ xs) ≡ true → (t' j).next ≡ (t j).next)
    → ((j : ℕ) → has j (head ∷ xs) ≡ true → (t' j).prev ≡ (t j).prev)
    → Links t' a xs
Links-frame t t' a [] l n p = (n a (ground arith) ∙ l.0, p head refl ∙ l.1)
Links-frame t t' a (x ∷ xs) l n p = (
  n a (ground arith) ∙ l.0,
  p x (ground arith) ∙ l.1,
  Links-frame t t' x xs l.2 (λ j h. n j (ground arith)) (λ j h. p j (ground arith)),
)

-- what the writes of `unlink` and `push_front` leave
unlink-eq :
    (b : ℕ) (t : Nodes) (j : ℕ)
    → unlink b t j ≡ record (t j) {
      next = if j == (t b).prev then (t b).next else (t j).next;
      prev = if j == (t b).next then (t b).prev else (t j).prev;
    }
unfolding unlink
unlink-eq b t j = ground arith

push_front-eq :
    (b : ℕ) (t : Nodes) (j : ℕ)
    → b ≢ head
    → (t head).next ≢ b
    → push_front b t j ≡ record (t j) {
      next = if j == head then b else if j == b then (t head).next else (t j).next;
      prev = if j == (t head).next then b else if j == b then head else (t j).prev;
    }
unfolding push_front
push_front-eq b t j ne off = ground arith

-- the neighbours of a node of the list
prev_in :
    (t : Nodes) (b a : ℕ) (xs : List ℕ)
    → Links t a xs
    → has b xs ≡ true
    → has (t b).prev (a ∷ xs) ≡ true
prev_in t b a [] l m = cc
prev_in t b a (x ∷ xs) l m = elim (ℕ-cases b x) [
  | inl e ↦ let e' : (t b).prev ≡ a = rw e l.1 in rw (e', ==_refl a)
  | inr ne ↦ ground (arith, prev_in t b x xs l.2)
]

next_in :
    (t : Nodes) (b a : ℕ) (xs : List ℕ)
    → Links t a xs
    → has b (a ∷ xs) ≡ true
    → ((t b).next ≡ head) ⊎ (has (t b).next xs ≡ true)
next_in t b a [] l m = let e : b ≡ a = ground arith in inl (rw e l.0)
next_in t b a (x ∷ xs) l m = elim (ℕ-cases b a) [
  | inl e ↦ let e' : (t b).next ≡ x = rw e l.0 in inr (rw (e', ==_refl x))
  | inr ne ↦ elim (next_in t b x xs l.2 (rw (==-false b a ne) at m)) [
    | inl h ↦ inl h
    | inr h ↦ inr (ground arith)
  ]
]

Links-unlink_first :
    (t : Nodes) (b a : ℕ) (xs : List ℕ)
    → Links t a (b ∷ xs)
    → IsDistinct (a ∷ b ∷ xs)
    → NotIn head (b ∷ xs)
    → Links (unlink b t) a xs
Links-unlink_first t b a [] l d nh =
    (ground (arith, unlink-eq b t a), ground (arith, unlink-eq b t head))
Links-unlink_first t b a (x ∷ xs) l d nh = (
  ground (arith, unlink-eq b t a),
  ground (arith, unlink-eq b t x),
  Links-frame t (unlink b t) x xs l.2.2
      (λ j h. let off : a ≢ j = ne-of_NotIn a j (x ∷ xs) d.0.1 h in ground (arith, unlink-eq b t j))
      (λ j h.
        let off : x ≢ j = elim (ℕ-cases j head) [
          | inl e ↦ (λ e'. nh.1.0 (sym e ∙ sym e'))
          | inr ne ↦ ne-of_NotIn x j xs d.1.1.0 (rw (==-false j head ne) at h)
        ] in
        ground (arith, unlink-eq b t j)),
)

-- Taking a node out leaves the rest linked.
Links-unlink :
    (t : Nodes) (b a : ℕ) (xs : List ℕ)
    → Links t a xs
    → IsDistinct (a ∷ xs)
    → NotIn head xs
    → has b xs ≡ true
    → Links (unlink b t) a (remove b xs)
Links-unlink t b a [] l d nh m = cc
Links-unlink t b a (x ∷ xs) l d nh m = elim (ℕ-cases x b) [
  | inl e ↦ rw (e, ==_refl b) (Links-unlink_first t b a xs (rw e at l) (rw e at d) (rw e at nh))
  | inr ne ↦
      let m' : has b xs ≡ true = ground arith in
      let before : has (t b).prev (x ∷ xs) ≡ true = prev_in t b x xs l.2 m' in
      let a_off : a ≢ (t b).prev = ne-of_NotIn a (t b).prev (x ∷ xs) d.0 before in
      let after = next_in t b x xs l.2 (ground arith) in
      let x_off : x ≢ (t b).next = elim after [
        | inl h ↦ (λ e. nh.0 (sym h ∙ sym e))
        | inr h ↦ ne-of_NotIn x (t b).next xs d.1.0 h
      ] in
      rw (==-false x b ne) (
        ground (arith, unlink-eq b t a),
        ground (arith, unlink-eq b t x),
        Links-unlink t b x xs l.2 d.1 nh.1 m',
      )
]

pub Links-push_front :
    (t : Nodes) (b : ℕ) (xs : List ℕ)
    → Links t head xs
    → NotIn head (b ∷ xs)
    → IsDistinct (b ∷ xs)
    → Links (push_front b t) head (b ∷ xs)
Links-push_front t b [] l nh d =
    let bh : b ≢ head = (λ e. nh.0 (sym e)) in
    let off : (t head).next ≢ b = (λ e. nh.0 (sym l.0 ∙ e)) in
    (
      ground (arith, push_front-eq b t head bh off),
      ground (arith, push_front-eq b t b bh off),
      (ground (arith, push_front-eq b t b bh off), ground (arith, push_front-eq b t head bh off)),
    )
Links-push_front t b (x ∷ xs) l nh d =
    let bh : b ≢ head = (λ e. nh.0 (sym e)) in
    let off : (t head).next ≢ b = (λ e. d.0.0 (sym e ∙ l.0)) in
    (
      ground (arith, push_front-eq b t head bh off),
      ground (arith, push_front-eq b t b bh off),
      (
        ground (arith, push_front-eq b t b bh off),
        ground (arith, push_front-eq b t x bh off),
        Links-frame t (push_front b t) x xs l.2
            (λ j h.
              let a1 : head ≢ j = ne-of_NotIn head j (x ∷ xs) nh.1 h in
              let a2 : b ≢ j = ne-of_NotIn b j (x ∷ xs) d.0 h in
              ground (arith, push_front-eq b t j bh off))
            (λ j h. elim (ℕ-cases j head) [
              | inl e ↦ rw e (ground (arith, push_front-eq b t head bh off, nh.1.0))
              | inr ne ↦
                  let h' : has j xs ≡ true = rw (==-false j head ne) at h in
                  let a1 : x ≢ j = ne-of_NotIn x j xs d.1.0 h' in
                  let a2 : b ≢ j = ne-of_NotIn b j xs d.0.1 h' in
                  ground (arith, push_front-eq b t j bh off)
            ]),
      ),
    )

-- Taking a node out and putting it behind the head moves it to the front of the list.
pub to_front-Ring :
    (t : Nodes) (b : ℕ) (xs : List ℕ)
    → Ring t xs
    → has b xs ≡ true
    → Ring (push_front b (unlink b t)) (b ∷ remove b xs)
to_front-Ring t b xs r m =
    let d : IsDistinct (b ∷ remove b xs) =
      (NotIn-remove_self b xs r.distinct, IsDistinct-remove b xs r.distinct) in
    let nh : NotIn head (b ∷ remove b xs) =
      (ne-of_NotIn head b xs r.no_head m, NotIn-remove b head xs r.no_head) in
    record {
      links =
          Links-push_front (unlink b t) b (remove b xs)
            (Links-unlink t b head xs r.links (r.no_head, r.distinct) r.no_head m) nh d;
      distinct = d;
      no_head = nh;
    }
