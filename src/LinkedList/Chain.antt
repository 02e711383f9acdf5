-- ===== src/LinkedList/Chain.antt =====
-- A run of linked nodes in the memory, in both directions, and what writes do to it.
use mindconnect_lib.Base.{
  ◌≡◌, refl, sym, ap, ◌∙◌, Bool, true, false, ◌||◌, Option, none, some, List, [], ◌∷◌, ◌++◌, arith,
  ◌==◌,
}
use mathlib.Core.Bool.{or_assoc}
use mathlib.Core.Path.{subst}
use mindconnect_lib.LinkedList.Memory.{Ptr, null, Node, node, Memory, write, modify}

-- The address and the item of each node, in order.
abbrev pub Cells : Type 0
Cells = List (Ptr × Ptr)

abbrev pub has : Ptr → Cells → Bool
has a [] = false
has a ((p, _) ∷ xs) = (a == p) || has a xs

abbrev pub head_of : Cells → Ptr → Ptr
head_of [] q = q
head_of ((p, _) ∷ xs) q = p

abbrev pub last_of : Ptr → Cells → Ptr
last_of p [] = p
last_of p ((a, _) ∷ xs) = last_of a xs

-- The nodes `xs` lie in `h`, linked both ways, at different addresses, between `before` and `after`.
abbrev pub Chain : Memory → Ptr → Cells → Ptr → Type 0
Chain h before [] after = Unit
Chain h before ((p, d) ∷ xs) after =
    (h p ≡ some (node d before (head_of xs after)))
    × ((p == null) ≡ false)
    × (has p xs ≡ false)
    × Chain h p xs after

abbrev pub Disjoint : Cells → Cells → Type 0
Disjoint xs ys = (a : Ptr) → has a xs ≡ true → has a ys ≡ false

-- `g` differs from `h` at most at the addresses of `xs`.
abbrev pub SameOutside : Cells → Memory → Memory → Type 0
SameOutside xs h g = (a : Ptr) → has a xs ≡ false → g a ≡ h a

pub has-append : (a : Ptr) (xs ys : Cells) → has a (xs ++ ys) ≡ (has a xs || has a ys)
has-append a [] ys = refl
has-append a ((p, _) ∷ xs) ys = rw (has-append a xs ys, or_assoc)

pub not_has-append :
    (a : Ptr) (xs ys : Cells) → has a (xs ++ ys) ≡ false → (has a xs ≡ false) × (has a ys ≡ false)
not_has-append a xs ys h = ground (arith, has-append a xs ys)

pub head_of-append : (xs ys : Cells) (q : Ptr) → head_of (xs ++ ys) q ≡ head_of xs (head_of ys q)
head_of-append [] ys q = refl
head_of-append ((p, _) ∷ xs) ys q = refl

pub last_of-append : (p : Ptr) (xs ys : Cells) → last_of p (xs ++ ys) ≡ last_of (last_of p xs) ys
last_of-append p [] ys = refl
last_of-append p ((a, _) ∷ xs) ys = last_of-append a xs ys

pub has-last_of : (p d : Ptr) (xs : Cells) → has (last_of p xs) ((p, d) ∷ xs) ≡ true
has-last_of p d [] = ground arith
has-last_of p d ((a, e) ∷ xs) = ground (arith, has-last_of a e xs)

pub has-ne : (a b : Ptr) (xs : Cells) → has a xs ≡ true → has b xs ≡ false → (b == a) ≡ false
has-ne a b xs i o = ground arith

pub modify-other :
    (h : Memory) (p a : Ptr) (f : Node → Node) → (a == p) ≡ false → modify h p f a ≡ h a
unfolding modify
modify-other h p a f ne = rw ne

pub write-other :
    (h : Memory) (p a : Ptr) (c : Option Node) → (a == p) ≡ false → write h p c a ≡ h a
unfolding write
write-other h p a c ne = rw ne

-- A chain survives any change that spares its own addresses.
pub Chain-frame :
    (h g : Memory) (before after : Ptr) (xs : Cells)
    → Chain h before xs after
    → ((a : Ptr) → has a xs ≡ true → g a ≡ h a)
    → Chain g before xs after
Chain-frame h g before after [] c same = tt
Chain-frame h g before after ((p, d) ∷ xs) c same = (
  same p (ground arith) ∙ c.0,
  c.1,
  c.2,
  Chain-frame h g p after xs c.3 (λ a i. same a (ground arith)),
)

module _ (h : Memory) where
  pub Chain-null : (before after : Ptr) (xs : Cells) → Chain h before xs after → has null xs ≡ false
  Chain-null before after [] c = refl
  Chain-null before after ((p, d) ∷ xs) c = ground (arith, Chain-null p after xs c.3)

  -- An unused address is in no chain.
  pub Chain-unused :
      (a before after : Ptr) (xs : Cells) → Chain h before xs after → h a ≡ none → has a xs ≡ false
  Chain-unused a before after [] c unused = refl
  Chain-unused a before after ((p, d) ∷ xs) c unused =
      ground (arith, Chain-unused a p after xs c.3 unused)

  pub Chain-split :
      (before after : Ptr) (xs ys : Cells)
      → Chain h before (xs ++ ys) after
      → Chain h before xs (head_of ys after) × Chain h (last_of before xs) ys after × Disjoint xs ys
  Chain-split before after [] ys c = (tt, c, λ a i. cc)
  Chain-split before after ((p, d) ∷ xs) ys c =
      let (front, back, apart) = Chain-split p after xs ys c.3 in
      (
        (
          c.0 ∙ ap (λ q. some (node d before q)) (head_of-append xs ys after),
          c.1,
          ground (arith, has-append p xs ys),
          front,
        ),
        back,
        λ a i. ground (arith, has-append p xs ys, apart a),
      )

  pub Chain-join :
      (before after : Ptr) (xs ys : Cells)
      → Chain h before xs (head_of ys after)
      → Chain h (last_of before xs) ys after
      → Disjoint xs ys
      → Chain h before (xs ++ ys) after
  Chain-join before after [] ys front back apart = back
  Chain-join before after ((p, d) ∷ xs) ys front back apart = (
    front.0 ∙ ap (λ q. some (node d before q)) (sym (head_of-append xs ys after)),
    front.1,
    ground (arith, has-append p xs ys, apart p),
    Chain-join p after xs ys front.3 back (λ a i. apart a (ground arith)),
  )

  pub Chain-write :
      (before after a : Ptr) (c : Option Node) (xs : Cells)
      → Chain h before xs after
      → has a xs ≡ false
      → Chain (write h a c) before xs after
  unfolding write
  Chain-write before after a c xs ch out =
      Chain-frame h (write h a c) before after xs ch (λ b i. ground arith)

  pub Chain-modify :
      (before after a : Ptr) (f : Node → Node) (xs : Cells)
      → Chain h before xs after
      → has a xs ≡ false
      → Chain (modify h a f) before xs after
  unfolding modify
  Chain-modify before after a f xs ch out =
      Chain-frame h (modify h a f) before after xs ch (λ b i. ground arith)

  -- The first node's `prev` and the last node's `next` are free to be changed.
  pub Chain-set_prev :
      (before after q p d : Ptr) (xs : Cells)
      → Chain h before ((p, d) ∷ xs) after
      → Chain (modify h p (λ n. record n { prev = q })) q ((p, d) ∷ xs) after
  unfolding modify
  Chain-set_prev before after q p d xs c =
      (ground arith, c.1, c.2, Chain-modify p after p (λ n. record n { prev = q }) xs c.3 c.2)

  pub Chain-set_next :
      (before after q p d : Ptr) (xs : Cells)
      → Chain h before ((p, d) ∷ xs) after
      → Chain (modify h (last_of p xs) (λ n. record n { next = q })) before ((p, d) ∷ xs) q
  unfolding modify
  Chain-set_next before after q p d [] c = (ground arith, c.1, c.2, tt)
  Chain-set_next before after q p d ((a, e) ∷ xs) c = (
    modify-other h (last_of a xs) p (λ n. record n { next = q })
          (has-ne (last_of a xs) p ((a, e) ∷ xs) (has-last_of a e xs) c.2)
        ∙ c.0,
    c.1,
    c.2,
    Chain-set_next p after q a e xs c.3,
  )

  pub Chain-set_next_at :
      (before after q p d last : Ptr) (xs : Cells)
      → last ≡ last_of p xs
      → Chain h before ((p, d) ∷ xs) after
      → Chain (modify h last (λ n. record n { next = q })) before ((p, d) ∷ xs) q
  Chain-set_next_at before after q p d last xs e c =
      subst (λ a. Chain (modify h a (λ n. record n { next = q })) before ((p, d) ∷ xs) q) (sym e)
        (Chain-set_next before after q p d xs c)

  -- The last node of a chain is there.
  pub Chain-last :
      (before after p d : Ptr) (xs : Cells)
      → Chain h before ((p, d) ∷ xs) after
      → (n : Node) × (h (last_of p xs) ≡ some n) × ((last_of p xs == null) ≡ false)
  Chain-last before after p d [] c = (_, c.0, c.1)
  Chain-last before after p d ((a, e) ∷ xs) c = Chain-last p after a e xs c.3
