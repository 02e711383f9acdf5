-- ===== src/LinkedList/Relink.antt =====
-- The links round a node that goes: the first part of `mcl_list_remove`.
use mindconnect_lib.Base.{
  Bool-cases, ◌≡◌, refl, ◌∙◌, inl, inr, true, false, some, [], ◌∷◌, ◌++◌, arith, ◌==◌,
}
use mindconnect_lib.LinkedList.{relink}
use mindconnect_lib.LinkedList.Memory.{Ptr, null, node, Memory, modify, done}
use mindconnect_lib.LinkedList.Chain.{
  Cells, has, head_of, last_of, Chain, SameOutside, Disjoint, has-last_of, Chain-split,
  Chain-modify, Chain-set_next, Chain-set_prev, Chain-join, Chain-last, modify-other,
  not_has-append, has-ne,
}
use mindconnect_lib.LinkedList.Invariant.{load-done, set_next-done, set_prev-done}

-- The memory after the links round a node between `xs` and `ys`.
pub relinked : Memory → Cells → Cells → Memory
relinked h [] [] = h
relinked h [] ((q, _) ∷ ys) = modify h q (λ n. record n { prev = null })
relinked h ((a, _) ∷ xs) [] = modify h (last_of a xs) (λ n. record n { next = null })
relinked h ((a, _) ∷ xs) ((q, _) ∷ ys) =
    modify (modify h (last_of a xs) (λ n. record n { next = q })) q
      (λ n. record n { prev = last_of a xs })

-- A node `p` between `xs` and `ys`, all at different addresses.
pub record IsBetween (h : Memory) (xs : Cells) (p d : Ptr) (ys : Cells) : Type 0 where
  pub front : Chain h null xs p
  pub here : h p ≡ some (node d (last_of null xs) (head_of ys null))
  pub there : (p == null) ≡ false
  pub back : Chain h p ys null
  pub not_front : has p xs ≡ false
  pub not_back : has p ys ≡ false
  pub apart : Disjoint xs ys

pub between :
    (h : Memory) (xs : Cells) (p d : Ptr) (ys : Cells)
    → Chain h null (xs ++ ((p, d) ∷ ys)) null
    → IsBetween h xs p d ys
between h xs p d ys c =
    let (front, back, apart) = Chain-split h null null xs ((p, d) ∷ ys) c in
    record {
      front = front;
      here = back.0;
      there = back.1;
      back = back.3;
      not_front = ground (arith, apart p);
      not_back = back.2;
      apart = λ a i. ground (arith, apart a);
    }

has_self : (q e : Ptr) (ys : Cells) → has q ((q, e) ∷ ys) ≡ true
has_self q e ys = ground arith

apart-back : (xs ys : Cells) (q : Ptr) → Disjoint xs ys → has q ys ≡ true → has q xs ≡ false
apart-back xs ys q apart i = elim (Bool-cases (has q xs)) [
  | inl j ↦ let o = apart q j in cc
  | inr o ↦ o
]

last_apart :
    (h : Memory) (a c : Ptr) (xs : Cells) (p d q e : Ptr) (ys : Cells)
    → IsBetween h ((a, c) ∷ xs) p d ((q, e) ∷ ys)
    → has (last_of a xs) ((q, e) ∷ ys) ≡ false
last_apart h a c xs p d q e ys b = b.apart (last_of a xs) (has-last_of a c xs)

pub relink-done :
    (h : Memory) (xs : Cells) (p d : Ptr) (ys : Cells)
    → IsBetween h xs p d ys
    → relink p h ≡ done tt (relinked h xs ys)
unfolding relink relinked
relink-done h [] p d [] b = rw (load-done h p _ b.there b.here)
relink-done h [] p d ((q, e) ∷ ys) b =
    rw (load-done h p _ b.there b.here, b.back.1, set_prev-done h q _ b.back.1 b.back.0 null)
relink-done h ((a, c) ∷ xs) p d [] b =
    let (n, holds, some_last) = Chain-last h null p a c xs b.front in
    rw (
      load-done h p _ b.there b.here,
      some_last,
      set_next-done h (last_of a xs) n some_last holds null,
    )
relink-done h ((a, c) ∷ xs) p d ((q, e) ∷ ys) b =
    let (n, holds, some_last) = Chain-last h null p a c xs b.front in
    let other : (q == last_of a xs) ≡ false = ground (arith, last_apart h a c xs p d q e ys b) in
    let q_holds = modify-other h (last_of a xs) q (λ n. record n { next = q }) other ∙ b.back.0 in
    rw (
      load-done h p _ b.there b.here,
      some_last,
      b.back.1,
      set_next-done h (last_of a xs) n some_last holds q,
      set_prev-done (modify h (last_of a xs) (λ n. record n { next = q })) q _ b.back.1 q_holds
          (last_of a xs),
    )

pub relinked-Chain :
    (h : Memory) (xs : Cells) (p d : Ptr) (ys : Cells)
    → IsBetween h xs p d ys
    → Chain (relinked h xs ys) null (xs ++ ys) null
unfolding relinked
relinked-Chain h [] p d [] b = tt
relinked-Chain h [] p d ((q, e) ∷ ys) b = Chain-set_prev h p null null q e ys b.back
relinked-Chain h ((a, c) ∷ xs) p d [] b =
    Chain-join (modify h (last_of a xs) (λ n. record n { next = null })) null null ((a, c) ∷ xs) []
      (Chain-set_next h null p null a c xs b.front) tt (λ z i. refl)
relinked-Chain h ((a, c) ∷ xs) p d ((q, e) ∷ ys) b =
    let last = last_of a xs in
    let h' = modify h last (λ n. record n { next = q }) in
    Chain-join (modify h' q (λ n. record n { prev = last })) null null ((a, c) ∷ xs) ((q, e) ∷ ys)
      (Chain-modify h' null q q (λ n. record n { prev = last }) ((a, c) ∷ xs)
        (Chain-set_next h null p q a c xs b.front)
        (apart-back ((a, c) ∷ xs) ((q, e) ∷ ys) q b.apart (has_self q e ys)))
      (Chain-set_prev h' p null last q e ys (
        Chain-modify h p null last (λ n. record n { next = q }) ((q, e) ∷ ys) b.back
          (last_apart h a c xs p d q e ys b)))
      b.apart

pub relinked-same : (h : Memory) (xs ys : Cells) → SameOutside (xs ++ ys) h (relinked h xs ys)
unfolding relinked
relinked-same h [] [] a o = refl
relinked-same h [] ((q, e) ∷ ys) a o =
    modify-other h q a (λ n. record n { prev = null }) (ground arith)
relinked-same h ((b, c) ∷ xs) [] a o =
    modify-other h (last_of b xs) a (λ n. record n { next = null })
      (has-ne (last_of b xs) a ((b, c) ∷ xs) (has-last_of b c xs)
        (not_has-append a ((b, c) ∷ xs) [] o).0)
relinked-same h ((b, c) ∷ xs) ((q, e) ∷ ys) a o =
    let (in_front, in_back) = not_has-append a ((b, c) ∷ xs) ((q, e) ∷ ys) o in
    modify-other (modify h (last_of b xs) (λ n. record n { next = q })) q a
      (λ n. record n { prev = last_of b xs }) (ground arith)
    ∙ modify-other h (last_of b xs) a (λ n. record n { next = q })
        (has-ne (last_of b xs) a ((b, c) ∷ xs) (has-last_of b c xs) in_front)
