-- ===== src/LinkedList/Add.antt =====
-- `mcl_list_add`.
use mathlib.Core.Path.{subst}
use mindconnect_lib.Base.{
  Bool-cases, ◌&&◌, not, ◌<◌, ◌≡◌, refl, sym, ap, ◌∙◌, inl, inr, true, false, none, some, [], ◌∷◌,
  ◌++◌, arith, ◌==◌, if◌then◌else◌, length-append, ltb, lt→ltb,
}
use mindconnect_lib.Base.Code.{Result, ok, err, limit_exceeded, triggered_with_null, out_of_memory}
use mindconnect_lib.LinkedList.{Header, size_max, add, mcl_list_add}
use mindconnect_lib.LinkedList.Memory.{Ptr, null, Node, node, Memory, write, modify, done, store}
use mindconnect_lib.LinkedList.Chain.{
  Cells, has, last_of, Chain, SameOutside, Disjoint, has-append, last_of-append, has-last_of,
  Chain-unused, Chain-write, Chain-set_next_at, Chain-join, Chain-last, modify-other, write-other,
  not_has-append, has-ne,
}
use mindconnect_lib.LinkedList.Invariant.{IsList, Returns, returns, Returns-continue, set_next-done}

-- What adding `item` in a new node at `fresh` does to a list of the nodes `xs`.
pub record IsAdded (h : Memory) (l : Header) (xs : Cells) (fresh item : Ptr)
    (out : Result (Unit {0}) × Header) (g : Memory) : Type 0 where
  pub code : out.0 ≡ ok tt
  pub is_list : IsList g out.1 (xs ++ ((fresh, item) ∷ []))
  pub same_cursor : out.1.current ≡ (if l.count == 0 then fresh else l.current)
  pub same : SameOutside (xs ++ ((fresh, item) ∷ [])) h g

-- The memory with the new node, and with the old last node linked to it.
filled : Memory → Ptr → Ptr → Ptr → Memory
filled h fresh item last = write h fresh (some (node item last null))

linked : Memory → Ptr → Ptr → Ptr → Memory
linked h fresh item last = modify (filled h fresh item last) last (λ n. record n { next = fresh })

module _ (h : Memory) (fresh item : Ptr) (there : (fresh == null) ≡ false)
    (unused : h fresh ≡ none) where
  add-nil :
      (l : Header)
      → IsList h l []
      → l.count < size_max
      → Returns (IsAdded h l [] fresh item) (add fresh l item h)
  unfolding add store write
  add-nil l is room =
      let size : l.count ≡ 0 = is.counted in
      rw (lt→ltb _ _ room, there, ap (λ c. c == 0) size)
        (returns (record {
          code = refl;
          is_list = record {
            chain = (ground (arith, is.at_last), there, refl, tt);
            at_head = refl;
            at_last = refl;
            counted = omega arith;
            cursor = inr (ground arith);
          };
          same_cursor = ground arith;
          same = λ a o. ground arith;
        }))

  module _ (last : Ptr) (p d : Ptr) (xs : Cells) (chain : Chain h null ((p, d) ∷ xs) null)
      (at_last : last ≡ last_of p xs) where
    out : has fresh ((p, d) ∷ xs) ≡ false
    out = Chain-unused h fresh null null ((p, d) ∷ xs) chain unused

    fresh_ne_last : (fresh == last) ≡ false
    fresh_ne_last = rw at_last (has-ne (last_of p xs) fresh ((p, d) ∷ xs) (has-last_of p d xs) out)

    filled-last : (n : Node) × (filled h fresh item last last ≡ some n) × ((last == null) ≡ false)
    unfolding filled write
    filled-last =
        let (n, holds, some_last) = Chain-last h null null p d xs chain in
        (n, ground (arith, fresh_ne_last), ground arith)

    filled-Chain : Chain (filled h fresh item last) null ((p, d) ∷ xs) null
    unfolding filled
    filled-Chain = Chain-write h null null fresh _ ((p, d) ∷ xs) chain out

    linked-fresh : linked h fresh item last fresh ≡ some (node item (last_of p xs) null)
    unfolding linked filled write
    linked-fresh =
        modify-other (filled h fresh item last) last fresh (λ n. record n { next = fresh })
          fresh_ne_last
        ∙ ground arith

    linked-Chain :
        Chain (linked h fresh item last) null (((p, d) ∷ xs) ++ ((fresh, item) ∷ [])) null
    unfolding linked
    linked-Chain =
        let front =
          Chain-set_next_at (filled h fresh item last) null null fresh p d last xs at_last
            filled-Chain in
        Chain-join (linked h fresh item last) null null ((p, d) ∷ xs) ((fresh, item) ∷ []) front
          (linked-fresh, there, refl, tt) (λ a i. apart a i)
      where
        apart : Disjoint ((p, d) ∷ xs) ((fresh, item) ∷ [])
        apart a i = ground (arith, has-ne a fresh ((p, d) ∷ xs) i out)

    linked-same : SameOutside (((p, d) ∷ xs) ++ ((fresh, item) ∷ [])) h (linked h fresh item last)
    unfolding linked filled
    linked-same a o =
        let inside : has last ((p, d) ∷ xs) ≡ true =
          subst (λ q. has q ((p, d) ∷ xs) ≡ true) (sym at_last) (has-last_of p d xs) in
        let (in_list, at_fresh) = not_has-append a ((p, d) ∷ xs) ((fresh, item) ∷ []) o in
        modify-other (filled h fresh item last) last a (λ n. record n { next = fresh })
          (has-ne last a ((p, d) ∷ xs) inside in_list)
        ∙ write-other h fresh a (some (node item last null)) (ground arith)

  add-cons :
      (l : Header) (p d : Ptr) (xs : Cells)
      → IsList h l ((p, d) ∷ xs)
      → l.count < size_max
      → Returns (IsAdded h l ((p, d) ∷ xs) fresh item) (add fresh l item h)
  unfolding add store filled linked
  add-cons l p d xs is room =
      let some_size : (l.count == 0) ≡ false = ground (arith, is.counted) in
      let (n, holds, some_last) = filled-last l.last p d xs is.chain is.at_last in
      let links = set_next-done (filled h fresh item l.last) l.last n some_last holds fresh in
      rw (lt→ltb _ _ room, there, some_size, links)
        (returns (record {
          code = refl;
          is_list = record {
            chain = linked-Chain l.last p d xs is.chain is.at_last;
            at_head = is.at_head;
            at_last = sym (last_of-append p xs ((fresh, item) ∷ []));
            counted = omega (arith, is.counted, length-append xs ((fresh, item) ∷ []));
            cursor = elim is.cursor [
              | inl e ↦ inl e
              | inr i ↦
                  inr (ground (arith, has-append l.current ((p, d) ∷ xs) ((fresh, item) ∷ [])))
            ];
          };
          same_cursor = rw some_size;
          same = linked-same l.last p d xs is.chain is.at_last;
        }))

  pub add-IsAdded :
      (l : Header) (xs : Cells)
      → IsList h l xs
      → l.count < size_max
      → Returns (IsAdded h l xs fresh item) (add fresh l item h)
  add-IsAdded l [] is room = add-nil l is room
  add-IsAdded l ((p, d) ∷ xs) is room = add-cons l p d xs is room

-- `mcl_list_add` of an item that is not null, with a node from the allocator at an unused address
-- and a count below the limit, returns `MCL_OK` and puts one node with the item behind the others.
-- The cursor stays, but goes to the new node if the list was empty, and nothing outside the list's
-- nodes and the new one is written.
pub mcl_list_add-append :
    (h : Memory) (l : Header) (xs : Cells) (fresh item : Ptr)
    → IsList h l xs
    → (fresh == null) ≡ false
    → h fresh ≡ none
    → (item == null) ≡ false
    → l.count < size_max
    → Returns
        (λ out g.
          (l' : Header) × (out ≡ (ok tt, some l'))
          × IsList g l' (xs ++ ((fresh, item) ∷ []))
          × (l'.current ≡ (if l.count == 0 then fresh else l.current))
          × SameOutside (xs ++ ((fresh, item) ∷ [])) h g)
        (mcl_list_add fresh (some l) item h)
unfolding mcl_list_add
mcl_list_add-append h l xs fresh item is there unused given room = rw given (
    Returns-continue (add-IsAdded h fresh item there unused l xs is room) λ out g added.
      returns
        (out.1, ap (λ c. (c, some out.1)) added.code, added.is_list, added.same_cursor, added.same))

-- `mcl_list_add` changes neither the list nor the memory when it fails: on a null list, on a null
-- item, and, for another item, on a full list and when no node can be allocated.
pub mcl_list_add-err :
    (h : Memory) (l : Header) (fresh item : Ptr)
    → (item == null) ≡ false
    → (ltb l.count size_max && not (fresh == null)) ≡ false
    → (mcl_list_add fresh none item h ≡ done (err triggered_with_null, none) h)
      × (mcl_list_add fresh (some l) null h ≡ done (err triggered_with_null, some l) h)
      × (mcl_list_add fresh (some l) item h
          ≡ done (err (if ltb l.count size_max then out_of_memory else limit_exceeded), some l) h)
unfolding mcl_list_add add
mcl_list_add-err h l fresh item given bad = (
  refl,
  refl,
  rw given (elim (Bool-cases (ltb l.count size_max)) [
    | inl room ↦ rw room (let no_node : (fresh == null) ≡ true = ground arith in rw no_node)
    | inr full ↦ rw full
  ]),
)
