-- ===== src/LinkedList/Remove.antt =====
-- `mcl_list_remove`.
use mindconnect_lib.Base.{
  Bool-cases, ==_iff, suc, ◌+◌, ◌≡◌, refl, sym, ◌∙◌, ◌⊎◌, inl, inr, true, false, none, some, [],
  ◌∷◌, ◌++◌, arith, ◌==◌, if◌then◌else◌, length, length-append, ltb, lt→ltb,
}
use mindconnect_lib.Base.Code.{ok, err, list_is_empty, triggered_with_null}
use mindconnect_lib.LinkedList.{Header, relist, remove, mcl_list_remove}
use mindconnect_lib.LinkedList.Memory.{Ptr, null, node, Memory, write, done}
use mindconnect_lib.LinkedList.Chain.{
  Cells, has, head_of, last_of, SameOutside, has-append, last_of-append, has-last_of, Chain-write,
  write-other, has-ne,
}
use mindconnect_lib.LinkedList.Relink.{
  relinked, IsBetween, between, relink-done, relinked-Chain, relinked-same,
}
use mindconnect_lib.LinkedList.Invariant.{IsList, Returns, returns, load-done, free-done}

-- What the struct becomes when the node `p` between `xs` and `ys` goes.
relist-head :
    (h : Memory) (l : Header) (xs : Cells) (p d : Ptr) (ys : Cells)
    → IsBetween h xs p d ys
    → l.head ≡ head_of (xs ++ ((p, d) ∷ ys)) null
    → (relist l p (last_of null xs) (head_of ys null)).head ≡ head_of (xs ++ ys) null
unfolding relist
relist-head h l [] p d ys b e = ground arith
relist-head h l ((a, c) ∷ xs) p d ys b e = ground (arith, b.not_front)

last_ne : (a p b : Ptr) → a ≡ b → (p == b) ≡ false → (a == p) ≡ false
last_ne a p b e ne = ground arith

relist-last :
    (h : Memory) (l : Header) (xs : Cells) (p d : Ptr) (ys : Cells)
    → IsBetween h xs p d ys
    → l.last ≡ last_of null (xs ++ ((p, d) ∷ ys))
    → (relist l p (last_of null xs) (head_of ys null)).last ≡ last_of null (xs ++ ys)
unfolding relist
relist-last h l xs p d [] b e =
    let same : l.last ≡ p = e ∙ last_of-append null xs ((p, d) ∷ []) in
    rw ((==_iff l.last p).1 same) (sym (last_of-append null xs []))
relist-last h l xs p d ((q, c) ∷ ys) b e =
    let same : l.last ≡ last_of q ys = e ∙ last_of-append null xs ((p, d) ∷ (q, c) ∷ ys) in
    let other : (l.last == p) ≡ false =
      last_ne l.last p (last_of q ys) same
        (has-ne (last_of q ys) p ((q, c) ∷ ys) (has-last_of q c ys) b.not_back) in
    rw other (same ∙ sym (last_of-append null xs ((q, c) ∷ ys)))

relist-count :
    (l : Header) (xs : Cells) (p d : Ptr) (ys : Cells)
    → l.count ≡ length (xs ++ ((p, d) ∷ ys))
    → (relist l p (last_of null xs) (head_of ys null)).count ≡ length (xs ++ ys)
unfolding relist
relist-count l xs p d ys e = omega (arith, length-append xs ((p, d) ∷ ys), length-append xs ys)

head-cursor : (xs ys : Cells) → (head_of ys null ≡ null) ⊎ (has (head_of ys null) (xs ++ ys) ≡ true)
head-cursor xs [] = inl refl
head-cursor xs ((q, e) ∷ ys) = inr (ground (arith, has-append q xs ((q, e) ∷ ys)))

keep-cursor :
    (a p d : Ptr) (xs ys : Cells)
    → (a == p) ≡ false
    → has a (xs ++ ((p, d) ∷ ys)) ≡ true
    → has a (xs ++ ys) ≡ true
keep-cursor a p d xs ys ne i = ground (arith, has-append a xs ((p, d) ∷ ys), has-append a xs ys)

relist-cursor :
    (h : Memory) (l : Header) (xs : Cells) (p d : Ptr) (ys : Cells)
    → IsBetween h xs p d ys
    → (l.current ≡ null) ⊎ (has l.current (xs ++ ((p, d) ∷ ys)) ≡ true)
    → let l' = relist l p (last_of null xs) (head_of ys null) in
      (l'.current ≡ null) ⊎ (has l'.current (xs ++ ys) ≡ true)
unfolding relist
relist-cursor h l xs p d ys b cursor = elim (Bool-cases (l.current == p)) [
  | inl e ↦ rw e (head-cursor xs ys)
  | inr ne ↦
      rw ne (elim cursor [ inl e ↦ inl e | inr i ↦ inr (keep-cursor l.current p d xs ys ne i) ])
]

-- What removing the node `p` from between `xs` and `ys` does.
pub record IsRemoved (h : Memory) (l : Header) (xs : Cells) (p d : Ptr) (ys : Cells) (l' : Header)
    (g : Memory) : Type 0 where
  pub is_list : IsList g l' (xs ++ ys)
  pub freed : g p ≡ none
  pub cursor_moves : l'.current ≡ (if l.current == p then head_of ys null else l.current)
  pub same : SameOutside (xs ++ ((p, d) ∷ ys)) h g

not_has-between :
    (a p d : Ptr) (xs ys : Cells)
    → has a (xs ++ ((p, d) ∷ ys)) ≡ false
    → ((a == p) ≡ false) × (has a (xs ++ ys) ≡ false)
not_has-between a p d xs ys o = ground (arith, has-append a xs ((p, d) ∷ ys), has-append a xs ys)

not_has-between_self :
    (h : Memory) (p d : Ptr) (xs ys : Cells) → IsBetween h xs p d ys → has p (xs ++ ys) ≡ false
not_has-between_self h p d xs ys b = rw (has-append p xs ys, b.not_front) b.not_back

write_self : (h : Memory) (p : Ptr) → write h p none p ≡ none
unfolding write
write_self h p = ground arith

removed :
    (h : Memory) (l : Header) (xs : Cells) (p d : Ptr) (ys : Cells)
    → IsList h l (xs ++ ((p, d) ∷ ys))
    → IsBetween h xs p d ys
    → IsRemoved h l xs p d ys
        (relist l p (last_of null xs) (head_of ys null))
        (write (relinked h xs ys) p none)
removed h l xs p d ys is b = record {
  is_list = record {
    chain =
        Chain-write (relinked h xs ys) null null p none (xs ++ ys) (relinked-Chain h xs p d ys b)
          (not_has-between_self h p d xs ys b);
    at_head = relist-head h l xs p d ys b is.at_head;
    at_last = relist-last h l xs p d ys b is.at_last;
    counted = relist-count l xs p d ys is.counted;
    cursor = relist-cursor h l xs p d ys b is.cursor;
  };
  freed = write_self (relinked h xs ys) p;
  cursor_moves = unfold relist in refl;
  same = λ a o.
      let (other, out) = not_has-between a p d xs ys o in
      write-other (relinked h xs ys) p a none other ∙ relinked-same h xs ys a out;
}

-- `mcl_list_remove` of a node of the list returns `MCL_OK`, takes that node out and frees it, and
-- leaves the others in order. A cursor at the node moves to the next one, any other stays, and
-- nothing outside the list's nodes is written.
pub mcl_list_remove-IsRemoved :
    (h : Memory) (l : Header) (xs : Cells) (p d : Ptr) (ys : Cells)
    → IsList h l (xs ++ ((p, d) ∷ ys))
    → Returns
        (λ out g. (l' : Header) × (out ≡ (ok tt, some l')) × IsRemoved h l xs p d ys l' g)
        (mcl_list_remove (some l) p h)
unfolding mcl_list_remove remove
mcl_list_remove-IsRemoved h l xs p d ys is =
    let b = between h xs p d ys is.chain in
    let size : l.count ≡ length xs + suc (length ys) =
      is.counted ∙ length-append xs ((p, d) ∷ ys) in
    let some_size : ltb 0 l.count ≡ true = lt→ltb 0 l.count (omega arith) in
    let out : has p (xs ++ ys) ≡ false =
      ground (arith, has-append p xs ys, b.not_front, b.not_back) in
    let h' = relinked h xs ys in
    let here : h' p ≡ some (node d (last_of null xs) (head_of ys null)) =
      relinked-same h xs ys p out ∙ b.here in
    rw
      (
        b.there,
        some_size,
        relink-done h xs p d ys b,
        load-done h' p _ b.there here,
        free-done h' p _ b.there here,
      )
      (returns (relist l p (last_of null xs) (head_of ys null), refl, removed h l xs p d ys is b))

-- `mcl_list_remove` changes nothing when it fails: on a null list, a null node and an empty list.
pub mcl_list_remove-err :
    (h : Memory) (l : Header) (p : Ptr)
    → (p == null) ≡ false
    → l.count ≡ 0
    → (mcl_list_remove none p h ≡ done (err triggered_with_null, none) h)
      × (mcl_list_remove (some l) null h ≡ done (err triggered_with_null, some l) h)
      × (mcl_list_remove (some l) p h ≡ done (err list_is_empty, some l) h)
unfolding mcl_list_remove remove
mcl_list_remove-err h l p there empty =
    let no_room : ltb 0 l.count ≡ false = ground arith in (refl, refl, rw (there, no_room))
