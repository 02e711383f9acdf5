-- ===== src/LinkedList/Walk.antt =====
-- The walks over a list: `mcl_list_next` after `mcl_list_reset`, `mcl_list_exist` and
-- `mcl_list_destroy_with_content`.
use mindconnect_lib.Base.{
  ℕ, zero, suc, ◌+◌, ◌<◌, ◌≡◌, refl, ap, ◌∙◌, Bool, Bool-cases, ==_iff, ◌&&◌, not, true, false,
  Option, none, some, List, [], ◌∷◌, arith, ◌==◌, if◌then◌else◌, length, inl, inr,
}
use mindconnect_lib.Base.Code.{ok, err, fail}
use mindconnect_lib.LinkedList.{
  Header, next, reset, find_item, found_result, exist, mcl_list_exist, destroy_loop,
  mcl_list_destroy_with_content, Lists, load_list, free_list,
}
use mindconnect_lib.LinkedList.Memory.{
  Ptr, null, Node, Memory, write, done, out_of_fuel, Cmd, pure, ◌>>=◌, load,
}
use mindconnect_lib.LinkedList.Chain.{Cells, has, head_of, Chain, Chain-write}
use mindconnect_lib.LinkedList.Invariant.{
  IsList, Returns, returns, Returns-continue, load-done, free-done,
}

abbrev pub items : Cells → List Ptr
items [] = []
items ((_, d) ∷ xs) = d ∷ items xs

-- `while (MCL_OK == mcl_list_next(list, &node))`, with the items of the nodes.
pub visit : ℕ → Header → Cmd (List Ptr × Header)
visit zero l = λ _. out_of_fuel
visit (suc fuel) l = do
  (code, l') ← next l
  elim code [
    | err e ↦ pure ([], l')
    | ok p ↦ (do n ← load p; (rest, l'') ← visit fuel l'; pure (n.item ∷ rest, l''))
  ]

-- `mcl_list_next` with its cursor at a node, and past the end.
next-node :
    (h : Memory) (l : Header) (n : Node)
    → (l.current == null) ≡ false
    → h l.current ≡ some n
    → next l h ≡ done (ok l.current, record l { current = n.next }) h
unfolding next
next-node h l n there holds = rw (there, load-done h l.current n there holds)

next-end :
    (h : Memory) (l : Header) → (l.current == null) ≡ true → next l h ≡ done (err fail, reset l) h
unfolding next reset
next-end h l e = rw e

visit-items :
    (h : Memory) (xs : Cells) (fuel : ℕ) (before : Ptr) (l : Header)
    → Chain h before xs null
    → l.current ≡ head_of xs null
    → length xs < fuel
    → visit fuel l h ≡ done (items xs, reset l) h
unfolding visit reset
visit-items h xs zero before l c at room = absurd (omega arith)
visit-items h [] (suc fuel) before l c at room = rw (next-end h l ((==_iff l.current null).1 at))
visit-items h ((p, d) ∷ xs) (suc fuel) before l c at room =
    let there : (l.current == null) ≡ false = ap (λ q. q == null) at ∙ c.1 in
    let holds = ap h at ∙ c.0 in
    let l' = record l { current = head_of xs null } in
    rw (
      next-node h l _ there holds,
      load-done h l.current _ there holds,
      visit-items h xs fuel p l' c.3 refl (omega arith),
    )

-- Reset and asked for the next node until it fails, the list gives the items of all its nodes in
-- order, and is reset again; nothing is written.
pub visit-reset :
    (h : Memory) (l : Header) (xs : Cells)
    → IsList h l xs
    → visit (l.count + 1) (reset l) h ≡ done (items xs, reset l) h
unfolding reset
visit-reset h l xs is =
    visit-items h xs (l.count + 1) null (reset l) is.chain is.at_head (omega (arith, is.counted))

-- The first item that the callback accepts.
abbrev pub first_match : (Ptr → Bool) → List Ptr → Option Ptr
first_match compare [] = none
first_match compare (x ∷ xs) = if compare x then some x else first_match compare xs

find_item-first_match :
    (h : Memory) (compare : Ptr → Bool) (xs : Cells) (fuel : ℕ) (before : Ptr)
    → Chain h before xs null
    → length xs < fuel
    → find_item compare fuel (head_of xs null) h ≡ done (first_match compare (items xs)) h
unfolding find_item
find_item-first_match h compare xs zero before c room = absurd (omega arith)
find_item-first_match h compare [] (suc fuel) before c room = refl
find_item-first_match h compare ((p, d) ∷ xs) (suc fuel) before c room =
    rw (c.1, load-done h p _ c.1 c.0)
      (elim (Bool-cases (compare d)) [
        | inl hit ↦ rw hit
        | inr miss ↦ rw miss (find_item-first_match h compare xs fuel p c.3 (omega arith))
      ])

-- `mcl_list_exist` answers `MCL_OK` and the first item that the callback accepts, or `MCL_FAIL` if
-- there is none, and writes nothing.
pub mcl_list_exist-first_match :
    (h : Memory) (l : Header) (xs : Cells) (item_to_find : Ptr) (compare : Ptr → Ptr → Bool)
    → IsList h l xs
    → (item_to_find == null) ≡ false
    → mcl_list_exist (some l) item_to_find compare h
      ≡ done (found_result (first_match (λ item. compare item item_to_find) (items xs))) h
unfolding mcl_list_exist exist
mcl_list_exist-first_match h l xs item_to_find compare is given =
    let accepts = λ (item : Ptr). compare item item_to_find in
    let walk : find_item accepts (l.count + 1) l.head h ≡ done (first_match accepts (items xs)) h =
      ap (λ p. find_item accepts (l.count + 1) p h) is.at_head
      ∙ find_item-first_match h accepts xs (l.count + 1) null is.chain
          (omega (arith, is.counted)) in
    rw (given, walk)

-- What the callback gets: every item that is not null, if there is a callback.
abbrev pub given_items : Bool → List Ptr → List Ptr
given_items callback [] = []
given_items callback (x ∷ xs) =
    if callback && not (x == null) then x ∷ given_items callback xs else given_items callback xs

-- `g` is `h` with the nodes `xs` freed and nothing else changed.
abbrev pub Without : Cells → Memory → Memory → Type 0
Without xs h g = (a : Ptr) → g a ≡ (if has a xs then none else h a)

Without-cons :
    (h g : Memory) (p d : Ptr) (xs : Cells) (a : Ptr)
    → g a ≡ (if has a xs then none else write h p none a)
    → g a ≡ (if has a ((p, d) ∷ xs) then none else h a)
unfolding write
Without-cons h g p d xs a e = ground arith

destroy_loop-Without :
    (callback : Bool) (xs : Cells) (fuel : ℕ) (h : Memory) (before : Ptr)
    → Chain h before xs null
    → length xs < fuel
    → Returns
        (λ given g. (given ≡ given_items callback (items xs)) × Without xs h g)
        (destroy_loop callback fuel (head_of xs null) h)
unfolding destroy_loop
destroy_loop-Without callback xs zero h before c room = absurd (omega arith)
destroy_loop-Without callback [] (suc fuel) h before c room = returns (refl, λ a. refl)
destroy_loop-Without callback ((p, d) ∷ xs) (suc fuel) h before c room =
    rw (c.1, load-done h p _ c.1 c.0, free-done h p _ c.1 c.0)
      (Returns-continue
        (destroy_loop-Without callback xs fuel (write h p none) p
          (Chain-write h p null p none xs c.3 c.2) (omega arith))
        λ given g (same, gone). returns (ground arith, λ a. Without-cons h g p d xs a (gone a)))

module _ (lists : Lists) (p : Ptr) (l : Header) (holds : lists p ≡ some l) (h : Memory) where
  load_list-done : load_list lists p h ≡ done l h
  unfolding load_list
  load_list-done = rw (load_list, holds) refl

  free_list-done : free_list lists p h ≡ done (λ a. if a == p then none else lists a) h
  unfolding free_list
  free_list-done = rw load_list-done refl

-- `mcl_list_destroy_with_content` on a list whose struct is in memory faults nowhere: it frees every
-- node of the list and the struct, each once, and no other node and no other struct, sets `*list` to
-- `MCL_NULL`, and hands the items that are not null to the callback, in order, if there is one.
pub mcl_list_destroy_with_content-Without :
    (h : Memory) (lists : Lists) (p : Ptr) (l : Header) (xs : Cells) (callback : Bool)
    → (p == null) ≡ false
    → lists p ≡ some l
    → IsList h l xs
    → Returns
        (λ out g.
          (out.0 ≡ given_items callback (items xs))
          × Without xs h g
          × ((a : Ptr) → out.1 a ≡ (if a == p then none else lists a))
          × (out.2 ≡ some null))
        (mcl_list_destroy_with_content callback lists (some p) h)
unfolding mcl_list_destroy_with_content
mcl_list_destroy_with_content-Without h lists p l xs callback there holds is =
    rw (there, load_list-done lists p l holds h, is.at_head)
      (Returns-continue
        (destroy_loop-Without callback xs (l.count + 1) h null is.chain (omega (arith, is.counted)))
        λ given g (same, gone).
          rw (free_list-done lists p l holds g) (returns (same, gone, (λ a. refl), refl)))
