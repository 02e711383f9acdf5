-- ===== src/LinkedList/Invariant.antt =====
-- What a list struct stands for, and total correctness of the commands of list.c.
use mindconnect_lib.Base.{◌≡◌, ◌⊎◌, false, true, none, some, ◌==◌, length}
use mindconnect_lib.LinkedList.{Header}
use mindconnect_lib.LinkedList.Memory.{
  Ptr, null, Node, Memory, write, modify, Run, done, Cmd, continue, load, set_next, set_prev, free,
}
use mindconnect_lib.LinkedList.Chain.{Cells, has, head_of, last_of, Chain}

-- The struct `l` over the memory `h` is the list of the nodes `xs`. The cursor is null or at a node.
pub record IsList (h : Memory) (l : Header) (xs : Cells) : Type 0 where
  pub chain : Chain h null xs null
  pub at_head : l.head ≡ head_of xs null
  pub at_last : l.last ≡ last_of null xs
  pub counted : l.count ≡ length xs
  pub cursor : (l.current ≡ null) ⊎ (has l.current xs ≡ true)

-- A run that neither faults nor is out of fuel, and ends with `P`.
pub data Returns {A : Type 0} (P : A → Memory → Type 0) : Run A → Type 0 where
  returns : {a : A} {h : Memory} → P a h → Returns P (done a h)

module _ {A : Type 0} {P : A → Memory → Type 0} where
  pub Returns-continue :
      {B : Type 0} {Q : B → Memory → Type 0} {r : Run A} {k : A → Cmd B}
      → Returns P r
      → ((a : A) (h : Memory) → P a h → Returns Q (k a h))
      → Returns Q (continue r k)
  Returns-continue (returns p) rest = rest _ _ p

  pub Returns-mono :
      {Q : A → Memory → Type 0} {r : Run A}
      → Returns P r
      → ((a : A) (h : Memory) → P a h → Q a h)
      → Returns Q r
  Returns-mono (returns p) weaken = returns (weaken _ _ p)

-- The commands at an address that holds a node.
module _ (h : Memory) (p : Ptr) (n : Node) (there : (p == null) ≡ false)
    (holds : h p ≡ some n) where
  pub load-done : load p h ≡ done n h
  unfolding load
  load-done = rw (there, holds)

  pub set_next-done : (q : Ptr) → set_next p q h ≡ done tt (modify h p (λ m. record m { next = q }))
  unfolding set_next
  set_next-done q = rw load-done

  pub set_prev-done : (q : Ptr) → set_prev p q h ≡ done tt (modify h p (λ m. record m { prev = q }))
  unfolding set_prev
  set_prev-done q = rw load-done

  pub free-done : free p h ≡ done tt (write h p none)
  unfolding free
  free-done = rw (there, load-done)
