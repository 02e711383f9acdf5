-- ===== src/LinkedList/Memory.antt =====
-- The nodes of mcl_core/include/mcl_core/mcl_list.h (`mcl_list_node_t`) at addresses, and commands
-- that read and write them. A dereference of `MCL_NULL` or of freed memory is `fault`.
use mindconnect_lib.Base.{ℕ, Option, none, some, ◌==◌, if◌then◌else◌}
use mathlib.Core.Option

abbrev pub Ptr : Type 0
Ptr = ℕ

abbrev pub null : Ptr
null = 0

pub record Node : Type 0 where
  pub item : Ptr
  pub prev : Ptr
  pub next : Ptr

abbrev pub node : Ptr → Ptr → Ptr → Node
node d p q = record { item = d; prev = p; next = q }

abbrev pub Memory : Type 0
Memory = Ptr → Option Node

-- The memory with another cell at one address, and with the node there changed.
unfoldable pub write : Memory → Ptr → Option Node → Memory
write h p c a = if a == p then c else h a

unfoldable pub modify : Memory → Ptr → (Node → Node) → Memory
modify h p f a = if a == p then Option.map f (h a) else h a

pub data Run (A : Type 0) : Type 0 where
  done : A → Memory → Run A
  fault : Run A
  out_of_fuel : Run A

abbrev pub Cmd : Type 0 → Type 0
Cmd A = Memory → Run A

abbrev pub pure : {A : Type 0} → A → Cmd A
pure = done

module _ {A B : Type 0} where
  abbrev pub continue : Run A → (A → Cmd B) → Run B
  continue (done a h) k = k a h
  continue fault k = fault
  continue out_of_fuel k = out_of_fuel

  infixl 5 ◌>>=◌ ◌>>◌
  abbrev pub ◌>>=◌ : Cmd A → (A → Cmd B) → Cmd B
  m >>= k = λ h. continue (m h) k

  abbrev pub ◌>>◌ : Cmd A → Cmd B → Cmd B
  m >> n = m >>= λ _. n

-- `*p`
unfoldable pub load : Ptr → Cmd Node
load p h = if p == null then fault else elim (h p) [ none ↦ fault | some n ↦ done n h ]

-- `p->next = q`
unfoldable pub set_next : Ptr → Ptr → Cmd (Unit {0})
set_next p q = do _ ← load p; λ h. done tt (modify h p (λ n. record n { next = q }))

-- `p->prev = q`
unfoldable pub set_prev : Ptr → Ptr → Cmd (Unit {0})
set_prev p q = do _ ← load p; λ h. done tt (modify h p (λ n. record n { prev = q }))

-- `MCL_FREE(p)`; freeing `MCL_NULL` does nothing, and a double free is a fault.
unfoldable pub free : Ptr → Cmd (Unit {0})
free p = if p == null then pure tt else (do _ ← load p; λ h. done tt (write h p none))

-- What `MCL_NEW` answers is an argument, `MCL_NULL` included; this fills the new node.
unfoldable pub store : Ptr → Node → Cmd (Unit {0})
store p n h = done tt (write h p (some n))
