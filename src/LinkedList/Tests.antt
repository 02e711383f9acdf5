-- ===== src/LinkedList/Tests.antt =====
-- A list of three nodes, and the theorems of list.c at it.
use mindconnect_lib.Base.{
  ◌≡◌, refl, inr, true, none, some, ◌==◌, if◌then◌else◌, [], ◌∷◌, ◌++◌, arith,
}
use mindconnect_lib.Base.Code.{ok}
use mindconnect_lib.LinkedList.{
  Header, mcl_list_add, mcl_list_remove, reset, mcl_list_destroy_with_content, Lists, load_list,
}
use mindconnect_lib.LinkedList.Memory.{Ptr, null, node, Memory, write, done, fault}
use mindconnect_lib.LinkedList.Chain.{Cells, SameOutside}
use mindconnect_lib.LinkedList.Invariant.{IsList, Returns}
use mindconnect_lib.LinkedList.Add.{mcl_list_add-append}
use mindconnect_lib.LinkedList.Remove.{IsRemoved, mcl_list_remove-IsRemoved}
use mindconnect_lib.LinkedList.Walk.{
  visit, visit-reset, Without, mcl_list_destroy_with_content-Without,
}

abbrev three : Memory
three =
    write (write (write (λ _. none) 1 (some (node 10 0 2))) 2 (some (node 20 1 3))) 3
      (some (node 30 2 0))

abbrev header : Header
header = record { head = 1; last = 3; current = 2; count = 3 }

abbrev cells : Cells
cells = (1, 10) ∷ (2, 20) ∷ (3, 30) ∷ []

three-IsList : IsList three header cells
unfolding write
three-IsList = record {
  chain = (refl, refl, refl, (refl, refl, refl, (refl, refl, refl, tt)));
  at_head = refl;
  at_last = refl;
  counted = refl;
  cursor = inr refl;
}

mcl_list_add-append_example :
    Returns
      (λ out g.
        (l' : Header) × (out ≡ (ok tt, some l'))
        × IsList g l' (cells ++ ((7, 40) ∷ []))
        × (l'.current ≡ 2)
        × SameOutside (cells ++ ((7, 40) ∷ [])) three g)
      (mcl_list_add 7 (some header) 40 three)
unfolding write
mcl_list_add-append_example =
    mcl_list_add-append three header cells 7 40 three-IsList refl refl refl (omega arith)

mcl_list_remove-IsRemoved_example :
    Returns
      (λ out g.
        (l' : Header) × (out ≡ (ok tt, some l'))
        × IsRemoved three header ((1, 10) ∷ []) 2 20 ((3, 30) ∷ []) l' g)
      (mcl_list_remove (some header) 2 three)
mcl_list_remove-IsRemoved_example =
    mcl_list_remove-IsRemoved three header ((1, 10) ∷ []) 2 20 ((3, 30) ∷ []) three-IsList

abbrev empty : Header
empty = record { head = null; last = null; current = null; count = 0 }

visit-reset_example : visit 4 (reset header) three ≡ done (10 ∷ 20 ∷ 30 ∷ [], reset header) three
visit-reset_example = visit-reset three header cells three-IsList

abbrev structs : Lists
structs a = if a == 9 then some header else none

mcl_list_destroy_with_content-Without_example :
    Returns
      (λ out g.
        (out.0 ≡ 10 ∷ 20 ∷ 30 ∷ [])
        × Without cells three g
        × ((a : Ptr) → out.1 a ≡ (if a == 9 then none else structs a))
        × (out.2 ≡ some null))
      (mcl_list_destroy_with_content true structs (some 9) three)
mcl_list_destroy_with_content-Without_example =
    mcl_list_destroy_with_content-Without three structs 9 header cells true refl refl three-IsList

-- The struct is gone, so that a second call is a use of freed memory.
destroyed_twice : mcl_list_destroy_with_content true (λ _. none) (some 9) three ≡ fault
unfolding mcl_list_destroy_with_content load_list
destroyed_twice = refl
