-- ===== src/Base/Action.antt =====
-- Functions that fail with a code and change what is outside the program: its memory, its
-- libraries, the network and the callbacks. The state comes back after a failure too.
use mathlib.Core.Bool.{Bool, true, false}
use mathlib.Core.Option.{Option, none, some}
use mindconnect_lib.Base.Code.{Error, Result, ok, err, out_of_memory}

abbrev pub Action : Type 0 → Type 0 → Type 0
Action State Value = State → Result Value × State

module _ {State Value : Type 0} where
  abbrev pub pure : Value → Action State Value
  pure value s = (ok value, s)

  abbrev pub raise : Error → Action State Value
  raise code s = (err code, s)

  abbrev pub from_result : Result Value → Action State Value
  from_result result s = (result, s)

  abbrev pub gets : (State → Value) → Action State Value
  gets read s = (ok (read s), s)

abbrev pub continue :
    {State Value Next : Type 0}
    → Result Value
    → State
    → (Value → Action State Next)
    → Result Next × State
continue (ok value) s rest = rest value s
continue (err code) s rest = (err code, s)

infixl 5 ◌>>=◌ ◌>>◌
abbrev pub ◌>>=◌ :
    {State Value Next : Type 0}
    → Action State Value
    → (Value → Action State Next)
    → Action State Next
◌>>=◌ action rest s = continue (action s).0 (action s).1 rest

abbrev pub ◌>>◌ :
    {State Value Next : Type 0} → Action State Value → Action State Next → Action State Next
action >> rest = action >>= λ _. rest

abbrev pub modify : {State : Type 0} → (State → State) → Action State (Unit {0})
modify change s = (ok tt, change s)

abbrev pub assert : {State : Type 0} → Bool → Error → Action State (Unit {0})
assert true code s = (ok tt, s)
assert false code s = (err code, s)

-- What the end of a function does, whatever its code is.
abbrev pub finally :
    {State Value : Type 0} → Action State Value → (State → State) → Action State Value
finally action clean s = let answer = action s in (answer.0, clean answer.1)

-- What the end of a function does where its code is not `MCL_OK`.
abbrev pub clean_failure :
    {State Value : Type 0} → (State → State) → Result Value × State → Result Value × State
clean_failure clean (ok value, s) = (ok value, s)
clean_failure clean (err code, s) = (err code, clean s)

abbrev pub on_failure :
    {State Value : Type 0} → Action State Value → (State → State) → Action State Value
on_failure action clean s = clean_failure clean (action s)

-- What the allocator answers, and the lists of header lines: `mcl_list_initialize` and `mcl_list_add`.
pub record Memory (World : Type 0) : Type 0 where
  pub allocate : World → Bool × World
  pub list_answer : World → Result (Unit {0}) × World

-- `MCL_MALLOC` and `MCL_NEW`, with the check of the pointer.
abbrev pub malloc : {World : Type 0} → Memory World → Action World (Unit {0})
malloc memory w = let answer = Memory.allocate memory w in assert answer.0 out_of_memory answer.1

-- A function that returns `MCL_NULL` where it fails.
abbrev pub not_null_or : {Value : Type 0} → Error → Option Value → Result Value
not_null_or code none = err code
not_null_or code (some value) = ok value
