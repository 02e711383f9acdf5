-- ===== src/Base/Yields.antt =====
-- Actions that return one value from every state.
use mathlib.Core.Path.{◌≡◌, refl}
use mathlib.Core.Bool.{true}
use mindconnect_lib.Base.Code.{ok}
use mindconnect_lib.Base.Action.{Action, Memory, malloc, ◌>>=◌, ◌>>◌}

abbrev pub Yields : {State Value : Type 0} → Action State Value → Value → Type 0
Yields action value = (s : _) → (action s).0 ≡ ok value

module _ {State Value Next : Type 0} where
  pub Yields-bind :
      (action : Action State Value) (rest : Value → Action State Next) (value : Value) (next : Next)
      → Yields action value
      → Yields (rest value) next
      → Yields (action >>= rest) next
  Yields-bind action rest value next first then s = rw (first s) (then (action s).1)

  pub Yields-then :
      (action : Action State Value) (rest : Action State Next) (value : Value) (next : Next)
      → Yields action value
      → Yields rest next
      → Yields (action >> rest) next
  Yields-then action rest value next first then s = rw (first s) (then (action s).1)

pub Yields-malloc :
    {World : Type 0} (memory : Memory World)
    → ((w : World) → (Memory.allocate memory w).0 ≡ true)
    → Yields (malloc memory) tt
Yields-malloc memory enough w = rw (enough w) refl
