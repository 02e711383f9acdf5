-- ===== src/Base/Preserves.antt =====
-- Actions that keep a relation between the state before and the state after, whatever they answer.
use mindconnect_lib.Base.Code.{Result, ok, err}
use mindconnect_lib.Base.Action.{Action, continue, ◌>>=◌}

module _ {State : Type 0} (Related : State → State → Type 0) where
  pub record Preserves {Value : Type 0} (action : Action State Value) : Type 0 where
    pub related : (s : State) → Related s (action s).1

  module _ (Related-refl : (s : State) → Related s s)
      (Related-trans : (s t u : State) → Related s t → Related t u → Related s u) where
    module _ {Value Next : Type 0} where
      continue-Related :
          (result : Result Value) (s t : State) (rest : Value → Action State Next)
          → Related s t
          → ((value : Value) → Preserves (rest value))
          → Related s (continue result t rest).1
      continue-Related (ok value) s t rest first then =
          Related-trans s t (rest value t).1 first ((then value).related t)
      continue-Related (err code) s t rest first then = first

      pub Preserves-bind :
          (action : Action State Value) (rest : Value → Action State Next)
          → Preserves action
          → ((value : Value) → Preserves (rest value))
          → Preserves (action >>= rest)
      Preserves-bind action rest first then = record {
        related = λ s. continue-Related (action s).0 s (action s).1 rest (first.related s) then;
      }
