-- ===== src/CoreProcessor/Keeps.antt =====
-- Steps of mcl_core/src/core_processor.c that leave a part of the agent as it is: `view` is that part,
-- and what happens outside does not show in it.
use mindconnect_lib.Base.{◌≡◌, refl, ◌∙◌}
use mindconnect_lib.Base.Code.{Result}
use mindconnect_lib.Base.Action.{Action, gets, from_result, ◌>>=◌}
use mindconnect_lib.Base.Preserves.{Preserves, Preserves-bind}
use mindconnect_lib.CoreProcessor.Environment.{CoreProcessor, on_world}

module _ {World View : Type 0} (view : CoreProcessor World → View) where
  abbrev pub Same : CoreProcessor World → CoreProcessor World → Type 0
  Same before after = view after ≡ view before

  abbrev pub Keeps : {Value : Type 0} → Action (CoreProcessor World) Value → Type 0
  Keeps = Preserves Same

  pub Keeps-bind :
      {Value Next : Type 0} (action : Action (CoreProcessor World) Value)
      (rest : Value → Action (CoreProcessor World) Next)
      → Keeps action
      → ((value : Value) → Keeps (rest value))
      → Keeps (action >>= rest)
  Keeps-bind = Preserves-bind Same (λ s. refl) (λ s t u h k. k ∙ h)

  pub Keeps-gets : {Value : Type 0} (read : CoreProcessor World → Value) → Keeps (gets read)
  Keeps-gets read = record { related = λ c. refl }

  pub Keeps-from_result :
      {Value : Type 0} (result : Result Value)
      → Keeps (from_result {State = CoreProcessor World} result)
  Keeps-from_result result = record { related = λ c. refl }

  module _
      (outside : (c : CoreProcessor World) (w : World)
        → view (record c { world = w }) ≡ view c) where
    pub Keeps-on_world : {Value : Type 0} (action : Action World Value) → Keeps (on_world action)
    Keeps-on_world action = record { related = λ c. outside c (action (CoreProcessor.world c)).1 }
