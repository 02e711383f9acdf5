-- ===== src/Core.antt =====
-- mcl_core/src/core.c: the functions of an agent, each around one of the core processor, in the
-- critical section that the configuration may bring. The core processor is the record `Processor`.
pub mod Section
mod Tests
use mindconnect_lib.Base.{
  ℕ, ◌≡◌, Bool, true, false, not, ◌&&◌, Option, none, some, List, [], ◌∷◌, ◌++◌, if◌then◌else◌,
}
use mindconnect_lib.Base.Code.{
  Result, ok, err, triggered_with_null, already_onboarded, not_onboarded, no_access_token_exists,
  no_server_time, out_of_memory,
}
use mindconnect_lib.StringUtil.{CString}

-- What a call does to the outside, in order.
pub data Event : Type 0 where
  entered entering_failed left registered updated token_requested : Event

-- The core processor on a state of its own, with what core.c reads of its security handler.
pub record Processor (State : Type 0) : Type 0 where
  pub register : State → Result (Unit {0}) × State
  pub update_credentials : State → Result (Unit {0}) × State
  pub get_access_token : State → Result (Unit {0}) × State
  pub registration_access_token : State → CString
  pub access_token : State → CString
  pub last_token_time : State → CString

-- The two callbacks of the configuration, where they are not `MCL_NULL`, and what the first answers.
pub record CriticalSection (State : Type 0) : Type 0 where
  pub has_enter : Bool
  pub has_leave : Bool
  pub enter_answer : State → Result (Unit {0})

pub record Core (State : Type 0) : Type 0 where
  pub processor : State
  pub events : List Event

module _ {State : Type 0} (section : CriticalSection State) (processor : Processor State) where
  abbrev pub Call : Type 0
  Call = Core State → Result (Unit {0}) × Core State

  unfoldable pub note_event : Event → Core State → Core State
  note_event event c = record c { events = Core.events c ++ (event ∷ []) }

  unfoldable pub call : Event → (State → Result (Unit {0}) × State) → Call
  call event operation c =
      let answer = operation (Core.processor c) in
      (answer.0, record { processor = answer.1; events = Core.events c ++ (event ∷ []) })

  unfoldable pub critical_section_callbacks_are_used : Bool
  critical_section_callbacks_are_used =
      CriticalSection.has_enter section && CriticalSection.has_leave section

  unfoldable pub leave_after : Result (Unit {0}) × Core State → Result (Unit {0}) × Core State
  leave_after (code, c) = (code, note_event left c)

  unfoldable pub enter_before : Result (Unit {0}) → Call → Call
  enter_before (err code) body c = (err code, note_event entering_failed c)
  enter_before (ok _) body c = leave_after (body (note_event entered c))

  -- What the three functions with a critical section have around their bodies.
  unfoldable pub in_critical_section : Call → Call
  in_critical_section body c =
      if critical_section_callbacks_are_used
      then enter_before (CriticalSection.enter_answer section (Core.processor c)) body c
      else body c

  abbrev pub is_some : CString → Bool
  is_some none = false
  is_some (some text) = true

  unfoldable pub is_onboarded_core : Core State → Bool
  is_onboarded_core c = is_some (Processor.registration_access_token processor (Core.processor c))

  unfoldable pub onboard_core : Call
  onboard_core = in_critical_section (λ c.
      if is_onboarded_core c
      then (err already_onboarded, c)
      else call registered (Processor.register processor) c)

  unfoldable pub rotate_key_core : Call
  rotate_key_core = in_critical_section (λ c.
      if is_onboarded_core c
      then call registered (Processor.register processor) c
      else (err not_onboarded, c))

  unfoldable pub update_credentials_core : Call
  update_credentials_core = in_critical_section (λ c.
      if is_onboarded_core c
      then call updated (Processor.update_credentials processor) c
      else (err not_onboarded, c))

  unfoldable pub get_access_token_core : Call
  get_access_token_core c =
      if is_onboarded_core c
      then call token_requested (Processor.get_access_token processor) c
      else (err not_onboarded, c)

  unfoldable pub copied : Bool → Result (Unit {0}) → CString → Result (List ℕ)
  copied allocated (err code) text = err code
  copied allocated (ok _) none = err no_access_token_exists
  copied allocated (ok _) (some text) = if allocated then ok text else err out_of_memory

  unfoldable pub get_last_access_token_core : Bool → Core State → Result (List ℕ)
  get_last_access_token_core allocated c =
      copied allocated (if is_onboarded_core c then ok tt else err not_onboarded)
        (Processor.access_token processor (Core.processor c))

  unfoldable pub copied_time : Bool → CString → Result (List ℕ)
  copied_time allocated none = err no_server_time
  copied_time allocated (some text) = if allocated then ok text else err out_of_memory

  unfoldable pub get_last_token_time_core : Bool → Core State → Result (List ℕ)
  get_last_token_time_core allocated c =
      copied_time allocated (Processor.last_token_time processor (Core.processor c))

  -- The null checks.
  unfoldable pub with_core : Call → Option (Core State) → Result (Unit {0}) × Option (Core State)
  with_core body none = (err triggered_with_null, none)
  with_core body (some c) = let done = body c in (done.0, some done.1)

  unfoldable pub mcl_core_onboard : Option (Core State) → Result (Unit {0}) × Option (Core State)
  mcl_core_onboard = with_core onboard_core

  unfoldable pub mcl_core_rotate_key : Option (Core State) → Result (Unit {0}) × Option (Core State)
  mcl_core_rotate_key = with_core rotate_key_core

  unfoldable pub mcl_core_update_credentials :
      Option (Core State) → Result (Unit {0}) × Option (Core State)
  mcl_core_update_credentials = with_core update_credentials_core

  unfoldable pub mcl_core_get_access_token :
      Option (Core State) → Result (Unit {0}) × Option (Core State)
  mcl_core_get_access_token = with_core get_access_token_core

  unfoldable pub mcl_core_is_onboarded : Option (Core State) → Bool
  mcl_core_is_onboarded none = false
  mcl_core_is_onboarded (some c) = is_onboarded_core c

  unfoldable pub mcl_core_get_last_access_token : Bool → Option (Core State) → Result (List ℕ)
  mcl_core_get_last_access_token allocated none = err triggered_with_null
  mcl_core_get_last_access_token allocated (some c) = get_last_access_token_core allocated c

  unfoldable pub mcl_core_get_last_token_time : Bool → Option (Core State) → Result (List ℕ)
  mcl_core_get_last_token_time allocated none = err triggered_with_null
  mcl_core_get_last_token_time allocated (some c) = get_last_token_time_core allocated c

-- The calls of an agent's program, in any order.
pub data Request : Type 0 where
  onboard rotate_key update_credentials get_access_token : Request

module _ {State : Type 0} (section : CriticalSection State) (processor : Processor State) where
  unfoldable pub perform : Request → Option (Core State) → Option (Core State)
  perform onboard c = (mcl_core_onboard section processor c).1
  perform rotate_key c = (mcl_core_rotate_key section processor c).1
  perform update_credentials c = (mcl_core_update_credentials section processor c).1
  perform get_access_token c = (mcl_core_get_access_token section processor c).1

  unfoldable pub perform_all : List Request → Option (Core State) → Option (Core State)
  perform_all [] c = c
  perform_all (r ∷ requests) c = perform_all requests (perform r c)
