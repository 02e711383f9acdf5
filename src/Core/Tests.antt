-- ===== src/Core/Tests.antt =====
-- Runs of core.c, and its theorem at a concrete input.
use mindconnect_lib.Base.{◌≡◌, refl, true, none, some, [], ◌∷◌}
use mindconnect_lib.Base.Code.{ok, err, fail, already_onboarded, not_onboarded}
use mindconnect_lib.StringUtil.{CString}
use mindconnect_lib.Core.{
  with_core, onboard_core, rotate_key_core, is_onboarded_core, entered, left, registered, Processor,
  CriticalSection, Core, note_event, call, critical_section_callbacks_are_used, leave_after,
  enter_before, in_critical_section, mcl_core_is_onboarded, mcl_core_onboard, mcl_core_rotate_key,
  onboard, rotate_key, get_access_token, perform_all,
}
use mindconnect_lib.Core.Section.{LockOption, perform_all-Lock}

-- A processor whose state is the registration access token.
abbrev processor : Processor CString
processor = record {
  register = λ s. (ok tt, some (7 ∷ []));
  update_credentials = λ s. (ok tt, s);
  get_access_token = λ s. (err fail, s);
  registration_access_token = λ s. s;
  access_token = λ s. none;
  last_token_time = λ s. none;
}

abbrev section : CriticalSection CString
section = record { has_enter = true; has_leave = true; enter_answer = λ s. ok tt }

abbrev fresh : Core CString
fresh = record { processor = none; events = [] }

abbrev onboarded : Core CString
onboarded = record { processor = some (7 ∷ []); events = [] }

first_onboarding : mcl_core_onboard section processor (some fresh) ≡ (
  ok tt,
  some (record { processor = some (7 ∷ []); events = entered ∷ registered ∷ left ∷ [] }),
)
unfolding with_core onboard_core rotate_key_core is_onboarded_core mcl_core_onboard
    in_critical_section critical_section_callbacks_are_used enter_before leave_after note_event call
first_onboarding = refl

guards :
    ((mcl_core_onboard section processor (some onboarded)).0 ≡ err already_onboarded)
    × ((mcl_core_rotate_key section processor (some fresh)).0 ≡ err not_onboarded)
unfolding with_core onboard_core rotate_key_core is_onboarded_core mcl_core_onboard
    mcl_core_rotate_key in_critical_section critical_section_callbacks_are_used enter_before
    leave_after note_event mcl_core_is_onboarded call
guards = (refl, refl)

callbacks_used : critical_section_callbacks_are_used section processor ≡ true
unfolding critical_section_callbacks_are_used
callbacks_used = refl

perform_all-Lock_example :
    LockOption
      (perform_all section processor (onboard ∷ get_access_token ∷ rotate_key ∷ []) (some fresh))
perform_all-Lock_example =
    perform_all-Lock section processor callbacks_used (onboard ∷ get_access_token ∷ rotate_key ∷ [])
      (some fresh) refl
