-- ===== src/Core/Section.antt =====
-- The critical section of core.c, followed through the calls of a program.
use mindconnect_lib.Base.{
  if◌then◌else◌, ◌≡◌, refl, ap, ◌∙◌, Bool, true, false, Bool-cases, Option, none, some, List, [],
  ◌∷◌, ◌++◌, inl, inr,
}
use mindconnect_lib.Base.Code.{not_onboarded, Result, ok, err}
use mindconnect_lib.Core.{
  with_core, onboard_core, rotate_key_core, update_credentials_core, get_access_token_core,
  is_onboarded_core, mcl_core_get_access_token, Event, entered, entering_failed, left, registered,
  updated, token_requested, Processor, CriticalSection, Core, Call, note_event, call,
  critical_section_callbacks_are_used, leave_after, enter_before, in_critical_section,
  mcl_core_onboard, mcl_core_rotate_key, mcl_core_update_credentials, Request, onboard, rotate_key,
  update_credentials, get_access_token, perform, perform_all,
}

-- A lock that is not recursive: whether it is held after an event, `none` where the event must not
-- happen. Credentials change only while it is held.
abbrev pub lock_step : Bool → Event → Option Bool
lock_step false entered = some true
lock_step true entered = none
lock_step false entering_failed = some false
lock_step true entering_failed = none
lock_step false left = none
lock_step true left = some false
lock_step false registered = none
lock_step true registered = some true
lock_step false updated = none
lock_step true updated = some true
lock_step held token_requested = some held

abbrev pub lock_after : List Event → Option Bool → Option Bool
lock_after [] held = held
lock_after (e ∷ events) none = none
lock_after (e ∷ events) (some held) = lock_after events (lock_step held e)

lock_after-append :
    (events : List Event) (e : Event) (start : Option Bool) (held : Bool)
    → lock_after events start ≡ some held
    → lock_after (events ++ (e ∷ [])) start ≡ lock_step held e
lock_after-append [] e none held h = absurd (cc)
lock_after-append [] e (some a) held h = let s : a ≡ held = cc in ap (λ b. lock_step b e) s
lock_after-append (d ∷ events) e none held h = absurd (cc)
lock_after-append (d ∷ events) e (some a) held h = lock_after-append events e (lock_step a d) held h

-- The lock is held, or not, after all events so far, none of which was out of order.
abbrev pub Lock : {State : Type 0} → Bool → Core State → Type 0
Lock held c = lock_after (Core.events c) (some false) ≡ some held

abbrev pub LockOption : {State : Type 0} → Option (Core State) → Type 0
LockOption none = Unit
LockOption (some c) = Lock false c

module _ {State : Type 0} (section : CriticalSection State) (processor : Processor State)
    (used : critical_section_callbacks_are_used section processor ≡ true) where
  note_event-Lock :
      (e : Event) (held held' : Bool) (c : Core State)
      → Lock held c
      → lock_step held e ≡ some held'
      → Lock held' (note_event section processor e c)
  unfolding note_event
  note_event-Lock e held held' c h s = lock_after-append (Core.events c) e (some false) held h ∙ s

  call-Lock :
      (e : Event) (operation : State → Result (Unit {0}) × State) (held : Bool) (c : Core State)
      → Lock held c
      → lock_step held e ≡ some held
      → Lock held (call section processor e operation c).1
  unfolding call
  call-Lock e operation held c h s = lock_after-append (Core.events c) e (some false) held h ∙ s

  enter_before-Lock :
      (answer : Result (Unit {0})) (body : Call section processor) (c : Core State)
      → ((c' : Core State) → Lock true c' → Lock true (body c').1)
      → Lock false c
      → Lock false (enter_before section processor answer body c).1
  unfolding enter_before leave_after
  enter_before-Lock (err code) body c keeps h = note_event-Lock entering_failed false false c h refl
  enter_before-Lock (ok _) body c keeps h =
      note_event-Lock left true false (body (note_event section processor entered c)).1
        (keeps (note_event section processor entered c)
          (note_event-Lock entered false true c h refl))
        refl

  in_critical_section-Lock :
      (body : Call section processor) (c : Core State)
      → ((c' : Core State) → Lock true c' → Lock true (body c').1)
      → Lock false c
      → Lock false (in_critical_section section processor body c).1
  unfolding in_critical_section
  in_critical_section-Lock body c keeps h =
      rw used
        (enter_before-Lock (CriticalSection.enter_answer section (Core.processor c)) body c keeps h)

  get_access_token_core-Lock :
      (c : Core State) → Lock false c → Lock false (get_access_token_core section processor c).1
  unfolding get_access_token_core
  get_access_token_core-Lock c h = elim (Bool-cases (is_onboarded_core section processor c)) [
    | inl e ↦ rw e (call-Lock token_requested (Processor.get_access_token processor) false c h refl)
    | inr e ↦ rw e h
  ]

  with_core-Lock :
      (body : Call section processor) (c : Option (Core State))
      → ((c' : Core State) → Lock false c' → Lock false (body c').1)
      → LockOption c
      → LockOption (with_core section processor body c).1
  unfolding with_core
  with_core-Lock body none keeps h = tt
  with_core-Lock body (some c) keeps h = keeps c h

  guarded-Lock :
      (e : Event) (operation : State → Result (Unit {0}) × State) (guard : Bool)
      (refused : Result (Unit {0})) (c : Core State)
      → lock_step true e ≡ some true
      → Lock true c
      → Lock true (if guard then call section processor e operation c else (refused, c)).1
  guarded-Lock e operation true refused c s h = call-Lock e operation true c h s
  guarded-Lock e operation false refused c s h = h

  onboard_core-Lock :
      (c : Core State) → Lock false c → Lock false (onboard_core section processor c).1
  unfolding onboard_core
  onboard_core-Lock c h =
      in_critical_section-Lock _ c
        (λ c' held. elim (Bool-cases (is_onboarded_core section processor c')) [
          | inl e ↦ rw e held
          | inr e ↦ rw e (call-Lock registered (Processor.register processor) true c' held refl)
        ])
        h

  rotate_key_core-Lock :
      (c : Core State) → Lock false c → Lock false (rotate_key_core section processor c).1
  unfolding rotate_key_core
  rotate_key_core-Lock c h =
      in_critical_section-Lock _ c
        (λ c' held.
          guarded-Lock registered (Processor.register processor)
            (is_onboarded_core section processor c') (err not_onboarded) c' refl held)
        h

  update_credentials_core-Lock :
      (c : Core State) → Lock false c → Lock false (update_credentials_core section processor c).1
  unfolding update_credentials_core
  update_credentials_core-Lock c h =
      in_critical_section-Lock _ c
        (λ c' held.
          guarded-Lock updated (Processor.update_credentials processor)
            (is_onboarded_core section processor c') (err not_onboarded) c' refl held)
        h

  perform-Lock :
      (r : Request) (c : Option (Core State))
      → LockOption c
      → LockOption (perform section processor r c)
  unfolding perform mcl_core_onboard mcl_core_rotate_key mcl_core_update_credentials
      mcl_core_get_access_token
  perform-Lock onboard c h = with_core-Lock (onboard_core section processor) c onboard_core-Lock h
  perform-Lock rotate_key c h =
      with_core-Lock (rotate_key_core section processor) c rotate_key_core-Lock h
  perform-Lock update_credentials c h =
      with_core-Lock (update_credentials_core section processor) c update_credentials_core-Lock h
  perform-Lock get_access_token c h =
      with_core-Lock (get_access_token_core section processor) c get_access_token_core-Lock h

  -- Where both callbacks are set, any sequence of calls from a state in which the lock is free ends with
  -- the lock free: on every path, errors included, each entered section is left, none is entered twice,
  -- and credentials are registered and updated inside a section only.
  pub perform_all-Lock :
      (requests : List Request) (c : Option (Core State))
      → LockOption c
      → LockOption (perform_all section processor requests c)
  unfolding perform_all
  perform_all-Lock [] c h = h
  perform_all-Lock (r ∷ requests) c h =
      perform_all-Lock requests (perform section processor r c) (perform-Lock r c h)
