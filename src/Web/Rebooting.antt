-- ===== src/Web/Rebooting.antt =====
-- When the page html/flash/index.html restarts the probe.
use blackmagic_espidf.Base.{
  ℕ, ◌≡◌, refl, sym, ap, ◌∙◌, Bool, true, false, ◌&&◌, Option, none, some, List, [], ◌∷◌,
  if◌then◌else◌,
}
use blackmagic_espidf.Web.Upgrade.{
  Request, get_next, post_upload, get_reboot, Handler, no_handler, on_next, on_upload, on_reboot,
  Effect, request, set_progress, remark, reload_in, Script, Event, load, upgrade, ready, progress,
  is_answered, do_upgrade, do_reboot, on_uploaded, call_handler, on_event, unloaded, on_events,
}

abbrev pub asks_reboot : List Effect → Bool
asks_reboot [] = false
asks_reboot (request get_reboot ∷ es) = true
asks_reboot (request get_next ∷ es) = asks_reboot es
asks_reboot (request post_upload ∷ es) = asks_reboot es
asks_reboot (set_progress amount total ∷ es) = asks_reboot es
asks_reboot (remark text ∷ es) = asks_reboot es
asks_reboot (reload_in ms ∷ es) = asks_reboot es

abbrev pub is_upload : Option Request → Bool
is_upload none = false
is_upload (some get_next) = false
is_upload (some post_upload) = true
is_upload (some get_reboot) = false

abbrev handler_of : Option Request → Handler
handler_of none = no_handler
handler_of (some get_next) = on_next
handler_of (some post_upload) = on_upload
handler_of (some get_reboot) = on_reboot

abbrev is_true : Option Bool → Bool
is_true none = false
is_true (some b) = b

and-false : (b : Bool) → (b && false) ≡ false
and-false true = refl
and-false false = refl

module _ (success : List ℕ → Option Bool) where
  -- A complete answer, without an error, that says success.
  abbrev pub says_success : Event → Bool
  says_success load = false
  says_success (upgrade file) = false
  says_success (ready ready_state status text) =
      is_answered ready_state status && is_true (success text)
  says_success (progress loaded total) = false

  -- The handler belongs to the request that was opened last.
  abbrev Fits : Script → Type 0
  Fits s = s.handler ≡ handler_of s.request

  uploaded-Fits :
      (r : Option Bool) (text : List ℕ) (s : Script) → Fits s → Fits (on_uploaded r text s).0
  unfolding on_uploaded do_reboot
  uploaded-Fits none text s h = h
  uploaded-Fits (some false) text s h = h
  uploaded-Fits (some true) text s h = refl

  handler-Fits :
      (k : Handler) (text : List ℕ) (s : Script) → Fits s → Fits (call_handler success k text s).0
  unfolding call_handler
  handler-Fits no_handler text s h = h
  handler-Fits on_next text s h = h
  handler-Fits on_upload text s h = uploaded-Fits (success text) text s h
  handler-Fits on_reboot text s h = h

  if-Fits :
      (b : Bool) (o o' : Script × List Effect) → Fits o.0 → Fits o'.0 → Fits (if b then o else o').0
  if-Fits true o o' h h' = h
  if-Fits false o o' h h' = h'

  on_event-Fits : (e : Event) (s : Script) → Fits s → Fits (on_event success e s).0
  unfolding on_event do_upgrade
  on_event-Fits load s h = refl
  on_event-Fits (upgrade true) s h = refl
  on_event-Fits (upgrade false) s h = h
  on_event-Fits (ready ready_state status text) s h =
      if-Fits (is_answered ready_state status) (call_handler success s.handler text s) (s, [])
        (handler-Fits s.handler text s h) h
  on_event-Fits (progress loaded total) s h =
      if-Fits s.has_onprogress (s, set_progress loaded total ∷ []) (s, []) h h

  on_events-Fits : (es : List Event) (s : Script) → Fits s → Fits (on_events success es s)
  unfolding on_events
  on_events-Fits [] s h = h
  on_events-Fits (e ∷ es) s h = on_events-Fits es (on_event success e s).0 (on_event-Fits e s h)

  handler-asks :
      (r : Option Request) (text : List ℕ) (s : Script)
      → asks_reboot (call_handler success (handler_of r) text s).1
        ≡ (is_upload r && is_true (success text))
  unfolding call_handler on_uploaded do_reboot
  handler-asks none text s = refl
  handler-asks (some get_next) text s = refl
  handler-asks (some post_upload) text s = by (success text)
    where
      by : (b : Option Bool) → asks_reboot (on_uploaded b text s).1 ≡ is_true b
      by none = refl
      by (some true) = refl
      by (some false) = refl
  handler-asks (some get_reboot) text s = refl

  event-asks :
      (e : Event) (s : Script)
      → Fits s
      → asks_reboot (on_event success e s).1 ≡ (is_upload s.request && says_success e)
  unfolding on_event do_upgrade
  event-asks load s h = sym (and-false (is_upload s.request))
  event-asks (upgrade true) s h = sym (and-false (is_upload s.request))
  event-asks (upgrade false) s h = sym (and-false (is_upload s.request))
  event-asks (ready ready_state status text) s h = by (is_answered ready_state status)
    where
      asked :
          asks_reboot (call_handler success s.handler text s).1
          ≡ (is_upload s.request && is_true (success text))
      asked =
          ap (λ k. asks_reboot (call_handler success k text s).1) h ∙ handler-asks s.request text s

      by :
          (b : Bool)
          → asks_reboot (if b then call_handler success s.handler text s else (s, [])).1
            ≡ (is_upload s.request && (b && is_true (success text)))
      by true = asked
      by false = sym (and-false (is_upload s.request))
  event-asks (progress loaded total) s h = by s.has_onprogress
    where
      by :
          (b : Bool)
          → let o : Script × List Effect =
              if b then (s, set_progress loaded total ∷ []) else (s, []) in
            asks_reboot o.1 ≡ (is_upload s.request && false)
      by true = sym (and-false (is_upload s.request))
      by false = sym (and-false (is_upload s.request))

  -- Whatever events the page has seen, in whatever order: it asks the probe to restart at the next
  -- event exactly if the request that was opened last is the upload, and the event is its complete
  -- answer, with a status from 200 to 299 and a text that says success.
  pub on_events-reboots :
      (es : List Event) (e : Event)
      → let s : Script = on_events success es unloaded in
        asks_reboot (on_event success e s).1 ≡ (is_upload s.request && says_success e)
  on_events-reboots es e =
      event-asks e (on_events success es unloaded) (on_events-Fits es unloaded refl)
