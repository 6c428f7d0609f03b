-- ===== src/Web/Upgrade.antt =====
-- The script of html/flash/index.html, which uploads a firmware and restarts the probe: one
-- `XMLHttpRequest` for all requests, whose handler is replaced with each.
use blackmagic_espidf.Base.{
  ℕ, Bool, true, false, ◌&&◌, Option, none, some, List, [], ◌∷◌, ◌++◌, ◌==◌, ltb, leb,
  if◌then◌else◌,
}
use blackmagic_espidf.Base.Text.{codes}

-- What `open` and `send` ask for.
pub data Request : Type 0 where
  get_next post_upload get_reboot : Request

-- What `xhr.onreadystatechange` is.
pub data Handler : Type 0 where
  no_handler on_next on_upload on_reboot : Handler

pub data Effect : Type 0 where
  -- `open` ends the request that is under way.
  request : Request → Effect
  set_progress : (amount total : ℕ) → Effect
  remark : List ℕ → Effect
  -- `window.setTimeout` for `location.reload`.
  reload_in : (ms : ℕ) → Effect

-- `request` is the one that was opened last; `has_onprogress`, that its handler of the progress is set,
-- which browsers let a page do.
pub record Script : Type 0 where
  pub handler : Handler
  pub request : Option Request
  pub has_onprogress : Bool

-- `open` calls the handler that is still there with the state 1, which no handler answers.
-- `file` says whether a file is chosen. `ready` is a call of the handler.
pub data Event : Type 0 where
  load : Event
  upgrade : (file : Bool) → Event
  ready : (ready_state status : ℕ) (response_text : List ℕ) → Event
  progress : (loaded total : ℕ) → Event

-- `xhr.readyState==4 && xhr.status>=200 && xhr.status<300`.
abbrev pub is_answered : ℕ → ℕ → Bool
is_answered ready_state status = ready_state == 4 && (leb 200 status && ltb status 300)

abbrev pub start_request : Request → Handler → Script → Script × List Effect
start_request r h s = (record s { handler = h; request = some r }, request r ∷ [])

abbrev pub before : List Effect → Script × List Effect → Script × List Effect
before es (s, es') = (s, es ++ es')

unfoldable pub do_reboot : Script → Script × List Effect
do_reboot s = start_request get_reboot on_reboot s

unfoldable pub do_upgrade : (file : Bool) → Script → Script × List Effect
do_upgrade false s = (s, remark (codes "Can't read file!") ∷ [])
do_upgrade true s = start_request post_upload on_upload (record s { has_onprogress = true })

-- `success` is what `response["success"]` is, with nothing where `JSON.parse` throws.
unfoldable pub on_uploaded : (success : Option Bool) → List ℕ → Script → Script × List Effect
unfolding do_reboot
on_uploaded none text s = (s, set_progress 1 1 ∷ [])
on_uploaded (some false) text s = (s, set_progress 1 1 ∷ remark (codes "Error: " ++ text) ∷ [])
on_uploaded (some true) text s =
    before (set_progress 1 1 ∷ remark (codes "Uploading done. Rebooting.") ∷ []) (do_reboot s)

-- The page before it is loaded.
abbrev pub unloaded : Script
unloaded = record { handler = no_handler; request = none; has_onprogress = false }

module _ (success : List ℕ → Option Bool) where
  unfoldable pub call_handler : Handler → List ℕ → Script → Script × List Effect
  unfolding on_uploaded
  call_handler no_handler text s = (s, [])
  call_handler on_next text s =
      (s, remark (codes "Please upload " ++ text ++ codes " or ota file.") ∷ set_progress 0 1 ∷ [])
  call_handler on_upload text s = on_uploaded (success text) text s
  call_handler on_reboot text s = (s, reload_in 3000 ∷ [])

  unfoldable pub on_event : Event → Script → Script × List Effect
  unfolding do_upgrade call_handler
  on_event load s = start_request get_next on_next s
  on_event (upgrade file) s = do_upgrade file s
  on_event (ready ready_state status text) s =
      if is_answered ready_state status then call_handler s.handler text s else (s, [])
  on_event (progress loaded total) s =
      if s.has_onprogress then (s, set_progress loaded total ∷ []) else (s, [])

  unfoldable pub on_events : List Event → Script → Script
  unfolding on_event
  on_events [] s = s
  on_events (e ∷ es) s = on_events es (on_event e s).0
