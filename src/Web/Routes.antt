-- ===== src/Web/Routes.antt =====
-- `builtInUrls` of main/http.c, and the requests of the pages: html/index.html, html/debug.html,
-- html/flash/index.html and the module html/index.js. How libesphttpd compares a pattern with a
-- path is a parameter.
use Prim.Native.String.{String}
use blackmagic_espidf.Base.Text.{codes}
use blackmagic_espidf.Base.{
  ℕ, ◌≡◌, ◌≢◌, Bool, true, false, Option, none, some, List, [], ◌∷◌, ◌++◌, ◌==◌, if◌then◌else◌,
}

-- The functions of the table, with the arguments that tell their uses apart.
pub data Handler : Type 0 where
  redirect : (to : String) → Handler
  upload_firmware : Handler
  reboot_firmware : Handler
  tx_power : Handler
  baud : Handler
  uart_break : Handler
  status : Handler
  websocket_term : Handler
  websocket_debug : Handler
  file_system : Handler

abbrev pub built_in_urls : List (String × Handler)
built_in_urls =
    ("/", redirect "/index.html")
    ∷ ("/flash/", redirect "/flash/index.html")
    ∷ ("/flash/upload", upload_firmware)
    ∷ ("/flash/reboot", reboot_firmware)
    ∷ ("/wifi/txpower", tx_power)
    ∷ ("/uart/baud", baud)
    ∷ ("/uart/break", uart_break)
    ∷ ("/status", status)
    ∷ ("/terminal", websocket_term)
    ∷ ("/debugws", websocket_debug)
    ∷ ("*", file_system)
    ∷ []

-- The first entry whose pattern fits.
unfoldable pub route : (String → String → Bool) → List (String × Handler) → String → Option Handler
route fits [] path = none
route fits ((pattern', handler) ∷ urls) path =
    let rest = route fits urls path in if fits pattern' path then some handler else rest

-- Whether a pattern ends in `*`.
unfoldable pub ends_in_star : List ℕ → Bool
ends_in_star [] = false
ends_in_star (c ∷ []) = c == b'*'
ends_in_star (c ∷ d ∷ cs) = ends_in_star (d ∷ cs)

-- Documented of the comparison: `*` at the end of a pattern stands for any text, and a pattern
-- without it fits its own text alone.
pub record IsMatcher (fits : String → String → Bool) : Type 0 where
  pub any : (path : String) → fits "*" path ≡ true
  pub own : (path : String) → ends_in_star (codes path) ≡ false → fits path path ≡ true
  pub plain :
      (pattern' path : String)
      → ends_in_star (codes pattern') ≡ false
      → pattern' ≢ path
      → fits pattern' path ≡ false

-- The whole of html/index.js, which has nothing but its imports: the bindings and the modules.
abbrev pub index_imports : List (String × String)
index_imports = ("Terminal", "/xterm.js") ∷ ("FitAddon", "/xterm-addon-fit.js") ∷ []

-- What the page html/index.html asks for by XMLHttpRequest, without the queries, and as a socket.
abbrev pub index_requests : List String
index_requests = "/uart/baud" ∷ "/uart/break" ∷ []

abbrev pub index_sockets : List String
index_sockets = "/terminal" ∷ []

-- The socket of html/debug.html.
abbrev pub debug_sockets : List String
debug_sockets = "/debugws" ∷ []

-- The requests of html/flash/index.html.
abbrev pub flash_requests : List String
flash_requests = "/flash/reboot" ∷ "/flash/upload" ∷ "/flash/next" ∷ []

abbrev pub page_requests : List String
page_requests = index_requests ++ (index_sockets ++ (debug_sockets ++ flash_requests))
