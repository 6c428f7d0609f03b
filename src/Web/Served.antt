-- ===== src/Web/Served.antt =====
-- Which handler serves which path.
use text.Mathlib.Text
use text.Mathlib.TextEquality.{eq_iff}
use mathlib.Core.Bool.{true≢false}
use Prim.Native.String.{String}
use blackmagic_espidf.Base.Text.{codes}
use blackmagic_espidf.Base.{
  ◌≡◌, refl, sym, ◌∙◌, ap, ap₂, Bool, false, ◌||◌, Option, some, List, [], ◌∷◌, map, Bool-cases,
  inl, inr, ◌⊎◌,
}
use blackmagic_espidf.Web.Routes.{
  Handler, upload_firmware, reboot_firmware, baud, uart_break, websocket_term, websocket_debug,
  file_system, built_in_urls, route, ends_in_star, IsMatcher, index_imports, page_requests,
}

-- `*` fits all, another pattern its own text.
abbrev pub literal : String → String → Bool
literal pattern' path = Text.◌==◌ pattern' "*" || Text.◌==◌ pattern' path

-- Every pattern is `*` or does not end in `*`.
abbrev AllPlain : List (String × Handler) → Type 0
AllPlain [] = Unit
AllPlain ((pattern', handler) ∷ urls) =
    ((pattern' ≡ "*") ⊎ (ends_in_star (codes pattern') ≡ false)) × AllPlain urls

fits-star :
    (fits : String → String → Bool) (pattern' path : String)
    → IsMatcher fits
    → pattern' ≡ "*"
    → fits pattern' path ≡ literal pattern' path
fits-star fits pattern' path m e =
    ap (λ p. fits p path) e ∙ m.any path ∙ sym (rw ((eq_iff pattern' "*").1 e) refl)

fits-plain :
    (fits : String → String → Bool) (pattern' path : String)
    → IsMatcher fits
    → ends_in_star (codes pattern') ≡ false
    → Text.◌==◌ pattern' "*" ≡ false
    → fits pattern' path ≡ literal pattern' path
fits-plain fits pattern' path m plain no_star = elim (Bool-cases (Text.◌==◌ pattern' path)) [
  | inl same ↦
      ap (fits pattern') (sym ((eq_iff pattern' path).0 same))
      ∙ m.own pattern' plain
      ∙ sym (rw (no_star, same) refl)
  | inr other ↦
      m.plain pattern' path plain (λ e. true≢false (sym ((eq_iff pattern' path).1 e) ∙ other))
      ∙ sym (rw (no_star, other) refl)
]

fits-literal :
    (fits : String → String → Bool) (pattern' path : String)
    → IsMatcher fits
    → (pattern' ≡ "*") ⊎ (ends_in_star (codes pattern') ≡ false)
    → fits pattern' path ≡ literal pattern' path
fits-literal fits pattern' path m (inl e) = fits-star fits pattern' path m e
fits-literal fits pattern' path m (inr plain) = elim (Bool-cases (Text.◌==◌ pattern' "*")) [
  | inl star ↦ fits-star fits pattern' path m ((eq_iff pattern' "*").0 star)
  | inr no_star ↦ fits-plain fits pattern' path m plain no_star
]

-- In a table whose patterns are `*` or do not end in `*`, a path is served by the handler of the
-- first entry that is its own text or `*`.
pub route-literal :
    (fits : String → String → Bool) (urls : List (String × Handler)) (path : String)
    → IsMatcher fits
    → AllPlain urls
    → route fits urls path ≡ route literal urls path
unfolding route
route-literal fits [] path m plain = refl
route-literal fits ((pattern', handler) ∷ urls) path m plain =
    rw (fits-literal fits pattern' path m plain.0, route-literal fits urls path m plain.1) refl

pub built_in_urls-AllPlain : AllPlain built_in_urls
unfolding ends_in_star
built_in_urls-AllPlain = (
  inr refl,
  (
    inr refl,
    (
      inr refl,
      (
        inr refl,
        (inr refl, (inr refl, (inr refl, (inr refl, (inr refl, (inr refl, (inl refl, tt))))))),
      ),
    ),
  ),
)

-- The handlers meant for the requests of the pages, in order.
abbrev pub intended : List (Option Handler)
intended =
    some baud
    ∷ some uart_break
    ∷ some websocket_term
    ∷ some websocket_debug
    ∷ some reboot_firmware
    ∷ some upload_firmware
    ∷ some file_system
    ∷ []

map-route :
    (fits : String → String → Bool) (paths : List String)
    → IsMatcher fits
    → map (route fits built_in_urls) paths ≡ map (route literal built_in_urls) paths
map-route fits [] m = refl
map-route fits (p ∷ paths) m =
    ap₂ ◌∷◌ (route-literal fits built_in_urls p m built_in_urls-AllPlain) (map-route fits paths m)

-- Each request of the pages for what is no file comes to its own handler, but `/flash/next`, which
-- html/flash/index.html asks for: it comes to the file system. The modules that html/index.js
-- imports come to the file system.
pub page_requests-intended :
    (fits : String → String → Bool)
    → IsMatcher fits
    → (map (route fits built_in_urls) page_requests ≡ intended)
      × (map (λ x. route fits built_in_urls x.1) index_imports
          ≡ some file_system ∷ some file_system ∷ [])
unfolding route
page_requests-intended fits m =
    (map-route fits page_requests m, map-route fits (map (λ x. x.1) index_imports) m)
