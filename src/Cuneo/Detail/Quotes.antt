-- ===== src/Cuneo/Detail/Quotes.antt =====
-- The texts of the device detail of demo/cuneo_overlay.js hold no markup and no quote.
use mobydb_render_engine.Base.{
  ℕ, ◌≡◌, refl, inl, inr, Bool, true, not, ◌||◌, List, [], ◌∷◌, ◌++◌, map, Text, codes, ◌==◌, every,
  All, and_left, and_right, and_intro, arith, Bool-cases,
}
use mobydb_render_engine.App
use mobydb_render_engine.App.{replace_all}
use mobydb_render_engine.App.Escape.{is_markup, escape_html_lem}
use mobydb_render_engine.Cuneo.Listing.{escape_html}
use mobydb_render_engine.Cuneo.Detail.{
  DeviceDetail, DetailStation, Detail, Link, template, meta_parts, link_of, render_device_detail,
}

-- Neither an angle bracket nor a quote of either kind.
abbrev pub is_inert : ℕ → Bool
is_inert c = not (is_markup c || (c == b'\''))

abbrev pub IsInert : Text → Type 0
IsInert s = every is_inert s ≡ true

replace_quote :
    (t : Text)
    → every (λ c. not (is_markup c)) t ≡ true
    → IsInert (replace_all b'\'' (codes "&#39;") t)
replace_quote [] h = refl
replace_quote (c ∷ t) h =
    let first = and_left (not (is_markup c)) (every (λ c. not (is_markup c)) t) h in
    let rest =
      replace_quote t (and_right (not (is_markup c)) (every (λ c. not (is_markup c)) t) h) in
    elim (Bool-cases (c == b'\'')) [
      | inl e ↦ rw e rest
      | inr e ↦ rw e (and_intro (is_inert c) _ (ground arith) rest)
    ]

escape_html-IsInert : (s : Text) → IsInert (escape_html s)
unfolding escape_html
escape_html-IsInert s = replace_quote (App.escape_html s) (escape_html_lem s).1

append-IsInert : (s t : Text) → IsInert s → IsInert t → IsInert (s ++ t)
append-IsInert [] t h k = k
append-IsInert (c ∷ s) t h k =
    and_intro (is_inert c) (every is_inert (s ++ t)) (and_left (is_inert c) (every is_inert s) h)
      (append-IsInert s t (and_right (is_inert c) (every is_inert s) h) k)

template-IsInert : (ps : List Text) → All IsInert ps → IsInert (template ps)
template-IsInert [] h = refl
template-IsInert (p ∷ ps) (h, hs) = append-IsInert p (template ps) h (template-IsInert ps hs)

-- The texts of a detail.
abbrev pub link_texts : List Link → List Text
link_texts [] = []
link_texts (l ∷ ls) = l.level ∷ l.rest ∷ link_texts ls

abbrev pub detail_texts : Detail → List Text
detail_texts d =
    d.back_to
    ∷ d.title
    ∷ d.meta
    ∷ d.station
    ∷ d.voltages
    ∷ d.mode
    ∷ d.status
    ∷ d.serial
    ∷ d.category
    ∷ d.pubkey
    ∷ d.h3_res15
    ∷ d.content_hash
    ∷ d.signature
    ∷ link_texts d.chain

links-IsInert : (cs : List Text) → All IsInert (link_texts (map link_of cs))
links-IsInert [] = tt
links-IsInert (c ∷ cs) = (
  escape_html-IsInert _,
  (
    append-IsInert (codes ":" ++ escape_html _) (codes "…")
        (append-IsInert (codes ":") (escape_html _) refl (escape_html-IsInert _)) refl,
    links-IsInert cs,
  ),
)

-- Whatever the server sends for a device and whatever the station is: no text that the detail puts
-- into its markup holds an angle bracket, a double quote or a single quote.
pub render_device_detail-IsInert :
    (d : DeviceDetail) (station : DetailStation)
    → All IsInert (detail_texts (render_device_detail d station))
unfolding render_device_detail
render_device_detail-IsInert d station =
    let e = escape_html-IsInert in
    (
      append-IsInert (codes "← Back to ") (escape_html station.name) refl (e _),
      (
        e _,
        (
          template-IsInert (meta_parts d) (e _, (refl, (e _, (refl, (e _, (refl, (e _, tt))))))),
          (
            e _,
            (
              e _,
              (
                e _,
                (
                  e _,
                  (
                    e _,
                    (
                      e _,
                      (
                        append-IsInert (codes "ed25519:") (escape_html _) refl (e _),
                        (
                          e _,
                          (
                            e _,
                            (
                              append-IsInert (escape_html _) (codes "…") (e _) refl,
                              links-IsInert _,
                            ),
                          ),
                        ),
                      ),
                    ),
                  ),
                ),
              ),
            ),
          ),
        ),
      ),
    )
