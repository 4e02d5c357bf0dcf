-- ===== src/Shared/Style/Feeds/Runs.antt =====
-- A map of feeds never adds to the style what is there.
use fintraffic.Base.{
  ◌≡◌, refl, sym, ap, ◌∙◌, Bool, true, false, not, ◌&&◌, List, [], ◌∷◌, ◌++◌, Option, some, String,
  any, all, arith, str_eq, Bool-cases, inl, inr, if_cases, subst,
}
use mathlib.Core.List.{append-nil}
use fintraffic.Shared.Style.{Item, MapApi, IsMap, and_then, set_layers_visible}
use fintraffic.Shared.Style.Install.{
  holds, distinct, AllAbsent, AllAbsent-holds, add_all-Adds, IsClearOf,
}
use fintraffic.Shared.Style.Feeds.Whole.{
  IsTable, IsWhole, guards-true, Keeps, Keeps-trans, Keeps-set_layers_visible, IsWhole-Adds,
}
use fintraffic.Shared.Style.Feeds.{
  Feed, MapState, Event, loads, themes, style_loads, switches, answers, bind_once, bind_all,
  set_theme, on_ready, show_all, install_feed, answer, step, run,
}

-- No text twice.
abbrev pub once : List String → Bool
once [] = true
once (id ∷ ids) = not (any (str_eq id) ids) && once ids

-- Handlers were registered for the bound layers, once each.
abbrev pub IsOnce : {S L Theme : Type 0} → MapState S L Theme → Type 0
IsOnce m = (m.handlers ≡ m.bound_layers) × (once m.handlers ≡ true)

bind_all-IsOnce :
    {S L Theme : Type 0} (ids : List String) (m : MapState S L Theme)
    → IsOnce m
    → IsOnce (bind_all ids m)
unfolding bind_all
bind_all-IsOnce [] m c = c
bind_all-IsOnce (id ∷ ids) m c = bind_all-IsOnce ids (bind_once id m) (
    if_cases IsOnce (any (str_eq id) m.bound_layers) (λ e. c)
      (λ e.
        (ap (λ (hs : List String). id ∷ hs) c.0, ground (arith, ap (any (str_eq id)) c.0, e, c.1))))

module _ {S K L Theme : Type 0} (api : MapApi S) (laws : IsMap api)
    (same_theme : Theme → Theme → Bool) (style_url : Theme → String) (layer_ids : L → List String)
    (layer_order : List L) (feed : Theme × Theme → K → Feed L) (table : IsTable feed) where
  -- No basemap has any item of a feed.
  abbrev pub IsClear : Type 0
  IsClear =
      (base : Theme) (θ : Theme × Theme) (k : K)
      → IsClearOf api laws (feed θ k).items (style_url base)

  -- Of each feed the style holds all items or none.
  abbrev pub AllWhole : S → Type 0
  AllWhole s = (θ : Theme × Theme) (k : K) → IsWhole api (feed θ k).items s

  -- The map takes itself to be ready only if its style is loaded; a loaded style holds of each feed
  -- all items or none; and the style that was set last is a theme's basemap.
  unfoldable pub IsSettled : MapState S L Theme → Type 0
  IsSettled m =
      (m.style_ready ≡ true → api.loaded m.style ≡ true)
      × (api.loaded m.style ≡ true → AllWhole m.style)
      × ((base : Theme) × (api.wanted m.style ≡ style_url base))

  Keeps-show_all :
      (ks : List L) (visibility : L → Bool) (s : S)
      → Keeps api laws s
          (show_all api same_theme style_url layer_ids layer_order feed ks visibility s)
  unfolding show_all
  Keeps-show_all [] visibility s = (λ j. refl, refl, refl)
  Keeps-show_all (k ∷ ks) visibility s =
      let s' = set_layers_visible api (layer_ids k) (visibility k) s in
      Keeps-trans api laws s s' _ (Keeps-set_layers_visible api laws (layer_ids k) (visibility k) s)
        (Keeps-show_all ks visibility s')

  style-bind_all : (ids : List String) (m : MapState S L Theme) → (bind_all ids m).style ≡ m.style
  unfolding bind_all
  style-bind_all [] m = refl
  style-bind_all (id ∷ ids) m =
      style-bind_all ids (bind_once id m)
      ∙ if_cases (λ (t : MapState S L Theme). t.style ≡ m.style) (any (str_eq id) m.bound_layers)
          (λ e. refl) (λ e. refl)

  AllWhole-Keeps : (s s' : S) → Keeps api laws s s' → AllWhole s → AllWhole s'
  AllWhole-Keeps s s' kept w θ k = ((w θ k).0, λ j h. kept.0 j ∙ (w θ k).1 j h)

  -- The state after a step, which throws nothing.
  abbrev pub Goes : Option (MapState S L Theme) → Type 0
  Goes o = (m : MapState S L Theme) × (o ≡ some m) × IsSettled m × IsOnce m

  Keeps-IsSettled :
      (m m' : MapState S L Theme)
      → m'.style_ready ≡ m.style_ready
      → Keeps api laws m.style m'.style
      → IsSettled m
      → IsSettled m'
  unfolding IsSettled
  Keeps-IsSettled m m' same kept (ready, whole, base) = (
    λ e. kept.1 ∙ ready (sym same ∙ e),
    λ l. AllWhole-Keeps m.style m'.style kept (whole (sym kept.1 ∙ l)),
    (base.0, kept.2 ∙ base.1),
  )

  -- A style that is loaded, with the address it had, in which each feed is whole.
  loaded-IsSettled :
      (m m' : MapState S L Theme)
      → api.loaded m'.style ≡ true
      → AllWhole m'.style
      → api.wanted m'.style ≡ api.wanted m.style
      → IsSettled m
      → IsSettled m'
  unfolding IsSettled
  loaded-IsSettled m m' l w same (ready, whole, base) = (λ e. l, λ e. w, (base.0, same ∙ base.1))

  pub install_feed-Goes :
      (θ : Theme × Theme) (k : K) (m : MapState S L Theme)
      → IsSettled m
      → IsOnce m
      → api.loaded m.style ≡ true
      → AllWhole m.style
      → AllAbsent api ((feed θ k).items ++ []) m.style
      → (m' : MapState S L Theme) × (install_feed api same_theme style_url layer_ids layer_order
            feed
            (feed θ k)
            m
          ≡ some m')
        × IsSettled m'
        × IsOnce m'
        × ((j : Item) → holds (feed θ k).items j ≡ true → api.present m'.style j ≡ true)
  unfolding install_feed
  install_feed-Goes θ k m settled c l w a =
      let f = feed θ k in
      let added =
        add_all-Adds api laws f.items [] m.style
          (ap distinct (append-nil f.items) ∙ table.no_doubles θ k) a l in
      let style' =
        show_all api same_theme style_url layer_ids layer_order feed f.keys m.visibility added.0 in
      let shown : MapState S L Theme = record m { style = style' } in
      let kept = Keeps-show_all f.keys m.visibility added.0 in
      let whole : AllWhole added.0 = λ θ' k'.
        IsWhole-Adds api laws f.items (feed θ' k').items m.style added.0 (table.apart θ θ' k k')
          added.3 (w θ' k') in
      let end = bind_all f.bound shown in
      let at_end : style' ≡ end.style = sym (style-bind_all f.bound shown) in
      (
        end,
        ap
            (λ o. and_then o (λ s. some (
              bind_all f.bound (record m {
                style =
                    show_all api same_theme style_url layer_ids layer_order feed f.keys m.visibility
                      s;
              }))))
            added.1,
        loaded-IsSettled m end (subst (λ (s : S). api.loaded s ≡ true) at_end (kept.1 ∙ added.4.0))
            (subst AllWhole at_end (AllWhole-Keeps added.0 style' kept whole))
            (subst (λ (s : S). api.wanted s ≡ api.wanted m.style) at_end (kept.2 ∙ added.4.1))
            settled,
        bind_all-IsOnce f.bound shown c,
        λ j h.
            ap (λ (s : S). api.present s j) (sym at_end) ∙ kept.0 j ∙ ground (arith, added.3 j, h),
      )

  absent :
      (θ : Theme × Theme) (k : K) (s : S)
      → AllWhole s
      → all (api.present s) (feed θ k).guards ≡ false
      → (j : Item) → holds (feed θ k).items j ≡ true
      → api.present s j ≡ false
  absent θ k s w e j h = elim (Bool-cases (w θ k).0) [
    | inl there ↦ absurd (
        ground (
          arith,
          e,
          guards-true api (feed θ k).items (feed θ k).guards s (table.guards_added θ k)
              (λ i f. (w θ k).1 i f ∙ there),
        ))
    | inr gone ↦ (w θ k).1 j h ∙ gone
  ]

  answer-Goes :
      (asked : Theme) (k : K) (m : MapState S L Theme)
      → IsSettled m
      → IsOnce m
      → Goes (answer api same_theme style_url layer_ids layer_order feed asked k m)
  unfolding answer IsSettled
  answer-Goes asked k m settled c =
      let θ : Theme × Theme = (asked, m.theme) in
      if_cases Goes (all (api.present m.style) (feed θ k).guards) (λ e. (m, refl, settled, c))
        (λ e.
          if_cases Goes (not m.style_ready) (λ f. (m, refl, settled, c))
            (λ f.
              let l = settled.0 (ground (arith, f)) in
              let w = settled.1 l in
              let done = install_feed-Goes θ k m settled c l w (
                subst (λ (is : List Item). AllAbsent api is m.style)
                  (sym (append-nil (feed θ k).items))
                  (AllAbsent-holds api (feed θ k).items m.style (absent θ k m.style w e))) in
              (done.0, done.1, done.2, done.3)))

  pub set_theme-IsSettled :
      (theme : Theme) (m : MapState S L Theme)
      → IsSettled m
      → IsSettled (set_theme api same_theme style_url layer_ids layer_order feed theme m)
  unfolding set_theme IsSettled
  set_theme-IsSettled theme m settled =
      if_cases IsSettled (same_theme m.style_theme theme) (λ e. settled)
        (λ e. (
          λ f. absurd (ground (arith, f)),
          λ l. absurd (ground (arith, l, laws.set_style_unloads (style_url theme) m.style)),
          (theme, laws.set_style_wants (style_url theme) m.style),
        ))

  -- In a style that has landed each feed is whole, if it was before or the style is fresh.
  landed-AllWhole :
      IsClear
      → (s : S) → (api.loaded s ≡ true → AllWhole s)
      → ((base : Theme) × (api.wanted s ≡ style_url base))
      → AllWhole (api.landed s)
  landed-AllWhole clear s whole base = elim (Bool-cases (api.loaded s)) [
    | inl l ↦ λ θ k. ((whole l θ k).0, λ j h. laws.landed_stays s j l ∙ (whole l θ k).1 j h)
    | inr fresh ↦ λ θ k. (
      false,
      λ j h. laws.landed_fresh s j fresh ∙ ap (λ u. api.basemap u j) base.1 ∙ clear base.0 θ k j h,
    )
  ]

  pub landed-IsSettled :
      IsClear
      → (m m' : MapState S L Theme) → m'.style ≡ api.landed m.style
      → IsSettled m
      → IsSettled m'
  unfolding IsSettled
  landed-IsSettled clear m m' e (ready, whole, base) = (
    λ f. ap api.loaded e ∙ laws.landed_loads m.style,
    λ l. subst AllWhole (sym e) (landed-AllWhole clear m.style whole base),
    (base.0, ap api.wanted e ∙ laws.landed_wants m.style ∙ base.1),
  )

  step-Goes :
      IsClear
      → (e : Event K L Theme) (m : MapState S L Theme) → IsSettled m
      → IsOnce m
      → Goes (step api same_theme style_url layer_ids layer_order feed e m)
  unfolding step on_ready set_theme
  step-Goes clear loads m w c = (_, refl, landed-IsSettled clear m _ refl w, c)
  step-Goes clear (themes θ) m w c = (
    _,
    refl,
    set_theme-IsSettled θ m w,
    if_cases IsOnce (same_theme m.style_theme θ) (λ e. c) (λ e. c),
  )
  step-Goes clear style_loads m w c = (
    _,
    refl,
    if_cases IsSettled m.waiting (λ e. landed-IsSettled clear m _ refl w)
        (λ e. landed-IsSettled clear m _ refl w),
    if_cases IsOnce m.waiting (λ e. c) (λ e. c),
  )
  step-Goes clear (switches visibility) m w c =
      let m' : MapState S L Theme = record m {
        visibility = visibility;
        style =
            show_all api same_theme style_url layer_ids layer_order feed layer_order visibility
              m.style;
      } in
      (m', refl, Keeps-IsSettled m m' refl (Keeps-show_all layer_order visibility m.style) w, c)
  step-Goes clear (answers asked k) m w c = answer-Goes asked k m w c

  -- Let no basemap have an item of a feed. Whatever themes, style events, switches and answers come,
  -- in any order, to a map that is settled and has bound no layer's handlers twice: no call throws,
  -- and afterwards this is so again.
  pub run-Goes :
      IsClear
      → (es : List (Event K L Theme)) (m : MapState S L Theme) → IsSettled m
      → IsOnce m
      → Goes (run api same_theme style_url layer_ids layer_order feed es m)
  unfolding run
  run-Goes clear [] m w c = (m, refl, w, c)
  run-Goes clear (e ∷ es) m w c =
      let next = step-Goes clear e m w c in
      let later = run-Goes clear es next.0 next.2 next.3 in
      (
        later.0,
        ap (λ o. and_then o (run api same_theme style_url layer_ids layer_order feed es)) next.1
            ∙ later.1,
        later.2,
        later.3,
      )
