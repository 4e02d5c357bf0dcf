-- ===== src/Shared/Style/Feeds/Returns.antt =====
-- After a swap of the theme each feed comes back with its next answer.
use fintraffic.Base.{
  ◌≡◌, refl, sym, ap, ◌∙◌, Bool, true, false, not, ◌||◌, List, [], ◌∷◌, Option, none, some, String,
  all, Bool-cases, inl, inr, subst, if◌then◌else◌,
}
use mathlib.Core.List.{append-nil}
use fintraffic.Shared.Style.{Item, MapApi, IsMap, and_then}
use fintraffic.Shared.Style.Install.{holds, AllAbsent, AllAbsent-holds, present-swapped}
use fintraffic.Shared.Style.Feeds.Whole.{IsTable, guards-false, all-present}
use fintraffic.Shared.Style.Feeds.{
  Feed, MapState, themes, style_loads, answers, set_theme, on_ready, install_feed, answer, step,
  run,
}
use fintraffic.Shared.Style.Feeds.Runs.{
  IsOnce, IsClear, IsSettled, install_feed-Goes, set_theme-IsSettled, landed-IsSettled,
}

module _ {S K L Theme : Type 0} (api : MapApi S) (laws : IsMap api)
    (same_theme : Theme → Theme → Bool) (style_url : Theme → String) (layer_ids : L → List String)
    (layer_order : List L) (feed : Theme × Theme → K → Feed L) (table : IsTable feed) where
  -- The state of a swap before the answer: the new style has landed, and has nothing of a feed.
  answer-returns :
      IsClear api laws same_theme style_url layer_ids layer_order feed table
      → (asked θ : Theme) (k : K) (m m' : MapState S L Theme) → m'.theme ≡ θ
      → m'.style_ready ≡ true
      → m'.style ≡ api.landed (api.set_style (style_url θ) m.style)
      → IsSettled api laws same_theme style_url layer_ids layer_order feed table m'
      → IsOnce m'
      → (m'' : MapState S L Theme) × (answer api same_theme style_url layer_ids layer_order feed
            asked k m'
          ≡ some m'')
        × (all (api.present m''.style) (feed (asked, θ) k).items ≡ true)
  unfolding answer IsSettled
  answer-returns clear asked θ k m m' at_theme ready at_style settled c =
      let now : Theme × Theme = (asked, m'.theme) in
      let gone : (j : Item) → holds (feed now k).items j ≡ true → api.present m'.style j ≡ false =
        λ j h.
          ap (λ (s : S). api.present s j) at_style
          ∙ present-swapped api laws (style_url θ) m.style j
          ∙ clear θ now k j h in
      let l = settled.0 ready in
      let done =
        install_feed-Goes api laws same_theme style_url layer_ids layer_order feed table now k m'
          settled c l (settled.1 l)
          (subst (λ (is : List Item). AllAbsent api is m'.style)
            (sym (append-nil (feed now k).items))
            (AllAbsent-holds api (feed now k).items m'.style gone)) in
      let outcome =
        install_feed api same_theme style_url layer_ids layer_order feed (feed now k) m' in
      let untested =
        guards-false api (feed now k).items (feed now k).guards m'.style (table.guarded now k)
          (table.guards_added now k) gone in
      (
        done.0,
        ap (λ b. if b then some m' else if not m'.style_ready then some m' else outcome) untested
            ∙ ap (λ b. if not b then some m' else outcome) ready
            ∙ done.1,
        ap (λ (t : Theme). all (api.present done.0.style) (feed (asked, t) k).items) (sym at_theme)
            ∙ all-present api (feed now k).items done.0.style done.4,
      )

  -- After a swap to another theme, the event of its style and an answer of a feed bring the feed back.
  swap-returns :
      IsClear api laws same_theme style_url layer_ids layer_order feed table
      → (asked θ : Theme) (k : K) (m : MapState S L Theme)
      → IsSettled api laws same_theme style_url layer_ids layer_order feed table m
      → IsOnce m
      → same_theme m.style_theme θ ≡ false
      → (m' : MapState S L Theme) × (run api same_theme style_url layer_ids layer_order feed
            (themes θ ∷ style_loads ∷ answers asked k ∷ [])
            m
          ≡ some m')
        × (all (api.present m'.style) (feed (asked, θ) k).items ≡ true)
  unfolding run step set_theme on_ready
  swap-returns clear asked θ k m settled c other =
      let swap : MapState S L Theme = record m {
        theme = θ;
        style_theme = θ;
        style_ready = false;
        style = api.set_style (style_url θ) m.style;
        waiting = true;
      } in
      let ready : MapState S L Theme = record swap {
        style = api.landed swap.style;
        waiting = false;
        style_ready = true;
      } in
      let at_swap : set_theme api same_theme style_url layer_ids layer_order feed θ m ≡ swap =
        ap (λ b. if b then record m { theme = θ; waiting = false } else swap) other in
      let settled' =
        landed-IsSettled api laws same_theme style_url layer_ids layer_order feed table clear swap
          ready refl
          (subst (IsSettled api laws same_theme style_url layer_ids layer_order feed table) at_swap
            (set_theme-IsSettled api laws same_theme style_url layer_ids layer_order feed table θ m
              settled)) in
      let done = answer-returns clear asked θ k m ready refl refl refl settled' c in
      (
        done.0,
        ap
              (run api same_theme style_url layer_ids layer_order feed
                (style_loads ∷ answers asked k ∷ []))
              at_swap
            ∙ ap (λ o. and_then o (λ t. some t)) done.1,
        done.2,
      )

  abbrev pub has_all : List Item → Option (MapState S L Theme) → Bool
  has_all is none = false
  has_all is (some m) = all (api.present m.style) is

  -- Unless the style is of that theme, a swap to it, its style event and an answer of the feed throw
  -- nothing and leave all items of the feed in the style.
  abbrev pub brings_back : Theme → Theme → K → MapState S L Theme → Bool
  brings_back asked θ k m =
      same_theme m.style_theme θ
      || has_all (feed (asked, θ) k).items (
          run api same_theme style_url layer_ids layer_order feed
            (themes θ ∷ style_loads ∷ answers asked k ∷ []) m)

  pub settled-brings_back :
      IsClear api laws same_theme style_url layer_ids layer_order feed table
      → (asked θ : Theme) (k : K) (m : MapState S L Theme)
      → IsSettled api laws same_theme style_url layer_ids layer_order feed table m
      → IsOnce m
      → brings_back asked θ k m ≡ true
  settled-brings_back clear asked θ k m settled c = elim (Bool-cases (same_theme m.style_theme θ)) [
    | inl same ↦ rw same refl
    | inr other ↦
        let back = swap-returns clear asked θ k m settled c other in
        rw other (ap (has_all (feed (asked, θ) k).items) back.1 ∙ back.2)
  ]
