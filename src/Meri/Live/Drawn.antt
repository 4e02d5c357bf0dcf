-- ===== src/Meri/Live/Drawn.antt =====
-- The map draws the vessels of the last update, each once.
use fintraffic.Base.{
  ℕ, ◌≡◌, refl, Bool, true, List, [], ◌∷◌, Option, arith, map, is_some, ap, sym, ◌∙◌, ◌==◌, any,
}
use fintraffic.Base.Dict.{Dict, lookup, insert, keep_entries, lookup-insert}
use fintraffic.Base.Number.{Number}
use fintraffic.Shared.Geo.{Trig}
use fintraffic.Meri.Stream.{Vessel}
use fintraffic.Meri.Live.{
  Live, TargetPos, RenderPos, Feature, next_targets, ingest, draw_targets, draw_live, eased,
}

-- The keys of a dictionary, in order.
abbrev pub keys : {V : Type 0} → Dict V → List ℕ
keys m = map (λ e. e.0) m

is_some-lookup :
    {V : Type 0} (id : ℕ) (m : Dict V) → is_some (lookup id m) ≡ any (λ k. k == id) (keys m)
unfolding lookup
is_some-lookup id [] = refl
is_some-lookup id ((k, v) ∷ m) = ground (arith, is_some-lookup id m)

-- Every key of a dictionary is in a list.
unfoldable pub IsWithin : {V : Type 0} → Dict V → List ℕ → Type 0
IsWithin m ks = (id : ℕ) → is_some (lookup id m) ≡ true → any (λ k. k == id) ks ≡ true

-- Frames, each with its time, the time since the one before, and the selection.
pub record Frame (A : Type 0) : Type 0 where
  pub now : A
  pub dt : A
  pub selected : Option ℕ

module _ {A : Type 0} (n : Number A) where
  keys-next_targets :
      (now : A) (targets : Dict (TargetPos A)) (vessels : Dict (Vessel A))
      → keys (next_targets n now targets vessels) ≡ keys vessels
  unfolding next_targets
  keys-next_targets now targets [] = refl
  keys-next_targets now targets ((id, v) ∷ vessels) =
      ap (λ (ks : List ℕ). id ∷ ks) (keys-next_targets now targets vessels)

  lookup-kept :
      {V : Type 0} (p : ℕ → Bool) (id : ℕ) (m : Dict V)
      → is_some (lookup id (keep_entries (λ k v. p k) m)) ≡ true
      → p id ≡ true
  unfolding lookup keep_entries
  lookup-kept p id [] e = absurd (ground (arith, e))
  lookup-kept p id ((k, v) ∷ m) e = ground (arith, e, lookup-kept p id m)

  ingest-IsWithin :
      (now : A) (vessels : Dict (Vessel A)) (s : Live A)
      → IsWithin (ingest n now vessels s).render (keys vessels)
  unfolding ingest IsWithin
  ingest-IsWithin now vessels s id e =
      let next = next_targets n now s.targets vessels in
      ap (any (λ k. k == id)) (sym (keys-next_targets now s.targets vessels))
      ∙ sym (is_some-lookup id next)
      ∙ lookup-kept (λ k. is_some (lookup k next)) id s.render e

module _ {A : Type 0} (n : Number A) (trig : Trig A) (exp : A → A) where
  mmsi-draw_targets :
      (k now : A) (selected : Option ℕ) (targets : Dict (TargetPos A)) (render : Dict (RenderPos A))
      → map (λ (f : Feature A). f.mmsi) (draw_targets n trig exp k now selected targets render).1
        ≡ keys targets
  unfolding draw_targets
  mmsi-draw_targets k now selected [] render = refl
  mmsi-draw_targets k now selected ((id, t) ∷ targets) render =
      ap (λ (ks : List ℕ). id ∷ ks) (mmsi-draw_targets k now selected targets _)

  draw_targets-IsWithin :
      (k now : A) (selected : Option ℕ) (targets : Dict (TargetPos A)) (render : Dict (RenderPos A))
      (ks : List ℕ)
      → ((id : ℕ) → any (λ j. j == id) (keys targets) ≡ true → any (λ j. j == id) ks ≡ true)
      → IsWithin render ks
      → IsWithin (draw_targets n trig exp k now selected targets render).0 ks
  unfolding draw_targets IsWithin
  draw_targets-IsWithin k now selected [] render ks sub h = h
  draw_targets-IsWithin k now selected ((id, t) ∷ targets) render ks sub h =
      let r = eased n trig exp k now t (lookup id render) in
      draw_targets-IsWithin k now selected targets (insert id r render) ks
        (λ j e. sub j (ground (arith, e)))
        (λ j e. ground (arith, e, lookup-insert id j r render, h j, sub j))

  -- Frames in a row.
  unfoldable pub draw_all : List (Frame A) → Live A → Live A
  unfolding draw_live
  draw_all [] s = s
  draw_all (f ∷ fs) s = draw_all fs (draw_live n trig exp f.now f.dt f.selected s).0

  record IsShowing (ks : List ℕ) (s : Live A) : Type 0 where
    targeted : keys s.targets ≡ ks
    rendered : IsWithin s.render ks

  draw_all-IsShowing :
      (fs : List (Frame A)) (ks : List ℕ) (s : Live A)
      → IsShowing ks s
      → IsShowing ks (draw_all fs s)
  unfolding draw_all draw_live
  draw_all-IsShowing [] ks s h = h
  draw_all-IsShowing (f ∷ fs) ks s h =
      draw_all-IsShowing fs ks (draw_live n trig exp f.now f.dt f.selected s).0 (record {
        targeted = h.targeted;
        rendered =
            draw_targets-IsWithin _ f.now f.selected s.targets s.render ks
              (λ id e. ap (any (λ j. j == id)) (sym h.targeted) ∙ e) h.rendered;
      })

  -- Whatever was on the map before, after an update of the fleet and any number of frames the next
  -- frame draws exactly the vessels of that update, a feature for each entry, and the map keeps no
  -- render position of any other vessel.
  pub draws_fleet :
      (s : Live A) (now : A) (vessels : Dict (Vessel A)) (fs : List (Frame A)) (f : Frame A)
      → (map
            (λ (x : Feature A). x.mmsi)
            (draw_live n trig exp f.now f.dt f.selected (draw_all fs (ingest n now vessels s))).1
          ≡ keys vessels)
        × IsWithin (draw_all fs (ingest n now vessels s)).render (keys vessels)
  unfolding draw_live ingest next_targets
  draws_fleet s now vessels fs f =
      let h = draw_all-IsShowing fs (keys vessels) (ingest n now vessels s) (record {
        targeted = keys-next_targets n now s.targets vessels;
        rendered = ingest-IsWithin n now vessels s;
      }) in
      (mmsi-draw_targets _ f.now f.selected _ _ ∙ h.targeted, h.rendered)
