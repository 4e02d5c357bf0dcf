-- ===== src/Meri/Replay/Track/Consistency.antt =====
-- What holds of the hook after any events.
use fintraffic.Base.{
  ℕ, ◌≡◌, refl, true, false, not, ◌&&◌, List, [], ◌∷◌, Option, none, some, arith, All,
  All-remove_at, All-get_elem?, Option-cases, Bool-cases, inl, inr, get_elem?, is_some, ◌==◌, subst,
  sym, ap, ◌∙◌, ◌||◌,
}
use fintraffic.Base.Dict.{Dict, lookup, remove, lookup-remove}
use fintraffic.Base.Number.{Number}
use fintraffic.Meri.Replay.Pose.{Fix}
use fintraffic.Meri.Replay.Track.{
  Props, Key, key_of, same_key, Session, TrackReplay, Request, World, render, open_session, fetched,
  not_fetched, exit, set_speed, do_seek, on_progress, on_ended, on_pose, initial, enter, enter_with,
  toggle, start_playing, restart, restart_at, flip_playing, toggle_play, toggle_play_at, available,
}
use fintraffic.Meri.Replay.Track.Playing.{
  System, Event, renders, toggles, exits, restarts, plays, fetches, fails, ends, answered, step,
  run, start,
}

-- The traffic of a session leaves out the selected vessel.
abbrev pub IsWithout : {A : Type 0} → Option ℕ → Option (Session A) → Type 0
IsWithout selected none = Unit
IsWithout selected (some s) = (m : ℕ) × (selected ≡ some m) × (lookup m s.fleet ≡ none)

pub record IsConsistent {A : Type 0} (p : Props A) (s : TrackReplay A) : Type 0 where
  pub last : s.last_key ≡ key_of p
  pub current : s.key_ref ≡ key_of p
  pub playing : s.playing ≡ true → is_some s.session ≡ true
  pub loaded : is_some s.session ≡ true → s.loading ≡ false
  pub without : IsWithout p.mmsi s.session

abbrev pub IsOwn : {A : Type 0} → Request A → Type 0
IsOwn r = r.for_key.mmsi ≡ some r.mmsi

pub record IsSound {A : Type 0} (s : System A) : Type 0 where
  pub replay : IsConsistent s.props s.world.replay
  pub own : All IsOwn s.world.pending

pub same_key_sound : (a b : Key) → same_key a b ≡ true → a ≡ b
same_key_sound a b h = ground arith

module _ {A : Type 0} (n : Number A) where
  render-IsConsistent :
      (p q : Props A) (s : TrackReplay A) → IsConsistent p s → IsConsistent q (render q s)
  unfolding render
  render-IsConsistent p q s c = elim (Bool-cases (same_key s.last_key (key_of q))) [
    | inl same ↦
        let e = same_key_sound s.last_key (key_of q) same in
        rw same (record {
          last = e;
          current = refl;
          playing = c.playing;
          loaded = c.loaded;
          without =
              subst (λ m. IsWithout m s.session) (ap (λ k. k.mmsi) (sym c.last ∙ e)) c.without;
        })
    | inr other ↦ rw other (record {
      last = refl;
      current = refl;
      playing = λ h. cc;
      loaded = λ h. refl;
      without = tt;
    })
  ]

  open_session-IsConsistent :
      (p : Props A) (s : TrackReplay A) (r : Request A) (fleet : Dict (List (Fix A))) (covered : A)
      (now : ℕ)
      → IsOwn r
      → lookup r.mmsi fleet ≡ none
      → IsConsistent p s
      → IsConsistent p (open_session r fleet covered now s)
  unfolding open_session
  open_session-IsConsistent p s r fleet covered now own gone c =
      elim (Bool-cases (r.id == s.load_id && same_key s.key_ref r.for_key)) [
        | inl good ↦
            let newest : (r.id == s.load_id) ≡ true = ground arith in
            let same : same_key s.key_ref r.for_key ≡ true = ground arith in
            let e = same_key_sound s.key_ref r.for_key same in
            let selected : p.mmsi ≡ some r.mmsi = ap (λ k. k.mmsi) (sym c.current ∙ e) ∙ own in
            rw (newest, same)
              (record {
                last = c.last;
                current = c.current;
                playing = λ h. refl;
                loaded = λ h. refl;
                without = (r.mmsi, selected, gone);
              })
        | inr bad ↦
            let refused : (not (r.id == s.load_id) || not (same_key s.key_ref r.for_key)) ≡ true =
              ground arith in
            rw refused c
      ]

  exit-IsConsistent : (p : Props A) (s : TrackReplay A) → IsConsistent p s → IsConsistent p (exit s)
  unfolding exit
  exit-IsConsistent p s c = record {
    last = c.last;
    current = c.current;
    playing = λ h. cc;
    loaded = λ h. refl;
    without = tt;
  }

  without_self : (m : ℕ) (vessels : Dict (List (Fix A))) → lookup m (remove m vessels) ≡ none
  without_self m vessels = ground (arith, lookup-remove m m vessels)

  nothing : (m : ℕ) → lookup m (let d : Dict (List (Fix A)) = [] in d) ≡ none
  unfolding lookup
  nothing m = refl

  enter_with-IsConsistent :
      (p : Props A) (selected : Option ℕ) (pts : List (Fix A)) (w : World A)
      → is_some w.replay.session ≡ false
      → IsConsistent p w.replay
      → IsConsistent p (enter_with n p selected pts w).replay
  unfolding enter_with
  enter_with-IsConsistent p (some m) (first ∷ second ∷ rest) w idle c = record {
    last = c.last;
    current = c.current;
    playing = c.playing;
    loaded = λ h. cc;
    without = c.without;
  }
  enter_with-IsConsistent p (some m) (first ∷ []) w idle c = c
  enter_with-IsConsistent p (some m) [] w idle c = c
  enter_with-IsConsistent p none _ w idle c = c

  enter_with-IsOwn :
      (p : Props A) (selected : Option ℕ) (pts : List (Fix A)) (w : World A)
      → selected ≡ p.mmsi
      → All IsOwn w.pending
      → All IsOwn (enter_with n p selected pts w).pending
  unfolding enter_with
  enter_with-IsOwn p (some m) (first ∷ second ∷ rest) w e a = (sym e, a)
  enter_with-IsOwn p (some m) (first ∷ []) w e a = a
  enter_with-IsOwn p (some m) [] w e a = a
  enter_with-IsOwn p none _ w e a = a

  enter-IsSound :
      (p : Props A) (w : World A)
      → is_some w.replay.session ≡ false
      → IsSound (record { props = p; world = w })
      → IsSound (record { props = p; world = enter n p w })
  unfolding enter
  enter-IsSound p w idle s = record {
    replay = enter_with-IsConsistent p p.mmsi p.points w idle s.replay;
    own = enter_with-IsOwn p p.mmsi p.points w refl s.own;
  }

  abbrev system : Props A → World A → System A
  system p w = record { props = p; world = w }

  start_playing-IsSound :
      (p : Props A) (w : World A)
      → is_some w.replay.session ≡ false
      → IsSound (system p w)
      → IsSound (system p (start_playing n p w))
  unfolding start_playing
  start_playing-IsSound p w idle s = elim (Bool-cases (available p && not w.replay.loading)) [
    | inl go ↦ rw go (enter-IsSound p w idle s)
    | inr stay ↦ rw stay s
  ]

  toggle-IsSound :
      (p : Props A) (w : World A) → IsSound (system p w) → IsSound (system p (toggle n p w))
  unfolding toggle
  toggle-IsSound p w s = elim (Bool-cases (is_some w.replay.session || w.replay.loading)) [
    | inl up ↦ rw up (record { replay = exit-IsConsistent p w.replay s.replay; own = s.own })
    | inr down ↦
        let idle : is_some w.replay.session ≡ false = ground arith in
        elim (Bool-cases (available p)) [
          | inl go ↦ rw (down, go) (enter-IsSound p w idle s)
          | inr stay ↦ rw (down, stay) s
        ]
  ]

  restart_at-IsSound :
      (o : Option (Session A)) (p : Props A) (now : ℕ) (w : World A)
      → w.replay.session ≡ o
      → IsSound (system p w)
      → IsSound (system p (restart_at n o p now w))
  unfolding restart_at
  restart_at-IsSound none p now w e s = start_playing-IsSound p w (ap is_some e) s
  restart_at-IsSound (some session) p now w e s = record {
    replay = record {
      last = s.replay.last;
      current = s.replay.current;
      playing = λ h. ap is_some e;
      loaded = s.replay.loaded;
      without = s.replay.without;
    };
    own = s.own;
  }

  flip_playing-IsConsistent :
      (session : Session A) (p : Props A) (now : ℕ) (s : TrackReplay A)
      → is_some s.session ≡ true
      → IsConsistent p s
      → IsConsistent p (flip_playing n session now s)
  unfolding flip_playing
  flip_playing-IsConsistent session p now s up c =
      elim (Bool-cases (not s.playing && n.le session.to s.playhead)) [
        | inl over ↦ rw over (record {
          last = c.last;
          current = c.current;
          playing = λ h. up;
          loaded = c.loaded;
          without = c.without;
        })
        | inr on ↦ rw on (record {
          last = c.last;
          current = c.current;
          playing = λ h. up;
          loaded = c.loaded;
          without = c.without;
        })
      ]

  toggle_play_at-IsSound :
      (o : Option (Session A)) (p : Props A) (now : ℕ) (w : World A)
      → w.replay.session ≡ o
      → IsSound (system p w)
      → IsSound (system p (toggle_play_at n o p now w))
  unfolding toggle_play_at
  toggle_play_at-IsSound none p now w e s = start_playing-IsSound p w (ap is_some e) s
  toggle_play_at-IsSound (some session) p now w e s = record {
    replay = flip_playing-IsConsistent session p now w.replay (ap is_some e) s.replay;
    own = s.own;
  }

  answered-IsSound :
      (p : Props A) (w : World A) (i : ℕ) (f : Request A → TrackReplay A → TrackReplay A)
      → ((r : Request A) → IsOwn r → IsConsistent p (f r w.replay))
      → IsSound (system p w)
      → IsSound (system p (answered f i w))
  answered-IsSound p w i f keeps s = elim (Option-cases (get_elem? w.pending i)) [
    | inl e ↦ record { replay = rw e s.replay; own = All-remove_at _ i w.pending s.own }
    | inr (r, e) ↦ record {
      replay = rw e (keeps r (All-get_elem? _ w.pending i r s.own e));
      own = All-remove_at _ i w.pending s.own;
    }
  ]

  step-IsSound : (s : System A) (e : Event A) → IsSound s → IsSound (step n s e)
  unfolding step restart toggle_play fetched not_fetched set_speed do_seek on_progress on_ended
      on_pose
  step-IsSound s (renders p) h = record {
    replay = render-IsConsistent s.props p s.world.replay h.replay;
    own = h.own;
  }
  step-IsSound s toggles h = toggle-IsSound s.props s.world h
  step-IsSound s exits h = record {
    replay = exit-IsConsistent s.props s.world.replay h.replay;
    own = h.own;
  }
  step-IsSound s (restarts now) h =
      restart_at-IsSound s.world.replay.session s.props now s.world refl h
  step-IsSound s (plays now) h =
      toggle_play_at-IsSound s.world.replay.session s.props now s.world refl h
  step-IsSound s (fetches i res now) h =
      answered-IsSound s.props s.world i (λ r. fetched r res now)
        (λ r own.
          open_session-IsConsistent s.props s.world.replay r (remove r.mmsi res.vessels) res.from
            now own (without_self r.mmsi res.vessels) h.replay)
        h
  step-IsSound s (fails i now) h =
      answered-IsSound s.props s.world i (λ r. not_fetched n r now)
        (λ r own.
          open_session-IsConsistent s.props s.world.replay r [] (n.of_ℕ 0) now own (nothing r.mmsi)
            h.replay)
        h
  step-IsSound s ends h = record {
    replay = record {
      last = h.replay.last;
      current = h.replay.current;
      playing = λ e. cc;
      loaded = h.replay.loaded;
      without = h.replay.without;
    };
    own = h.own;
  }
  step-IsSound s _ h = record {
    replay = record {
      last = h.replay.last;
      current = h.replay.current;
      playing = h.replay.playing;
      loaded = h.replay.loaded;
      without = h.replay.without;
    };
    own = h.own;
  }

  initial-IsConsistent : (p : Props A) → IsConsistent p (initial n p)
  unfolding initial
  initial-IsConsistent p = record {
    last = refl;
    current = refl;
    playing = λ h. cc;
    loaded = λ h. cc;
    without = tt;
  }

  run-IsSound : (s : System A) (es : List (Event A)) → IsSound s → IsSound (run n s es)
  unfolding run
  run-IsSound s [] h = h
  run-IsSound s (e ∷ es) h = run-IsSound (step n s e) es (step-IsSound s e h)

  -- After any renders, callbacks and answers, in any order: the keys are those of the props, it plays
  -- only with a session open, nothing is loading while one is, and the surrounding traffic of an open
  -- session does not hold the vessel that is selected now.
  pub run-IsConsistent :
      (p : Props A) (es : List (Event A))
      → let s = run n (start n p) es in IsConsistent s.props s.world.replay
  run-IsConsistent p es =
      (run-IsSound (start n p) es (record { replay = initial-IsConsistent p; own = tt })).replay
