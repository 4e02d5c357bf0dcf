-- ===== src/Meri/Replay/Track/Stale.antt =====
-- A request outlives a change of the selection that is taken back.
use fintraffic.Base.{
  ℕ, ◌≡◌, true, false, List, [], ◌∷◌, none, some, arith, get_elem?, is_some, ◌==◌, ==_iff, subst,
  sym,
}
use fintraffic.Base.Dict.{Dict, remove}
use fintraffic.Base.Number.{Number}
use fintraffic.Meri.Replay.Pose.{Fix}
use fintraffic.Meri.Replay.Fleet.{FleetReplayResponse}
use fintraffic.Meri.Replay.Track.{
  Props, Key, key_of, same_key, TrackReplay, Request, render, open_session, fetched,
}
use fintraffic.Meri.Replay.Track.Playing.{System, renders, fetches, step, run}

same_key_refl : (a : Key) → same_key a a ≡ true
same_key_refl a = ground arith

-- An answer opens a session for the newest request, if the key is that of the request.
opens :
    {A : Type 0} (r : Request A) (fleet : Dict (List (Fix A))) (covered : A) (now : ℕ)
    (t : TrackReplay A)
    → r.id ≡ t.load_id
    → r.for_key ≡ t.key_ref
    → (is_some (open_session r fleet covered now t).session ≡ true)
      × ((open_session r fleet covered now t).playing ≡ true)
unfolding open_session
opens r fleet covered now t newest own =
    let id : (r.id == t.load_id) ≡ true = (==_iff _ _).1 newest in
    let key : same_key t.key_ref r.for_key ≡ true =
      subst (λ k. same_key t.key_ref k ≡ true) (sym own) (same_key_refl t.key_ref) in
    (rw (id, key), rw (id, key))

module _ {A : Type 0} (n : Number A) where
  -- A request is in flight for the vessel on screen. The selection, the window or the trail toggle
  -- changes, which stands playback down, and changes back. The answer then opens a session and plays,
  -- though nothing asked for it since.
  pub answer_after_return :
      (s : System A) (q : Props A) (i : ℕ) (r : Request A) (res : FleetReplayResponse A) (now : ℕ)
      → get_elem? s.world.pending i ≡ some r
      → r.id ≡ s.world.replay.load_id
      → r.for_key ≡ key_of s.props
      → same_key s.world.replay.last_key (key_of q) ≡ false
      → same_key (key_of q) (key_of s.props) ≡ false
      → let away = run n s (renders q ∷ []) in
        let back = run n away (renders s.props ∷ fetches i res now ∷ []) in
        (away.world.replay.session ≡ none)
        × (away.world.replay.loading ≡ false)
        × (away.world.replay.playing ≡ false)
        × (is_some back.world.replay.session ≡ true)
        × (back.world.replay.playing ≡ true)
  unfolding run step render fetched
  answer_after_return s q i r res now e newest own left returned =
      let back : TrackReplay A = record s.world.replay {
        last_key = key_of s.props;
        session = none;
        loading = false;
        playing = false;
        pose = none;
        key_ref = key_of s.props;
      } in
      let o = opens r (remove r.mmsi res.vessels) res.from now back newest own in
      (rw left, rw left, rw left, rw (left, returned, e) o.0, rw (left, returned, e) o.1)
