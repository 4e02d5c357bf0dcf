-- ===== src/Meri/Hub/Synced.antt =====
-- The client keeps up with the server.
use fintraffic.Base.{
  ℕ, ◌≡◌, refl, sym, ap, ◌∙◌, subst, Bool, true, false, ◌&&◌, List, [], ◌∷◌, Option, none, some,
  String, if_cases, arith, length,
}
use fintraffic.Base.Dict.{Dict, lookup, IsDistinct}
use fintraffic.Base.Number.{Number, IsOrdered}
use fintraffic.Meri.Stream.{Vessel, StreamMessage, delta, handle_message}
use fintraffic.Meri.Stream.Messages.{expected, lookup-handle_message}
use fintraffic.Meri.Hub.{
  Link, is_empty, omit_empty, ts_map, gone_from, snapshot_of, connect, is_newer, changed_since,
  broadcast, run,
}
use fintraffic.Meri.Hub.Merged.{
  ts_of, lookup-ts_map, ts_map-IsDistinct, keep-IsDistinct, given-omit_empty, held, held-next_of,
  delta-next_of,
}

is_empty-nil : {V : Type 0} (xs : List V) → is_empty xs ≡ true → xs ≡ []
is_empty-nil [] e = refl
is_empty-nil (x ∷ xs) e = absurd (ground (arith, e))

-- The maps that the cache answers have no key twice.
abbrev pub AllDistinct : {A : Type 0} → List (Bool × String × Dict (Vessel A)) → Type 0
AllDistinct [] = Unit
AllDistinct ((full, time, positions) ∷ ticks) = IsDistinct positions × AllDistinct ticks

-- What the cache answered last.
abbrev pub latest :
    {A : Type 0} → List (Bool × String × Dict (Vessel A)) → Dict (Vessel A) → Dict (Vessel A)
latest [] positions = positions
latest ((full, time, positions) ∷ ticks) before = latest ticks positions

module _ {A : Type 0} (n : Number A) where
  -- The client has the vessels that were sent last, no older than then.
  unfoldable pub IsSynced : Link A → Type 0
  IsSynced s =
      IsDistinct s.last_sent × ((j : ℕ) → held n (lookup j s.last_sent) (lookup j s.vessels) ≡ true)

  -- The client has the vessels of the cache, no older than there.
  unfoldable pub KeepsUp : Dict (Vessel A) → Link A → Type 0
  KeepsUp positions s = (j : ℕ) → held n (ts_of (lookup j positions)) (lookup j s.vessels) ≡ true

  KeepsUp-IsSynced :
      (positions : Dict (Vessel A)) (s : Link A)
      → IsDistinct positions
      → s.last_sent ≡ ts_map positions
      → KeepsUp positions s
      → IsSynced s
  unfolding IsSynced KeepsUp
  KeepsUp-IsSynced positions s d e h = (
    subst IsDistinct (sym e) (ts_map-IsDistinct positions d),
    λ j.
        ap (λ o. held n o (lookup j s.vessels)) (ap (λ l. lookup j l) e ∙ lookup-ts_map j positions)
        ∙ h j,
  )

  held_self : IsOrdered n → (p : Option (Vessel A)) → held n (ts_of p) p ≡ true
  held_self o none = refl
  held_self o (some v) = o.le_refl v.ts

  snapshot-held :
      IsOrdered n
      → (time : String) (positions m : Dict (Vessel A)) (j : ℕ) → IsDistinct positions
      → held n
          (ts_of (lookup j positions))
          (lookup j (handle_message (snapshot_of time positions) m))
        ≡ true
  snapshot-held o time positions m j d =
      ap (held n (ts_of (lookup j positions)))
        (lookup-handle_message (snapshot_of time positions) j m d)
      ∙ held_self o (lookup j positions)

  -- One vessel of the client after a delta, and after none where nothing is to be sent.
  delta-held :
      IsOrdered n
      → (positions : Dict (Vessel A)) (s : Link A) (c : Option (Vessel A)) (j : ℕ)
      → IsDistinct positions
      → IsSynced s
      → c
        ≡ expected delta
            (changed_since n s.last_sent positions)
            (gone_from s.last_sent (ts_map positions))
            j
            s.vessels
      → held n (ts_of (lookup j positions)) c ≡ true
  unfolding IsSynced
  delta-held o positions s c j d (distinct, synced) e =
      ap (held n (ts_of (lookup j positions)))
        (e ∙ delta-next_of n j s.last_sent positions s.vessels distinct d)
      ∙ held-next_of n o (lookup j s.last_sent) (lookup j positions) (lookup j s.vessels) (synced j)

  unsent :
      (changed : Dict (Vessel A)) (removed : List ℕ) (m : Dict (Vessel A)) (j : ℕ)
      → (is_empty changed && is_empty removed) ≡ true
      → lookup j m ≡ expected delta changed removed j m
  unfolding lookup
  unsent [] [] m j e = refl
  unsent [] (k ∷ ks) m j e = absurd (ground (arith, e))
  unsent (x ∷ xs) removed m j e = absurd (ground (arith, e))

  broadcast-KeepsUp :
      IsOrdered n
      → (full : Bool) (time : String) (positions : Dict (Vessel A)) (s : Link A)
      → IsDistinct positions
      → IsSynced s
      → KeepsUp positions (broadcast n full time positions s)
        × IsSynced (broadcast n full time positions s)
  unfolding broadcast KeepsUp changed_since
  broadcast-KeepsUp o true time positions s d synced =
      let end : Link A = record {
        last_sent = ts_map positions;
        vessels = handle_message (snapshot_of time positions) s.vessels;
      } in
      let up : KeepsUp positions end = λ j. snapshot-held o time positions s.vessels j d in
      (up, KeepsUp-IsSynced positions end d refl up)
  broadcast-KeepsUp o false time positions s d synced =
      let changed = changed_since n s.last_sent positions in
      let removed = gone_from s.last_sent (ts_map positions) in
      let sent : StreamMessage A = record {
        type = delta;
        timestamp = time;
        vessels = changed;
        removed = omit_empty removed;
        count = length positions;
      } in
      let end : Link A = record {
        last_sent = ts_map positions;
        vessels = handle_message sent s.vessels;
      } in
      if_cases (λ (t : Link A). KeepsUp positions t × IsSynced t)
        (is_empty changed && is_empty removed)
        (λ e. (
          λ j.
              delta-held o positions s (lookup j s.vessels) j d synced
                (unsent changed removed s.vessels j e),
          synced,
        ))
        (λ e.
          let up : KeepsUp positions end = λ j.
            delta-held o positions s (lookup j (handle_message sent s.vessels)) j d synced (
              lookup-handle_message sent j s.vessels
                (keep-IsDistinct (λ k v. is_newer n (lookup k s.last_sent) v.ts) positions d)
              ∙ ap (λ ks. expected delta changed ks j s.vessels) (given-omit_empty removed)) in
          (up, KeepsUp-IsSynced positions end d refl up))

  run-KeepsUp :
      IsOrdered n
      → (ticks : List (Bool × String × Dict (Vessel A))) (positions : Dict (Vessel A)) (s : Link A)
      → AllDistinct ticks
      → KeepsUp positions s
      → IsSynced s
      → KeepsUp (latest ticks positions) (run n ticks s)
  unfolding run
  run-KeepsUp o [] positions s d up synced = up
  run-KeepsUp o ((full, time, next) ∷ ticks) positions s d up synced =
      let step = broadcast-KeepsUp o full time next s d.0 synced in
      run-KeepsUp o ticks next (broadcast n full time next s) d.1 step.0 step.1

  -- Let no answer of the cache fail or have a key twice, and no message be skipped. Whatever the map of
  -- the only client had before it connected, and after any ticks, resyncs or not: for every MMSI
  -- number the client has a vessel exactly if the answer of the cache at the last tick has, or at the
  -- connection if there was no tick, and the time of the client's fix is no earlier than there.
  pub client_keeps_up :
      IsOrdered n
      → (time : String) (positions m : Dict (Vessel A))
        (ticks : List (Bool × String × Dict (Vessel A))) (j : ℕ)
      → IsDistinct positions
      → AllDistinct ticks
      → held n
          (ts_of (lookup j (latest ticks positions)))
          (lookup j (run n ticks (connect time positions m)).vessels)
        ≡ true
  unfolding connect KeepsUp
  client_keeps_up o time positions m ticks j d ds =
      let start : Link A = connect time positions m in
      let up : KeepsUp positions start = λ i. snapshot-held o time positions m i d in
      run-KeepsUp o ticks positions start ds up (KeepsUp-IsSynced positions start d refl up) j
