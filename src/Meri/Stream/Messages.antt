-- ===== src/Meri/Stream/Messages.antt =====
-- What a vessel is looked up as after a message, and after many.
use fintraffic.Base.{
  ℕ, ◌≡◌, refl, Bool, List, [], ◌∷◌, ◌++◌, Option, none, arith, ◌==◌, if◌then◌else◌, any, ◌∙◌, ap,
}
use fintraffic.Base.Dict.{
  Dict, lookup, remove, spread, IsDistinct, lookup-remove, lookup-spread, or_else,
}
use fintraffic.Meri.Stream.{
  Vessel, MessageType, snapshot, delta, StreamMessage, remove_all, given, handle_message,
  handle_all,
}

abbrev pub listed : ℕ → List ℕ → Bool
listed j ks = any (λ k. k == j) ks

lookup-remove_all :
    {V : Type 0} (j : ℕ) (ks : List ℕ) (m : Dict V)
    → lookup j (remove_all ks m) ≡ (if listed j ks then none else lookup j m)
unfolding remove_all
lookup-remove_all j [] m = refl
lookup-remove_all j (k ∷ ks) m =
    ground (arith, lookup-remove_all j ks (remove k m), lookup-remove k j m)

module _ {A : Type 0} where
  abbrev pub expected :
      MessageType → Dict (Vessel A) → List ℕ → ℕ → Dict (Vessel A) → Option (Vessel A)
  expected snapshot vessels removed j prev = lookup j vessels
  expected delta vessels removed j prev =
      if listed j removed then none else or_else (lookup j vessels) (lookup j prev)

  expected-next :
      (type : MessageType) (msg : StreamMessage A) (j : ℕ) (prev : Dict (Vessel A))
      → msg.type ≡ type
      → IsDistinct msg.vessels
      → lookup j (handle_message msg prev) ≡ expected type msg.vessels (given msg.removed) j prev
  unfolding handle_message
  expected-next snapshot msg j prev e d = rw e
  expected-next delta msg j prev e d = rw e (
      lookup-remove_all j (given msg.removed) (spread prev msg.vessels)
      ∙ ap (λ o. if listed j (given msg.removed) then none else o)
          (lookup-spread j prev msg.vessels d))

  -- After a message any vessel is: in a snapshot, what the snapshot says; in a delta, gone if it is
  -- listed as removed, else as the delta says, and as it was if the delta does not name it.
  pub lookup-handle_message :
      (msg : StreamMessage A) (j : ℕ) (prev : Dict (Vessel A))
      → IsDistinct msg.vessels
      → lookup j (handle_message msg prev)
        ≡ expected msg.type msg.vessels (given msg.removed) j prev
  lookup-handle_message msg j prev d = expected-next msg.type msg j prev refl d

  handle_all-append :
      (xs ys : List (StreamMessage A)) (m : Dict (Vessel A))
      → handle_all (xs ++ ys) m ≡ handle_all ys (handle_all xs m)
  unfolding handle_all
  handle_all-append [] ys m = refl
  handle_all-append (x ∷ xs) ys m = handle_all-append xs ys (handle_message x m)

  handle_message-snapshot :
      (msg : StreamMessage A) (m m' : Dict (Vessel A))
      → msg.type ≡ snapshot
      → handle_message msg m ≡ handle_message msg m'
  unfolding handle_message
  handle_message-snapshot msg m m' e = rw e

  -- A snapshot is a resync: whatever two clients held and received before, after the same snapshot
  -- and the same messages since they hold the same fleet.
  pub snapshot_resync :
      (before before' since : List (StreamMessage A)) (msg : StreamMessage A)
      (m m' : Dict (Vessel A))
      → msg.type ≡ snapshot
      → handle_all (before ++ msg ∷ since) m ≡ handle_all (before' ++ msg ∷ since) m'
  unfolding handle_all
  snapshot_resync before before' since msg m m' e =
      rw (handle_all-append before (msg ∷ since) m, handle_all-append before' (msg ∷ since) m')
        (ap (handle_all since)
          (handle_message-snapshot msg (handle_all before m) (handle_all before' m') e))
