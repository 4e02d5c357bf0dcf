-- ===== src/Raide/Fleet/Followed.antt =====
-- The selected train through the answers, and the counts of the chips.
use fintraffic.Base.{
  ℕ, suc, ◌+◌, ◌≡◌, refl, sym, ap, ◌∙◌, Bool, true, false, List, [], ◌∷◌, Option-cases, Option,
  none, some, find, if◌then◌else◌, Bool-cases, arith, count, inl, inr,
}
use fintraffic.Base.Number.{Number}
use fintraffic.Shared.Ids.{Text, text_eq}
use fintraffic.Shared.Ids.RoundTrip.{eq_of_text_eq}
use fintraffic.Raide.Trains.{Train, TrainGroup, long_distance, commuter, cargo, other}
use fintraffic.Raide.Fleet.{
  Counts, train_group, train_key, followed, follow, counted, count_all, counts, empty_counts,
  or_prev,
}

abbrev same_group : TrainGroup → TrainGroup → Bool
same_group long_distance long_distance = true
same_group commuter commuter = true
same_group cargo cargo = true
same_group other other = true
same_group _ _ = false

abbrev pub chip : TrainGroup → Counts → ℕ
chip long_distance c = c.long_distance
chip commuter c = c.commuter
chip cargo c = c.cargo
chip other c = c.other

abbrev pub of_group : {A : Type 0} → TrainGroup → Train A → Bool
of_group g t = same_group (train_group t.category) g

chip-counted :
    (g h : TrainGroup) (c : Counts)
    → chip g (counted h c) ≡ (if same_group h g then suc (chip g c) else chip g c)
chip-counted long_distance long_distance c = refl
chip-counted long_distance commuter c = refl
chip-counted long_distance cargo c = refl
chip-counted long_distance other c = refl
chip-counted commuter long_distance c = refl
chip-counted commuter commuter c = refl
chip-counted commuter cargo c = refl
chip-counted commuter other c = refl
chip-counted cargo long_distance c = refl
chip-counted cargo commuter c = refl
chip-counted cargo cargo c = refl
chip-counted cargo other c = refl
chip-counted other long_distance c = refl
chip-counted other commuter c = refl
chip-counted other cargo c = refl
chip-counted other other c = refl

chip-count_all :
    {A : Type 0} (g : TrainGroup) (trains : List (Train A)) (c : Counts)
    → chip g (count_all trains c) ≡ chip g c + count (of_group g) trains
unfolding count_all
chip-count_all g [] c = ground arith
chip-count_all g (t ∷ trains) c =
    let rest = chip-count_all g trains (counted (train_group t.category) c) in
    let one = chip-counted g (train_group t.category) c in ground (arith, rest, one)

zero-chip : (g : TrainGroup) → chip g empty_counts ≡ 0
zero-chip long_distance = refl
zero-chip commuter = refl
zero-chip cargo = refl
zero-chip other = refl

-- The count that is shown at a group's chip is the number of trains of the group.
pub counts-chip :
    {A : Type 0} (g : TrainGroup) (trains : List (Train A))
    → chip g (counts trains) ≡ count (of_group g) trains
unfolding counts
counts-chip g trains = ground (arith, zero-chip g, chip-count_all g trains empty_counts)

module _ {A : Type 0} (n : Number A) where
  found-key :
      (t : Train A) (k : Text) (next : List (Train A))
      → find (λ x. text_eq (train_key n x) k) next ≡ some t
      → train_key n t ≡ k
  found-key t k [] e = absurd (ground (arith, e))
  found-key t k (x ∷ next) e = elim (Bool-cases (text_eq (train_key n x) k)) [
    | inl at ↦
        let here : x ≡ t = ground (arith, at, e) in
        ap (λ y. train_key n y) (sym here) ∙ eq_of_text_eq (train_key n x) k at
    | inr off ↦ found-key t k next (ground (arith, off, e))
  ]

  -- The train of a key in the last answer that has one.
  abbrev pub last_seen : Text → List (List (Train A)) → Option (Train A)
  last_seen k [] = none
  last_seen k (next ∷ answers) = elim (last_seen k answers) [
    | none ↦ find (λ t. text_eq (train_key n t) k) next
    | some t ↦ some t
  ]

  or_prev-key :
      (prev : Train A) (k : Text) (next : List (Train A))
      → train_key n prev ≡ k
      → train_key n (or_prev n prev (find (λ t. text_eq (train_key n t) k) next)) ≡ k
  or_prev-key prev k next e = elim (Option-cases (find (λ t. text_eq (train_key n t) k) next)) [
    | inl lost ↦ rw lost e
    | inr (t, found) ↦ rw found (found-key t k next found)
  ]

  or_prev-last_seen :
      (prev : Train A) (k : Text) (next : List (Train A)) (answers : List (List (Train A)))
      → or_prev n
          (or_prev n prev (find (λ t. text_eq (train_key n t) k) next))
          (last_seen k answers)
        ≡ or_prev n prev (last_seen k (next ∷ answers))
  or_prev-last_seen prev k next answers = elim (Option-cases (last_seen k answers)) [
    | inl lost ↦ rw lost refl
    | inr (t, found) ↦ rw found refl
  ]

  follow-key :
      (answers : List (List (Train A))) (prev : Train A) (k : Text)
      → train_key n prev ≡ k
      → (follow n answers (some prev) ≡ some (or_prev n prev (last_seen k answers)))
        × (train_key n (or_prev n prev (last_seen k answers)) ≡ k)
  unfolding follow followed
  follow-key [] prev k e = (refl, e)
  follow-key (next ∷ answers) prev k e =
      let t = or_prev n prev (find (λ x. text_eq (train_key n x) k) next) in
      let later = follow-key answers t k (or_prev-key prev k next e) in
      let same = or_prev-last_seen prev k next answers in
      (
        ap
              (λ key.
                follow n answers
                  (some (or_prev n prev (find (λ x. text_eq (train_key n x) key) next))))
              e
            ∙ later.0
            ∙ ap (λ x. some x) same,
        ap (train_key n) (sym same) ∙ later.1,
      )

  -- Whatever answers came, a selected train stays selected under its key: what is selected is the first
  -- train of that key in the last of the answers that has one, and the train as it was selected if
  -- none of them has one.
  pub follow-last_seen :
      (answers : List (List (Train A))) (prev : Train A)
      → (follow n answers (some prev)
          ≡ some (or_prev n prev (last_seen (train_key n prev) answers)))
        × (train_key n (or_prev n prev (last_seen (train_key n prev) answers)) ≡ train_key n prev)
  follow-last_seen answers prev = follow-key answers prev (train_key n prev) refl
