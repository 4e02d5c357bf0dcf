-- ===== src/Meri/Hub/Merged.antt =====
-- What a message of the server makes of each vessel of the client.
use fintraffic.Base.{
  ℕ, ◌≡◌, refl, sym, ap, ◌∙◌, Bool, true, false, not, List, [], ◌∷◌, Option, none, some, is_some,
  if◌then◌else◌, arith, ◌==◌, ==_iff, Bool-cases, inl, inr,
}
use fintraffic.Base.Dict.{Dict, lookup, keep_entries, IsDistinct, or_else}
use fintraffic.Base.Number.{Number, IsOrdered}
use fintraffic.Meri.Stream.{Vessel, delta, given}
use fintraffic.Meri.Stream.Messages.{listed, expected}
use fintraffic.Meri.Hub.{keys_of, omit_empty, ts_map, gone_from, is_newer, changed_since}

abbrev pub chosen : {V : Type 0} → (ℕ → V → Bool) → ℕ → Option V → Option V
chosen p j none = none
chosen p j (some v) = if p j v then some v else none

module _ {V : Type 0} (p : ℕ → V → Bool) where
  none-keep : (k : ℕ) (m : Dict V) → lookup k m ≡ none → lookup k (keep_entries p m) ≡ none
  unfolding lookup keep_entries
  none-keep k [] e = refl
  none-keep k ((i, v) ∷ m) e = ground (arith, e, none-keep k m)

  pub keep-IsDistinct : (m : Dict V) → IsDistinct m → IsDistinct (keep_entries p m)
  unfolding IsDistinct keep_entries
  keep-IsDistinct [] d = tt
  keep-IsDistinct ((k, v) ∷ m) d = elim (Bool-cases (p k v)) [
    | inl on ↦ rw on (none-keep k m d.0, keep-IsDistinct m d.1)
    | inr off ↦ rw off (keep-IsDistinct m d.1)
  ]

  lookup-chosen :
      (j : ℕ) (m : Dict V) → IsDistinct m → lookup j (keep_entries p m) ≡ chosen p j (lookup j m)
  unfolding IsDistinct lookup keep_entries
  lookup-chosen j [] d = refl
  lookup-chosen j ((k, v) ∷ m) d = elim (Bool-cases (k == j)) [
    | inl at ↦
        let same : k ≡ j = (==_iff k j).0 at in
        let passes : p k v ≡ p j v = ap (λ i. p i v) same in
        let missing : lookup j (keep_entries p m) ≡ none =
          ap (λ i. lookup i (keep_entries p m)) (sym same) ∙ none-keep k m d.0 in
        ground (arith, at, passes, missing)
    | inr other ↦ ground (arith, other, lookup-chosen j m d.1)
  ]

listed-keys_of : {V : Type 0} (j : ℕ) (m : Dict V) → listed j (keys_of m) ≡ is_some (lookup j m)
unfolding lookup
listed-keys_of j [] = refl
listed-keys_of j ((k, v) ∷ m) = ground (arith, listed-keys_of j m)

pub given-omit_empty : (ks : List ℕ) → given (omit_empty ks) ≡ ks
given-omit_empty [] = refl
given-omit_empty (k ∷ ks) = refl

module _ {A : Type 0} where
  abbrev pub ts_of : Option (Vessel A) → Option A
  ts_of none = none
  ts_of (some v) = some v.ts

  pub lookup-ts_map : (j : ℕ) (m : Dict (Vessel A)) → lookup j (ts_map m) ≡ ts_of (lookup j m)
  unfolding lookup ts_map
  lookup-ts_map j [] = refl
  lookup-ts_map j ((k, v) ∷ m) = ground (arith, lookup-ts_map j m)

  pub ts_map-IsDistinct : (m : Dict (Vessel A)) → IsDistinct m → IsDistinct (ts_map m)
  unfolding IsDistinct ts_map
  ts_map-IsDistinct [] d = tt
  ts_map-IsDistinct ((k, v) ∷ m) d = (lookup-ts_map k m ∙ ap ts_of d.0, ts_map-IsDistinct m d.1)

module _ {A : Type 0} (n : Number A) where
  -- The client has a vessel exactly if the server has, and it is no older than the server's.
  abbrev pub held : Option A → Option (Vessel A) → Bool
  held none none = true
  held none (some v) = false
  held (some t) none = false
  held (some t) (some v) = n.le t v.ts

  -- What becomes of one vessel, by what was sent last of it, what the cache has and what the client has.
  abbrev pub next_of : Option A → Option (Vessel A) → Option (Vessel A) → Option (Vessel A)
  next_of last none c = if is_some last then none else c
  next_of last (some v) c = if is_newer n last v.ts then some v else c

  pub held-next_of :
      IsOrdered n
      → (last : Option A) (p c : Option (Vessel A)) → held last c ≡ true
      → held (ts_of p) (next_of last p c) ≡ true
  held-next_of o none none none h = refl
  held-next_of o none none (some w) h = absurd (ground (arith, h))
  held-next_of o (some t) none c h = refl
  held-next_of o none (some v) c h = o.le_refl v.ts
  held-next_of o (some t) (some v) none h = absurd (ground (arith, h))
  held-next_of o (some t) (some v) (some w) h = elim (Bool-cases (n.lt t v.ts)) [
    | inl newer ↦ rw newer (o.le_refl v.ts)
    | inr older ↦
        let back : n.le v.ts t ≡ true = ground (arith, o.lt_not_le t v.ts, older) in
        rw older (o.le_trans v.ts t w.ts back h)
  ]

  abbrev sent_of : Option A → Option (Vessel A) → Option (Vessel A)
  sent_of last none = none
  sent_of last (some v) = if is_newer n last v.ts then some v else none

  abbrev out_of : Option (Vessel A) → Option A → Option A
  out_of p none = none
  out_of p (some t) = if not (is_some (ts_of p)) then some t else none

  chosen-sent_of :
      (j : ℕ) (last : Dict A) (p : Option (Vessel A))
      → chosen (λ k v. is_newer n (lookup k last) v.ts) j p ≡ sent_of (lookup j last) p
  chosen-sent_of j last none = refl
  chosen-sent_of j last (some v) = refl

  chosen-out_of :
      (j : ℕ) (positions : Dict (Vessel A)) (last : Option A)
      → chosen (λ k t. not (is_some (lookup k (ts_map positions)))) j last
        ≡ out_of (lookup j positions) last
  chosen-out_of j positions none = refl
  chosen-out_of j positions (some t) =
      ap (λ o. if not (is_some o) then some t else none) (lookup-ts_map j positions)

  merged :
      (last : Option A) (p c : Option (Vessel A))
      → (if is_some (out_of p last) then none else or_else (sent_of last p) c) ≡ next_of last p c
  merged none none c = refl
  merged (some t) none c = refl
  merged none (some v) c = refl
  merged (some t) (some v) c = elim (Bool-cases (n.lt t v.ts)) [
    | inl newer ↦ rw newer refl
    | inr older ↦ rw older refl
  ]

  -- What a delta of the server makes of a vessel of the client.
  pub delta-next_of :
      (j : ℕ) (last : Dict A) (positions m : Dict (Vessel A))
      → IsDistinct last
      → IsDistinct positions
      → expected delta (changed_since n last positions) (gone_from last (ts_map positions)) j m
        ≡ next_of (lookup j last) (lookup j positions) (lookup j m)
  unfolding changed_since gone_from
  delta-next_of j last positions m d e =
      let newer : ℕ → Vessel A → Bool = λ k v. is_newer n (lookup k last) v.ts in
      let lost : ℕ → A → Bool = λ k t. not (is_some (lookup k (ts_map positions))) in
      let sent = lookup-chosen newer j positions e ∙ chosen-sent_of j last (lookup j positions) in
      let out =
        listed-keys_of j (keep_entries lost last)
        ∙ ap is_some (lookup-chosen lost j last d ∙ chosen-out_of j positions (lookup j last)) in
      ap (λ b. if b then none else or_else (lookup j (keep_entries newer positions)) (lookup j m))
        out
      ∙ ap
          (λ o.
            if is_some (out_of (lookup j positions) (lookup j last))
            then none
            else or_else o (lookup j m))
          sent
      ∙ merged (lookup j last) (lookup j positions) (lookup j m)
