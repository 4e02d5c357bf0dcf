-- ===== src/Meri/VesselLink/Opened.antt =====
-- A page that is opened at the mirrored address or at a shared link is opened for the vessel.
use native.Mathlib.Nat.{pow-succ'}
use fintraffic.Base.{
  ℕ, zero, suc, ◌+◌, ◌-◌, ◌*◌, ◌/◌, ◌%◌, ◌^◌, ◌≤◌, ◌<◌, ◌≡◌, refl, ap, ◌∙◌, true, false, ◌&&◌, [],
  ◌∷◌, ◌++◌, Option, none, some, all, length, arith, ltb, Bool-cases, inl, inr,
}
use fintraffic.Shared.Ids.{Text}
use fintraffic.Meri.VesselLink.{
  UrlApi, vessel_param, is_digit, is_nine_digits, number_from, digits_of, string_of, parse_raw,
  parse_vessel_param, initial_linked_vessel, with_vessel_param, vessel_link,
}

-- What the URL standard says of these operations; digits are not trimmed.
pub record IsUrlApi {H U : Type 0} (api : UrlApi H U) : Type 0 where
  pub read_back : (u : U) → api.new_url (api.to_string u) ≡ u
  pub get_set : (name value : Text) (u : U) → api.get name (api.set name value u) ≡ some value
  pub get_delete : (name : Text) (u : U) → api.get name (api.delete name u) ≡ none
  pub get_without_hash : (name : Text) (u : U) → api.get name (api.without_hash u) ≡ api.get name u
  pub trim_digits : (x : Text) → all is_digit x ≡ true → api.trim x ≡ x

number_from-append :
    (n : ℕ) (x : Text) (c : ℕ) → number_from n (x ++ (c ∷ [])) ≡ 10 * number_from n x + (c - b'0')
unfolding number_from
number_from-append n [] c = refl
number_from-append n (d ∷ x) c = number_from-append (10 * n + (d - b'0')) x c

length-append : (x : Text) (c : ℕ) → length (x ++ (c ∷ [])) ≡ length x + 1
length-append [] c = refl
length-append (d ∷ x) c = ground (arith, length-append x c)

all-append : (x : Text) (c : ℕ) → all is_digit (x ++ (c ∷ [])) ≡ (all is_digit x && is_digit c)
all-append [] c = ground arith
all-append (d ∷ x) c = ground (arith, all-append x c)

last_digit : (n : ℕ) → is_digit (b'0' + n % 10) ≡ true
last_digit n = ground arith

pow_pos : (k : ℕ) → 1 ≤ 10 ^ k
pow_pos zero = ground arith
pow_pos (suc k) = ground (arith, pow_pos k, pow-succ' 10 k)

digits-number : (fuel n : ℕ) → n < 10 ^ suc fuel → number_from 0 (digits_of fuel n) ≡ n
unfolding digits_of number_from
digits-number zero n h = ground (arith, h)
digits-number (suc fuel) n h = elim (Bool-cases (ltb n 10)) [
  | inl small ↦ rw small (ground arith)
  | inr large ↦
      let before = digits-number fuel (n / 10) (ground (arith, h, pow-succ' 10 (suc fuel))) in
      let joined = number_from-append 0 (digits_of fuel (n / 10)) (b'0' + n % 10) in
      rw large (ground (arith, before, joined))
]

digits-all : (fuel n : ℕ) → all is_digit (digits_of fuel n) ≡ true
unfolding digits_of
digits-all zero n = ground (arith, last_digit n)
digits-all (suc fuel) n = elim (Bool-cases (ltb n 10)) [
  | inl small ↦ rw small (ground (arith, small))
  | inr large ↦
      let before = digits-all fuel (n / 10) in
      let joined = all-append (digits_of fuel (n / 10)) (b'0' + n % 10) in
      rw large (ground (arith, before, joined, last_digit n))
]

digits-length :
    (k fuel n : ℕ) → k ≤ fuel → 10 ^ k ≤ n → n < 10 ^ suc k → length (digits_of fuel n) ≡ suc k
unfolding digits_of
digits-length zero zero n le low high = refl
digits-length zero (suc fuel) n le low high =
    let small : ltb n 10 ≡ true = ground (arith, high) in rw small refl
digits-length (suc k) zero n le low high = absurd (ground (arith, le))
digits-length (suc k) (suc fuel) n le low high =
    let large : ltb n 10 ≡ false = ground (arith, low, pow-succ' 10 k, pow_pos k) in
    let before =
      digits-length k fuel (n / 10) (ground (arith, le)) (ground (arith, low, pow-succ' 10 k))
        (ground (arith, high, pow-succ' 10 (suc k))) in
    let joined = length-append (digits_of fuel (n / 10)) (b'0' + n % 10) in
    rw large (ground (arith, before, joined))

-- An MMSI has nine digits.
abbrev pub IsMmsi : Option ℕ → Type 0
IsMmsi none = Unit
IsMmsi (some mmsi) = (100_000_000 ≤ mmsi) × (mmsi < 1_000_000_000)

module _ {H U : Type 0} (api : UrlApi H U) (laws : IsUrlApi api) where
  open api use {new_url, to_string, get, set, delete, without_hash, trim}
  open laws use {read_back, get_set, get_delete, get_without_hash, trim_digits}

  parse-nine :
      (x : Text) (mmsi : ℕ)
      → is_nine_digits x ≡ true
      → all is_digit x ≡ true
      → number_from 0 x ≡ mmsi
      → parse_raw api (some x) ≡ some mmsi
  unfolding is_nine_digits
  parse-nine [] mmsi nine digits value = absurd (ground (arith, nine))
  parse-nine (c ∷ x) mmsi nine digits value =
      rw (trim_digits (c ∷ x) digits) (rw nine (ap (λ n. some n) value))

  parse-digits :
      (mmsi : ℕ)
      → 100_000_000 ≤ mmsi
      → mmsi < 1_000_000_000
      → parse_raw api (some (string_of mmsi)) ≡ some mmsi
  unfolding is_nine_digits
  parse-digits mmsi low high =
      let digits = digits-all 15 mmsi in
      let long = digits-length 8 15 mmsi (ground arith) low high in
      let nine : is_nine_digits (string_of mmsi) ≡ true = ground (arith, digits, long) in
      parse-nine (string_of mmsi) mmsi nine digits (digits-number 15 mmsi (ground (arith, high)))

  -- With the laws of the browser's addresses, the address that mirrors the selection of a vessel whose
  -- MMSI has nine digits opens the page for that vessel, and the one that mirrors no selection for
  -- none, whatever the address was before.
  pub opens_mirrored :
      (href : H) (selected : Option ℕ)
      → IsMmsi selected
      → initial_linked_vessel api (with_vessel_param api href selected) ≡ selected
  unfolding initial_linked_vessel parse_vessel_param with_vessel_param
  opens_mirrored href none h =
      ap (λ u. parse_raw api (get vessel_param u)) (read_back (delete vessel_param (new_url href)))
      ∙ ap (λ raw. parse_raw api raw) (get_delete vessel_param (new_url href))
  opens_mirrored href (some mmsi) (low, high) =
      ap (λ u. parse_raw api (get vessel_param u))
        (read_back (set vessel_param (string_of mmsi) (new_url href)))
      ∙ (ap (λ raw. parse_raw api raw) (get_set vessel_param (string_of mmsi) (new_url href))
          ∙ parse-digits mmsi low high)

  -- So does the link that is shared.
  pub opens_shared :
      (href : H) (mmsi : ℕ)
      → IsMmsi (some mmsi)
      → initial_linked_vessel api (vessel_link api href mmsi) ≡ some mmsi
  unfolding initial_linked_vessel parse_vessel_param vessel_link
  opens_shared href mmsi h =
      let mirrored = with_vessel_param api href (some mmsi) in
      ap (λ u. parse_raw api (get vessel_param u)) (read_back (without_hash (new_url mirrored)))
      ∙ (ap (λ raw. parse_raw api raw) (get_without_hash vessel_param (new_url mirrored))
          ∙ opens_mirrored href (some mmsi) h)
