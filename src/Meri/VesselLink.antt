-- ===== src/Meri/VesselLink.antt =====
-- Direct links to a vessel: lib/vesselLink.ts. `UrlApi` stands for the browser's URL and
-- URLSearchParams and for `trim`: `H` is the type of the addresses as strings, `U` that of the URLs.
pub mod Opened
mod Tests
use fintraffic.Base.{
  ℕ, zero, suc, ◌+◌, ◌-◌, ◌*◌, ◌/◌, ◌%◌, Bool, true, false, ◌&&◌, List, [], ◌∷◌, ◌++◌, Option, none,
  some, all, length, ltb, leb, ◌==◌, if◌then◌else◌,
}
use fintraffic.Shared.Ids.{Text, chars}

pub record UrlApi (H U : Type 0) : Type 0 where
  pub new_url : H → U
  pub to_string : U → H
  -- `new URLSearchParams(url.search).get(name)`, and `set` and `delete` of `url.searchParams`.
  pub get : Text → U → Option Text
  pub set : Text → Text → U → U
  pub delete : Text → U → U
  pub without_hash : U → U
  pub trim : Text → Text

abbrev pub vessel_param : Text
vessel_param = chars "vessel"

abbrev pub is_digit : ℕ → Bool
is_digit c = leb b'0' c && leb c b'9'

-- The test of `/^\d{9}$/`.
unfoldable pub is_nine_digits : Text → Bool
is_nine_digits x = (length x == 9) && all is_digit x

-- `Number` on digits.
unfoldable pub number_from : ℕ → Text → ℕ
number_from n [] = n
number_from n (c ∷ x) = number_from (10 * n + (c - b'0')) x

-- `String` on an integer, its digits from the back; the fuel is one less than their largest number.
unfoldable pub digits_of : ℕ → ℕ → Text
digits_of zero n = (b'0' + n % 10) ∷ []
digits_of (suc fuel) n =
    let before = digits_of fuel (n / 10) in
    if ltb n 10 then (b'0' + n) ∷ [] else before ++ ((b'0' + n % 10) ∷ [])

-- No MMSI has more digits than these.
abbrev pub string_of : ℕ → Text
string_of mmsi = digits_of 15 mmsi

module _ {H U : Type 0} (api : UrlApi H U) where
  open api use {new_url, to_string, get, set, delete, without_hash, trim}

  abbrev pub parse_raw : Option Text → Option ℕ
  parse_raw none = none
  parse_raw (some []) = none
  parse_raw (some (c ∷ raw)) =
      let trimmed = trim (c ∷ raw) in
      if is_nine_digits trimmed then some (number_from 0 trimmed) else none

  unfoldable pub parse_vessel_param : U → Option ℕ
  unfolding is_nine_digits number_from
  parse_vessel_param url = parse_raw (get vessel_param url)

  -- The vessel that the page is opened for at an address.
  unfoldable pub initial_linked_vessel : H → Option ℕ
  unfolding parse_vessel_param
  initial_linked_vessel href = parse_vessel_param (new_url href)

  unfoldable pub with_vessel_param : H → Option ℕ → H
  unfolding digits_of
  with_vessel_param href none = to_string (delete vessel_param (new_url href))
  with_vessel_param href (some mmsi) = to_string (set vessel_param (string_of mmsi) (new_url href))

  unfoldable pub vessel_link : H → ℕ → H
  unfolding with_vessel_param
  vessel_link href mmsi = to_string (without_hash (new_url (with_vessel_param href (some mmsi))))
