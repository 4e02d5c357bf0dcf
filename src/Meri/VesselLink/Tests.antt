-- ===== src/Meri/VesselLink/Tests.antt =====
-- A browser whose addresses are the parameters and the hash, and the link of a ship in it.
use fintraffic.Base.{◌≡◌, refl, [], Option, none, some, arith, if◌then◌else◌}
use fintraffic.Shared.Ids.{Text, chars, text_eq}
use fintraffic.Shared.Ids.RoundTrip.{text_eq_refl}
use fintraffic.Meri.VesselLink.{
  UrlApi, vessel_param, digits_of, parse_vessel_param, initial_linked_vessel, with_vessel_param,
  is_nine_digits, number_from,
}
use fintraffic.Meri.VesselLink.Opened.{IsUrlApi, opens_mirrored}

abbrev Address : Type 0
Address = (Text → Option Text) × Text

abbrev browser : UrlApi Address Address
browser = record {
  new_url = λ href. href;
  to_string = λ url. url;
  get = λ name url. url.0 name;
  set = λ name value url. (λ k. if text_eq k name then some value else url.0 k, url.1);
  delete = λ name url. (λ k. if text_eq k name then none else url.0 k, url.1);
  without_hash = λ url. (url.0, []);
  trim = λ x. x;
}

browser-IsUrlApi : IsUrlApi browser
browser-IsUrlApi = record {
  read_back = λ u. refl;
  get_set = λ name value u. rw (text_eq_refl name) refl;
  get_delete = λ name u. rw (text_eq_refl name) refl;
  get_without_hash = λ name u. refl;
  trim_digits = λ x e. refl;
}

abbrev page : Text → Address
page raw = (λ k. if text_eq k vessel_param then some raw else none, chars "top")

opens_mirrored_example :
    initial_linked_vessel browser (with_vessel_param browser (page (chars "1")) (some 230_123_456))
    ≡ some 230_123_456
opens_mirrored_example =
    opens_mirrored browser browser-IsUrlApi (page (chars "1")) (some 230_123_456)
      (ground arith, ground arith)

-- A parameter with a leading zero opens the page for a number of eight digits, and the address that
-- mirrors this number opens it for none.
opens_leading_zero : initial_linked_vessel browser (page (chars "012345678")) ≡ some 12_345_678
unfolding initial_linked_vessel parse_vessel_param is_nine_digits number_from text_eq
opens_leading_zero = refl

loses_leading_zero :
    initial_linked_vessel browser (with_vessel_param browser (page []) (some 12_345_678)) ≡ none
unfolding initial_linked_vessel parse_vessel_param is_nine_digits number_from text_eq
    with_vessel_param digits_of
loses_leading_zero = refl
