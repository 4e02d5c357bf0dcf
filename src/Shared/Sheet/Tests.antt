-- ===== src/Shared/Sheet/Tests.antt =====
-- A second selection while browsing.
use fintraffic.Base.{◌≡◌, refl, none, some, [], ◌∷◌}
use fintraffic.Shared.Sheet.{
  Sheet, renders, shows_browse, detail, initial, run, step, render, show_browse,
}

abbrev sheet : Sheet
sheet = run (initial none) (renders (some 1) ∷ shows_browse ∷ [])

second : (run sheet (renders (some 2) ∷ [])).view ≡ detail
unfolding run step render show_browse initial
second = refl
