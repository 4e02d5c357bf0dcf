-- ===== src/Shared/Sheet/Views.antt =====
-- The two bodies of the sheet take turns.
use fintraffic.Base.{ℕ, ◌≡◌, refl, true, false, not, ◌||◌, some, arith, if_cases}
use fintraffic.Shared.Sheet.{Sheet, is_browse, same_key, render, browse_open, detail_open}

-- On a phone with something selected exactly one body is open, on a wide screen both are; and
-- a render with a key other than the last one leaves the detail open on a phone, whatever was shown.
pub browse-detail :
    (s : Sheet) (key : ℕ)
    → (browse_open true (some key) s ≡ not (detail_open true s))
      × ((browse_open false (some key) s ≡ true) × (detail_open false s ≡ true))
      × (same_key (some key) s.last_key ≡ false → detail_open true (render (some key) s) ≡ true)
unfolding browse_open detail_open render
browse-detail s key = (
  ground arith,
  (refl, refl),
  λ e.
      if_cases (λ (t : Sheet). (not true || not (is_browse t.view)) ≡ true)
        (same_key (some key) s.last_key) (λ f. absurd (ground (arith, e, f))) (λ f. refl),
)
