-- ===== src/Governor/Parse/Range.antt =====
-- internal/governor/schedule.go: the range of a window that parses.
use flockd.Base.{
  ℕ, ◌<◌, ◌≡◌, true, false, ◌&&◌, List, [], ◌∷◌, Option, none, some, arith, ltb, ◌==◌, Bool-cases,
  Option-cases, inl, inr,
}
use flockd.Governor.Window.{Window, day_minutes}
use flockd.Governor.Parse.{
  trim_space, split2, getnum, minutes_of, after_hour, parse_hhmm, make_window, parse_window,
}

abbrev pub InDay : Option ℕ → Type 0
InDay none = Unit
InDay (some m) = m < day_minutes

minutes_of-InDay : (h : ℕ) (o : Option (ℕ × List ℕ)) → h < 24 → InDay (minutes_of h o)
minutes_of-InDay h none l = tt
minutes_of-InDay h (some (m, [])) l = elim (Bool-cases (ltb m 60)) [
  | inl e ↦ rw e (ground arith)
  | inr e ↦ rw e tt
]
minutes_of-InDay h (some (m, _ ∷ _)) l = tt

after_hour-InDay : (o : Option (ℕ × List ℕ)) → InDay (after_hour o)
unfolding getnum
after_hour-InDay none = tt
after_hour-InDay (some (h, [])) = tt
after_hour-InDay (some (h, c ∷ s)) = elim (Bool-cases (ltb h 24 && c == b':')) [
  | inl e ↦ rw e (minutes_of-InDay h (getnum true s) (ground arith))
  | inr e ↦ rw e tt
]

parse_hhmm-InDay : (s : List ℕ) → InDay (parse_hhmm s)
unfolding parse_hhmm
parse_hhmm-InDay s = after_hour-InDay (getnum false (trim_space s))

make_window-InDay :
    (x y : Option ℕ) (w : Window)
    → InDay x
    → InDay y
    → make_window x y ≡ some w
    → (w.start_min < day_minutes) × (w.end_min < day_minutes)
make_window-InDay (some a) (some b) w p q e = ground arith
make_window-InDay (some a) none w p q e = cc
make_window-InDay none _ w p q e = cc

-- A window that parses lies within the day, at both ends.
pub parse_window-InDay :
    (s : List ℕ) (w : Window)
    → parse_window s ≡ some w
    → (w.start_min < day_minutes) × (w.end_min < day_minutes)
unfolding parse_window
parse_window-InDay s w e = elim (Option-cases (split2 b'-' (trim_space s))) [
  | inl p ↦ cc (rw p at e)
  | inr ((a, b), p) ↦
      make_window-InDay (parse_hhmm a) (parse_hhmm b) w (parse_hhmm-InDay a) (parse_hhmm-InDay b)
        (rw p at e)
]
