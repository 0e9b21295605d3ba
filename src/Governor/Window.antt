-- ===== src/Governor/Window.antt =====
-- internal/governor/schedule.go: daily serving windows.
use flockd.Base.{
  ℕ, ◌+◌, ◌-◌, ◌*◌, ◌%◌, ◌<◌, ◌≡◌, Bool, true, false, ◌&&◌, ◌||◌, List, [], ◌∷◌, arith, ltb, leb,
  if◌then◌else◌,
}

pub record Window : Type 0 where
  pub start_min : ℕ
  pub end_min : ℕ

-- A local time of day, as `Time.Hour` and `Time.Minute` give it.
pub record TimeOfDay : Type 0 where
  pub hour : ℕ
  pub minute : ℕ

unfoldable pub contains : Window → TimeOfDay → Bool
contains w t =
    let m = t.hour * 60 + t.minute in
    if leb w.start_min w.end_min
    then leb w.start_min m && ltb m w.end_min
    else leb w.start_min m || ltb m w.end_min

unfoldable pub in_any_window : List Window → TimeOfDay → Bool
unfolding contains
in_any_window [] t = false
in_any_window (w ∷ ws) t = if contains w t then true else in_any_window ws t

abbrev pub day_minutes : ℕ
day_minutes = 1440

-- How far `b` lies behind `a` on the circle of the day's minutes.
abbrev pub clockwise : ℕ → ℕ → ℕ
clockwise a b = (b + day_minutes - a) % day_minutes

-- Membership in a window of the day, an overnight one too: a minute is inside exactly when, going round
-- the clock from the start, it comes before the end.
pub contains-clockwise :
    (w : Window) (t : TimeOfDay)
    → w.start_min < day_minutes
    → w.end_min < day_minutes
    → t.hour < 24
    → t.minute < 60
    → contains w t
      ≡ ltb (clockwise w.start_min (t.hour * 60 + t.minute)) (clockwise w.start_min w.end_min)
unfolding contains
contains-clockwise w t hs he hh hm = ground arith
