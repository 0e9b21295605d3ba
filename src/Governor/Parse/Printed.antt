-- ===== src/Governor/Parse/Printed.antt =====
-- internal/governor/schedule.go: windows that are printed and parsed.
use flockd.Base.{ℕ, ◌+◌, ◌/◌, ◌%◌, ◌<◌, ◌≡◌, Bool, true, false, List, [], ◌∷◌, ◌++◌, some, arith}
use flockd.Governor.Window.{Window, day_minutes}
use flockd.Governor.Parse.{
  is_space, trim_left, trim_right, trim_space, split2, getnum, parse_hhmm, parse_window,
}

-- A number below 100 in two digits.
abbrev pub two_digits : ℕ → List ℕ → List ℕ
two_digits n s = (b'0' + n / 10) ∷ (b'0' + n % 10) ∷ s

abbrev pub print_hhmm : ℕ → List ℕ → List ℕ
print_hhmm m s = two_digits (m / 60) (b':' ∷ two_digits (m % 60) s)

abbrev pub print_window : Window → List ℕ
print_window w = print_hhmm w.start_min (b'-' ∷ print_hhmm w.end_min [])

getnum-two_digits :
    (fixed : Bool) (n : ℕ) (s : List ℕ) → n < 100 → getnum fixed (two_digits n s) ≡ some (n, s)
unfolding getnum
getnum-two_digits fixed n s h = ground arith

is_space-digit : (n : ℕ) → n < 10 → is_space (b'0' + n) ≡ false
unfolding is_space
is_space-digit n h = ground arith

-- A text that neither begins nor ends with a space is not trimmed.
trim_left-cons : (c : ℕ) (s : List ℕ) → is_space c ≡ false → trim_left (c ∷ s) ≡ c ∷ s
unfolding trim_left
trim_left-cons c s h = rw h

trim_right-snoc : (c : ℕ) (s : List ℕ) → is_space c ≡ false → trim_right (s ++ c ∷ []) ≡ s ++ c ∷ []
unfolding trim_right
trim_right-snoc c [] h = rw h
trim_right-snoc c (d ∷ []) h = rw h
trim_right-snoc c (d ∷ e ∷ s) h = rw (trim_right-snoc c (e ∷ s) h)

split2-print_hhmm :
    (m : ℕ) (s : List ℕ)
    → m < day_minutes
    → split2 b'-' (print_hhmm m (b'-' ∷ s)) ≡ some (print_hhmm m [], s)
unfolding split2
split2-print_hhmm m s h = ground arith

trim_space-print_hhmm : (m : ℕ) → m < day_minutes → trim_space (print_hhmm m []) ≡ print_hhmm m []
unfolding trim_space
trim_space-print_hhmm m h =
    rw (trim_left-cons (b'0' + m / 60 / 10) _ (is_space-digit (m / 60 / 10) (omega arith))) (
      trim_right-snoc (b'0' + m % 60 % 10)
        ((b'0' + m / 60 / 10) ∷ (b'0' + m / 60 % 10) ∷ b':' ∷ (b'0' + m % 60 / 10) ∷ [])
        (is_space-digit (m % 60 % 10) (omega arith)))

parse_hhmm-print_hhmm : (m : ℕ) → m < day_minutes → parse_hhmm (print_hhmm m []) ≡ some m
unfolding parse_hhmm
parse_hhmm-print_hhmm m h =
    rw (trim_space-print_hhmm m h, getnum-two_digits false (m / 60) _ (omega arith))
      (rw (getnum-two_digits true (m % 60) [] (omega arith)) (ground arith))

trim_space-print_window :
    (w : Window)
    → w.start_min < day_minutes
    → w.end_min < day_minutes
    → trim_space (print_window w) ≡ print_window w
unfolding trim_space
trim_space-print_window w h k =
    let a = w.start_min in
    let b = w.end_min in
    rw (trim_left-cons (b'0' + a / 60 / 10) _ (is_space-digit (a / 60 / 10) (omega arith))) (
      trim_right-snoc (b'0' + b % 60 % 10)
        (print_hhmm a
          (b'-' ∷ (b'0' + b / 60 / 10) ∷ (b'0' + b / 60 % 10) ∷ b':' ∷ (b'0' + b % 60 / 10) ∷ []))
        (is_space-digit (b % 60 % 10) (omega arith)))

-- A window of the day, written as "HH:MM-HH:MM", parses to itself.
pub parse-print_window :
    (w : Window)
    → w.start_min < day_minutes
    → w.end_min < day_minutes
    → parse_window (print_window w) ≡ some w
unfolding parse_window
parse-print_window w h k =
    rw (trim_space-print_window w h k, split2-print_hhmm w.start_min (print_hhmm w.end_min []) h)
      (rw (parse_hhmm-print_hhmm w.start_min h, parse_hhmm-print_hhmm w.end_min k))
