-- ===== src/Governor/Parse.antt =====
-- internal/governor/schedule.go: parsing "HH:MM-HH:MM". Texts are lists of code points. Of Go's
-- standard library it models what the source uses: `strings.TrimSpace`, `strings.SplitN` at the first
-- dash, and `time.Parse` with the layout "15:04".
pub mod Range
pub mod Printed
use flockd.Base.{
  ℕ, ◌+◌, ◌-◌, ◌*◌, ◌/◌, ◌%◌, ◌<◌, ◌≤◌, ◌≡◌, refl, Bool, true, false, ◌&&◌, ◌||◌, List, [], ◌∷◌,
  ◌++◌, Option, none, some, arith, ltb, leb, ◌==◌, if◌then◌else◌, Bool-cases, Option-cases, inl,
  inr,
}
use flockd.Governor.Window.{Window, day_minutes}

-- `unicode.IsSpace`
unfoldable pub is_space : ℕ → Bool
is_space c =
    leb 9 c && leb c 13
    || c == 0x20
    || c == 0x85
    || c == 0xa0
    || c == 0x1680
    || leb 0x2000 c && leb c 0x200a
    || c == 0x2028
    || c == 0x2029
    || c == 0x202f
    || c == 0x205f
    || c == 0x3000

unfoldable pub trim_left : List ℕ → List ℕ
unfolding is_space
trim_left [] = []
trim_left (c ∷ s) = let rest = trim_left s in if is_space c then rest else c ∷ s

abbrev pub drop_if_last_space : ℕ → List ℕ → List ℕ
unfolding is_space
drop_if_last_space c [] = if is_space c then [] else c ∷ []
drop_if_last_space c (d ∷ s) = c ∷ d ∷ s

unfoldable pub trim_right : List ℕ → List ℕ
unfolding is_space
trim_right [] = []
trim_right (c ∷ s) = drop_if_last_space c (trim_right s)

unfoldable pub trim_space : List ℕ → List ℕ
unfolding trim_left trim_right
trim_space s = trim_right (trim_left s)

-- The two parts around the first separator.
unfoldable pub split2 : ℕ → List ℕ → Option (List ℕ × List ℕ)
split2 sep [] = none
split2 sep (c ∷ s) =
    let rest = split2 sep s in
    if c == sep then some ([], s) else elim rest [ none ↦ none | some (a, b) ↦ some (c ∷ a, b) ]

abbrev pub is_digit : ℕ → Bool
is_digit c = leb b'0' c && leb c b'9'

-- `getnum` of package time: one or two digits, exactly two where `fixed`.
unfoldable pub getnum : Bool → List ℕ → Option (ℕ × List ℕ)
getnum fixed [] = none
getnum fixed (c ∷ []) = if is_digit c then (if fixed then none else some (c - b'0', [])) else none
getnum fixed (c ∷ d ∷ s) =
    if is_digit c
    then (if is_digit d
        then some ((c - b'0') * 10 + (d - b'0'), s)
        else if fixed
        then none
        else some (c - b'0', d ∷ s))
    else none

abbrev pub minutes_of : ℕ → Option (ℕ × List ℕ) → Option ℕ
minutes_of h none = none
minutes_of h (some (m, [])) = if ltb m 60 then some (h * 60 + m) else none
minutes_of h (some (m, _ ∷ _)) = none

abbrev pub after_hour : Option (ℕ × List ℕ) → Option ℕ
unfolding getnum
after_hour none = none
after_hour (some (h, [])) = none
after_hour (some (h, c ∷ s)) = if ltb h 24 && c == b':' then minutes_of h (getnum true s) else none

-- The error of `time.Parse` is not told apart.
unfoldable pub parse_hhmm : List ℕ → Option ℕ
unfolding trim_space getnum
parse_hhmm s = after_hour (getnum false (trim_space s))

abbrev pub make_window : Option ℕ → Option ℕ → Option Window
make_window (some a) (some b) = some (record { start_min = a; end_min = b })
make_window _ _ = none

abbrev pub window_of_parts : Option (List ℕ × List ℕ) → Option Window
window_of_parts none = none
window_of_parts (some (a, b)) = make_window (parse_hhmm a) (parse_hhmm b)

unfoldable pub parse_window : List ℕ → Option Window
unfolding trim_space split2 parse_hhmm
parse_window s = window_of_parts (split2 b'-' (trim_space s))

abbrev cons_window : Option Window → Option (List Window) → Option (List Window)
cons_window (some w) (some ws) = some (w ∷ ws)
cons_window _ _ = none

-- The first text that does not parse fails the list.
unfoldable pub parse_windows : List (List ℕ) → Option (List Window)
unfolding parse_window
parse_windows [] = some []
parse_windows (s ∷ ss) = cons_window (parse_window s) (parse_windows ss)
