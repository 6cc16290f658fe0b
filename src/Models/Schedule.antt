-- ===== src/Models/Schedule.antt =====
-- internal/models/schedule.go: recurring weekly time windows.
pub mod Clock
pub mod Normal
pub mod Week
use gowebfilter.Base.{
  ℕ, zero, suc, ◌+◌, ◌-◌, ◌*◌, ◌/◌, ◌%◌, ◌^◌, ◌≤◌, ◌<◌, ◌≡◌, refl, sym, ap, ap₂, ◌∙◌, subst, ◌≢◌,
  ◌↔◌, ◌⊎◌, inl, inr, Bool, true, false, ◌&&◌, ◌||◌, not, Option, none, some, List, [], ◌∷◌, ◌++◌,
  map, append-nil, append_assoc, arith, ltb, leb, ◌==◌, if◌then◌else◌, ltb→lt, lt→ltb, leb→le,
  ==_iff, Bool-cases, Option-cases, or_else, none≢some, some_injective, length, length-append, take,
  drop, Bytes, codes, bytes_eq, bytes_eq_iff, bytes_eq_refl, cut_prefix, cut_prefix-some,
  cut_prefix-append, is_some, has_prefix, trim_prefix, has_suffix, EndsIn, has_suffix_iff, has_byte,
  cut_byte, is_space, trim_space, to_lower, lower_byte, split_byte, contains, is_empty, ℤ, pos,
  negsuc, atoi, atoi_two, itoa, itoa_digit, IsDigit, is_digit, Within, Any, any_of, any_of_iff,
}

-- `days` is none for Go's nil slice.
pub record TimeWindow : Type 0 where
  pub days : Option (List ℤ)
  pub start : Bytes
  pub end : Bytes

pub record ScheduleConfig : Type 0 where
  pub enabled : Bool
  pub active_windows : List TimeWindow

-- What the code reads of a time.Time: the weekday with Sunday 0, the hour and the minute.
pub record Time : Type 0 where
  pub weekday : ℕ
  pub hour : ℕ
  pub minute : ℕ

abbrev pub default_days : List ℤ
default_days = pos 0 ∷ pos 1 ∷ pos 2 ∷ pos 3 ∷ pos 4 ∷ pos 5 ∷ pos 6 ∷ []

abbrev pub default_time_window : TimeWindow
default_time_window = record {
  days = some default_days;
  start = codes "00:00";
  end = codes "23:59";
}

-- `((d%7)+7)%7`, where Go's remainder takes the sign of `d`.
unfoldable pub wrap_day : ℤ → ℕ
wrap_day (pos n) = (n % 7 + 7) % 7
wrap_day (negsuc n) = (7 - (n + 1) % 7) % 7

unfoldable pub normalize_days : List ℤ → List ℕ
normalize_days [] = []
normalize_days (d ∷ days) = wrap_day d ∷ normalize_days days

-- The digits that `parseHHMM` prints for an hour and a minute.
unfoldable pub hhmm : ℕ → ℕ → Bytes
hhmm h m = itoa (h / 10) ++ (itoa (h % 10) ++ (codes ":" ++ (itoa (m / 10) ++ itoa (m % 10))))

-- The range test, on the two converted parts.
unfoldable pub clock_time : Option ℤ → Option ℤ → Option Bytes
clock_time (some (pos h)) (some (pos m)) = if leb h 23 && leb m 59 then some (hhmm h m) else none
clock_time _ _ = none

-- The two parts of the split at the first colon, if there are two.
abbrev pub two_parts : Bytes → Option Bytes → Option Bytes
two_parts h none = none
two_parts h (some m) = clock_time (atoi h) (atoi m)

unfoldable pub parse_hhmm : Bytes → Option Bytes
parse_hhmm v = two_parts (cut_byte b':' v).0 (cut_byte b':' v).1

unfoldable pub or_default : Bytes → Bytes → Bytes
or_default [] def = def
or_default (c ∷ v) def = c ∷ v

abbrev pub int_or_zero : Option ℤ → ℕ
int_or_zero (some (pos n)) = n
int_or_zero (some (negsuc n)) = 0
int_or_zero none = 0

-- `splitHHMM` is called on the results of `parseHHMM` and on the two default times, which all have
-- a colon and no sign; the missing part and the negative number are 0 here.
unfoldable pub split_hhmm : Bytes → ℕ × ℕ
split_hhmm v =
    (int_or_zero (atoi (cut_byte b':' v).0), int_or_zero (atoi (or_else (cut_byte b':' v).1 [])))

-- The minute of the day that a window's text stands for.
unfoldable pub minute_of : Bytes → Bytes → ℕ
minute_of v def =
    let text : Bytes = or_else (parse_hhmm (or_default v def)) def in
    (split_hhmm text).0 * 60 + (split_hhmm text).1

abbrev pub days_of : TimeWindow → List ℕ
days_of w = normalize_days (or_else w.days default_days)

unfoldable pub contains_day : List ℕ → ℕ → Bool
contains_day days weekday = any_of (λ d. d == weekday) days

-- One round of the loop of `IsActiveAt`: the days and minutes of a window against a weekday with
-- Monday 0 and a minute of the day.
unfoldable pub covers : List ℕ → ℕ → ℕ → ℕ → ℕ → Bool
covers days start_min end_min weekday hm =
    if leb start_min end_min
    then contains_day days weekday && (leb start_min hm && leb hm end_min)
    else (contains_day days weekday && leb start_min hm)
      || (contains_day days ((weekday + 6) % 7) && leb hm end_min)

abbrev pub window_covers : ℕ → ℕ → TimeWindow → Bool
window_covers weekday hm w =
    covers (days_of w) (minute_of w.start (codes "00:00")) (minute_of w.end (codes "23:59")) weekday
      hm

unfoldable pub is_active_at : ScheduleConfig → Time → Bool
is_active_at s now =
    if not s.enabled || is_empty s.active_windows
    then true
    else any_of (window_covers ((now.weekday + 6) % 7) (now.hour * 60 + now.minute))
        s.active_windows

abbrev pub normal_text : Bytes → Bytes → Bytes
normal_text v def = or_else (parse_hhmm v) (or_default v def)

abbrev pub normal_days : Option (List ℤ) → List ℤ
normal_days none = default_days
normal_days (some days) = map pos (normalize_days days)

-- TimeWindow.Normalize
unfoldable pub normalize : TimeWindow → TimeWindow
normalize w = record {
  days = some (normal_days w.days);
  start = normal_text w.start (codes "00:00");
  end = normal_text w.end (codes "23:59");
}
