-- ===== src/Models/Schedule/Week.antt =====
-- When a schedule is active, as intervals of the week.
use gowebfilter.Base.{
  ℕ, ◌+◌, ◌*◌, ◌%◌, ◌≤◌, ◌<◌, ◌≡◌, refl, sym, subst, ◌↔◌, ◌⊎◌, inl, inr, true, false, ◌&&◌, ◌||◌,
  not, List, [], ◌∷◌, arith, leb, ◌==◌, if◌then◌else◌, ==_iff, Bool-cases, Option-cases, Bytes,
  codes, is_empty, ℤ, pos, negsuc, itoa, Within, Any, any_of_iff,
}
use gowebfilter.Models.Schedule.{
  ScheduleConfig, Time, TimeWindow, contains_day, covers, days_of, hhmm, is_active_at, minute_of,
  normalize_days, or_default, parse_hhmm, split_hhmm, window_covers, wrap_day,
}
use gowebfilter.Models.Schedule.Clock.{parse_hhmm_canonical, split-hhmm}

-- `hm` of weekday `wd` lies in the interval that begins at minute `a` of day `d` and ends at the
-- next `b` (of the same day, or of the next one if `b` is the earlier minute), in the week or in
-- the week after. A week has 10080 minutes.
abbrev pub InWeek : ℕ → ℕ → ℕ → ℕ → ℕ → Type 0
InWeek d a b wd hm =
    let now = wd * 1440 + hm in
    let start = d * 1440 + a in
    let stop = (if leb a b then d * 1440 + b else d * 1440 + b + 1440) in
    ((start ≤ now) × (now ≤ stop)) ⊎ ((start ≤ now + 10080) × (now + 10080 ≤ stop))

abbrev pub CoversWeek : List ℕ → ℕ → ℕ → ℕ → ℕ → Type 0
CoversWeek days a b wd hm = Any (λ d. InWeek d a b wd hm) days

contains_day_iff : (days : List ℕ) (wd : ℕ) → (contains_day days wd ≡ true) ↔ Any (λ d. d ≡ wd) days
unfolding contains_day
contains_day_iff days wd = any_of_iff (λ d. d == wd) (λ d. d ≡ wd) (λ d. ==_iff d wd) days

listed : (days : List ℕ) {wd : ℕ} → contains_day days wd ≡ true → Within wd days
listed days {wd} h =
    let (d, w, e) = (contains_day_iff days wd).0 h in subst (λ x. Within x days) e w

found : (days : List ℕ) {d wd : ℕ} → Within d days → d ≡ wd → contains_day days wd ≡ true
found days {d} {wd} w e = (contains_day_iff days wd).1 (d, w, e)

abbrev pub AreDays : List ℕ → Type 0
AreDays days = (d : ℕ) → Within d days → d < 7

module _ (days : List ℕ) (a b wd hm : ℕ) (wd_ok : wd < 7) (hm_ok : hm < 1440) (a_ok : a < 1440)
    (b_ok : b < 1440) (days_ok : AreDays days) where
  same_day : contains_day days wd ≡ true → InWeek wd a b wd hm → CoversWeek days a b wd hm
  same_day h p = (wd, listed days h, p)

  covers→CoversWeek : covers days a b wd hm ≡ true → CoversWeek days a b wd hm
  unfolding covers
  covers→CoversWeek h =
      elim (Bool-cases (contains_day days wd && (leb a hm && (not (leb a b) || leb hm b)))) [
        | inl now_on ↦ (wd, listed days (ground arith), ground arith)
        | inr now_off ↦ ((wd + 6) % 7, listed days (ground arith), ground arith)
      ]

  InWeek-covers :
      (d : ℕ) → Within d days → d < 7 → InWeek d a b wd hm → covers days a b wd hm ≡ true
  unfolding covers
  InWeek-covers d w lt p = elim (Bool-cases (d == wd)) [
    | inl same ↦ ground (arith, found days w ((==_iff d wd).0 same))
    | inr other ↦ ground (arith, found days {wd = (wd + 6) % 7} w)
  ]

  pub covers_iff : (covers days a b wd hm ≡ true) ↔ CoversWeek days a b wd hm
  covers_iff = (covers→CoversWeek, λ (d, w, p). InWeek-covers d w (days_ok d w) p)

wrap_day-lt : (d : ℤ) → wrap_day d < 7
unfolding wrap_day
wrap_day-lt (pos n) = omega arith
wrap_day-lt (negsuc n) = omega arith

pub normalize_days-AreDays : (days : List ℤ) → AreDays (normalize_days days)
unfolding normalize_days
normalize_days-AreDays [] d w = elim w [ ]
normalize_days-AreDays (e ∷ days) d Within.here = wrap_day-lt e
normalize_days-AreDays (e ∷ days) d (Within.there w) = normalize_days-AreDays days d w

-- A default that is itself a clock text.
abbrev pub IsClock : Bytes → Type 0
IsClock def = (h m : ℕ) × (h ≤ 23) × (m ≤ 59) × (def ≡ hhmm h m)

split_lt : (t : Bytes) → IsClock t → (split_hhmm t).0 * 60 + (split_hhmm t).1 < 1440
split_lt t (h, m, p, q, e) =
    subst (λ x. (split_hhmm x).0 * 60 + (split_hhmm x).1 < 1440) (sym e)
      (rw (split-hhmm h m p q) (omega arith))

pub minute_of-lt : (v def : Bytes) → IsClock def → minute_of v def < 1440
unfolding minute_of
minute_of-lt v def c = elim (Option-cases (parse_hhmm (or_default v def))) [
  | inl bad ↦ rw bad (split_lt def c)
  | inr (t, good) ↦
      let (h, m, p, q, e, _, _) = parse_hhmm_canonical _ t good in
      rw good (split_lt t (h, m, p, q, e))
]

pub midnight : IsClock (codes "00:00")
unfolding hhmm itoa
midnight = (0, 0, omega arith, omega arith, refl)

pub last_minute : IsClock (codes "23:59")
unfolding hhmm itoa
last_minute = (23, 59, omega arith, omega arith, refl)

-- The window of the schedule that covers a time, in minutes of the week.
abbrev pub WindowOn : Time → TimeWindow → Type 0
WindowOn now w =
    CoversWeek (days_of w) (minute_of w.start (codes "00:00")) (minute_of w.end (codes "23:59"))
      ((now.weekday + 6) % 7) (now.hour * 60 + now.minute)

is_empty_iff {ℓ} : {A : Type ℓ} (xs : List A) → (is_empty xs ≡ true) ↔ (xs ≡ [])
is_empty_iff [] = (λ _. refl, λ _. refl)
is_empty_iff (x ∷ xs) = (λ h. cc, λ h. cc)

-- At a time of day below 24:00 a schedule is active exactly when it is switched off, has no
-- windows, or has a window one of whose days begins an interval of the week, running to the end
-- time of that day or, for an end before the start, of the next day, in which the time lies. The
-- week is cyclic: a Sunday night runs into Monday.
pub is_active_at_iff :
    (s : ScheduleConfig) (now : Time)
    → now.hour < 24
    → now.minute < 60
    → (is_active_at s now ≡ true)
      ↔ ((s.enabled ≡ false) ⊎ ((s.active_windows ≡ []) ⊎ Any (WindowOn now) s.active_windows))
unfolding is_active_at
is_active_at_iff s now p q =
    let windows =
      any_of_iff (window_covers ((now.weekday + 6) % 7) (now.hour * 60 + now.minute)) (WindowOn now)
        (λ w.
          covers_iff (days_of w) (minute_of w.start (codes "00:00"))
            (minute_of w.end (codes "23:59")) ((now.weekday + 6) % 7) (now.hour * 60 + now.minute)
            (omega arith) (omega arith) (minute_of-lt w.start (codes "00:00") midnight)
            (minute_of-lt w.end (codes "23:59") last_minute) (normalize_days-AreDays _))
        s.active_windows in
    let none_left = is_empty_iff s.active_windows in
    (
      λ h. elim (Bool-cases s.enabled) [
        | inr off ↦ inl off
        | inl on ↦ elim (Bool-cases (is_empty s.active_windows)) [
          | inl e ↦ inr (inl (none_left.0 e))
          | inr e ↦ inr (inr (windows.0 (rw (on, e) at h)))
        ]
      ],
      elim [
        | inl off ↦ rw off
        | inr (inl e) ↦ rw (none_left.1 e) (ground arith)
        | inr (inr a) ↦ rw (windows.1 a) (ground arith)
      ],
    )
