-- ===== src/Models/Schedule/Normal.antt =====
-- Normalisation of a window of internal/models/schedule.go.
use gowebfilter.Base.{
  ℕ, ◌+◌, ◌*◌, ◌/◌, ◌%◌, ◌≤◌, ◌≡◌, refl, ap₂, inl, inr, ◌||◌, Option, none, some, List, [], ◌∷◌,
  ◌++◌, map, arith, Option-cases, or_else, Bytes, codes, cut_byte, is_empty, ℤ, pos, negsuc, atoi,
  itoa, itoa_digit, any_of,
}
use gowebfilter.Models.Schedule.{
  ScheduleConfig, Time, TimeWindow, default_days, hhmm, is_active_at, minute_of, normal_days,
  normal_text, normalize, normalize_days, or_default, parse_hhmm, window_covers, wrap_day,
}
use gowebfilter.Models.Schedule.Clock.{parse_hhmm_canonical}

wrap_day-wrap_day : (d : ℤ) → wrap_day (pos (wrap_day d)) ≡ wrap_day d
unfolding wrap_day
wrap_day-wrap_day (pos n) = omega arith
wrap_day-wrap_day (negsuc n) = omega arith

normalize_days_again :
    (days : List ℤ) → normalize_days (map pos (normalize_days days)) ≡ normalize_days days
unfolding normalize_days
normalize_days_again [] = refl
normalize_days_again (d ∷ days) = cc (wrap_day-wrap_day d, normalize_days_again days)

or_default_same : (def : Bytes) → or_default def def ≡ def
unfolding or_default
or_default_same [] = refl
or_default_same (c ∷ def) = refl

parse_hhmm-nil : parse_hhmm [] ≡ none
unfolding parse_hhmm cut_byte atoi
parse_hhmm-nil = refl

or_default-hhmm : (h m : ℕ) (t def : Bytes) → t ≡ hhmm h m → h ≤ 23 → or_default t def ≡ t
unfolding or_default hhmm
or_default-hhmm h m [] def e p = absurd (nil_ne (itoa (h / 10)) _ (omega_parts h p) e)
  where
    nil_ne : (a s : Bytes) → a ≡ (48 + h / 10) ∷ [] → [] ≡ a ++ s → ⊥
    nil_ne [] s e' q = cc
    nil_ne (x ∷ a) s e' q = cc

    omega_parts : (k : ℕ) → k ≤ 23 → itoa (k / 10) ≡ (48 + k / 10) ∷ []
    omega_parts k q = itoa_digit (k / 10) (omega arith)
or_default-hhmm h m (c ∷ t) def e p = refl

-- Normalising a field does not change the minute that it stands for.
minute_of-normal_text : (v def : Bytes) → minute_of (normal_text v def) def ≡ minute_of v def
unfolding minute_of or_default
minute_of-normal_text [] def = rw (parse_hhmm-nil) (rw (or_default_same def) refl)
minute_of-normal_text (c ∷ v) def = elim (Option-cases (parse_hhmm (c ∷ v))) [
  | inl bad ↦ rw bad (rw bad refl)
  | inr (t, good) ↦
      let (h, m, p, q, e, _, again) = parse_hhmm_canonical (c ∷ v) t good in
      rw good (rw (or_default-hhmm h m t def e p, again) refl)
]

days-normalize :
    (d : Option (List ℤ)) → normalize_days (normal_days d) ≡ normalize_days (or_else d default_days)
days-normalize none = refl
days-normalize (some days) = normalize_days_again days

window_covers-normalize :
    (wd hm : ℕ) (w : TimeWindow) → window_covers wd hm (normalize w) ≡ window_covers wd hm w
unfolding normalize
window_covers-normalize wd hm w = rw (
  days-normalize w.days,
  minute_of-normal_text w.start (codes "00:00"),
  minute_of-normal_text w.end (codes "23:59"),
)

any_of-normalize :
    (wd hm : ℕ) (ws : List TimeWindow)
    → any_of (window_covers wd hm) (map normalize ws) ≡ any_of (window_covers wd hm) ws
unfolding any_of
any_of-normalize wd hm [] = refl
any_of-normalize wd hm (w ∷ ws) =
    ap₂ ◌||◌ (window_covers-normalize wd hm w) (any_of-normalize wd hm ws)

is_empty-map {ℓ κ} :
    {A : Type ℓ} {B : Type κ} (f : A → B) (xs : List A) → is_empty (map f xs) ≡ is_empty xs
is_empty-map f [] = refl
is_empty-map f (x ∷ xs) = refl

-- Normalising every window, as loading a policy does, never changes when a schedule is active.
pub is_active_at-normalize :
    (s : ScheduleConfig) (now : Time)
    → is_active_at (record s { active_windows = map normalize s.active_windows }) now
      ≡ is_active_at s now
unfolding is_active_at
is_active_at-normalize s now = rw (
  is_empty-map normalize s.active_windows,
  any_of-normalize ((now.weekday + 6) % 7) (now.hour * 60 + now.minute) s.active_windows,
)
