-- ===== src/Collection/Window.antt =====
-- `AnalysisWindow` of julius/collection/window.py, without its calendar months and labels. A moment is
-- the microseconds since the first day of year 1 in UTC, below which `datetime` raises OverflowError.
use julius.Common.{
  ℕ, zero, suc, ◌+◌, ◌-◌, ◌*◌, ◌%◌, ◌≤◌, ◌<◌, min, max, Bool, true, false, ◌&&◌, ◌≡◌, refl, sym,
  subst, Option, none, some, leb, ltb, if◌then◌else◌, arith, Bool-cases, inl, inr,
}

abbrev pub day : ℕ
day = 86400000000

pub record AnalysisWindow : Type 0 where
  pub start : ℕ
  pub end : ℕ
  pub days : ℕ

-- end - timedelta(days=days)
abbrev pub days_before : ℕ → ℕ → Option ℕ
days_before days end = if leb (days * day) end then some (end - days * day) else none

abbrev pub window_from : ℕ → ℕ → Option ℕ → Option AnalysisWindow
window_from days end none = none
window_from days end (some start) = some (record { start = start; end = end; days = days })

-- `trailing`, from the moment of the call
unfoldable pub trailing : ℕ → ℕ → Option AnalysisWindow
trailing days now = let end = now - now % day in window_from days end (days_before days end)

-- max_days is None or max_days >= self.days
abbrev pub is_short : Option ℕ → AnalysisWindow → Bool
is_short none w = true
is_short (some max_days) w = leb w.days max_days

abbrev pub limit_of : Option ℕ → ℕ
limit_of none = 0
limit_of (some n) = n

unfoldable pub capped : Option ℕ → AnalysisWindow → Option AnalysisWindow
capped max_days w =
    if is_short max_days w
    then some w
    else window_from (limit_of max_days) w.end (days_before (limit_of max_days) w.end)

-- `none` is a moment that is no datetime.
unfoldable pub contains : Option ℕ → AnalysisWindow → Bool
contains none w = false
contains (some moment) w = leb w.start moment && ltb moment w.end

-- utc_now(completed) if isinstance(completed, datetime) else self.end
abbrev pub finish_of : Option ℕ → AnalysisWindow → ℕ
finish_of none w = w.end
finish_of (some completed) w = completed

-- In microseconds. Subtraction on ℕ is max(0, …).
unfoldable pub overlap : Option ℕ → Option ℕ → AnalysisWindow → ℕ
overlap none completed w = 0
overlap (some started) completed w = min (finish_of completed w) w.end - max started w.start

-- A window of whole days.
pub record IsWindow (w : AnalysisWindow) : Type 0 where
  pub whole : w.end ≡ w.start + w.days * day

from-IsWindow :
    (days end : ℕ) (v : AnalysisWindow)
    → window_from days end (days_before days end) ≡ some v
    → IsWindow v × (v.end ≡ end) × (v.days ≡ days)
from-IsWindow days end v h = elim (Bool-cases (leb (days * day) end)) [
  | inr e ↦ absurd (ground (arith, e, h))
  | inl e ↦
      let same : record { start = end - days * day; end = end; days = days } ≡ v =
        ground (arith, e, h) in
      subst (λ x. IsWindow x × (x.end ≡ end) × (x.days ≡ days)) same
        (record { whole = ground (arith, e) }, refl, refl)
]

midnight : (now : ℕ) → (now - now % day) % day ≡ 0
midnight now = omega arith

-- A trailing window holds the days asked for and ends at the last midnight: at a whole number of
-- days, not behind the moment of the call, and less than a day before it.
pub trailing-IsWindow :
    (days now : ℕ) (w : AnalysisWindow)
    → trailing days now ≡ some w
    → IsWindow w × (w.days ≡ days) × (w.end % day ≡ 0) × (w.end ≤ now) × (now < w.end + day)
unfolding trailing
trailing-IsWindow days now w h =
    let (good, end, asked) = from-IsWindow days (now - now % day) w h in
    (good, asked, rw end (midnight now), ground (arith, end), ground (arith, end))

shorter :
    (max_days : Option ℕ) (w : AnalysisWindow)
    → is_short max_days w ≡ false
    → limit_of max_days ≤ w.days
shorter none w h = omega arith
shorter (some n) w h = ground (arith, h)

-- Whatever limit a source has, the capped window ends where the window ended, starts no earlier,
-- and its length is still its number of days, which is the smaller of the two.
pub capped-IsWindow :
    (max_days : Option ℕ) (w v : AnalysisWindow)
    → IsWindow w
    → capped max_days w ≡ some v
    → IsWindow v
      × (v.end ≡ w.end)
      × (w.start ≤ v.start)
      × (v.days ≡ (if is_short max_days w then w.days else limit_of max_days))
unfolding capped
capped-IsWindow max_days w v good h = elim (Bool-cases (is_short max_days w)) [
  | inl e ↦
      let same : w ≡ v = ground (arith, e, h) in
      rw e (
        subst (λ x. IsWindow x × (x.end ≡ w.end) × (w.start ≤ x.start) × (x.days ≡ w.days)) same
          (good, refl, omega arith, refl))
  | inr e ↦
      let cut : window_from (limit_of max_days) w.end (days_before (limit_of max_days) w.end)
          ≡ some v =
        rw (capped, e) at h in
      let (whole, end, days) = from-IsWindow (limit_of max_days) w.end v cut in
      let fewer : limit_of max_days ≤ w.days = shorter max_days w e in
      rw e (whole, end, omega (arith, whole.whole, good.whole, end, days, fewer), days)
]

-- The moments below `n` that satisfy a test, counted one by one.
unfoldable pub count_moments : (ℕ → Bool) → ℕ → ℕ
count_moments p zero = 0
count_moments p (suc n) = count_moments p n + (if p n then 1 else 0)

-- An execution that has no known end is still running.
abbrev pub is_before : Option ℕ → ℕ → Bool
is_before none t = true
is_before (some completed) t = ltb t completed

-- An execution whose start is no datetime never runs.
abbrev pub is_running_at : Option ℕ → Option ℕ → ℕ → Bool
is_running_at none completed t = false
is_running_at (some started) completed t = leb started t && is_before completed t

count-none : (n : ℕ) (w : AnalysisWindow) → count_moments (λ t. contains (some t) w && false) n ≡ 0
unfolding count_moments
count-none zero w = refl
count-none (suc n) w = ground (arith, count-none n w)

count-some :
    (started : ℕ) (completed : Option ℕ) (w : AnalysisWindow) (n : ℕ)
    → n ≤ w.end
    → count_moments (λ t. contains (some t) w && is_running_at (some started) completed t) n
      ≡ min (finish_of completed w) n - max started w.start
unfolding count_moments contains
count-some started completed w zero h = ground arith
count-some started none w (suc n) h = ground (arith, count-some started none w n (omega (arith, h)))
count-some started (some f) w (suc n) h =
    ground (arith, count-some started (some f) w n (omega (arith, h)))

-- The overlap of an execution with a window is the number of moments that the window contains and at
-- which the execution runs: from its start on, up to its end, or with no end if none is known; and
-- none if it has no start.
pub overlap-contains :
    (started completed : Option ℕ) (w : AnalysisWindow)
    → overlap started completed w
      ≡ count_moments (λ t. contains (some t) w && is_running_at started completed t) w.end
unfolding overlap
overlap-contains none completed w = sym (count-none w.end w)
overlap-contains (some started) completed w =
    sym (count-some started completed w w.end (omega arith))
