-- ===== src/Scheduler/Limiter.antt =====
-- `_AdaptiveLimiter` of julius/collection/scheduler.py, the window of one service, and the tasks
-- that it lets in. A task that waits in `acquire` is one whose step cannot be taken yet.
use julius.Common.{
  ℕ, ◌+◌, ◌-◌, ◌*◌, ◌/◌, ◌≤◌, ◌<◌, max, Bool, true, false, ◌&&◌, ◌≡◌, arith, leb, ltb,
  if◌then◌else◌,
}

pub record Limiter : Type 0 where
  pub maximum : ℕ
  pub limit : ℕ
  pub active : ℕ
  pub healthy : ℕ

-- `__init__`
unfoldable pub limiter : ℕ → Limiter
limiter limit = record { maximum = max 1 limit; limit = max 1 limit; active = 0; healthy = 0 }

-- The predicate of `wait_for`, and what `acquire` does behind it.
abbrev pub has_room : Limiter → Bool
has_room l = ltb l.active l.limit

unfoldable pub acquire : Limiter → Limiter
acquire l = record l { active = l.active + 1 }

-- What `release` does besides its answer.
unfoldable pub release : Bool → Limiter → Limiter
release true l = record l { active = l.active - 1; limit = max 1 (l.limit / 2); healthy = 0 }
release false l =
    if leb 4 (l.healthy + 1) && ltb l.limit l.maximum
    then record l { active = l.active - 1; limit = l.limit + 1; healthy = 0 }
    else record l { active = l.active - 1; healthy = l.healthy + 1 }

-- `self._limit < previous`
unfoldable pub reduced : Bool → Limiter → Bool
unfolding release
reduced throttled l = ltb (release throttled l).limit l.limit

-- What the tasks of `_execute_limited` do with one limiter: one comes in when there is room, and
-- one that came in goes out.
pub data Step : Limiter → Limiter → Type 0 where
  enter : (l : Limiter) → has_room l ≡ true → Step l (acquire l)
  leave : (l : Limiter) (throttled : Bool) → 0 < l.active → Step l (release throttled l)

pub data Steps : Limiter → Limiter → Type 0 where
  here : (l : Limiter) → Steps l l
  next : {l n : Limiter} (m : Limiter) → Step l m → Steps m n → Steps l n

abbrev pub InBounds : ℕ → Limiter → Type 0
InBounds most l = (l.maximum ≡ most) × (1 ≤ l.limit) × (l.limit ≤ most) × (l.active ≤ most)

Step-InBounds : (most : ℕ) (l m : Limiter) → Step l m → InBounds most l → InBounds most m
unfolding acquire release
Step-InBounds most l m (enter _ room) h = ground arith
Step-InBounds most l m (leave _ true busy) h = ground arith
Step-InBounds most l m (leave _ false busy) h = ground arith

Steps-InBounds : (most : ℕ) (l m : Limiter) → Steps l m → InBounds most l → InBounds most m
Steps-InBounds most l m (here _) h = h
Steps-InBounds most l m (next k s p) h = Steps-InBounds most k m p (Step-InBounds most l k s h)

-- However the tasks come and go and whichever of them were throttled, the window of a service
-- stays between one task and the limit that it was made with, and no more tasks than that limit
-- are inside at once.
pub limiter-InBounds :
    (limit : ℕ) (l : Limiter) → Steps (limiter limit) l → InBounds (max 1 limit) l
unfolding limiter
limiter-InBounds limit l p = Steps-InBounds (max 1 limit) (limiter limit) l p (omega arith)

-- A throttled release at least halves a window of two or more and reports that it did; without a
-- throttle a release never narrows the window, widens it by one at most, and reports no reduction.
pub release_adapts :
    (throttled : Bool) (l : Limiter)
    → (throttled ≡ true
        → 2 ≤ l.limit
        → ((release throttled l).limit * 2 ≤ l.limit) × (reduced throttled l ≡ true))
      × (throttled ≡ false
          → (l.limit ≤ (release throttled l).limit)
            × ((release throttled l).limit ≤ l.limit + 1)
            × (reduced throttled l ≡ false))
unfolding release reduced
release_adapts true l = ((λ e h. ground arith), (λ e. ground arith))
release_adapts false l = ((λ e h. ground arith), (λ e. ground arith))
