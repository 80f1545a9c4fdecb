-- ===== src/Ui/Notification/Laws.antt =====
-- How a countdown ends.
use native.Mathlib.Nat.{le-div_iff_mul-le}
use toolkit_inference_mesh.Common.{
  ℕ, ◌≡◌, refl, ◌<◌, ◌≤◌, ◌+◌, arith, List, ◌∷◌, ltb, ◌-◌, ◌*◌, false, Bool-cases, get_last?, ap,
  inl, inr, some, [], ◌++◌, true,
}
use toolkit_inference_mesh.Ui.Notification.{progress, animate, compensation, start_at, countdown}

progress_over :
    (duration start now : ℕ)
    → 0 < duration
    → start + duration ≤ now + compensation
    → progress duration start now ≡ 100
unfolding progress
progress_over duration start now pos h =
    let le =
      (le-div_iff_mul-le {x = 100} {y = 100 * (now + compensation - start) + (duration - 1)} pos).1
        (omega (arith, h, pos)) in
    omega (arith, le)

progress_full :
    (duration start now : ℕ)
    → ltb (progress duration start now) 100 ≡ false
    → progress duration start now ≡ 100
unfolding progress
progress_full duration start now h = ground arith

started : (start now : ℕ) → 0 < start → start_at start now ≡ start
started start now h = ground arith

counts : (duration : ℕ) → 0 < duration → ltb 0 duration ≡ true
counts duration d = ground arith

-- What is set last, where another frame follows.
get_last?-next :
    (p : ℕ) (rest : List ℕ) → get_last? rest ≡ some 100 → get_last? (p ∷ rest) ≡ some 100
get_last?-next p [] h = cc
get_last?-next p (q ∷ rest) h = h

animate-ends :
    (duration start now : ℕ) (times : List ℕ)
    → 0 < duration
    → 0 < start
    → start + duration ≤ now + compensation
    → get_last? (animate duration start (times ++ now ∷ [])) ≡ some 100
unfolding animate
animate-ends duration start now [] d s h =
    rw (started start now s, progress_over duration start now d h) refl
animate-ends duration start now (t ∷ times) d s h =
    rw (started start t s) (elim (Bool-cases (ltb (progress duration start t) 100)) [
      | inl y ↦ rw y (
          get_last?-next (progress duration start t) (animate duration start (times ++ now ∷ []))
            (animate-ends duration start now times d s h))
      | inr n ↦ rw n (ap some (progress_full duration start t n))
    ])

-- The countdown ends: if the first frame comes at a time after 0, the duration is positive, and a
-- frame comes when the duration, less the compensation of 150 milliseconds, has passed since, then
-- the last progress that is set is 100, whatever frames come between.
pub countdown-ends :
    (duration first now : ℕ) (times : List ℕ)
    → 0 < duration
    → 0 < first
    → first + duration ≤ now + compensation
    → get_last? (countdown duration (first ∷ times ++ now ∷ [])) ≡ some 100
unfolding countdown animate
countdown-ends duration first now times d f h =
    rw (counts duration d) (elim (Bool-cases (ltb (progress duration first first) 100)) [
      | inl y ↦ rw y (
          get_last?-next (progress duration first first)
            (animate duration first (times ++ now ∷ []))
            (animate-ends duration first now times d f h))
      | inr n ↦ rw n (ap some (progress_full duration first first n))
    ])
