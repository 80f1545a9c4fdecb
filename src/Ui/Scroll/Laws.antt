-- ===== src/Ui/Scroll/Laws.antt =====
-- When the view scrolls by itself.
use toolkit_inference_mesh.Common.{
  ◌≡◌, refl, arith, All, ℕ, ◌+◌, sum_of, leb, Bool, true, false, List, [], ◌∷◌,
}
use toolkit_inference_mesh.Ui.Scroll.{
  Scroll, Event, animation_frame, step, run, messages_changed, scroll_to_bottom, bottom_gap,
  auto_scroll_over, touch_move, scroll, wheel, on_messages_changed, on_scroll,
}

-- The events that leave a user who has scrolled up where they are: all but the button, and a
-- scroll to within 10 pixels of the bottom.
abbrev pub stays_up : Event → Bool
stays_up scroll_to_bottom = false
stays_up (scroll top height client) = leb 10 (bottom_gap top height client)
stays_up _ = true

-- The calls of `scrollTo` in a run.
abbrev pub calls : List ℕ → ℕ
calls ns = sum_of (λ n. n) ns

step-stays_up :
    (e : Event) (s : Scroll)
    → s.user_scrolled_up ≡ true
    → stays_up e ≡ true
    → ((step e s).0.user_scrolled_up ≡ true) × ((step e s).1 + (step e s).0.frames ≡ s.frames)
unfolding step on_messages_changed on_scroll
step-stays_up messages_changed s u h = rw u (refl, omega arith)
step-stays_up (scroll top height client) s u h = ground arith
step-stays_up animation_frame s u h = (u, omega arith)
step-stays_up auto_scroll_over s u h = (u, omega arith)
step-stays_up touch_move s u h = (refl, omega arith)
step-stays_up (wheel true) s u h = (refl, omega arith)
step-stays_up (wheel false) s u h = (u, omega arith)
step-stays_up scroll_to_bottom s u h = ground arith

run_of_up :
    (s : Scroll) (es : List Event)
    → s.user_scrolled_up ≡ true
    → All (λ e. stays_up e ≡ true) es
    → ((run s es).0.user_scrolled_up ≡ true) × (calls (run s es).1 + (run s es).0.frames ≡ s.frames)
unfolding run
run_of_up s [] u h = (u, omega arith)
run_of_up s (e ∷ es) u h =
    let (u', planned) = step-stays_up e s u h.0 in
    let (last, more) = run_of_up (step e s).0 es u' h.1 in (last, omega (arith, planned, more))

-- Once the user has scrolled up, no sequence of new messages, animation frames, timers, wheel and
-- touch movements and scrolls that stay 10 pixels or more above the bottom plans a scroll: the user
-- stays up, the calls of `scrollTo` that are made and those that still wait for an animation frame
-- are together those that waited before, and from the next animation frame on, in which all of
-- these are made, there is none.
pub run-stays_up :
    (s : Scroll) (es : List Event)
    → s.user_scrolled_up ≡ true
    → All (λ e. stays_up e ≡ true) es
    → ((run s es).0.user_scrolled_up ≡ true)
      × (calls (run s es).1 + (run s es).0.frames ≡ s.frames)
      × ((step animation_frame s).1 ≡ s.frames)
      × (calls (run (step animation_frame s).0 es).1 ≡ 0)
unfolding step
run-stays_up s es u h =
    let (up, together) = run_of_up s es u h in
    let after : Scroll = record s { frames = 0 } in
    (up, together, refl, omega (arith, (run_of_up after es u h).1))
