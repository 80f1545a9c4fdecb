-- ===== src/Ui/Scroll.antt =====
-- How `ChatMessages` (components/inputs/chat-messages.tsx) follows a conversation as it grows. A
-- call of `scrollTo` waits for the next animation frame, which is an event like the timers.
pub mod Laws
use toolkit_inference_mesh.Common.{
  ℕ, suc, ◌-◌, Bool, true, false, List, [], ◌∷◌, ltb, if◌then◌else◌,
}

pub record Scroll : Type 0 where
  pub is_bottom : Bool
  pub user_scrolled_up : Bool
  pub auto_scrolling : Bool
  pub prev_scroll_top : ℕ
  -- the calls of `requestAnimationFrame` whose function has not run
  pub frames : ℕ

-- `animation_frame` runs the functions that wait for it; `messages_changed` is the effect on new messages, `scroll_to_bottom` the button;
-- `auto_scroll_over` is any of the timers; `wheel` tells whether it turned up.
pub data Event : Type 0 where
  messages_changed scroll_to_bottom animation_frame auto_scroll_over touch_move : Event
  scroll : (scroll_top scroll_height client_height : ℕ) → Event
  wheel : (up : Bool) → Event

abbrev pub initial : Scroll
initial = record {
  is_bottom = true;
  user_scrolled_up = false;
  auto_scrolling = false;
  prev_scroll_top = 0;
  frames = 0;
}

-- The call of `scrollTo` is planned.
unfoldable pub on_scroll_to_bottom : Scroll → Scroll
on_scroll_to_bottom s = record s {
  user_scrolled_up = false;
  auto_scrolling = true;
  frames = suc s.frames;
}

unfoldable pub on_messages_changed : Scroll → Scroll
unfolding on_scroll_to_bottom
on_messages_changed s =
    if s.user_scrolled_up then s else on_scroll_to_bottom (record s { auto_scrolling = true })

-- A gap below 0 is below 10 like the gap 0 that the subtraction gives for it.
abbrev pub bottom_gap : ℕ → ℕ → ℕ → ℕ
bottom_gap scroll_top scroll_height client_height = scroll_height - scroll_top - client_height

unfoldable pub on_scroll : ℕ → ℕ → ℕ → Scroll → Scroll
on_scroll scroll_top scroll_height client_height s =
    let near = ltb (bottom_gap scroll_top scroll_height client_height) 10 in
    let moved_up =
      if s.auto_scrolling
      then s.user_scrolled_up
      else if ltb scroll_top (s.prev_scroll_top - 2)
      then true
      else s.user_scrolled_up in
    record s {
      is_bottom = near;
      user_scrolled_up = if near then false else moved_up;
      prev_scroll_top = scroll_top;
    }

-- The new state, and how often `scrollTo` is called: each function that waits for the animation frame
-- calls it.
unfoldable pub step : Event → Scroll → Scroll × ℕ
unfolding on_messages_changed on_scroll_to_bottom on_scroll
step messages_changed s = (on_messages_changed s, 0)
step scroll_to_bottom s = (on_scroll_to_bottom s, 0)
step animation_frame s = (record s { frames = 0 }, s.frames)
step auto_scroll_over s = (record s { auto_scrolling = false }, 0)
step touch_move s = (record s { user_scrolled_up = true }, 0)
step (scroll top height client) s = (on_scroll top height client s, 0)
step (wheel up) s = (record s { user_scrolled_up = if up then true else s.user_scrolled_up }, 0)

-- The last state, and for each event how often the container was scrolled to its bottom.
unfoldable pub run : Scroll → List Event → Scroll × List ℕ
unfolding step
run s [] = (s, [])
run s (e ∷ es) = let (s', calls) = step e s in let (last, more) = run s' es in (last, calls ∷ more)
