-- ===== src/Ui/Dialog/View/Laws.antt =====
-- The buttons and the title of a dialog.
use toolkit_inference_mesh.Common.{
  is_some, ◌≡◌, refl, Bool, true, false, Option, none, some, List, [], ◌∷◌, ◌++◌, All, any, sym,
  All-append, if◌then◌else◌, Bool-cases, ap, ◌∙◌, inl, inr, not, ◌&&◌, ◌||◌, arith, eq_of_some,
  subst,
}
use toolkit_inference_mesh.Js.Text.{Text}
use toolkit_inference_mesh.Ui.Dialog.{Dialog, Event, mounted, run}
use toolkit_inference_mesh.Ui.Dialog.Laws.{is_waiting, run-Inv}
use toolkit_inference_mesh.Ui.Dialog.View.{
  Color, ButtonKey, cancel, confirm, submit, Button, button, action_buttons, spread, has_form,
  has_icon, Labelled, View, view, alert_dialog, Props, actions_of,
}

abbrev pub buttons_of : Option (Option Text × List Button) → List Button
buttons_of none = []
buttons_of (some (secondary_action, bs)) = bs

-- The buttons that a dialog shows.
abbrev pub shown_buttons : View → List Button
shown_buttons v = buttons_of v.actions

shown_actions : (t : Option Text) (bs : List Button) → buttons_of (actions_of t bs) ≡ spread bs
shown_actions t [] = refl
shown_actions t (b ∷ bs) = refl

spread-loading :
    (l : Bool) (bs : List Button)
    → All (λ b. b.loading ≡ l) bs
    → All (λ b. b.loading ≡ l) (spread bs)
spread-loading l [] h = h
spread-loading l (b ∷ []) h = h
spread-loading l (b ∷ c ∷ bs) h = h

button-loading :
    (k : ButtonKey) (c : Option Color) (l : Bool) (t : Option Text)
    → All (λ b. b.loading ≡ l) (button k c l t)
button-loading k c l none = tt
button-loading k c l (some t) = (refl, tt)

action_buttons-loading : (p : Props) (l : Bool) → All (λ b. b.loading ≡ l) (action_buttons p l)
unfolding action_buttons
action_buttons-loading p l =
    All-append (λ b. b.loading ≡ l) (button cancel (some Color.secondary) l p.cancel_label) _
      (button-loading cancel _ l p.cancel_label)
      (All-append (λ b. b.loading ≡ l) (button confirm (some p.color) l p.confirm_label) _
        (button-loading confirm _ l p.confirm_label) (button-loading submit none l p.submit_label))

-- After any events, the buttons that a dialog shows are all in their loading state if it waits for
-- the promise of a handler or of a form, and none of them is if it does not.
pub run-shown_buttons :
    (p : Props) (es : List Event)
    → All
        (λ b. b.loading ≡ is_waiting (run mounted es).0.pending)
        (shown_buttons (view p (run mounted es).0))
unfolding view
run-shown_buttons p es =
    let d = (run mounted es).0 in
    let loading = run-Inv mounted es refl in
    rw (shown_actions p.secondary_action (action_buttons p d.loading), sym loading)
      (spread-loading d.loading _ (action_buttons-loading p d.loading))

abbrev pub is_submit : Button → Bool
is_submit b = elim b.key [ cancel ↦ false | confirm ↦ false | submit ↦ true ]

any-spread : (bs : List Button) → any is_submit (spread bs) ≡ any is_submit bs
any-spread [] = refl
any-spread (b ∷ []) = refl
any-spread (b ∷ c ∷ bs) = refl

any_labels :
    (a b c : Option Text) (color : Color) (l : Bool)
    → any is_submit (
        button cancel (some Color.secondary) l a
        ++ (button confirm (some color) l b ++ button submit none l c))
      ≡ is_some c
any_labels a b c color l = ground arith

any-action_buttons :
    (p : Props) (l : Bool) → any is_submit (action_buttons p l) ≡ is_some p.submit_label
unfolding action_buttons
any-action_buttons p l = any_labels p.cancel_label p.confirm_label p.submit_label p.color l

form_of : (a b c : Bool) → (a && (not b || not c)) ≡ false → a ≡ (a && (b && c))
form_of a b c h = ground arith

-- In development, a dialog that is rendered is a form exactly if it shows a button to submit: the
-- properties that would give a button without a form are refused with an error.
pub alert_dialog-is_form :
    (p : Props) (d : Dialog) (v : View)
    → alert_dialog true p d ≡ some v
    → any is_submit (shown_buttons v) ≡ v.is_form
unfolding alert_dialog view has_form
alert_dialog-is_form p d v h =
    let shown : any is_submit (shown_buttons (view p d)) ≡ is_some p.submit_label =
      ap (any is_submit) (shown_actions p.secondary_action (action_buttons p d.loading))
      ∙ any-spread (action_buttons p d.loading)
      ∙ any-action_buttons p d.loading in
    elim (Bool-cases
      (is_some p.submit_label && (not p.has_handle_submit || not p.has_on_submit_valid))) [
        | inl y ↦ absurd (ground arith)
        | inr n ↦
            subst (λ w. any is_submit (shown_buttons w) ≡ w.is_form) (eq_of_some (rw n at h))
              (shown ∙ form_of (is_some p.submit_label) p.has_handle_submit p.has_on_submit_valid n)
      ]

-- The elements that stand under an id.
abbrev pub titled : Option Labelled → Option Text → List Labelled
titled none bar = []
titled (some l) bar = l ∷ []

abbrev pub option_texts : Option Text → List Text
option_texts none = []
option_texts (some t) = t ∷ []

abbrev pub titles : View → List Text
titles v =
    option_texts v.bar_title
    ++ option_texts (elim v.content_title [ none ↦ none | some l ↦ some l.text ])

-- A dialog shows its title exactly once: with an icon in the content, under the id that the dialog
-- names as its label, and without an icon in its bar, where no element has this id.
pub view-titles :
    (p : Props) (d : Dialog)
    → (titles (view p d) ≡ p.title ∷ [])
      × ((view p d).content_title ≡ (
          if has_icon p.title_icon
          then some (record { id = (view p d).labelled_by; text = p.title })
          else none))
      × ((view p d).bar_id ≡ none)
unfolding view
view-titles p d = (ground arith, ground arith, refl)
