-- ===== src/Ui/ChatView/Copies.antt =====
-- The mark of a copied message.
use toolkit_inference_mesh.Common.{
  Bool-cases, inl, inr, ◌≡◌, refl, ap, ◌∙◌, Bool, true, false, List, [], ◌∷◌, ◌++◌, arith,
}
use toolkit_inference_mesh.Ui.ChatView.{
  Copy, CopyEvent, copy_clicked, timeout, copy_step, copy_run, set_copied, on_timeout, mounted,
  set_from,
}

-- The mark of a copied message runs against a timer.
abbrev pub Inv : Copy → Type 0
Inv c = c.copied ≡ true → c.timer ≡ true

set_from-Inv : (b before : Bool) (c : Copy) → c.copied ≡ before → Inv c → Inv (set_from b before c)
set_from-Inv true true c e h = h
set_from-Inv true false c e h = λ p. refl
set_from-Inv false true c e h = λ p. refl
set_from-Inv false false c e h = h

set_copied-Inv : (b : Bool) (c : Copy) → Inv c → Inv (set_copied b c)
set_copied-Inv b c h = set_from-Inv b c.copied c refl h

set_from-false :
    (before : Bool) (c : Copy) → c.copied ≡ before → (set_from false before c).copied ≡ false
set_from-false true c e = refl
set_from-false false c e = e

-- A timer that fires takes the mark away, and none is left without one.
on_timeout-false : (t : Bool) (c : Copy) → c.timer ≡ t → Inv c → (on_timeout t c).copied ≡ false
on_timeout-false true c e h = set_from-false c.copied (record c { timer = false }) refl
on_timeout-false false c e h = elim (Bool-cases c.copied) [
  | inl y ↦ absurd (ground (arith, h y))
  | inr n ↦ n
]

copy_run_snoc :
    (c : Copy) (es : List CopyEvent) (e : CopyEvent)
    → copy_run c (es ++ e ∷ []) ≡ copy_step (copy_run c es) e
unfolding copy_run
copy_run_snoc c [] e = refl
copy_run_snoc c (d ∷ es) e = copy_run_snoc (copy_step c d) es e

copy_run-Inv : (c : Copy) (es : List CopyEvent) → Inv c → Inv (copy_run c es)
unfolding copy_run copy_step
copy_run-Inv c [] h = h
copy_run-Inv c (copy_clicked ∷ es) h = copy_run-Inv (set_copied true c) es (set_copied-Inv true c h)
copy_run-Inv c (timeout ∷ es) h =
    copy_run-Inv (on_timeout c.timer c) es
      (λ p. absurd (ground (arith, on_timeout-false c.timer c refl h)))

-- However often a message is copied, once the timer fires its mark is gone.
pub copy_run-timeout :
    (es : List CopyEvent) → (copy_run mounted (es ++ timeout ∷ [])).copied ≡ false
unfolding copy_step
copy_run-timeout es =
    let c = copy_run mounted es in
    ap (λ d. d.copied) (copy_run_snoc mounted es timeout)
    ∙ on_timeout-false c.timer c refl (copy_run-Inv mounted es (λ p. absurd (ground arith)))
