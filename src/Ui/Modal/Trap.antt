-- ===== src/Ui/Modal/Trap.antt =====
-- Where the focus can be while a dialog is open, and after it.
use punah_pustak.Common.{
  ℕ, zero, suc, ◌<◌, ◌===◌, ◌≡◌, refl, String, Bool, true, false, List, [], ◌∷◌, All, arith, Option,
  Bool-cases, inl, inr, subst, sym,
}
use punah_pustak.Ui.Modal.{
  Focus, body, elsewhere, container, node, Modal, ModalEvent, open_with, render, tab, escape, click,
  close, first_focus, at_position, carried, rerendered, re_enter, enter, handle_tab, step_open,
  step_closed, step_when, step, run,
}

abbrev pub is_inside : ModalEvent → Bool
is_inside (open_with _) = false
is_inside close = false
is_inside _ = true

abbrev pub InNodes : ℕ → Focus → Type 0
InNodes n (node i) = i < n
InNodes n _ = ⊥

-- Keys, and renders that leave the dialog a focus: neither clicks, nor the opening and the closing. The number is that
-- of the focusable elements before the events.
abbrev pub KeepsFocus : ℕ → List ModalEvent → Type 0
KeepsFocus m [] = Unit
KeepsFocus m (render true n _ ∷ es) = (0 < n) × KeepsFocus n es
KeepsFocus m (render false n position ∷ es) =
    ((i : ℕ) → i < m → InNodes n (at_position (position i))) × KeepsFocus n es
KeepsFocus m (tab _ ∷ es) = KeepsFocus m es
KeepsFocus m (escape ∷ es) = KeepsFocus m es
KeepsFocus m (open_with _ ∷ es) = ⊥
KeepsFocus m (click _ ∷ es) = ⊥
KeepsFocus m (close ∷ es) = ⊥

suc-not_first : (i : ℕ) → suc i === 0 ≡ false
suc-not_first i = ground arith

module _ (browser_tab : Bool → ℕ → Focus → Focus) where
  -- The focus was outside before the dialog opened, and will go back there.
  record IsOver (x : String) (s : Modal) : Type 0 where
    opened : s.is_open ≡ true
    back : s.previously_focused ≡ elsewhere x

  step_open-IsOver :
      (x : String) (s : Modal) (e : ModalEvent)
      → is_inside e ≡ true
      → IsOver x s
      → IsOver x (step_open browser_tab s e)
  unfolding step_open rerendered re_enter enter
  step_open-IsOver x s (open_with n) i h = absurd (ground arith)
  step_open-IsOver x s close i h = absurd (ground arith)
  step_open-IsOver x s (render false n position) i h = record {
    opened = h.opened;
    back = rw h.back refl;
  }
  step_open-IsOver x s (render true n position) i h = record {
    opened = h.opened;
    back = rw h.back refl;
  }
  step_open-IsOver x s (tab b) i h = record { opened = h.opened; back = h.back }
  step_open-IsOver x s escape i h = record { opened = h.opened; back = h.back }
  step_open-IsOver x s (click f) i h = record { opened = h.opened; back = h.back }

  step-IsOver :
      (x : String) (s : Modal) (e : ModalEvent)
      → is_inside e ≡ true
      → IsOver x s
      → IsOver x (step browser_tab s e)
  unfolding step
  step-IsOver x s e i h =
      subst (λ b. IsOver x (step_when browser_tab b s e)) (sym h.opened)
        (step_open-IsOver x s e i h)

  run-IsOver :
      (x : String) (s : Modal) (es : List ModalEvent)
      → All (λ e. is_inside e ≡ true) es
      → IsOver x s
      → IsOver x (run browser_tab s es)
  unfolding run
  run-IsOver x s [] i h = h
  run-IsOver x s (e ∷ es) i h = run-IsOver x (step browser_tab s e) es i.1 (step-IsOver x s e i.0 h)

  opens :
      (x : String) (s : Modal) (n : ℕ)
      → s.is_open ≡ false
      → s.focus ≡ elsewhere x
      → IsOver x (step browser_tab s (open_with n))
  unfolding step step_closed enter
  opens x s n c f = rw c (record { opened = refl; back = f })

  -- Whatever keys are pressed, wherever the user clicks and however often the parent renders while the dialog is open,
  -- closing it gives the focus back to the element outside that had it when the dialog opened.
  pub close_restores :
      (s : Modal) (x : String) (n : ℕ) (es : List ModalEvent)
      → s.is_open ≡ false
      → s.focus ≡ elsewhere x
      → All (λ e. is_inside e ≡ true) es
      → let s' = run browser_tab (step browser_tab s (open_with n)) es in
        (step browser_tab s' close).focus ≡ elsewhere x
  unfolding step step_open
  close_restores s x n es c f i =
      let h = run-IsOver x (step browser_tab s (open_with n)) es i (opens x s n c f) in
      rw (h.opened, h.back) refl

  -- What browsers document of `Tab` among the elements of a page, for those of the dialog.
  module _ (tab_forward : (n i : ℕ) → suc i < n → browser_tab false n (node i) ≡ node (suc i))
      (tab_back : (n i : ℕ) → suc i < n → browser_tab true n (node (suc i)) ≡ node i) where
    tab-InNodes :
        (shift : Bool) (n : ℕ) (f : Focus)
        → InNodes n f
        → InNodes n (handle_tab browser_tab shift n f)
    tab-InNodes shift zero (node i) h = absurd (omega (arith, h))
    tab-InNodes true (suc n) (node zero) h = omega arith
    tab-InNodes true (suc n) (node (suc i)) h =
        rw (suc-not_first i, tab_back (suc n) i h) (omega (arith, h))
    tab-InNodes false (suc n) (node i) h = elim (Bool-cases (i === n)) [
      | inl last ↦ rw last (omega arith)
      | inr inner ↦
          rw (inner, tab_forward (suc n) i (ground (arith, inner, h))) (ground (arith, inner, h))
    ]
    tab-InNodes shift n body h = absurd h
    tab-InNodes shift n (elsewhere x) h = absurd h
    tab-InNodes shift n container h = absurd h

    -- An open dialog, one of whose focusable elements has the focus.
    record IsTrapped (s : Modal) : Type 0 where
      opened : s.is_open ≡ true
      within : InNodes s.nodes s.focus

    first-InNodes : (n : ℕ) → 0 < n → InNodes n (first_focus n)
    first-InNodes zero h = absurd (omega (arith, h))
    first-InNodes (suc n) h = omega arith

    carried-InNodes :
        (m n : ℕ) (position : ℕ → Option ℕ) (f : Focus)
        → ((i : ℕ) → i < m → InNodes n (at_position (position i)))
        → InNodes m f
        → InNodes n (carried position f)
    carried-InNodes m n position (node i) k h = k i h
    carried-InNodes m n position body k h = absurd h
    carried-InNodes m n position (elsewhere x) k h = absurd h
    carried-InNodes m n position container k h = absurd h

    -- The elements after an event are as many as `KeepsFocus` goes on with.
    step_open-IsTrapped :
        (s : Modal) (e : ModalEvent) (es : List ModalEvent)
        → KeepsFocus s.nodes (e ∷ es)
        → IsTrapped s
        → IsTrapped (step_open browser_tab s e) × KeepsFocus (step_open browser_tab s e).nodes es
    unfolding step_open rerendered re_enter enter
    step_open-IsTrapped s (render false n position) es k h = (
      record {
        opened = h.opened;
        within = carried-InNodes s.nodes n position s.focus k.0 h.within;
      },
      k.1,
    )
    step_open-IsTrapped s (render true n position) es k h =
        (record { opened = h.opened; within = first-InNodes n k.0 }, k.1)
    step_open-IsTrapped s (tab b) es k h =
        (record { opened = h.opened; within = tab-InNodes b s.nodes s.focus h.within }, k)
    step_open-IsTrapped s escape es k h = (record { opened = h.opened; within = h.within }, k)
    step_open-IsTrapped s (open_with m) es k h = absurd k
    step_open-IsTrapped s (click f) es k h = absurd k
    step_open-IsTrapped s close es k h = absurd k

    run-IsTrapped :
        (s : Modal) (es : List ModalEvent)
        → KeepsFocus s.nodes es
        → IsTrapped s
        → IsTrapped (run browser_tab s es)
    unfolding run step
    run-IsTrapped s [] k h = h
    run-IsTrapped s (e ∷ es) k h =
        let (h', k') =
          subst
            (λ b.
              IsTrapped (step_when browser_tab b s e)
              × KeepsFocus (step_when browser_tab b s e).nodes es)
            (sym h.opened) (step_open-IsTrapped s e es k h) in
        run-IsTrapped (step browser_tab s e) es k' h'

    -- When `Tab` moves by one between neighbours of the dialog's focusable elements, as browsers document, the focus
    -- stays among them: from an open dialog with the focus on one, over any presses of `Tab`, `Shift`+`Tab` and
    -- `Escape`, and over renders of two kinds. Those with a new `onClose` may change the elements in any way that
    -- leaves one; those with the same one may add and move elements, but none of those from before may go or be
    -- disabled.
    pub trap_holds :
        (s : Modal) (es : List ModalEvent)
        → s.is_open ≡ true
        → InNodes s.nodes s.focus
        → KeepsFocus s.nodes es
        → let s' = run browser_tab s es in InNodes s'.nodes s'.focus × (s'.is_open ≡ true)
    trap_holds s es o f k =
        let h = run-IsTrapped s es k (record { opened = o; within = f }) in (h.within, h.opened)
