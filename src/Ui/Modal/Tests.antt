-- ===== src/Ui/Modal/Tests.antt =====
-- A dialog of three elements, in a browser that moves by one.
use punah_pustak.Common.{
  ℕ, zero, suc, ◌≡◌, refl, Bool, true, false, none, some, List, [], ◌∷◌, arith,
}
use punah_pustak.Ui.Modal.{
  Focus, body, elsewhere, node, Modal, ModalEvent, open_with, render, tab, escape, close, step,
  step_open, run, enter, rerendered, re_enter,
}
use punah_pustak.Ui.Modal.Trap.{InNodes, close_restores, trap_holds}

abbrev moved_back : ℕ → Focus
moved_back zero = elsewhere "before"
moved_back (suc i) = node i

abbrev by_one : Bool → ℕ → Focus → Focus
by_one false n (node i) = node (suc i)
by_one true n (node i) = moved_back i
by_one shift n f = f

abbrev dialog : Modal
dialog = record {
  is_open = true;
  nodes = 3;
  focus = node 2;
  previously_focused = elsewhere "trigger";
  close_calls = 0;
}

abbrev shut : Modal
shut = record {
  is_open = false;
  nodes = 0;
  focus = elsewhere "trigger";
  previously_focused = body;
  close_calls = 0;
}

abbrev presses : List ModalEvent
presses = tab false ∷ tab false ∷ tab true ∷ escape ∷ render true 3 some ∷ tab true ∷ []

-- An element is added before the three; then a new handler comes, and all but one are disabled.
abbrev changes : List ModalEvent
changes =
    tab false
    ∷ render false 4 (λ i. some (suc i))
    ∷ tab true
    ∷ render true 1 (λ _. none)
    ∷ tab false
    ∷ []

-- A submit button that is disabled while it has the focus loses it to the page.
focus_dropped : (run by_one dialog (render false 2 (λ _. none) ∷ [])).focus ≡ body
unfolding run step step_open rerendered
focus_dropped = refl

wraps : (run by_one dialog presses).focus ≡ node 2
unfolding run step step_open rerendered re_enter enter
wraps = refl

trap_holds_example :
    let s' = run by_one dialog changes in InNodes s'.nodes s'.focus × (s'.is_open ≡ true)
trap_holds_example =
    trap_holds by_one (λ n i h. refl) (λ n i h. refl) dialog changes refl (omega arith)
      (λ i h. omega (arith, h), (omega arith, tt))

close_restores_example :
    (step by_one (run by_one (step by_one shut (open_with 3)) presses) close).focus
    ≡ elsewhere "trigger"
close_restores_example =
    close_restores by_one shut "trigger" 3 presses refl refl
      (refl, (refl, (refl, (refl, (refl, (refl, tt))))))
