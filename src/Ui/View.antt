-- ===== src/Ui/View.antt =====
-- What a component renders: its parts in document order, without layout, styles and icons. A part
-- that the user can act on carries the event that its handler gets.
use punah_pustak.Common.{
  ℕ, ◌≡◌, String, Bool, true, false, Option, List, [], ◌∷◌, ◌++◌, subst, map, ◌==◌, ◌||◌, refl, ◌⊎◌,
  inl, inr,
}

pub data Item (E : Type 0) : Type 0 where
  heading : String → Item E
  text : String → Item E
  -- a text with numbers put in for its `{}`s, such as "Page {} of {}"
  counts : String → List ℕ → Item E
  alert : String → Item E
  status : String → Item E
  image : (url alt : String) → Item E
  link : (to label : String) → Item E
  -- `disabled`, then the event of `onClick`
  button : (label : String) (disabled : Bool) → E → Item E
  -- a radio or a toggle: whether it is on, and its event
  choice : (label : String) (on : Bool) → E → Item E
  -- the event of `Escape`, and of the backdrop where there is one
  dismiss : E → Item E
  -- an `Input`: label, value and error, and the event of `onChange`
  field : (label value : String) (error : Option String) → (String → E) → Item E

abbrev pub View : Type 0 → Type 0
View E = List (Item E)

-- `{test && <…/>}`
abbrev pub when : {E : Type 0} → Bool → View E → View E
when true v = v
when false v = []

-- A component whose callback is `f`, within its parent.
module _ {E F : Type 0} (f : E → F) where
  abbrev map_event : Item E → Item F
  map_event (heading t) = heading t
  map_event (text t) = text t
  map_event (counts t ns) = counts t ns
  map_event (alert t) = alert t
  map_event (status t) = status t
  map_event (image u a) = image u a
  map_event (link to t) = link to t
  map_event (button l d e) = button l d (f e)
  map_event (choice l o e) = choice l o (f e)
  map_event (dismiss e) = dismiss (f e)
  map_event (field l v e g) = field l v e (λ s. f (g s))

  abbrev pub map_events : View E → View F
  map_events v = map map_event v

-- What holds of every event that the user can cause.
module _ {E : Type 0} (P : E → Type 0) where
  abbrev pub ItemAllows : Item E → Type 0
  ItemAllows (button _ disabled e) = disabled ≡ false → P e
  ItemAllows (choice _ _ e) = P e
  ItemAllows (field _ _ _ f) = (s : String) → P (f s)
  ItemAllows (dismiss e) = P e
  ItemAllows (heading _) = Unit
  ItemAllows (text _) = Unit
  ItemAllows (counts _ _) = Unit
  ItemAllows (alert _) = Unit
  ItemAllows (status _) = Unit
  ItemAllows (image _ _) = Unit
  ItemAllows (link _ _) = Unit

  abbrev pub Allows : View E → Type 0
  Allows [] = Unit
  Allows (i ∷ v) = ItemAllows i × Allows v

  pub Allows-append : (v w : View E) → Allows v → Allows w → Allows (v ++ w)
  Allows-append [] w h k = k
  Allows-append (i ∷ v) w h k = (h.0, Allows-append v w h.1 k)

  pub Allows-when : (b : Bool) (v : View E) → (b ≡ true → Allows v) → Allows (when b v)
  Allows-when true v h = h refl
  Allows-when false v h = tt

-- That the user can cause an event.
module _ {E : Type 0} (e : E) where
  abbrev pub ItemOffers : Item E → Type 0
  ItemOffers (button _ disabled e') = (disabled ≡ false) × (e' ≡ e)
  ItemOffers (choice _ _ e') = e' ≡ e
  ItemOffers (field _ _ _ f) = (s : String) × (f s ≡ e)
  ItemOffers (dismiss e') = e' ≡ e
  ItemOffers (heading _) = ⊥
  ItemOffers (text _) = ⊥
  ItemOffers (counts _ _) = ⊥
  ItemOffers (alert _) = ⊥
  ItemOffers (status _) = ⊥
  ItemOffers (image _ _) = ⊥
  ItemOffers (link _ _) = ⊥

  abbrev pub Offers : View E → Type 0
  Offers [] = ⊥
  Offers (i ∷ v) = ItemOffers i ⊎ Offers v

-- What the user can do, every event of which satisfies `P`, satisfies `P`.
pub Offers-Allows :
    {E : Type 0} (P : E → Type 0) (e : E) (v : View E) → Allows P v → Offers e v → P e
Offers-Allows P e [] h o = absurd o
Offers-Allows P e (i ∷ v) h (inr o) = Offers-Allows P e v h.1 o
Offers-Allows P e (button _ d e' ∷ v) h (inl o) = subst P o.1 (h.0 o.0)
Offers-Allows P e (choice _ _ e' ∷ v) h (inl o) = subst P o h.0
Offers-Allows P e (field _ _ _ f ∷ v) h (inl o) = subst P o.1 (h.0 o.0)
Offers-Allows P e (dismiss e' ∷ v) h (inl o) = subst P o h.0
Offers-Allows P e (heading _ ∷ v) h (inl o) = absurd o
Offers-Allows P e (text _ ∷ v) h (inl o) = absurd o
Offers-Allows P e (counts _ _ ∷ v) h (inl o) = absurd o
Offers-Allows P e (alert _ ∷ v) h (inl o) = absurd o
Offers-Allows P e (status _ ∷ v) h (inl o) = absurd o
Offers-Allows P e (image _ _ ∷ v) h (inl o) = absurd o
Offers-Allows P e (link _ _ ∷ v) h (inl o) = absurd o

-- What holds of every place that a link leads to.
module _ {E : Type 0} (P : String → Type 0) where
  abbrev pub ItemLeads : Item E → Type 0
  ItemLeads (link to _) = P to
  ItemLeads (heading _) = Unit
  ItemLeads (text _) = Unit
  ItemLeads (counts _ _) = Unit
  ItemLeads (alert _) = Unit
  ItemLeads (status _) = Unit
  ItemLeads (image _ _) = Unit
  ItemLeads (button _ _ _) = Unit
  ItemLeads (choice _ _ _) = Unit
  ItemLeads (dismiss _) = Unit
  ItemLeads (field _ _ _ _) = Unit

  abbrev pub Leads : View E → Type 0
  Leads [] = Unit
  Leads (i ∷ v) = ItemLeads i × Leads v

  pub Leads-append : (v w : View E) → Leads v → Leads w → Leads (v ++ w)
  Leads-append [] w h k = k
  Leads-append (i ∷ v) w h k = (h.0, Leads-append v w h.1 k)

-- Whether there is a link to a place.
abbrev pub has_link : {E : Type 0} → String → View E → Bool
has_link p [] = false
has_link p (link to _ ∷ v) = (to == p) || has_link p v
has_link p (_ ∷ v) = has_link p v

pub Offers-append : {E : Type 0} (e : E) (v w : View E) → Offers e w → Offers e (v ++ w)
Offers-append e [] w o = o
Offers-append e (i ∷ v) w o = inr (Offers-append e v w o)
