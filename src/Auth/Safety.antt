-- ===== src/Auth/Safety.antt =====
-- Who can be logged in, and after what.
use punah_pustak.Common.{
  ℕ, ◌≡◌, refl, ◌⊎◌, inl, inr, Bool, true, false, Option, none, some, List, [], ◌∷◌, All, ap, not,
  arith, truthy_option,
}
use punah_pustak.Auth.{
  User, AuthState, loading, unauthenticated, password_change_required, authenticated, Reply, value,
  threw, Load, plain, then_home, Auth, AuthEvent, restored, profile_reply, login_reply,
  logout_reply, complete_password_change, refresh_user, initial, resume_load, step, run, take_load,
}

resume_authenticated :
    (i : ℕ) (o : Option Load) (r : Reply User) (a : Auth) (u : User)
    → (resume_load i o r a).state ≡ authenticated u
    → (a.state ≡ authenticated u) ⊎ (r ≡ value u)
unfolding resume_load
resume_authenticated i none r a u h = inl h
resume_authenticated i (some plain) (value v) a u h = inr (ground arith)
resume_authenticated i (some then_home) (value v) a u h = inr (ground arith)
resume_authenticated i (some plain) (threw t) a u h = ground arith
resume_authenticated i (some then_home) (threw t) a u h = ground arith

step_authenticated :
    (a : Auth) (e : AuthEvent) (u : User)
    → (step a e).state ≡ authenticated u
    → (a.state ≡ authenticated u) ⊎ ((i : ℕ) × (e ≡ profile_reply i (value u)))
unfolding step
step_authenticated a (profile_reply i r) u h =
    elim (resume_authenticated i (take_load i a.loads) r a u h) [
      | inl same ↦ inl same
      | inr got ↦ inr (i, ap (profile_reply i) got)
    ]
step_authenticated a (login_reply (value t)) u h = inl h
step_authenticated a (login_reply (threw t)) u h = inl h
step_authenticated a (restored t) u h = ground arith
step_authenticated a _ u h = ground arith

-- Whether one of the events is an answer of `getOwnProfile` with the user `u`.
abbrev pub Answered : User → List AuthEvent → Type 0
Answered u [] = ⊥
Answered u (e ∷ es) = ((i : ℕ) × (e ≡ profile_reply i (value u))) ⊎ Answered u es

run_authenticated :
    (a : Auth) (es : List AuthEvent) (u : User)
    → (run a es).state ≡ authenticated u
    → (a.state ≡ authenticated u) ⊎ Answered u es
unfolding run
run_authenticated a [] u h = inl h
run_authenticated a (e ∷ es) u h = elim (run_authenticated (step a e) es u h) [
  | inl before ↦ elim (step_authenticated a e u before) [
    | inl same ↦ inl same
    | inr now ↦ inr (inl now)
  ]
  | inr later ↦ inr (inr later)
]

-- Whatever happens after the page has loaded, a user is shown as logged in only if the server
-- answered `GET /users/me` with exactly that user.
pub authenticated-Answered :
    (es : List AuthEvent) (u : User) → (run initial es).state ≡ authenticated u → Answered u es
unfolding initial
authenticated-Answered es u h = elim (run_authenticated _ es u h) [
  | inl start ↦ cc
  | inr answered ↦ answered
]

abbrev pub is_authenticated : AuthState → Bool
is_authenticated (authenticated _) = true
is_authenticated loading = false
is_authenticated unauthenticated = false
is_authenticated password_change_required = false

-- Events that start no `loadCurrentUser`: all but a login or a restore that brings a token, a
-- completed password change and a refresh of the user.
abbrev pub is_passive : AuthEvent → Bool
is_passive (login_reply (value _)) = false
is_passive (restored t) = not (truthy_option t)
is_passive complete_password_change = false
is_passive refresh_user = false
is_passive _ = true

step_passive :
    (a : Auth) (e : AuthEvent)
    → a.loads ≡ []
    → is_authenticated a.state ≡ false
    → is_passive e ≡ true
    → ((step a e).loads ≡ []) × (is_authenticated (step a e).state ≡ false)
unfolding step
step_passive a (profile_reply i r) l h p = rw (l, resume_load) (refl, h)
step_passive a (login_reply (threw t)) l h p = (l, h)
step_passive a (login_reply (value t)) l h p = cc
step_passive a (restored t) l h p = ground arith
step_passive a _ l h p = ground arith

run_passive :
    (a : Auth) (es : List AuthEvent)
    → a.loads ≡ []
    → is_authenticated a.state ≡ false
    → All (λ e. is_passive e ≡ true) es
    → is_authenticated (run a es).state ≡ false
unfolding run
run_passive a [] l h p = h
run_passive a (e ∷ es) l h p =
    let (l', h') = step_passive a e l h p.0 in run_passive (step a e) es l' h' p.1

-- After a logout with no `loadCurrentUser` under way, whether the server accepted it or not, the
-- user stays logged out over any events that start no `loadCurrentUser`.
pub logout_is_lasting :
    (a : Auth) (r : Reply (Unit {0})) (es : List AuthEvent)
    → a.loads ≡ []
    → All (λ e. is_passive e ≡ true) es
    → is_authenticated (run (step a (logout_reply r)) es).state ≡ false
logout_is_lasting a r es l p = run_passive _ es (unfold step in l) (unfold step in refl) p

-- With a `loadCurrentUser` under way the logout does not last: its answer, when it arrives after
-- the logout, logs the user in again, without an access token.
pub late_profile_undoes_logout :
    (a : Auth) (r : Reply (Unit {0})) (l : Load) (ls : List Load) (u : User)
    → a.loads ≡ l ∷ ls
    → let a' = step (step a (logout_reply r)) (profile_reply 0 (value u)) in
      (a'.state ≡ authenticated u) × (a'.access_token ≡ none)
unfolding step
late_profile_undoes_logout a r plain ls u e = rw (e, resume_load) (refl, refl)
late_profile_undoes_logout a r then_home ls u e = rw (e, resume_load) (refl, refl)
