-- ===== src/Session/Origin.antt =====
-- Where the user that is shown as logged in comes from, followed from the server's answer through the client and
-- the session.
use punah_pustak.Common.{
  ◌≡◌, refl, subst, ◌⊎◌, inl, inr, String, true, Option, List, [], ◌∷◌, ◌++◌, All,
}
use punah_pustak.Api.Client
use punah_pustak.Api.Client.{
  CallTarget, Document, Response, Outcome, undefined, resolved, rejected, Job, fetching, settled,
  restoring, restored, restore_failed, World, Shared, RefreshReply, Event, is_ok, Phase,
  begin_fetch, Notice, awaiting_restore, awaiting_response, awaiting_refresh, perform_refresh,
}
use punah_pustak.Api.Client.Restoring.{main}
use punah_pustak.Auth
use punah_pustak.Auth.{
  User, AuthState, loading, unauthenticated, password_change_required, authenticated, Reply, value,
  threw, Auth, Load, plain, then_home, AuthEvent, profile_reply, resume_load, take_load,
  demands_password_change,
}
use punah_pustak.Session.{System, SystemEvent, step, run, loaded}
use punah_pustak.Session.Steps.{IsSound, step-IsSound}
use punah_pustak.Session.Users.{HasSource, content}
use punah_pustak.Session.Sources.{own_profile, answer_of}

module _ {J : Type 0} (read_user : Option (Document J) → User)
    (read_token : Document J → String) where
  -- The answers that come in, each with the method and the path of the call that it is for.
  abbrev pub answers : System J → List (SystemEvent J) → List (CallTarget × Response J)
  answers s [] = []
  answers s (e ∷ es) = answer_of s e ++ answers (step read_user read_token s e) es

module _ {ℓ κ} {B : Type ℓ} (P : B → Type κ) where
  All-take : (xs ys : List B) → All P (xs ++ ys) → All P xs
  All-take [] ys h = tt
  All-take (x ∷ xs) ys h = (h.0, All-take xs ys h.1)

  All-drop : (xs ys : List B) → All P (xs ++ ys) → All P ys
  All-drop [] ys h = h
  All-drop (x ∷ xs) ys h = All-drop xs ys h.1

-- Whether `x` stands among `xs`.
abbrev pub Occurs : {B : Type 0} → B → List B → Type 0
Occurs x [] = ⊥
Occurs x (y ∷ ys) = (y ≡ x) ⊎ Occurs x ys

module _ {B : Type 0} where
  Occurs-cons :
      (y : B) (xs zs : List B) → All (λ x. Occurs x zs) xs → All (λ x. Occurs x (y ∷ zs)) xs
  Occurs-cons y [] zs h = tt
  Occurs-cons y (x ∷ xs) zs h = (inr h.0, Occurs-cons y xs zs h.1)

  all_occur : (xs : List B) → All (λ x. Occurs x xs) xs
  all_occur [] = tt
  all_occur (x ∷ xs) = (inl refl, Occurs-cons x xs xs (all_occur xs))

module _ {J : Type 0} (read_user : Option (Document J) → User) (read_token : Document J → String)
    (A : CallTarget → Response J → Type 0) where
  run-IsSound :
      (s : System J) (es : List (SystemEvent J))
      → All (λ x. A x.0 x.1) (answers read_user read_token s es)
      → IsSound read_user read_token A s
      → IsSound read_user read_token A (run read_user read_token s es)
  unfolding run
  run-IsSound s [] a h = h
  run-IsSound s (e ∷ es) a h =
      run-IsSound (step read_user read_token s e) es (All-drop _ (answer_of s e) _ a)
        (step-IsSound read_user read_token A s e (All-take _ (answer_of s e) _ a) h)

  loaded-IsSound : IsSound read_user read_token A loaded
  unfolding loaded main Client.initial Auth.initial Client.step
  loaded-IsSound = record { calls = ((tt, tt), tt); user = tt }

module _ {J : Type 0} (read_user : Option (Document J) → User)
    (read_token : Document J → String) where
  -- Whatever happens after the page has loaded, in whatever order calls are made, answered, refreshed, retried and
  -- resumed, a user is shown as logged in only if an answer that is ok came in for a call of `GET /api/v1/users/me`,
  -- and the user is what that answer says.
  pub signed_in-Occurs :
      (es : List (SystemEvent J)) (u : User)
      → (run read_user read_token loaded es).auth.state ≡ authenticated u
      → (r : Response J) × Occurs (own_profile, r) (answers read_user read_token loaded es)
        × (is_ok r.status ≡ true)
        × (u ≡ read_user (content r))
  signed_in-Occurs es u e =
      let A = λ (p : CallTarget) (r : Response J).
        Occurs (p, r) (answers read_user read_token loaded es) in
      subst (HasSource read_user A) e
        (run-IsSound read_user read_token A loaded es (all_occur _)
          (loaded-IsSound read_user read_token A)).user
