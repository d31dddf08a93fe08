-- ===== src/Session/Sources.antt =====
-- Calls that have ended have ended with an answer to the request that they were for, and those that `loadCurrentUser`
-- awaits are for the profile.
use punah_pustak.Api.Endpoints.{get}
use punah_pustak.Common.{
  ℕ, zero, suc, ◌===◌, ◌≡◌, refl, ◌∙◌, truthy, Bool, true, false, Option, none, some, List, [], ◌∷◌,
  All, arith, get_elem?, if◌then◌else◌,
}
use punah_pustak.Api.Client.{
  CallTarget, call_to, Document, payload, envelope, Response, Outcome, undefined, resolved,
  rejected, Phase, awaiting_restore, awaiting_response, awaiting_refresh, settled, Job, fetching,
  restoring, restored, restore_failed, Shared, RefreshReply, refreshed, refused, failed, finish,
  success, failure, is_ok, may_refresh, begin_fetch, wake, wake_all, deliver, deliver_at,
}
use punah_pustak.Session.{
  Owner, elsewhere, mount_effect, loads_user, logs_in, logs_out, gone_on, System, SystemEvent,
  answered,
}

abbrev pub own_profile : CallTarget
own_profile = call_to get "/api/v1/users/me"

is_ok_204 : (n : ℕ) → (n === 204) ≡ true → is_ok n ≡ true
is_ok_204 n h = ground arith

module _ {J : Type 0} where
  -- The request that an answer is for, with the answer.
  abbrev pub answer_to : Option (Job J) → Response J → List (CallTarget × Response J)
  answer_to (some (fetching target (awaiting_response _))) r = (target, r) ∷ []
  answer_to _ r = []

  abbrev pub answer_of : System J → SystemEvent J → List (CallTarget × Response J)
  answer_of s (answered i r) = answer_to (get_elem? s.world.jobs i) r
  answer_of s _ = []

  abbrev pub job_target : Job J → Option CallTarget
  job_target (fetching target _) = some target
  job_target restoring = none
  job_target (restored _) = none
  job_target restore_failed = none

  module _ (A : CallTarget → Response J → Type 0) where
    abbrev pub Accepts : Response J → Outcome J → Type 0
    Accepts r undefined = (is_ok r.status ≡ true) × ((r.status === 204) ≡ true)
    Accepts r (resolved d) =
        (is_ok r.status ≡ true) × ((r.status === 204) ≡ false) × (r.body ≡ some d)
    Accepts r (rejected _) = ⊥

    -- The answer that a call for `target` has ended with.
    abbrev pub HasOrigin : CallTarget → Outcome J → Type 0
    HasOrigin target (rejected _) = Unit
    HasOrigin target undefined = (r : Response J) × A target r × Accepts r undefined
    HasOrigin target (resolved d) = (r : Response J) × A target r × Accepts r (resolved d)

    abbrev pub IsPhaseSourced : CallTarget → Phase J → Type 0
    IsPhaseSourced target (awaiting_refresh r) = A target r
    IsPhaseSourced target (settled o) = HasOrigin target o
    IsPhaseSourced target (awaiting_restore _) = Unit
    IsPhaseSourced target (awaiting_response _) = Unit

    abbrev pub IsSourced : Job J → Type 0
    IsSourced (fetching target p) = IsPhaseSourced target p
    IsSourced restoring = Unit
    IsSourced (restored _) = Unit
    IsSourced restore_failed = Unit

    pub phase_if :
        (target : CallTarget) (b : Bool) (x y : Phase J × Shared)
        → (b ≡ true → IsPhaseSourced target x.0)
        → (b ≡ false → IsPhaseSourced target y.0)
        → IsPhaseSourced target (if b then x else y).0
    phase_if target true x y h k = h refl
    phase_if target false x y h k = k refl

    success_sourced :
        (target : CallTarget) (r : Response J) (b : Option (Document J))
        → A target r
        → (r.status === 204) ≡ false
        → is_ok r.status ≡ true
        → r.body ≡ b
        → HasOrigin target (success b)
    success_sourced target r none a h k e = tt
    success_sourced target r (some d) a h k e = (r, a, (k, h, e))

    failure_sourced :
        (target : CallTarget) (status : ℕ) (b : Option (Document J))
        → HasOrigin target (failure status b)
    failure_sourced target status none = tt
    failure_sourced target status (some (payload _)) = tt
    failure_sourced target status (some (envelope _)) = tt

    finish_sourced :
        (target : CallTarget) (r : Response J) (c : Shared)
        → A target r
        → IsPhaseSourced target (finish r c).0
    unfolding finish
    finish_sourced target r c a =
        phase_if target (r.status === 204) _ _ (λ h. (r, a, (is_ok_204 r.status h, h)))
          (λ h.
            phase_if target (is_ok r.status) _ _ (λ k. success_sourced target r r.body a h k refl)
              (λ _. failure_sourced target r.status r.body))

    wake-IsSourced :
        (reply : RefreshReply) (j : Job J) (c : Shared) → IsSourced j → IsSourced (wake reply j c).0
    unfolding wake begin_fetch
    wake-IsSourced (refreshed t) (fetching target (awaiting_refresh r)) c h =
        phase_if target (truthy t) _ _
          (λ _. phase_if target c.refresh_in_flight _ _ (λ _. tt) (λ _. tt))
          (λ _. finish_sourced target r _ h)
    wake-IsSourced refused (fetching target (awaiting_refresh r)) c h = finish_sourced target r _ h
    wake-IsSourced failed (fetching target (awaiting_refresh r)) c h = tt
    wake-IsSourced (refreshed t) (fetching target (awaiting_restore retry)) c h = tt
    wake-IsSourced refused (fetching target (awaiting_restore retry)) c h = tt
    wake-IsSourced failed (fetching target (awaiting_restore retry)) c h = tt
    wake-IsSourced reply (fetching target (awaiting_response retry)) c h = h
    wake-IsSourced reply (fetching target (settled o)) c h = h
    wake-IsSourced (refreshed t) restoring c h = tt
    wake-IsSourced refused restoring c h = tt
    wake-IsSourced failed restoring c h = tt
    wake-IsSourced reply (restored _) c h = h
    wake-IsSourced reply restore_failed c h = h

    -- An answer that comes in is one for a call of `A`.
    abbrev pub IsAllowed : Option (Response J) → Option (Job J) → Type 0
    IsAllowed none j = Unit
    IsAllowed (some r) j = All (λ x. A x.0 x.1) (answer_to j r)

    deliver-IsSourced :
        (r : Option (Response J)) (j : Job J) (c : Shared)
        → IsSourced j
        → IsAllowed r (some j)
        → IsSourced (deliver r j c).0
    unfolding deliver
    deliver-IsSourced (some r) (fetching target (awaiting_response retry)) c h a =
        phase_if target (may_refresh r.status retry target.path) _ _ (λ _. a.0)
          (λ _. finish_sourced target r c a.0)
    deliver-IsSourced none (fetching target (awaiting_response retry)) c h a = tt
    deliver-IsSourced (some r) j c h a = h
    deliver-IsSourced none j c h a = h

    wake_target :
        (reply : RefreshReply) (j : Job J) (c : Shared)
        → job_target (wake reply j c).0 ≡ job_target j
    unfolding wake
    wake_target reply (fetching target p) c = refl
    wake_target (refreshed t) restoring c = refl
    wake_target refused restoring c = refl
    wake_target failed restoring c = refl
    wake_target reply (restored _) c = refl
    wake_target reply restore_failed c = refl

    deliver_target :
        (r : Option (Response J)) (j : Job J) (c : Shared)
        → job_target (deliver r j c).0 ≡ job_target j
    unfolding deliver
    deliver_target (some r) (fetching target (awaiting_response retry)) c = refl
    deliver_target none (fetching target (awaiting_response retry)) c = refl
    deliver_target (some r) j c = refl
    deliver_target none j c = refl

    -- A call that `loadCurrentUser` awaits asks for the profile.
    abbrev pub Asks : Owner → Job J → Type 0
    Asks (loads_user _) j = job_target j ≡ some own_profile
    Asks _ j = Unit

    abbrev pub AreSound : List Owner → List (Job J) → Type 0
    AreSound [] [] = Unit
    AreSound (o ∷ os) (j ∷ js) = (Asks o j × IsSourced j) × AreSound os js
    AreSound _ _ = ⊥

    Asks-target : (o : Owner) (j j' : Job J) → job_target j' ≡ job_target j → Asks o j → Asks o j'
    Asks-target (loads_user _) j j' e h = e ∙ h
    Asks-target elsewhere j j' e h = tt
    Asks-target mount_effect j j' e h = tt
    Asks-target logs_in j j' e h = tt
    Asks-target logs_out j j' e h = tt
    Asks-target gone_on j j' e h = tt

    pub wake_all_sound :
        (reply : RefreshReply) (os : List Owner) (js : List (Job J)) (c : Shared)
        → AreSound os js
        → AreSound os (wake_all reply js c).0
    unfolding wake_all
    wake_all_sound reply [] [] c h = tt
    wake_all_sound reply [] (j ∷ js) c h = elim h [ ]
    wake_all_sound reply (o ∷ os) [] c h = elim h [ ]
    wake_all_sound reply (o ∷ os) (j ∷ js) c h = (
      (Asks-target o j _ (wake_target reply j _) h.0.0, wake-IsSourced reply j _ h.0.1),
      wake_all_sound reply os js c h.1,
    )

    pub deliver_at_sound :
        (i : ℕ) (r : Option (Response J)) (os : List Owner) (js : List (Job J)) (c : Shared)
        → AreSound os js
        → IsAllowed r (get_elem? js i)
        → AreSound os (deliver_at i r js c).0
    unfolding deliver_at
    deliver_at_sound i r [] [] c h a = tt
    deliver_at_sound i r [] (j ∷ js) c h a = elim h [ ]
    deliver_at_sound zero r (o ∷ os) [] c h a = elim h [ ]
    deliver_at_sound (suc i) r (o ∷ os) [] c h a = elim h [ ]
    deliver_at_sound zero r (o ∷ os) (j ∷ js) c h a =
        ((Asks-target o j _ (deliver_target r j c) h.0.0, deliver-IsSourced r j c h.0.1 a), h.1)
    deliver_at_sound (suc i) r (o ∷ os) (j ∷ js) c h a = (h.0, deliver_at_sound i r os js c h.1 a)
