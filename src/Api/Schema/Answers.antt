-- ===== src/Api/Schema/Answers.antt =====
-- What `apiFetch` makes of the answers that the server declares.
use punah_pustak.Common.{
  ℕ, zero, suc, ◌===◌, ◌≡◌, refl, ◌∙◌, subst, String, Bool, true, false, not, ◌&&◌, Option, none,
  some, List, [], ◌∷◌, get_elem?, arith, Bool-cases, inl, inr, if◌then◌else◌,
}
use punah_pustak.Api.Errors.{raised}
use punah_pustak.Api.Client.{
  CallTarget, payload, Response, Outcome, undefined, resolved, rejected, settled, Shared, finish,
  receive, is_ok,
}
use punah_pustak.Api.Endpoints.{Method}
use punah_pustak.Api.Schema.Types.{Operation, PathItem}
use punah_pustak.Api.Schema

-- A response without content is declared for the status 204 and for no other, and none for the status 401.
abbrev is_regular : ℕ × Option String → Bool
is_regular (status, none) = not (status === 401) && (status === 204)
is_regular (status, some _) = not (status === 401) && not (status === 204)

abbrev every {ℓ} : {A : Type ℓ} → (A → Bool) → List A → Bool
every f [] = true
every f (x ∷ xs) = f x && every f xs

abbrev is_regular_method : Method × Operation → Bool
is_regular_method (_, op) = every is_regular op.responses

abbrev is_regular_path : PathItem → Bool
is_regular_path p = every is_regular_method p.methods

table_regular : every is_regular_path Schema.paths ≡ true
unfolding Schema.paths
table_regular = refl

both : (a b : Bool) → (a && b) ≡ true → (a ≡ true) × (b ≡ true)
both true b h = (refl, h)
both false b h = cc

every-get_elem? {ℓ} :
    {A : Type ℓ} (f : A → Bool) (i : ℕ) (xs : List A) (x : A)
    → every f xs ≡ true
    → get_elem? xs i ≡ some x
    → f x ≡ true
every-get_elem? f i [] x h e = absurd (cc)
every-get_elem? f zero (y ∷ ys) x h e =
    let same : y ≡ x = cc in subst (λ z. f z ≡ true) same (both (f y) (every f ys) h).0
every-get_elem? f (suc i) (y ∷ ys) x h e = every-get_elem? f i ys x (both (f y) (every f ys) h).1 e

module _ {J : Type 0} where
  -- An answer as it is declared, with `j` for its content.
  abbrev pub as_declared : ℕ × Option String → J → Response J
  as_declared (status, none) j = record { status = status; body = none }
  as_declared (status, some _) j = record { status = status; body = some (payload j) }

  -- How the call ends: content that comes with an error is no envelope.
  abbrev pub expected : ℕ × Option String → J → Outcome J
  expected (status, none) j = undefined
  expected (status, some _) j =
      if is_ok status then resolved (payload j) else rejected (raised "envelope.error is undefined")

  finish_regular :
      (x : ℕ × Option String) (j : J) (c : Shared)
      → is_regular x ≡ true
      → finish (as_declared x j) c ≡ (settled (expected x j), c)
  unfolding finish
  finish_regular (status, none) j c h = rw (both (not (status === 401)) (status === 204) h).1 refl
  finish_regular (status, some t) j c h =
      let other : (status === 204) ≡ false = ground arith in
      elim (Bool-cases (is_ok status)) [
        | inl fine ↦ rw (other, fine) refl
        | inr bad ↦ rw (other, bad) refl
      ]

  receive_other :
      (target : CallTarget) (retry : Bool) (r : Response J) (c : Shared)
      → (r.status === 401) ≡ false
      → receive target retry r c ≡ finish r c
  unfolding receive
  receive_other target retry r c h = rw h refl

  not_unauthorized :
      (x : ℕ × Option String) (j : J)
      → is_regular x ≡ true
      → ((as_declared x j).status === 401) ≡ false
  not_unauthorized (status, none) j h = ground arith
  not_unauthorized (status, some _) j h = ground arith

  regular_settles :
      (target : CallTarget) (retry : Bool) (x : ℕ × Option String) (j : J) (c : Shared)
      → is_regular x ≡ true
      → receive target retry (as_declared x j) c ≡ (settled (expected x j), c)
  regular_settles target retry x j c h =
      receive_other target retry (as_declared x j) c (not_unauthorized x j h)
      ∙ finish_regular x j c h

  -- Any answer that the server declares for any of its operations ends the call that it comes to, without a refresh or
  -- a retry, as its declaration says: with `undefined` where no content is declared, with the content where its status is ok; but
  -- the content declared for an error (the `HTTPValidationError` of a 422) is not the envelope that the client expects,
  -- and makes the call fail with another error than `ApiError`. No handler is called.
  pub declared_answer_settles :
      (i k m : ℕ) (item : PathItem) (method : Method) (op : Operation) (x : ℕ × Option String)
      → get_elem? Schema.paths i ≡ some item
      → get_elem? item.methods k ≡ some (method, op)
      → get_elem? op.responses m ≡ some x
      → (target : CallTarget) (retry : Bool) (j : J) (c : Shared)
      → receive target retry (as_declared x j) c ≡ (settled (expected x j), c)
  declared_answer_settles i k m item method op x p q r target retry j c =
      regular_settles target retry x j c (
        every-get_elem? is_regular m op.responses x
          (every-get_elem? is_regular_method k item.methods (method, op)
            (every-get_elem? is_regular_path i Schema.paths item table_regular p) q)
          r)
