-- ===== src/Session/Forms.antt =====
-- pages/Login/LoginPage.tsx and pages/Register/RegisterPage.tsx: what submitting a form does.
use traffic_service.Api.Auth.{
  RegisterDriverDto, DriverResponseDto, LoginDriverDto, login_driver, register_driver,
}
use traffic_service.Api.Http.{Failure, Outcome, resolved, raised, Fetch}
use traffic_service.Session.{
  Session, Rules, Check, login_errors, register_errors, FormView, on_settled, submit_login,
  submit_register,
}
use traffic_service.Base.{
  Bool-cases, is_some, length, any, All, Text, codes, ℕ, ◌≤◌, ◌<◌, ◌≡◌, refl, ◌≢◌, ◌⊎◌, inl, inr,
  true, false, Option, none, some, List, [], ◌∷◌,
}

-- The documented meaning of `required` and `minLength`: a field with no message has a text, of at
-- least the length asked for.
pub record ChecksRules (check : Check) : Type 0 where
  pub needs_text : (r : Rules) (t : Text) → check r t ≡ none → 0 < length t
  pub needs_length :
      (m t v : Text) (n : ℕ)
      → check (record { required = m; min_length = some (n, t) }) v ≡ none
      → n ≤ length v

-- How a submission went: the session is untouched, or the service accepted it and the session
-- holds the driver and the token of its answer, at the page for booking.
abbrev pub Settles : Outcome DriverResponseDto → Session → Session × FormView → Type 0
Settles outcome s (s', view) =
    ((s' ≡ s)
      × ((any is_some view.errors ≡ true)
          ⊎ ((f : Failure) × (outcome ≡ raised f) × (view.error ≡ some f))))
    ⊎ ((r : DriverResponseDto) × (outcome ≡ resolved r)
        × (s'.store.driver ≡ some r.driver)
        × (s'.store.token ≡ some r.access_token)
        × (s'.location ≡ codes "/routes"))

on_settled-Settles :
    (o : Outcome DriverResponseDto) (errors : List (Option Text)) (s : Session)
    → Settles o s (on_settled o errors s)
unfolding on_settled
on_settled-Settles (resolved r) errors s = inr (r, refl, refl, refl, refl)
on_settled-Settles (raised f) errors s = inl (refl, inr (f, refl, refl))

-- Submitting either form leaves the session alone and shows a message, under a field or the
-- service's; or the service accepted it, and the session holds its driver and token at "/routes".
pub submit-Settles :
    (check : Check) (fetch : Fetch DriverResponseDto) (dto : LoginDriverDto)
    (new : RegisterDriverDto) (s : Session)
    → Settles (login_driver fetch dto) s (submit_login check fetch dto s)
      × Settles (register_driver fetch new) s (submit_register check fetch new s)
unfolding submit_login submit_register
submit-Settles check fetch dto new s = (
  elim (Bool-cases (any is_some (login_errors check dto))) [
    | inl bad ↦ rw bad (inl (refl, inl bad))
    | inr good ↦ rw good (on_settled-Settles (login_driver fetch dto) (login_errors check dto) s)
  ],
  elim (Bool-cases (any is_some (register_errors check new))) [
    | inl bad ↦ rw bad (inl (refl, inl bad))
    | inr good ↦
        rw good (on_settled-Settles (register_driver fetch new) (register_errors check new) s)
  ],
)

none_of_any :
    (os : List (Option Text)) → any is_some os ≡ false → All (λ (o : Option Text). o ≡ none) os
none_of_any [] e = tt
none_of_any (none ∷ os) e = (refl, none_of_any os e)
none_of_any (some m ∷ os) e = cc

-- With the documented meaning of the rules, a registration that changes the session has a text in
-- each field and a password of at least 8 characters; a sign-in has an email and a password of at
-- least 2.
pub submit_validated :
    (check : Check) (fetch : Fetch DriverResponseDto) (dto : LoginDriverDto)
    (new : RegisterDriverDto) (s : Session)
    → ChecksRules check
    → ((submit_login check fetch dto s).0 ≢ s → (0 < length dto.email) × (2 ≤ length dto.password))
      × ((submit_register check fetch new s).0 ≢ s
          → (0 < length new.name)
            × (0 < length new.email)
            × (8 ≤ length new.password)
            × (0 < length new.license_number)
            × (0 < length new.vehicle_type)
            × (0 < length new.region))
unfolding submit_login submit_register login_errors register_errors
submit_validated check fetch dto new s rules = (
  (λ changed. elim (Bool-cases (any is_some (login_errors check dto))) [
    | inl bad ↦ absurd (changed (rw bad))
    | inr good ↦
        let h = none_of_any (login_errors check dto) good in
        (rules.needs_text _ _ h.0, rules.needs_length _ _ _ _ h.1.0)
  ]),
  (λ changed. elim (Bool-cases (any is_some (register_errors check new))) [
    | inl bad ↦ absurd (changed (rw bad))
    | inr good ↦
        let h = none_of_any (register_errors check new) good in
        (
          rules.needs_text _ _ h.0,
          rules.needs_text _ _ h.1.0,
          rules.needs_length _ _ _ _ h.1.1.0,
          rules.needs_text _ _ h.1.1.1.0,
          rules.needs_text _ _ h.1.1.1.1.0,
          rules.needs_text _ _ h.1.1.1.1.1.0,
        )
  ]),
)
