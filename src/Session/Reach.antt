-- ===== src/Session/Reach.antt =====
-- The sessions that the program reaches, whatever the driver does and the services answer.
use traffic_service.Api.Auth.{
  RegisterDriverDto, DriverResponseDto, LoginDriverDto, login_driver, register_driver,
}
use traffic_service.Api.Http.{Outcome, resolved, raised, Fetch}
use traffic_service.Session.{
  DriverState, signed_out, Session, handle_logout, Check, login_errors, register_errors, on_settled,
  submit_login, submit_register,
}
use traffic_service.Base.{is_some, Text, ◌≡◌, refl, Option, List, arith}

-- One action: submitting a form, logging out, or following a link or a redirect.
pub data Step (check : Check) : Session → Session → Type 0 where
  signs_in :
      (fetch : Fetch DriverResponseDto) (dto : LoginDriverDto) (s : Session)
      → Step check s (submit_login check fetch dto s).0
  registers :
      (fetch : Fetch DriverResponseDto) (dto : RegisterDriverDto) (s : Session)
      → Step check s (submit_register check fetch dto s).0
  logs_out : (s : Session) → Step check s (handle_logout s)
  visits : (to : Text) (s : Session) → Step check s (record s { location = to })

-- From the first visit at some location, with nobody signed in.
pub data Reach (check : Check) : Session → Type 0 where
  begins : (at : Text) → Reach check (record { store = signed_out; location = at })
  next : {s t : Session} → Reach check s → Step check s t → Reach check t

-- The store holds a driver exactly when it holds a token.
abbrev pub IsConsistent : DriverState → Type 0
IsConsistent s = is_some s.driver ≡ is_some s.token

on_settled-IsConsistent :
    (o : Outcome DriverResponseDto) (errors : List (Option Text)) (s : Session)
    → IsConsistent s.store
    → IsConsistent (on_settled o errors s).0.store
unfolding on_settled
on_settled-IsConsistent (resolved r) errors s h = refl
on_settled-IsConsistent (raised f) errors s h = h

Step-IsConsistent :
    {check : Check} {s t : Session} → Step check s t → IsConsistent s.store → IsConsistent t.store
unfolding submit_login submit_register handle_logout
Step-IsConsistent {check} (signs_in fetch dto s) h =
    ground (arith, on_settled-IsConsistent (login_driver fetch dto) (login_errors check dto) s h)
Step-IsConsistent {check} (registers fetch dto s) h =
    ground
      (arith, on_settled-IsConsistent (register_driver fetch dto) (register_errors check dto) s h)
Step-IsConsistent (logs_out s) h = refl
Step-IsConsistent (visits to s) h = h

-- In every session that the program reaches the store holds a driver exactly when it holds a
-- token.
pub Reach-IsConsistent : {check : Check} {s : Session} → Reach check s → IsConsistent s.store
unfolding signed_out
Reach-IsConsistent (begins at) = refl
Reach-IsConsistent (next r st) = Step-IsConsistent st (Reach-IsConsistent r)
