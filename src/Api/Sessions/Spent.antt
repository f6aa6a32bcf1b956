-- ===== src/Api/Sessions/Spent.antt =====
-- The routes of services/api/handlers_auth.py at a refresh token that was used before.
use indu_sense.Base.{ℕ, Option, String, true, false, List, ◌≡◌, ◌≢◌, refl, arith, ◌==◌, eq_iff, All}
use indu_sense.Auth.{Outcome, returned, raised}
use indu_sense.Auth.Token.{Claims, parse_and_validate}
use indu_sense.Auth.Service.{Service, Given, Stores, logout, logout_with}
use indu_sense.Auth.Service.Keys.{IsFresh}
use indu_sense.Auth.Service.Rotation.{
  Call, given, perform, perform_all, spends, ReadsTheSame, refresh_access_token-perform_all,
}
use indu_sense.Api.{success, refused}
use indu_sense.Api.Sessions.{refresh_route, logout_route, logout_reply}

logout_with-reply :
    (g : Given) (o : Outcome Claims) (ip : String) (s : Stores)
    → logout_reply (logout_with g o ip s).0 ≡ success tt
unfolding logout_with logout_reply
logout_with-reply g (returned c) ip s = refl
logout_with-reply g (raised e) ip s = refl

-- A refresh token that reads as the same claims whenever it is not refused, once presented to a
-- refresh or a logout that could read it, stays spent: after that call and any calls that follow,
-- if none of them draws its id again, a refresh route that the rate limiter lets through answers
-- 401 TOKEN_REVOKED, and such a logout route answers as for a live token.
pub routes-perform_all :
    (remaining : Option ℕ) (v : Service) (call : Call) (calls : List Call) (g : Given)
    (token ip_address : String) (c : Claims) (s : Stores)
    → ReadsTheSame v.jwt token v.refresh_secret
    → token ≢ ""
    → spends token call ≡ true
    → parse_and_validate v.jwt (given call).now token v.refresh_secret "refresh" ≡ returned c
    → IsFresh c.jti (given call)
    → All (λ later. IsFresh c.jti (given later)) calls
    → let after = perform_all v calls (perform v call s) in
      ((refresh_route (success remaining) v g token ip_address after).0
        ≡ refused 401 "TOKEN_REVOKED")
      × ((logout_route (success remaining) v g token ip_address after).0 ≡ success tt)
unfolding refresh_route logout_route logout
routes-perform_all remaining v call calls g token ip c s same some_token spent read n fresh =
    let filled : (token == "") ≡ false = ground (arith, eq_iff token "") in
    let gone =
      refresh_access_token-perform_all v call calls g token ip c s same spent read n fresh in
    (rw (filled, gone), rw filled (logout_with-reply g _ ip _))
