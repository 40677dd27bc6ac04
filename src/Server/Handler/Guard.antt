-- ===== src/Server/Handler/Guard.antt =====
-- What the guard lets through, and what a request costs.
use Prim.Native.String.{String}
use netquality.Prelude.{
  ℕ, ◌≡◌, ◌≢◌, ◌↔◌, ◌⊎◌, Bool, true, false, Option, none, some, ℤ, pos, ◌<ℤ◌, arith,
}
use netquality.Float.{Float}
use netquality.Server.Budget.{Budget, ticket, admit}
use netquality.Server.Handler.{
  Options, Request, Route, unauthorized, method_not_allowed, metered, authenticate, admit_request,
  method_allowed, guard,
}

module _ (authorize : Request → Bool) (verify : Request → Option String) {F : Type 0}
    ⦃d : Float F⦄ where
  -- A request that is not authenticated gets 401, whatever its method and the budget; a method that
  -- the route does not allow gets 405. Neither touches the budget.
  guard_rejects :
      (o : Options) (rt : Route) (b : Option (Budget F)) (r : Request) (now : ℤ)
      → let (b', verdict) = guard authorize verify o rt b r now in
        ((verdict ≡ unauthorized) ↔ (authenticate authorize verify o rt r ≡ none))
        × ((verdict ≡ method_not_allowed)
            ↔ ((authenticate authorize verify o rt r ≢ none) × (method_allowed rt r ≡ false)))
        × (((verdict ≢ unauthorized) × (verdict ≢ method_not_allowed)) ⊎ (b' ≡ b))
  unfolding guard admit_request
  guard_rejects o rt b r now = ground arith

  -- A handler runs on a slot only for an authenticated request of an allowed method, under the
  -- identity that authentication gave, on a route with a cap, and only with the ticket that the
  -- budget's admission returned.
  pub guard_metered :
      (o : Options) (rt : Route) (b : Budget F) (r : Request) (now : ℤ) (key : String) (a : ℕ)
      → (guard authorize verify o rt (some b) r now).1 ≡ metered key a
      → (authenticate authorize verify o rt r ≡ some key)
        × (method_allowed rt r ≡ true)
        × (pos 0 <ℤ rt.request_cap)
        × ((admit b key now).1 ≡ ticket a)
        × ((guard authorize verify o rt (some b) r now).0 ≡ some (admit b key now).0)
  unfolding guard admit_request
  guard_metered o rt b r now key a h = ground arith
