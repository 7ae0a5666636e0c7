-- ===== src/Memory/Laws.antt =====
-- What the stores answer.
use orbit_api_gateway.Base.{◌≡◌, String, Bool, true, false, none, some}
use orbit_api_gateway.Base.Map.{Map, lookup, erase}
use orbit_api_gateway.Domain.Ownership.{Challenge}
use orbit_api_gateway.Memory.Stores.{confirm}

module _ (email : String) (accept : Challenge → Bool) (items : Map Challenge) where
  pub confirm_missing : lookup email items ≡ none → confirm email accept items ≡ (none, items)
  unfolding confirm
  confirm_missing e = rw (e, confirm)

  module _ (c : Challenge) (e : lookup email items ≡ some c) where
    pub confirm_accepted :
        accept c ≡ true → confirm email accept items ≡ (some c, erase email items)
    unfolding confirm
    confirm_accepted h = rw (e, confirm, h)

    pub confirm_refused : accept c ≡ false → confirm email accept items ≡ (none, items)
    unfolding confirm
    confirm_refused h = rw (e, confirm, h)
