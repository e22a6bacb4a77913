-- ===== src/Config/Var/Listeners.antt =====
-- ConfigVar::addListener and delListener of include/config.hpp.
use ye_cc_server.Prelude.{
  ℕ, suc, ◌+◌, ◌%◌, ◌^◌, ◌<◌, ◌≡◌, refl, List, [], ◌∷◌, ◌==◌, if◌then◌else◌, none, some, arith, All,
  length,
}
use ye_cc_server.Prelude.Maps.{put, find-put, find-erase, nat_key}
use ye_cc_server.Config.Var.{Listener, ConfigVar, add_listener, del_listener, get_listener}

-- Every listener's key was given out before: it is below the static counter.
abbrev pub IsKeyed {ℓ κ} : {T : Type ℓ} {W : Type κ} → ℕ → ConfigVar T W → Type 0
IsKeyed key var = All (λ e. e.0 < key) var.cbs

module _ {ℓ κ} {T : Type ℓ} {W : Type κ} where
  put_new :
      (key : ℕ) (cb : Listener T W) (cbs : List (ℕ × Listener T W))
      → All (λ e. e.0 < key) cbs
      → (length (put key cb cbs) ≡ suc (length cbs)) × All (λ e. e.0 < key + 1) (put key cb cbs)
  unfolding put
  put_new key cb [] h = (refl, (omega arith, tt))
  put_new key cb ((k, d) ∷ cbs) (h, t) = ground (arith, put_new key cb cbs t)

  -- A listener is added under a key that no listener of any variable of the type has: it replaces
  -- none, is found under the key, and leaves the others where they were. The counter has not wrapped.
  pub add_listener_fresh :
      (key : ℕ) (var : ConfigVar T W) (cb : Listener T W)
      → IsKeyed key var
      → key + 1 < 2 ^ 64
      → let (next, var', given) = add_listener key var cb in
        (length var'.cbs ≡ suc (length var.cbs))
        × IsKeyed next var'
        × ((k : ℕ) → get_listener var' k ≡ (if given == k then some cb else get_listener var k))
  unfolding add_listener get_listener
  add_listener_fresh key var cb h bound =
      let next : (key + 1) % 2 ^ 64 ≡ key + 1 = omega arith in
      let (len, keyed) = put_new key cb var.cbs h in
      (len, rw next keyed, λ k. find-put key k cb var.cbs)

  -- A deleted listener is gone, and the others are found as before.
  pub get-del_listener :
      (var : ConfigVar T W) (key k : ℕ)
      → get_listener (del_listener var key) k ≡ (if key == k then none else get_listener var k)
  unfolding get_listener del_listener
  get-del_listener var key k = find-erase key k var.cbs
