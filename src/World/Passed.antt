-- ===== src/World/Passed.antt =====
-- A handler that ends with another response than the one its check would send has passed the
-- check.
use my_personal_cloud.Prelude.{ℕ, ◌≡◌, ◌≢◌, refl, Bool, true, false, Option, none, some}
use my_personal_cloud.World.{
  World, Response, Outcome, stop, Handler, ◌>>=◌, require, or_reply, clock,
}

module _ {B C : Type 0} where
  pub or_reply-passed :
      {A : Type 0} (o : Option A) (r s : Response B) (k : A → Handler B C) (w w' : World)
      → s ≢ r
      → (or_reply o r >>= k) w ≡ (stop s, w')
      → (a : A) × (o ≡ some a) × (k a w ≡ (stop s, w'))
  unfolding ◌>>=◌ or_reply
  or_reply-passed none r s k w w' e h = absurd (e (cc h))
  or_reply-passed (some a) r s k w w' e h = (a, refl, h)

  pub require-passed :
      (b : Bool) (r s : Response B) (k : Unit {0} → Handler B C) (w w' : World)
      → s ≢ r
      → (require b r >>= k) w ≡ (stop s, w')
      → (b ≡ true) × (k tt w ≡ (stop s, w'))
  unfolding ◌>>=◌ require
  require-passed true r s k w w' e h = (refl, h)
  require-passed false r s k w w' e h = absurd (e (cc h))

  -- The clock answers always.
  pub clock-passed :
      (k : ℕ → Handler B C) (w : World) {x : Outcome B C × World}
      → (clock >>= k) w ≡ x
      → k w.now w ≡ x
  unfolding ◌>>=◌ clock
  clock-passed k w h = h
