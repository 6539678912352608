-- ===== src/World/Triple.antt =====
-- Triples of a handler: from a state with `P`, it stops with a response that meets `E` or goes on
-- with a value that meets `Q`. The state is the database and the disk; neither the clock nor
-- the faults are part of it, so a triple holds whichever calls fail.
use my_personal_cloud.Prelude.{◌≡◌, refl, Bool, true, false, Option, none, some}
use my_personal_cloud.World.{
  Database, Disk, Env, World, Response, Outcome, stop, next, Handler, after, ◌>>=◌, reply, pure,
  require, or_reply, clock, new_uuid,
}

abbrev pub Assertion : Type 1
Assertion = Database → Disk → Type 0

module _ {B : Type 0} where
  abbrev pub Post :
      {A : Type 0} → (Response B → Assertion) → (A → Assertion) → Outcome B A → Assertion
  Post E Q (stop r) = E r
  Post E Q (next a) = Q a

  pub record Triple {A : Type 0} (P : Assertion) (E : Response B → Assertion) (Q : A → Assertion)
      (m : Handler B A) : Type 0 where
    pub run : (w : World) → P w.db w.disk → Post E Q (m w).0 (m w).1.db (m w).1.disk

  after-Post :
      {A C : Type 0} {E : Response B → Assertion} {Q : A → Assertion} {R : C → Assertion}
      (x : Outcome B A × World) (k : A → Handler B C)
      → Post E Q x.0 x.1.db x.1.disk
      → ((a : A) → Triple (Q a) E R (k a))
      → Post E R (after x k).0 (after x k).1.db (after x k).1.disk
  after-Post (stop r, w) k h f = h
  after-Post (next a, w) k h f = (f a).run w h

  pub bind-Triple :
      {A C : Type 0} {P : Assertion} {E : Response B → Assertion} {Q : A → Assertion}
      {R : C → Assertion} {m : Handler B A} {k : A → Handler B C}
      → Triple P E Q m
      → ((a : A) → Triple (Q a) E R (k a))
      → Triple P E R (m >>= k)
  unfolding ◌>>=◌
  bind-Triple {m} {k} t f = record { run = λ w h. after-Post (m w) k (t.run w h) f }

  -- A fact that is no part of the state.
  pub pull :
      {A : Type 0} {P : Assertion} {E : Response B → Assertion} {Q : A → Assertion} {G : Type 0}
      {m : Handler B A}
      → (G → Triple P E Q m)
      → Triple (λ db disk. P db disk × G) E Q m
  pull f = record { run = λ w h. (f h.1).run w h.0 }

  pub weaken :
      {A : Type 0} {P P' : Assertion} {E : Response B → Assertion} {Q : A → Assertion}
      {m : Handler B A}
      → ((db : Database) (disk : Disk) → P db disk → P' db disk)
      → Triple P' E Q m
      → Triple P E Q m
  weaken i t = record { run = λ w h. t.run w (i w.db w.disk h) }

  Post-relax :
      {A : Type 0} (E : Response B → Assertion) (Q Q' : A → Assertion) (o : Outcome B A)
      (db : Database) (disk : Disk)
      → ((a : A) (db : Database) (disk : Disk) → Q a db disk → Q' a db disk)
      → Post E Q o db disk
      → Post E Q' o db disk
  Post-relax E Q Q' (stop r) db disk i h = h
  Post-relax E Q Q' (next a) db disk i h = i a db disk h

  pub relax :
      {A : Type 0} {P : Assertion} {E : Response B → Assertion} {Q Q' : A → Assertion}
      {m : Handler B A}
      → Triple P E Q m
      → ((a : A) (db : Database) (disk : Disk) → Q a db disk → Q' a db disk)
      → Triple P E Q' m
  relax {E} {Q} {Q'} {m} t i = record {
    run = λ w p. Post-relax E Q Q' (m w).0 (m w).1.db (m w).1.disk i (t.run w p);
  }

  module _ {P : Assertion} {E : Response B → Assertion} where
    pub reply-Triple :
        {A : Type 0} {Q : A → Assertion} (r : Response B)
        → ((db : Database) (disk : Disk) → P db disk → E r db disk)
        → Triple P E Q (reply r)
    unfolding reply
    reply-Triple r h = record { run = λ w p. h w.db w.disk p }

    pub pure-Triple :
        {A : Type 0} {Q : A → Assertion} (a : A)
        → ((db : Database) (disk : Disk) → P db disk → Q a db disk)
        → Triple P E Q (pure a)
    unfolding pure
    pure-Triple a h = record { run = λ w p. h w.db w.disk p }

    pub require-Triple :
        (b : Bool) (r : Response B)
        → ((db : Database) (disk : Disk) → P db disk → E r db disk)
        → Triple P E (λ _ db disk. P db disk × (b ≡ true)) (require b r)
    unfolding require
    require-Triple true r h = record { run = λ w p. (p, refl) }
    require-Triple false r h = record { run = λ w p. h w.db w.disk p }

    pub or_reply-Triple :
        {A : Type 0} (o : Option A) (r : Response B)
        → ((db : Database) (disk : Disk) → P db disk → E r db disk)
        → Triple P E (λ a db disk. P db disk × (o ≡ some a)) (or_reply o r)
    unfolding or_reply
    or_reply-Triple none r h = record { run = λ w p. h w.db w.disk p }
    or_reply-Triple (some a) r h = record { run = λ w p. (p, refl) }

    pub clock-Triple : Triple P E (λ _. P) clock
    unfolding clock
    clock-Triple = record { run = λ w p. p }

    pub new_uuid-Triple : (env : Env) → Triple P E (λ _. P) (new_uuid env)
    unfolding new_uuid
    new_uuid-Triple env = record { run = λ w p. p }
