-- ===== src/Backup/Leads.antt =====
-- Reasoning about the steps of a backup's site: what holds behind a step, whichever calls fail.
use my_personal_cloud.Prelude.{◌≡◌, refl}
use my_personal_cloud.World.{World, Response, Outcome, stop, next, Handler}
use my_personal_cloud.World.Triple.{Assertion, Post, Triple}
use my_personal_cloud.Backup.{Bytes}
use my_personal_cloud.Backup.Site.{
  Site, Step, continued, ◌>>=◌, moved, on_world, change, database_file_of,
}

module _ {B : Type 0} where
  -- From a site with `P`, a step stops with a response that meets `E` or goes on with a value that
  -- meets `Q`.
  abbrev pub After :
      {A : Type 0}
      → (Response B → Site → Type 0)
      → (A → Site → Type 0)
      → Outcome B A × Site
      → Type 0
  After E Q (stop r, s) = E r s
  After E Q (next a, s) = Q a s

  pub record Leads {A : Type 0} (P : Site → Type 0) (E : Response B → Site → Type 0)
      (Q : A → Site → Type 0) (m : Step B A) : Type 0 where
    pub run : (s : Site) → P s → After E Q (m s)

  After-continued :
      {A C : Type 0} {E : Response B → Site → Type 0} {Q : A → Site → Type 0}
      {R : C → Site → Type 0} (x : Outcome B A × Site) (k : A → Step B C)
      → After E Q x
      → ((a : A) → Leads (Q a) E R (k a))
      → After E R (continued x k)
  After-continued (stop r, s) k h f = h
  After-continued (next a, s) k h f = (f a).run s h

  pub bind-Leads :
      {A C : Type 0} {P : Site → Type 0} {E : Response B → Site → Type 0} {Q : A → Site → Type 0}
      {R : C → Site → Type 0} {m : Step B A} {k : A → Step B C}
      → Leads P E Q m
      → ((a : A) → Leads (Q a) E R (k a))
      → Leads P E R (m >>= k)
  unfolding ◌>>=◌
  bind-Leads {m} {k} t f = record { run = λ s h. After-continued (m s) k (t.run s h) f }

  moved-After :
      {A : Type 0} (R : Site → Type 0) (E : Response B → Site → Type 0)
      (E' : Response B → Assertion) (Q' : A → Assertion) (s : Site) (x : Outcome B A × World)
      → R (record s { world = x.1 })
      → ((r : Response B) (s : Site) → R s → E' r s.world.db s.world.disk → E r s)
      → Post E' Q' x.0 x.1.db x.1.disk
      → After E (λ a s. R s × Q' a s.world.db s.world.disk) (moved s x)
  moved-After R E E' Q' s (stop r, w) k e h = e r (record s { world = w }) k h
  moved-After R E E' Q' s (next a, w) k e h = (k, h)

  -- A handler moves the world only, so `R` on the other fields stays.
  pub on_world-Leads :
      {A : Type 0} {E : Response B → Site → Type 0} {P' : Assertion} {E' : Response B → Assertion}
      {Q' : A → Assertion} {m : Handler B A} (R : Site → Type 0)
      → ((s : Site) (w : World) → R s → R (record s { world = w }))
      → ((r : Response B) (s : Site) → R s → E' r s.world.db s.world.disk → E r s)
      → Triple P' E' Q' m
      → Leads
          (λ s. R s × P' s.world.db s.world.disk)
          E
          (λ a s. R s × Q' a s.world.db s.world.disk)
          (on_world m)
  unfolding on_world
  on_world-Leads {E} {E'} {Q'} {m} R frame e t = record {
    run = λ s h.
        moved-After R E E' Q' s (m s.world) (frame s (m s.world).1 h.0) e (t.run s.world h.1);
  }

  pub change-Leads :
      {P : Site → Type 0} {E : Response B → Site → Type 0} {Q : Site → Type 0} (f : Site → Site)
      → ((s : Site) → P s → Q (f s))
      → Leads P E (λ _. Q) (change f)
  unfolding change
  change-Leads f h = record { run = λ s p. h s p }

  pub After-relax :
      {A : Type 0} (E : Response B → Site → Type 0) (Q Q' : A → Site → Type 0)
      (x : Outcome B A × Site)
      → ((a : A) (s : Site) → Q a s → Q' a s)
      → After E Q x
      → After E Q' x
  After-relax E Q Q' (stop r, s) i h = h
  After-relax E Q Q' (next a, s) i h = i a s h

  module _ {A : Type 0} {P : Site → Type 0} {E : Response B → Site → Type 0}
      {Q : A → Site → Type 0} where
    pub pull-Leads : {G : Type 0} {m : Step B A} → (G → Leads P E Q m) → Leads (λ s. P s × G) E Q m
    pull-Leads f = record { run = λ s h. (f h.1).run s h.0 }

    pub weaken-Leads :
        {P' : Site → Type 0} {m : Step B A}
        → ((s : Site) → P' s → P s)
        → Leads P E Q m
        → Leads P' E Q m
    weaken-Leads i t = record { run = λ s h. t.run s (i s h) }

    pub relax-Leads :
        {Q' : A → Site → Type 0} {m : Step B A}
        → ((a : A) (s : Site) → Q a s → Q' a s)
        → Leads P E Q m
        → Leads P E Q' m
    relax-Leads {Q'} {m} i t = record { run = λ s h. After-relax E Q Q' (m s) i (t.run s h) }

    -- The file of the database is looked at.
    pub file_of-Leads :
        {m : Bytes → Step B A}
        → ((file : Bytes) → Leads (λ s. P s × (s.database_file ≡ file)) E Q (m file))
        → Leads P E Q (database_file_of >>= m)
    unfolding database_file_of ◌>>=◌
    file_of-Leads f = record { run = λ s h. (f s.database_file).run s (h, refl) }
