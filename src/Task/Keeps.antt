-- ===== src/Task/Keeps.antt =====
-- Invariants of tasks, one rule for each way to build a task. A task keeps `P` if it does so whenever
-- the other tasks do; it makes no inputs up and does not run out of fuel.
use white_noise_rs.Prelude.{
  Bool, true, false, Option, none, some, List, [], ◌∷◌, All, if◌then◌else◌,
}
use white_noise_rs.State.{Shared, Local}
use white_noise_rs.Task.Consumes.{
  Consumes-modify_local, Consumes, Consumes-pure, Consumes-panic, Consumes-unwrap, Consumes-reads,
  Consumes-asks, Consumes-modifies, Consumes-modify, Consumes-emit, Consumes-draw, Consumes-await,
  Consumes-expect, Consumes-bind,
}
use white_noise_rs.Task.{
  modify_local, expect, wait_for, Answer, Effect, Input, World, Flow, done, panicked, waiting,
  spent, Task, pure, panic, out_of_fuel, unwrap, reads, asks, modifies, modify, emit, draw, await,
  resume, ◌>>=◌, when, continue,
}

-- Every input leaves `P` as it was.
abbrev pub Rely : (Shared → Type 0) → List Input → Type 0
Rely P is = All (λ i. (s : Shared) → P s → P (i.others s)) is

-- `P` holds now and held at every suspension point so far, and no input to come breaks it.
abbrev pub Sound : (Shared → Type 0) → World → Type 0
Sound P w = P w.shared × Rely P w.inputs × All P w.seen

pub record Keeps {A : Type 0} (P : Shared → Type 0) (m : Task A) : Type 0 where
  pub at : (w : World) → Sound P w → Sound P (m w).1
  pub consumes : Consumes m

-- The first half, which a loop has also while its fuel may be too little.
pub record Preserves {A : Type 0} (P : Shared → Type 0) (m : Task A) : Type 0 where
  pub at : (w : World) → Sound P w → Sound P (m w).1

resume-Sound :
    (P : Shared → Type 0) (is : List Input) (w : World)
    → P w.shared
    → Rely P is
    → Sound P w
    → Sound P (resume is w).1
resume-Sound P [] w h r k = k
resume-Sound P (i ∷ is) w h r k = (r.0 w.shared h, r.1, k.2)

module _ {A : Type 0} {P : Shared → Type 0} where
  pub Keeps-pure : (a : A) → Keeps P (pure a)
  unfolding pure
  Keeps-pure a = record { at = λ w h. h; consumes = Consumes-pure a }

  pub Keeps-panic : Keeps P (panic {A = A})
  unfolding panic
  Keeps-panic = record { at = λ w h. h; consumes = Consumes-panic }

  pub Keeps-unwrap : (o : Option A) → Keeps P (unwrap o)
  unfolding unwrap
  Keeps-unwrap none = record { at = λ w h. h; consumes = Consumes-unwrap none }
  Keeps-unwrap (some a) = record { at = λ w h. h; consumes = Consumes-unwrap (some a) }

  pub Keeps-reads : (f : Shared → A) → Keeps P (reads f)
  unfolding reads
  Keeps-reads f = record { at = λ w h. h; consumes = Consumes-reads f }

  pub Keeps-asks : (f : Local → A) → Keeps P (asks f)
  unfolding asks
  Keeps-asks f = record { at = λ w h. h; consumes = Consumes-asks f }

  pub Keeps-modifies :
      (f : Shared → A × Shared) → ((s : Shared) → P s → P (f s).1) → Keeps P (modifies f)
  unfolding modifies
  Keeps-modifies f keep = record {
    at = λ w h. (keep w.shared h.0, h.1, h.2);
    consumes = Consumes-modifies f;
  }

  pub Keeps-if : (b : Bool) (m n : Task A) → Keeps P m → Keeps P n → Keeps P (if b then m else n)
  Keeps-if true m n km kn = km
  Keeps-if false m n km kn = kn

module _ {P : Shared → Type 0} where
  pub Keeps-modify : (f : Shared → Shared) → ((s : Shared) → P s → P (f s)) → Keeps P (modify f)
  unfolding modify
  Keeps-modify f keep = record {
    at = λ w h. (keep w.shared h.0, h.1, h.2);
    consumes = Consumes-modify f;
  }

  pub Keeps-modify_local : (f : Local → Local) → Keeps P (modify_local f)
  unfolding modify_local
  Keeps-modify_local f = record { at = λ w h. h; consumes = Consumes-modify_local f }

  pub Keeps-emit : (e : Effect) → Keeps P (emit e)
  unfolding emit
  Keeps-emit e = record { at = λ w h. h; consumes = Consumes-emit e }

  pub Keeps-draw : Keeps P draw
  unfolding draw
  Keeps-draw = record { at = λ w h. h; consumes = Consumes-draw }

  pub Keeps-when : (b : Bool) (m : Task (Unit {0})) → Keeps P m → Keeps P (when b m)
  unfolding when
  Keeps-when true m k = k
  Keeps-when false m k = Keeps-pure tt

  pub Keeps-await : Keeps P await
  unfolding await
  Keeps-await = record {
    at = λ w h. resume-Sound P w.inputs _ h.0 h.1 (h.0, h.1, (h.0, h.2));
    consumes = Consumes-await;
  }

module _ {A : Type 0} {P : Shared → Type 0} where
  Keeps-expect : (o : Option A) → Keeps P (expect o)
  unfolding expect
  Keeps-expect none = record { at = λ w h. h; consumes = Consumes-expect none }
  Keeps-expect (some a) = record { at = λ w h. h; consumes = Consumes-expect (some a) }

module _ {A B : Type 0} {P : Shared → Type 0} where
  continue-Sound :
      (r : Flow A) (f : A → Task B) (w : World)
      → ((a : A) → Preserves P (f a))
      → Sound P w
      → Sound P (continue r f w).1
  continue-Sound (done a) f w kf h = (kf a).at w h
  continue-Sound panicked f w kf h = h
  continue-Sound waiting f w kf h = h
  continue-Sound spent f w kf h = h

  pub Preserves-bind :
      (m : Task A) (f : A → Task B)
      → Preserves P m
      → ((a : A) → Preserves P (f a))
      → Preserves P (m >>= f)
  unfolding ◌>>=◌
  Preserves-bind m f km kf = record {
    at = λ w h. let (r, w') = m w in continue-Sound r f w' kf (km.at w h);
  }

  pub Keeps-bind :
      (m : Task A) (f : A → Task B) → Keeps P m → ((a : A) → Keeps P (f a)) → Keeps P (m >>= f)
  Keeps-bind m f km kf = record {
    at = (Preserves-bind m f (record { at = km.at }) (λ a. record { at = (kf a).at })).at;
    consumes = Consumes-bind m f km.consumes (λ a. (kf a).consumes);
  }

  -- What is read holds until the next wait, and the rest may use it.
  pub Keeps-bind-reads :
      (g : Shared → A) (f : A → Task B)
      → ((a : A) → Consumes (f a))
      → ((w : World) → Sound P w → Sound P (f (g w.shared) w).1)
      → Keeps P (reads g >>= f)
  unfolding ◌>>=◌
  Keeps-bind-reads g f c k = record {
    at = k;
    consumes = Consumes-bind (reads g) f (Consumes-reads g) c;
  }

module _ {A : Type 0} {P : Shared → Type 0} where
  pub Preserves-out_of_fuel : Preserves P (out_of_fuel {A = A})
  unfolding out_of_fuel
  Preserves-out_of_fuel = record { at = λ w h. h }

  pub Preserves-Keeps : {m : Task A} → Keeps P m → Preserves P m
  Preserves-Keeps k = record { at = k.at }

  pub Preserves-if :
      (b : Bool) (m n : Task A) → Preserves P m → Preserves P n → Preserves P (if b then m else n)
  Preserves-if true m n km kn = km
  Preserves-if false m n km kn = kn

module _ {A : Type 0} {P : Shared → Type 0} where
  pub Keeps-wait_for : (view : Answer → Option A) → Keeps P (wait_for view)
  unfolding wait_for
  Keeps-wait_for view = Keeps-bind _ _ Keeps-await (λ a. Keeps-expect (view a))

pub ruleset keeps_rules = (
  Keeps-pure, Keeps-panic, Keeps-unwrap, Keeps-reads, Keeps-asks, Keeps-emit, Keeps-draw,
  Keeps-modify_local, Keeps-when, Keeps-await, Keeps-wait_for, Keeps-if, Keeps-bind,
)
