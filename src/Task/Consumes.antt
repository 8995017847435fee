-- ===== src/Task/Consumes.antt =====
-- Progress of tasks: no task makes inputs up, and one built of these parts never runs out of fuel.
use white_noise_rs.Prelude.{
  suc, refl, ℕ, ◌≤◌, ◌≢◌, ◌≡◌, Bool, true, false, Option, none, some, List, [], ◌∷◌, length,
  if◌then◌else◌, arith,
}
use white_noise_rs.State.{Shared, Local}
use white_noise_rs.Task.{
  modify_local, new_channel, Answer, expect, wait_for, Effect, Input, World, Flow, done, panicked,
  waiting, spent, Task, pure, panic, unwrap, reads, asks, modifies, modify, emit, draw, await,
  resume, ◌>>=◌, when, continue,
}

abbrev pub inputs_left : World → ℕ
inputs_left w = length w.inputs

pub record Consumes {A : Type 0} (m : Task A) : Type 0 where
  pub shrinks : (w : World) → inputs_left (m w).1 ≤ inputs_left w
  pub ends : (w : World) → (m w).0 ≢ spent

module _ {A : Type 0} where
  pub Consumes-pure : (a : A) → Consumes (pure a)
  unfolding pure
  Consumes-pure a = record { shrinks = λ w. omega arith; ends = λ w h. cc }

  pub Consumes-panic : Consumes (panic {A = A})
  unfolding panic
  Consumes-panic = record { shrinks = λ w. omega arith; ends = λ w h. cc }

  pub Consumes-unwrap : (o : Option A) → Consumes (unwrap o)
  unfolding unwrap
  Consumes-unwrap none = record { shrinks = λ w. omega arith; ends = λ w h. cc }
  Consumes-unwrap (some a) = record { shrinks = λ w. omega arith; ends = λ w h. cc }

  pub Consumes-reads : (f : Shared → A) → Consumes (reads f)
  unfolding reads
  Consumes-reads f = record { shrinks = λ w. omega arith; ends = λ w h. cc }

  pub Consumes-asks : (f : Local → A) → Consumes (asks f)
  unfolding asks
  Consumes-asks f = record { shrinks = λ w. omega arith; ends = λ w h. cc }

  pub Consumes-modifies : (f : Shared → A × Shared) → Consumes (modifies f)
  unfolding modifies
  Consumes-modifies f = record { shrinks = λ w. omega arith; ends = λ w h. cc }

  pub Consumes-if :
      (b : Bool) (m n : Task A) → Consumes m → Consumes n → Consumes (if b then m else n)
  Consumes-if true m n km kn = km
  Consumes-if false m n km kn = kn

pub Consumes-modify : (f : Shared → Shared) → Consumes (modify f)
unfolding modify
Consumes-modify f = record { shrinks = λ w. omega arith; ends = λ w h. cc }

pub Consumes-modify_local : (f : Local → Local) → Consumes (modify_local f)
unfolding modify_local
Consumes-modify_local f = record { shrinks = λ w. omega arith; ends = λ w h. cc }

pub Consumes-emit : (e : Effect) → Consumes (emit e)
unfolding emit
Consumes-emit e = record { shrinks = λ w. omega arith; ends = λ w h. cc }

pub Consumes-draw : Consumes draw
unfolding draw
Consumes-draw = record { shrinks = λ w. omega arith; ends = λ w h. cc }

pub Consumes-when : (b : Bool) (m : Task (Unit {0})) → Consumes m → Consumes (when b m)
unfolding when
Consumes-when true m k = k
Consumes-when false m k = Consumes-pure tt

pub Consumes-new_channel : Consumes new_channel
unfolding new_channel
Consumes-new_channel = record { shrinks = λ w. omega arith; ends = λ w h. cc }

resume-shrinks :
    (is : List Input) (w : World)
    → inputs_left w ≡ length is
    → inputs_left (resume is w).1 ≤ inputs_left w
resume-shrinks [] w e = omega arith
resume-shrinks (i ∷ is) w e = omega arith

resume-ends : (is : List Input) (w : World) → (resume is w).0 ≢ spent
resume-ends [] w h = cc
resume-ends (i ∷ is) w h = cc

pub Consumes-await : Consumes await
unfolding await
Consumes-await = record {
  shrinks = λ w. resume-shrinks w.inputs _ refl;
  ends = λ w. resume-ends w.inputs _;
}

-- A wait that has its answer has one input less.
resume-done :
    (is : List Input) (w w' : World) (a : Answer)
    → resume is w ≡ (done a, w')
    → suc (inputs_left w') ≡ length is
resume-done [] w w' a e = ground arith
resume-done (i ∷ is) w w' a e = ground arith

pub await-done :
    (w w' : World) (a : Answer) → await w ≡ (done a, w') → suc (inputs_left w') ≡ inputs_left w
unfolding await
await-done w w' a e = resume-done w.inputs _ w' a e

pub Consumes-expect : {A : Type 0} (o : Option A) → Consumes (expect o)
unfolding expect
Consumes-expect none = record { shrinks = λ w. omega arith; ends = λ w h. cc }
Consumes-expect (some a) = record { shrinks = λ w. omega arith; ends = λ w h. cc }

module _ {A B : Type 0} where
  continue-shrinks :
      (r : Flow A) (f : A → Task B) (w : World)
      → ((a : A) → Consumes (f a))
      → inputs_left (continue r f w).1 ≤ inputs_left w
  continue-shrinks (done a) f w kf = (kf a).shrinks w
  continue-shrinks panicked f w kf = omega arith
  continue-shrinks waiting f w kf = omega arith
  continue-shrinks spent f w kf = omega arith

  continue-ends :
      (r : Flow A) (f : A → Task B) (w : World)
      → ((a : A) → Consumes (f a))
      → r ≢ spent
      → (continue r f w).0 ≢ spent
  continue-ends (done a) f w kf h = (kf a).ends w
  continue-ends panicked f w kf h = λ e. cc
  continue-ends waiting f w kf h = λ e. cc
  continue-ends spent f w kf h = absurd (h refl)

  pub Consumes-bind :
      (m : Task A) (f : A → Task B) → Consumes m → ((a : A) → Consumes (f a)) → Consumes (m >>= f)
  unfolding ◌>>=◌
  Consumes-bind m f km kf = record {
    shrinks =
        λ w. let r = m w in omega (arith, km.shrinks w, continue-shrinks (m w).0 f (m w).1 kf);
    ends = λ w. continue-ends (m w).0 f (m w).1 kf (km.ends w);
  }

  pub Consumes-Option :
      (o : Option A) (m : Task B) (f : A → Task B)
      → Consumes m
      → ((a : A) → Consumes (f a))
      → Consumes (elim o [ none ↦ m | some a ↦ f a ])
  Consumes-Option none m f km kf = km
  Consumes-Option (some a) m f km kf = kf a

pub Consumes-wait_for : {A : Type 0} (view : Answer → Option A) → Consumes (wait_for view)
unfolding wait_for
Consumes-wait_for view = Consumes-bind _ _ Consumes-await (λ a. Consumes-expect (view a))

pub ruleset consumes_rules = (
  Consumes-pure, Consumes-panic, Consumes-unwrap, Consumes-reads, Consumes-asks, Consumes-emit,
  Consumes-modify, Consumes-modifies, Consumes-draw, Consumes-when, Consumes-await,
  Consumes-wait_for, Consumes-new_channel, Consumes-if, Consumes-bind,
)
