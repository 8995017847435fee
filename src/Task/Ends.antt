-- ===== src/Task/Ends.antt =====
-- Loops that take an input in each round: with more fuel than there are inputs they end by themselves.
use white_noise_rs.Prelude.{
  Bool, true, false, if◌then◌else◌, ℕ, suc, ap, ◌<◌, ◌≤◌, inl, inr, ◌⊎◌, ◌≡◌, ◌≢◌, refl, Option,
  arith, subst, Bool,
}
use white_noise_rs.Task.{
  Answer, World, Flow, done, panicked, waiting, spent, Task, wait_for, await, pure, ◌>>=◌, continue,
}
use white_noise_rs.Task.Consumes.{
  Consumes, Consumes-await, Consumes-expect, Consumes-bind, inputs_left, await-done,
}

-- With that much fuel the task is not cut short.
pub record Ends {A : Type 0} (fuel : ℕ) (m : Task A) : Type 0 where
  pub within : (w : World) → inputs_left w < fuel → (m w).0 ≢ spent

-- Where the task has a result, it took an input at least.
pub record Takes {A : Type 0} (m : Task A) : Type 0 where
  pub consumes : Consumes m
  pub takes : (w w' : World) (a : A) → m w ≡ (done a, w') → inputs_left w' < inputs_left w

pub Takes-await : Takes await
Takes-await = record {
  consumes = Consumes-await;
  takes = λ w w' a e. omega (arith, await-done w w' a e);
}

module _ {A B : Type 0} where
  continue-takes :
      (r : Flow A) (f : A → Task B) (w v w' : World) (b : B)
      → ((a : A) → Consumes (f a))
      → ((a : A) → r ≡ done a → inputs_left v < inputs_left w)
      → continue r f v ≡ (done b, w')
      → inputs_left w' < inputs_left w
  continue-takes (done a) f w v w' b kf lt e =
      omega (arith, lt a refl, (kf a).shrinks v, ap (λ (t : Flow B × World). inputs_left t.1) e)
  continue-takes panicked f w v w' b kf lt e = absurd (cc (ap (λ (t : Flow B × World). t.0) e))
  continue-takes waiting f w v w' b kf lt e = absurd (cc (ap (λ (t : Flow B × World). t.0) e))
  continue-takes spent f w v w' b kf lt e = absurd (cc (ap (λ (t : Flow B × World). t.0) e))

  pub Takes-bind :
      (m : Task A) (f : A → Task B) → Takes m → ((a : A) → Consumes (f a)) → Takes (m >>= f)
  unfolding ◌>>=◌
  Takes-bind m f km kf = record {
    consumes = Consumes-bind m f km.consumes kf;
    takes = λ w w' b e.
        continue-takes (m w).0 f w (m w).1 w' b kf (λ a p. km.takes w (m w).1 a (pair_eta p)) e;
  }
    where
      pair_eta : {w : World} {a : A} → (m w).0 ≡ done a → m w ≡ (done a, (m w).1)
      pair_eta {w} p = λ i. (p i, (m w).1)

  continue-Takes_either :
      (r : Flow A) (f : A → Task B) (w v w' : World) (b : B)
      → ((a : A) → Consumes (f a))
      → ((a : A) → r ≡ done a → (inputs_left v < inputs_left w) ⊎ Takes (f a))
      → inputs_left v ≤ inputs_left w
      → continue r f v ≡ (done b, w')
      → inputs_left w' < inputs_left w
  continue-Takes_either (done a) f w v w' b kf either le e = elim (either a refl) [
    | inl lt ↦ omega (arith, lt, (kf a).shrinks v, ap (λ (t : Flow B × World). inputs_left t.1) e)
    | inr k ↦ omega (arith, k.takes v w' b e, le)
  ]
  continue-Takes_either panicked f w v w' b kf either le e =
      absurd (cc (ap (λ (t : Flow B × World). t.0) e))
  continue-Takes_either waiting f w v w' b kf either le e =
      absurd (cc (ap (λ (t : Flow B × World). t.0) e))
  continue-Takes_either spent f w v w' b kf either le e =
      absurd (cc (ap (λ (t : Flow B × World). t.0) e))

  -- Either the first step takes an input, or the second does.
  pub Takes-either :
      (m : Task A) (f : A → Task B)
      → Consumes m
      → ((a : A) → Consumes (f a))
      → ((w : World) (a : A)
          → (m w).0 ≡ done a
          → (inputs_left (m w).1 < inputs_left w) ⊎ Takes (f a))
      → Takes (m >>= f)
  unfolding ◌>>=◌
  Takes-either m f km kf either = record {
    consumes = Consumes-bind m f km kf;
    takes =
        λ w w' b e. continue-Takes_either (m w).0 f w (m w).1 w' b kf (either w) (km.shrinks w) e;
  }

  continue-Ends :
      (fuel : ℕ) (r : Flow A) (f : A → Task B) (v : World)
      → ((a : A) → Ends fuel (f a))
      → ((a : A) → r ≡ done a → inputs_left v < fuel)
      → r ≢ spent
      → (continue r f v).0 ≢ spent
  continue-Ends fuel (done a) f v kf lt h = (kf a).within v (lt a refl)
  continue-Ends fuel panicked f v kf lt h = λ e. cc
  continue-Ends fuel waiting f v kf lt h = λ e. cc
  continue-Ends fuel spent f v kf lt h = absurd (h refl)

  -- A loop's round: the first step takes an input.
  pub Ends-take :
      (fuel : ℕ) (m : Task A) (f : A → Task B)
      → Takes m
      → ((a : A) → Ends fuel (f a))
      → Ends (suc fuel) (m >>= f)
  unfolding ◌>>=◌
  Ends-take fuel m f km kf = record {
    within = λ w lt.
        continue-Ends fuel (m w).0 f (m w).1 kf
          (λ a p. omega (arith, km.takes w (m w).1 a (λ i. (p i, (m w).1)))) (km.consumes.ends w);
  }

  -- Any other step.
  pub Ends-bind :
      (fuel : ℕ) (m : Task A) (f : A → Task B)
      → Consumes m
      → ((a : A) → Ends fuel (f a))
      → Ends fuel (m >>= f)
  unfolding ◌>>=◌
  Ends-bind fuel m f km kf = record {
    within = λ w lt.
        continue-Ends fuel (m w).0 f (m w).1 kf (λ a p. omega (arith, km.shrinks w)) (km.ends w);
  }

  continue-ends_with :
      (r : Flow A) (f : A → Task B) (v : World)
      → r ≢ spent
      → ((a : A) → r ≡ done a → (f a v).0 ≢ spent)
      → (continue r f v).0 ≢ spent
  continue-ends_with (done a) f v h k = k a refl
  continue-ends_with panicked f v h k = λ e. cc
  continue-ends_with waiting f v h k = λ e. cc
  continue-ends_with spent f v h k = absurd (h refl)

  -- Two steps, the second of which is known to end after the result of the first.
  pub bind-ends :
      (m : Task A) (f : A → Task B) (w : World)
      → (m w).0 ≢ spent
      → ((a : A) → (m w).0 ≡ done a → (f a (m w).1).0 ≢ spent)
      → ((m >>= f) w).0 ≢ spent
  unfolding ◌>>=◌
  bind-ends m f w h k = continue-ends_with (m w).0 f (m w).1 h k

-- Every result of the task is of that kind.
pub record Gives {A : Type 0} (P : A → Type 0) (m : Task A) : Type 0 where
  pub result : (w : World) (a : A) → (m w).0 ≡ done a → P a

module _ {A B : Type 0} {P : B → Type 0} where
  continue-gives :
      (r : Flow A) (f : A → Task B) (v : World) (b : B)
      → ((a : A) → Gives P (f a))
      → (continue r f v).0 ≡ done b
      → P b
  continue-gives (done a) f v b k e = (k a).result v b e
  continue-gives panicked f v b k e = absurd cc
  continue-gives waiting f v b k e = absurd cc
  continue-gives spent f v b k e = absurd cc

  pub Gives-bind : (m : Task A) (f : A → Task B) → ((a : A) → Gives P (f a)) → Gives P (m >>= f)
  unfolding ◌>>=◌
  Gives-bind m f k = record { result = λ w b e. continue-gives (m w).0 f (m w).1 b k e }

pub Gives-pure : {B : Type 0} {P : B → Type 0} (b : B) → P b → Gives P (pure b)
unfolding pure
Gives-pure {B} {P} b p = record { result = λ w a e. subst P (done_injective b a e) p }
  where
    done_injective : (x y : B) → Flow.done x ≡ done y → x ≡ y
    done_injective x y q = cc

pub Ends-if :
    {A : Type 0} (fuel : ℕ) (b : Bool) (m n : Task A)
    → Ends fuel m
    → Ends fuel n
    → Ends fuel (if b then m else n)
Ends-if fuel true m n km kn = km
Ends-if fuel false m n km kn = kn

pub Ends-Consumes : {A : Type 0} (fuel : ℕ) {m : Task A} → Consumes m → Ends fuel m
Ends-Consumes fuel k = record { within = λ w lt. k.ends w }

pub Takes-wait_for : {A : Type 0} (view : Answer → Option A) → Takes (wait_for view)
unfolding wait_for
Takes-wait_for view = Takes-bind await _ Takes-await (λ a. Consumes-expect (view a))
