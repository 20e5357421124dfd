-- ===== src/Docker/Makes.antt =====
-- The containers that a step on the executor's state makes, rule by rule.
use ai_kodu_runner.Base.{
  ℕ, Bool, true, false, Text, Option, none, some, List, [], ◌∷◌, ◌++◌, Result, ok, err, Error, ◌≡◌,
  refl, ap, sym, ◌∙◌, All, All-append,
}
use mathlib.Core.List.{append_assoc, append-nil}
use ai_kodu_runner.Journal.{Action}
use ai_kodu_runner.Docker.Engine.{
  ContainerConfig, Host, World, Run, proceed, pure, fail, lift, on_error, journaled, ask,
  ask_result, update, ◌>>=◌,
}
use ai_kodu_runner.Docker.Resources.{
  create_network, create_container, start_container, remove_container, remove_containers,
  remove_network,
}
use ai_kodu_runner.Docker.Frame.{IsQuiet, ask_result-IsQuiet, ask-IsQuiet}
use ai_kodu_runner.Docker.Ends.{Ends, any_end}

module _ (P : ContainerConfig → Type 0) where
  -- Between the states containers have been made, each with `P`.
  abbrev pub Adds : World → World → Type 0
  Adds w end = (new : List ContainerConfig) × (end.made ≡ w.made ++ new) × All P new

  -- Every run of the step makes only such, whatever it results in.
  unfoldable pub Makes {ℓ} : {A : Type ℓ} → Run A → Type 0
  Makes m = (w : World) → Adds w (m w).1

  Adds-same : (w end : World) → end.made ≡ w.made → Adds w end
  Adds-same w end h = ([], h ∙ sym (append-nil w.made), tt)

  Adds-trans : (a b c : World) → Adds a b → Adds b c → Adds a c
  Adds-trans a b c (new, h, p) (more, k, q) = (
    new ++ more,
    k ∙ ap (λ made. made ++ more) h ∙ append_assoc a.made new more,
    All-append P new more p q,
  )

  pub fail-Makes {ℓ} : (A : Type ℓ) (e : Error) → Makes {A = A} (fail e)
  unfolding Makes
  fail-Makes A e w = Adds-same w w refl

  module _ {ℓ} {A : Type ℓ} where
    pub quiet-Makes : (m : Run A) → IsQuiet m → Makes m
    unfolding Makes IsQuiet
    quiet-Makes m q w = Adds-same w (m w).1 (q w).3

    pub ask-Makes : (f : ℕ → A) → Makes (ask f)
    ask-Makes f = quiet-Makes _ (ask-IsQuiet f)

    pub ask_result-Makes : (f : ℕ → Result A) → Makes (ask_result f)
    ask_result-Makes f = quiet-Makes _ (ask_result-IsQuiet f)

    pub journaled-Makes : (m : Action A) → Makes (journaled m)
    unfolding Makes journaled
    journaled-Makes m w = Adds-same w (journaled m w).1 refl

    pub pure-Makes : (a : A) → Makes (pure a)
    unfolding Makes
    pure-Makes a w = Adds-same w w refl

    pub lift-Makes : (r : Result A) → Makes (lift r)
    unfolding lift
    lift-Makes (ok a) = pure-Makes a
    lift-Makes (err e) = fail-Makes A e

    recovered :
        (r : Result A) (cleanup : Run (Unit {0})) (w end : World)
        → Adds w end
        → Makes cleanup
        → let all : Result A × World = elim r [
          | ok a ↦ (ok a, end)
          | err e ↦ (err e, (cleanup end).1)
        ] in
          Adds w all.1
    unfolding Makes
    recovered (ok a) cleanup w end h q = h
    recovered (err e) cleanup w end h q = Adds-trans w end (cleanup end).1 h (q end)

    pub on_error-Makes :
        (m : Run A) (cleanup : Run (Unit {0}))
        → Makes m
        → Makes cleanup
        → Makes (on_error m cleanup)
    unfolding on_error Makes
    on_error-Makes m cleanup p q w = recovered (m w).0 cleanup w (m w).1 (p w) q

    pub test-Makes :
        (b : Bool) (m k : Run A) → Makes m → Makes k → Makes (elim b [ true ↦ m | false ↦ k ])
    test-Makes true m k p q = p
    test-Makes false m k p q = q

    pub result-Makes {κ} :
        {B : Type κ} (r : Result B) (k : B → Run A) (m : Error → Run A)
        → ((b : B) → Makes (k b))
        → ((e : Error) → Makes (m e))
        → Makes (elim r [ ok b ↦ k b | err e ↦ m e ])
    result-Makes (ok b) k m p q = p b
    result-Makes (err e) k m p q = q e

    -- The case of the option may be used for the rest.
    pub option-given-Makes {κ} :
        {B : Type κ} (o : Option B) (m : Run A) (k : B → Run A)
        → Makes m
        → ((b : B) → o ≡ some b → Makes (k b))
        → Makes (elim o [ none ↦ m | some b ↦ k b ])
    option-given-Makes none m k p q = p
    option-given-Makes (some b) m k p q = q b refl

    pub option-Makes {κ} :
        {B : Type κ} (o : Option B) (m : Run A) (k : B → Run A)
        → Makes m
        → ((b : B) → Makes (k b))
        → Makes (elim o [ none ↦ m | some b ↦ k b ])
    option-Makes o m k p q = option-given-Makes o m k p (λ b _. q b)

  module _ {ℓ κ} {A : Type ℓ} {B : Type κ} where
    proceed-Adds :
        (r : Result A) (f : A → Run B) (w : World)
        → ((a : A) → r ≡ ok a → Makes (f a))
        → Adds w (proceed r f w).1
    unfolding Makes
    proceed-Adds (ok a) f w p = p a refl w
    proceed-Adds (err e) f w p = Adds-same w w refl

    -- What is known of the first step's value may be used for the rest.
    pub >>=-given-Makes :
        (m : Run A) (f : A → Run B) (Q : A → Type 0)
        → Makes m
        → ((w : World) → Ends m w (λ a _. Q a))
        → ((a : A) → Q a → Makes (f a))
        → Makes (m >>= f)
    unfolding ◌>>=◌ Makes Ends
    >>=-given-Makes m f Q p q r w =
        Adds-trans w (m w).1 (proceed (m w).0 f (m w).1).1 (p w)
          (proceed-Adds (m w).0 f (m w).1 (λ a h. r a (q w a (m w).1 (ap (λ x. (x, (m w).1)) h))))

    pub >>=-Makes :
        (m : Run A) (f : A → Run B) → Makes m → ((a : A) → Makes (f a)) → Makes (m >>= f)
    >>=-Makes m f p r = >>=-given-Makes m f (λ _. Unit) p (any_end m) (λ a _. r a)

  pub update-Makes : (f : World → World) → ((w : World) → (f w).made ≡ w.made) → Makes (update f)
  unfolding update Makes
  update-Makes f h w = Adds-same w (f w) (h w)

  module _ (host : Host) where
    pub create_network-Makes : Makes (create_network host)
    unfolding create_network
    create_network-Makes =
        >>=-Makes _ _ (ask_result-Makes host.create)
          (λ id. >>=-Makes _ _ (update-Makes _ (λ w. refl)) (λ _. pure-Makes id))

    pub create_container-Makes : (c : ContainerConfig) → P c → Makes (create_container host c)
    unfolding create_container update Makes
    create_container-Makes c p =
        >>=-Makes _ _ (ask_result-Makes host.create)
          (λ id. >>=-Makes _ _ (λ w. (c ∷ [], refl, (p, tt))) (λ _. pure-Makes id))

    pub start_container-Makes : (id : Text) → Makes (start_container host id)
    unfolding start_container
    start_container-Makes id = ask_result-Makes host.request

    pub remove_container-Makes : (id : Text) → Makes (remove_container host id)
    unfolding remove_container
    remove_container-Makes id =
        >>=-Makes _ _ (ask-Makes host.request) (λ _. update-Makes _ (λ w. refl))

    pub remove_containers-Makes : (ids : List Text) → Makes (remove_containers host ids)
    unfolding remove_containers
    remove_containers-Makes [] = pure-Makes tt
    remove_containers-Makes (id ∷ rest) =
        >>=-Makes _ _ (remove_container-Makes id) (λ _. remove_containers-Makes rest)

    pub remove_network-Makes : (id : Option Text) → Makes (remove_network host id)
    unfolding remove_network
    remove_network-Makes none = pure-Makes tt
    remove_network-Makes (some id) =
        >>=-Makes _ _ (ask-Makes host.request) (λ _. update-Makes _ (λ w. refl))

pub ruleset makes = (
  ask-Makes, ask_result-Makes, journaled-Makes, fail-Makes, pure-Makes, lift-Makes, on_error-Makes,
  test-Makes, option-Makes, >>=-Makes, create_network-Makes, create_container-Makes,
  start_container-Makes, remove_container-Makes, remove_containers-Makes, remove_network-Makes,
)
