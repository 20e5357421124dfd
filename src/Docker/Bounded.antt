-- ===== src/Docker/Bounded.antt =====
-- What a command has written, and what of it is kept.
use ai_kodu_runner.Base.{
  ℕ, zero, suc, ◌-◌, negsuc, Text, Bool, false, ◌||◌, none, some, List, [], ◌∷◌, ◌++◌, length,
  length-append, length-take, take, min, ltb, ok, err, ◌≡◌, ◌⊎◌, refl, ap, sym, ◌∙◌, arith,
}
use ai_kodu_runner.Docker.Output.{LogTurn}
use ai_kodu_runner.Docker.Engine.{
  ExecutionTermination, ExecResult, Pick, cancels, expires, takes, StartExecResults, attached,
  detached, Script, World, pure,
}
use ai_kodu_runner.Docker.Exec.{append_bounded}

same_take {ℓ} : {A : Type ℓ} (m n : ℕ) (xs : List A) → m ≡ n → take m xs ≡ take n xs
same_take m n xs h = ap (λ k. take k xs) h

take-append {ℓ} :
    {A : Type ℓ} (n : ℕ) (xs ys : List A) → take n (xs ++ ys) ≡ take n xs ++ take (n - length xs) ys
take-append zero xs ys = same_take 0 (0 - length xs) ys (omega arith)
take-append (suc n) [] ys = same_take (suc n) (suc n - 0) ys (omega arith)
take-append (suc n) (x ∷ xs) ys =
    ap (λ r. x ∷ r)
      (take-append n xs ys
        ∙ ap (λ r. take n xs ++ r)
            (same_take (n - length xs) (suc n - length (x ∷ xs)) ys (omega arith)))

take-min {ℓ} : {A : Type ℓ} (n : ℕ) (xs : List A) → take (min (length xs) n) xs ≡ take n xs
take-min zero xs = same_take (min (length xs) 0) 0 xs (omega arith)
take-min (suc n) [] = same_take (min 0 (suc n)) 0 [] (omega arith)
take-min (suc n) (x ∷ xs) =
    same_take (min (length (x ∷ xs)) (suc n)) (suc (min (length xs) n)) (x ∷ xs) (omega arith)
    ∙ ap (λ r. x ∷ r) (take-min n xs)

-- A stream that holds what is within the limit of `before` holds, after `bytes`, what is within the
-- limit of both; and more has been cut exactly when both are beyond the limit.
pub append_bounded_lem :
    (limit : ℕ) (before bytes : List ℕ)
    → ((append_bounded (take limit before) bytes limit).1 ≡ take limit (before ++ bytes))
      × ((ltb limit (length before) || (append_bounded (take limit before) bytes limit).0)
          ≡ ltb limit (length (before ++ bytes)))
unfolding append_bounded
append_bounded_lem limit before bytes = (
  ap (λ r. take limit before ++ r)
        (take-min (limit - length (take limit before)) bytes
          ∙ same_take _ (limit - length before) bytes (omega (arith, length-take limit before)))
      ∙ sym (take-append limit before bytes),
  ground (arith, length-take limit before, length-append before bytes),
)

pub cut_left : (c a b x a' : Bool) → c ≡ (a || b) → (a || x) ≡ a' → (c || x) ≡ (a' || b)
cut_left c a b x a' h k = ground (arith, h, k)

pub cut_right : (c a b x a' : Bool) → c ≡ (b || a) → (a || x) ≡ a' → (c || x) ≡ (b || a')
cut_right c a b x a' h k = ground (arith, h, k)

pub ok_injective : (a b : ExecResult) → ok a ≡ ok b → a ≡ b
ok_injective a b h = cc h

pub pure_injective :
    (a b : ExecResult) (w end : World) → pure a w ≡ (ok b, end) → (a ≡ b) × (w ≡ end)
pure_injective a b w end h = (ok_injective a b (ap (λ p. p.0) h), ap (λ p. p.1) h)

abbrev pub started_turns : Pick StartExecResults → List LogTurn
started_turns cancels = []
started_turns expires = []
started_turns (takes (err e)) = []
started_turns (takes (ok detached)) = []
started_turns (takes (ok (attached output))) = output

abbrev pub played_turns : Pick (Unit {0}) → Pick StartExecResults → List LogTurn
played_turns cancels start = []
played_turns expires start = []
played_turns (takes (err e)) start = []
played_turns (takes (ok tt)) start = started_turns start

-- The output of a command: none where it is not started.
abbrev pub played : Script → List LogTurn
played script = played_turns script.create_exec script.start_exec

pub nothing_kept : (limit : ℕ) → ◌≡◌ {A = List ℕ} [] (take limit [])
nothing_kept zero = refl
nothing_kept (suc limit) = refl

pub nothing_cut :
    (limit : ℕ) → false ≡ (ltb limit (length {A = ℕ} []) || ltb limit (length {A = ℕ} []))
nothing_cut limit = ground arith

-- The result is that of the output `out` and `error`, captured up to the limit; the container has
-- been asked to stop exactly where the command was ended from outside, and then the status is -1.
abbrev pub IsCaptured :
    (limit : ℕ) → (id : Text) → (out error : List ℕ) → World → ExecResult → World → Type 0
IsCaptured limit id out error w r end =
    (r.stdout ≡ take limit out)
    × (r.stderr ≡ take limit error)
    × (r.truncated ≡ (ltb limit (length out) || ltb limit (length error)))
    × (((r.termination ≡ none) × (end.stopped ≡ w.stopped))
        ⊎ (((t : ExecutionTermination) × (r.termination ≡ some t))
            × (r.status ≡ negsuc 0)
            × (end.stopped ≡ w.stopped ++ id ∷ [])))
