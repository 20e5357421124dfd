-- ===== src/Docker/Cleared.antt =====
-- What a clean-up leaves of the containers and the networks.
use ai_kodu_runner.Base.{
  ap, Option, text, text_eq, text_eq_iff, member, not, ◌&&◌, is_empty, if◌then◌else◌, sym, ◌∙◌,
  to_string, ◌++◌, subst, ℕ, ◌+◌, Text, Bool, true, false, ◌||◌, none, some, List, [], ◌∷◌, Result,
  ok, err, ◌≡◌, refl, arith,
}
use ai_kodu_runner.Lifecycle.{destroying, destroyed, as_str}
use ai_kodu_runner.Docker.Engine.{ContainerSummary, NetworkSummary, Host, World, ask, update, ◌>>=◌}
use ai_kodu_runner.Docker.Resources.{without, left_after, refused_after}
use ai_kodu_runner.Docker.Cleanup.{
  Progress, note_error, is_running, is_attached, clean_containers, clean_networks,
}
use ai_kodu_runner.Docker.Ends.{Ends, Ends-pure, Ends-test, Ends-option}

-- The state of a container is that it runs, and a network has a container.
abbrev pub runs : Option Text → Bool
runs none = false
runs (some state) = text_eq state (text "running")

abbrev pub is_used : Option (List Text) → Bool
is_used none = false
is_used (some []) = false
is_used (some (c ∷ cs)) = true

abbrev pub identified : Option Text → List Text
identified none = []
identified (some id) = id ∷ []

-- The identifiers of the containers that do not run, and of the networks that have no container.
abbrev pub idle_containers : List ContainerSummary → List Text
idle_containers [] = []
idle_containers (c ∷ cs) =
    if runs c.state then idle_containers cs else identified c.id ++ idle_containers cs

abbrev pub idle_networks : List NetworkSummary → List Text
idle_networks [] = []
idle_networks (n ∷ ns) =
    if is_used n.containers then idle_networks ns else identified n.id ++ idle_networks ns

-- The second list has what the first one has, less the identifiers.
abbrev pub IsLeft : (gone before after : List Text) → Type 0
IsLeft gone before after = (x : Text) → member x after ≡ (member x before && not (member x gone))

-- Whether one of them is in use.
abbrev pub any_runs : List ContainerSummary → Bool
any_runs [] = false
any_runs (c ∷ cs) = runs c.state || any_runs cs

abbrev pub any_used : List NetworkSummary → Bool
any_used [] = false
any_used (n ∷ ns) = is_used n.containers || any_used ns

is_running_lem : (c : ContainerSummary) → is_running c ≡ runs c.state
is_running_lem c = by_state c.state
  where
    by_state :
        (o : Option Text) → elim o [ none ↦ false | some s ↦ text_eq s (text "running") ] ≡ runs o
    by_state none = refl
    by_state (some s) = refl

is_attached_lem : (n : NetworkSummary) → is_attached n ≡ is_used n.containers
is_attached_lem n = by_containers n.containers
  where
    by_containers :
        (o : Option (List Text)) → elim o [ none ↦ false | some cs ↦ not (is_empty cs) ] ≡ is_used o
    by_containers none = refl
    by_containers (some []) = refl
    by_containers (some (c ∷ cs)) = refl

member-without :
    (x id : Text) (xs : List Text) → member x (without id xs) ≡ (member x xs && not (text_eq id x))
unfolding member without
member-without x id [] = refl
member-without x id (y ∷ ys) =
    ground (arith, member-without x id ys, text_eq_iff id y, text_eq_iff id x, text_eq_iff y x)

IsLeft-nil : (xs : List Text) → IsLeft [] xs xs
unfolding member
IsLeft-nil xs x = ground arith

IsLeft-cons :
    (id : Text) (gone before after : List Text)
    → IsLeft gone (without id before) after
    → IsLeft (id ∷ gone) before after
unfolding member
IsLeft-cons id gone before after h x = ground (arith, h x, member-without x id before)

-- What leaves everything before or after changes nothing.
pub IsLeft-first :
    (gone a b c d e f : List Text)
    → b ≡ a
    → IsLeft gone b c
    → d ≡ c
    → IsLeft [] d e
    → f ≡ e
    → IsLeft gone a f
unfolding member
IsLeft-first gone a b c d e f p h q k r x =
    ground (arith, ap (member x) p, h x, ap (member x) q, k x, ap (member x) r)

pub IsLeft-last :
    (gone a b c d e f : List Text)
    → b ≡ a
    → IsLeft [] b c
    → d ≡ c
    → IsLeft gone d e
    → f ≡ e
    → IsLeft gone a f
unfolding member
IsLeft-last gone a b c d e f p h q k r x =
    ground (arith, ap (member x) p, h x, ap (member x) q, k x, ap (member x) r)

-- The events of the jobs that are destroyed.
abbrev pub destructions : List (Text × ℕ) → List (Text × ℕ × Text)
destructions [] = []
destructions ((id, attempt) ∷ rest) =
    (id, attempt, as_str destroying) ∷ (id, attempt, as_str destroyed) ∷ destructions rest

-- The step has left the journal; what is in use has been noted; and where no error is noted, none was
-- before, and those listed as idle are gone.
pub record Cleaned (gone gone_networks : List Text) (active : Bool) (before : Progress) (w : World)
    (p : Progress) (end : World) : Type 0 where
  pub same_journal : end.journal ≡ w.journal
  pub noted : p.active_resources ≡ active
  pub no_error : p.cleanup_error ≡ none → before.cleanup_error ≡ none
  pub left : p.cleanup_error ≡ none → IsLeft gone w.containers end.containers
  pub left_over : p.cleanup_error ≡ none → IsLeft gone_networks w.networks end.networks

note_error_active :
    (r : Result (Unit {0})) (p : Progress) → (note_error r p).active_resources ≡ p.active_resources
note_error_active (ok tt) p = refl
note_error_active (err e) p = refl

-- Where no error is noted after an answer, none was before, and what was asked for is removed.
agreed :
    (r : Result (Unit {0})) (p : Progress)
    → (note_error r p).cleanup_error ≡ none
    → (p.cleanup_error ≡ none)
      × ((id : Text) (ids : List Text) → left_after r id ids ≡ without id ids)
agreed (ok tt) p h = (h, λ id ids. refl)
agreed (err e) p h = absurd (first_noted p.cleanup_error h)
  where
    first_noted :
        (o : Option Text)
        → ◌≡◌ {A = Option Text}
            (elim o [ none ↦ some (to_string e) | some first ↦ some first ])
            none
        → ⊥
    first_noted none h = cc
    first_noted (some first) h = cc

module _ (host : Host) where
  pub clean_containers-Ends :
      (cs : List ContainerSummary) (p : Progress) (w : World)
      → Ends
          (clean_containers host cs p)
          w
          (Cleaned (idle_containers cs) [] (p.active_resources || any_runs cs) p w)
  unfolding clean_containers Ends ask update ◌>>=◌
  clean_containers-Ends [] p w = Ends-pure p w _ (record {
    same_journal = refl;
    noted = ground arith;
    no_error = λ h. h;
    left = λ h. IsLeft-nil w.containers;
    left_over = λ h. IsLeft-nil w.networks;
  })
  clean_containers-Ends (c ∷ cs) p w =
      Ends-test (is_running c) _ _ w _
        (λ running a end h.
          let t = clean_containers-Ends cs (record p { active_resources = true }) w a end h in
          let busy = sym (is_running_lem c) ∙ running in
          record {
            same_journal = t.same_journal;
            noted = ground (arith, busy, t.noted);
            no_error = t.no_error;
            left = rw busy (t.left);
            left_over = t.left_over;
          })
        (λ stopped.
          let still = sym (is_running_lem c) ∙ stopped in
          Ends-option c.id _ _ w _
            (λ nameless a end h.
              let t = clean_containers-Ends cs p w a end h in
              record {
                same_journal = t.same_journal;
                noted = ground (arith, still, t.noted);
                no_error = t.no_error;
                left = rw (still, nameless) (t.left);
                left_over = t.left_over;
              })
            (λ id named a end h.
              let answer = host.request w.now in
              let t =
                clean_containers-Ends cs (note_error answer p)
                  (record w {
                    now = w.now + 1;
                    containers = left_after answer id w.containers;
                    refused = refused_after answer id w.refused;
                  })
                  a end h in
              record {
                same_journal = t.same_journal;
                noted = ground (arith, still, t.noted, note_error_active answer p);
                no_error = λ calm. (agreed answer p (t.no_error calm)).0;
                left =
                    rw (still, named)
                      (λ calm. IsLeft-cons id _ _ _ (
                        subst (λ xs. IsLeft (idle_containers cs) xs end.containers)
                          ((agreed answer p (t.no_error calm)).1 id w.containers) (t.left calm)));
                left_over = t.left_over;
              }))

  pub clean_networks-Ends :
      (ns : List NetworkSummary) (p : Progress) (w : World)
      → Ends
          (clean_networks host ns p)
          w
          (Cleaned [] (idle_networks ns) (p.active_resources || any_used ns) p w)
  unfolding clean_networks Ends ask update ◌>>=◌
  clean_networks-Ends [] p w = Ends-pure p w _ (record {
    same_journal = refl;
    noted = ground arith;
    no_error = λ h. h;
    left = λ h. IsLeft-nil w.containers;
    left_over = λ h. IsLeft-nil w.networks;
  })
  clean_networks-Ends (n ∷ ns) p w =
      Ends-test (is_attached n) _ _ w _
        (λ attached a end h.
          let t = clean_networks-Ends ns (record p { active_resources = true }) w a end h in
          let used = sym (is_attached_lem n) ∙ attached in
          record {
            same_journal = t.same_journal;
            noted = ground (arith, used, t.noted);
            no_error = t.no_error;
            left = t.left;
            left_over = rw used (t.left_over);
          })
        (λ free.
          let unused = sym (is_attached_lem n) ∙ free in
          Ends-option n.id _ _ w _
            (λ nameless a end h.
              let t = clean_networks-Ends ns p w a end h in
              record {
                same_journal = t.same_journal;
                noted = ground (arith, unused, t.noted);
                no_error = t.no_error;
                left = t.left;
                left_over = rw (unused, nameless) (t.left_over);
              })
            (λ id named a end h.
              let answer = host.request w.now in
              let t =
                clean_networks-Ends ns (note_error answer p)
                  (record w {
                    now = w.now + 1;
                    networks = left_after answer id w.networks;
                    refused = refused_after answer id w.refused;
                  })
                  a end h in
              record {
                same_journal = t.same_journal;
                noted = ground (arith, unused, t.noted, note_error_active answer p);
                no_error = λ calm. (agreed answer p (t.no_error calm)).0;
                left = t.left;
                left_over =
                    rw (unused, named)
                      (λ calm. IsLeft-cons id _ _ _ (
                        subst (λ xs. IsLeft (idle_networks ns) xs end.networks)
                          ((agreed answer p (t.no_error calm)).1 id w.networks)
                          (t.left_over calm)));
              }))
