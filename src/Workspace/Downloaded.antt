-- ===== src/Workspace/Downloaded.antt =====
-- What the download of an archive has received.
use ai_kodu_runner.Base.{
  ℕ, ◌+◌, ◌≤◌, ◌<◌, List, [], ◌∷◌, ◌++◌, map, length, concat, length-append, ok, err, ◌≡◌, ◌↔◌,
  refl, arith, ◌∙◌, sym, ap, subst, ltb, Bool-cases, inl, inr,
}
use mathlib.Core.List.{append_assoc, append-nil}
use ai_kodu_runner.Config.{Limits}
use ai_kodu_runner.Workspace.Download.{
  Arrival, chunk, stopped, expired, saturating_add, download_loop,
}

abbrev pub received_chunks : List (List ℕ) → List Arrival
received_chunks = map (λ c. chunk (ok c))

abbrev pub AreChunks : Limits → (received : List ℕ) → List Arrival → List ℕ → Type 0
AreChunks limits received arrivals b =
    (cs : List (List ℕ)) × (arrivals ≡ received_chunks cs)
    × (b ≡ received ++ concat cs)
    × (length b ≤ limits.max_archive_download_bytes)

length-append_append : (a b c : List ℕ) → length (a ++ (b ++ c)) ≡ length a + (length b + length c)
length-append_append a b c = omega (arith, length-append a (b ++ c), length-append b c)

module _ (limits : Limits)
    (bounded : limits.max_archive_download_bytes < 18446744073709551615) where
  loop_to :
      (received : List ℕ) (arrivals : List Arrival) (b : List ℕ)
      → length received ≤ limits.max_archive_download_bytes
      → download_loop limits received arrivals ≡ ok b
      → AreChunks limits received arrivals b
  unfolding download_loop
  loop_to received [] b small h =
      ([], refl, ground (arith, h, append-nil received), ground (arith, h, small))
  loop_to received (stopped ∷ rest) b small h = cc
  loop_to received (expired ∷ rest) b small h = cc
  loop_to received (chunk (err e) ∷ rest) b small h = cc
  loop_to received (chunk (ok c) ∷ rest) b small h =
      let many =
        ltb limits.max_archive_download_bytes (saturating_add (length received) (length c)) in
      elim (Bool-cases many) as (λ _. AreChunks limits received (chunk (ok c) ∷ rest) b) [
        | inl large ↦ ground (arith, h, large)
        | inr few ↦
            let (cs, same, bytes, fits) =
              loop_to (received ++ c) rest b
                (ground (arith, bounded, few, length-append received c)) (ground (arith, h, few)) in
            (
              c ∷ cs,
              ap (λ r. chunk (ok c) ∷ r) same,
              bytes ∙ append_assoc received c (concat cs),
              fits,
            )
      ]

  loop_from :
      (received : List ℕ) (cs : List (List ℕ))
      → length (received ++ concat cs) ≤ limits.max_archive_download_bytes
      → download_loop limits received (received_chunks cs) ≡ ok (received ++ concat cs)
  unfolding download_loop
  loop_from received [] small = ap ok (sym (append-nil received))
  loop_from received (c ∷ cs) small =
      let joined = append_assoc received c (concat cs) in
      let again =
        loop_from (received ++ c) cs
          (subst (λ r. length r ≤ limits.max_archive_download_bytes) (sym joined) small) in
      let fits : length received + length c ≤ limits.max_archive_download_bytes =
        omega (arith, length-append_append received c (concat cs), small) in
      ground (arith, fits, again ∙ ap ok joined)

  -- Where the limit is below 2^64 - 1, a download gives bytes exactly when every arrival is a chunk, the
  -- bytes are those of the chunks in their order, and there are no more of them than the limit.
  pub download_loop_iff :
      (arrivals : List Arrival) (b : List ℕ)
      → (download_loop limits [] arrivals ≡ ok b) ↔ (
          (cs : List (List ℕ)) × (arrivals ≡ received_chunks cs)
          × (b ≡ concat cs)
          × (length b ≤ limits.max_archive_download_bytes))
  download_loop_iff arrivals b = (
    loop_to [] arrivals b (omega arith),
    λ (cs, same, bytes, fits).
        subst (λ a. download_loop limits [] a ≡ ok b) (sym same)
          (loop_from [] cs (subst (λ r. length r ≤ limits.max_archive_download_bytes) bytes fits)
            ∙ ap ok (sym bytes)),
  )
