-- ===== src/Docker/Walked.antt =====
-- The walk above the feedback file: each directory on the way is one, and is no link.
use ai_kodu_runner.Base.{
  Text, false, Option, none, some, [], ◌∷◌, ◌++◌, any, text, bail, Result, ok, err, >>=-eq-ok, ◌≡◌,
  ◌≢◌, refl, ap, subst, arith,
}
use mathlib.Core.List.{append_assoc}
use ai_kodu_runner.Protocol.{
  Component, normal, cur_dir, root_dir, parent_dir, components, is_special, validate_feedback_file,
  workspace_relative,
}
use ai_kodu_runner.Docker.FeedbackPath.{
  FilePath, FileType, directory, symlink, other, Metadata, found, not_found, failed, FileSystem,
  parent, and_then, or_bail, walk, walk_above,
}

abbrev pub path_or_empty : Option FilePath → FilePath
path_or_empty none = []
path_or_empty (some path) = path

-- What is above a path, nothing if there is no parent.
abbrev pub above_of : FilePath → FilePath
above_of cs = path_or_empty (parent cs)

above_of-cons : (c d : Component) (cs : FilePath) → above_of (c ∷ d ∷ cs) ≡ c ∷ above_of (d ∷ cs)
unfolding parent
above_of-cons c d cs = ground arith

pub above_of-IsSpecial :
    (cs : FilePath) → any is_special cs ≡ false → any is_special (above_of cs) ≡ false
unfolding parent is_special
above_of-IsSpecial [] h = refl
above_of-IsSpecial (normal c ∷ []) h = refl
above_of-IsSpecial (cur_dir ∷ []) h = cc
above_of-IsSpecial (root_dir ∷ []) h = cc
above_of-IsSpecial (parent_dir ∷ []) h = cc
above_of-IsSpecial (c ∷ d ∷ cs) h =
    ground (arith, above_of-cons c d cs, above_of-IsSpecial (d ∷ cs))

-- What `validate_feedback_file` accepts has only normal components.
pub components-normal :
    (value p : Text) → validate_feedback_file value ≡ ok p → any is_special (components p) ≡ false
unfolding validate_feedback_file
components-normal value p h =
    let (relative, _, checked) = >>=-eq-ok (workspace_relative value) _ h in ground (arith, checked)

pub or_bail-eq-ok :
    (o : Option FilePath) (message : Text) (p : FilePath) → or_bail o message ≡ ok p → o ≡ some p
or_bail-eq-ok none message p h = cc
or_bail-eq-ok (some q) message p h = cc

module _ (fs : FileSystem) where
  open fs use {Files, canonicalize, symlink_metadata, create_dir, created, kept}

  abbrev pub IsDirectory : Files → FilePath → Type 0
  IsDirectory s p = symlink_metadata s p ≡ found directory

  -- Nothing that was there has another type.
  abbrev pub Keeps : Files → Files → Type 0
  Keeps s s' =
      (q : FilePath) (t : FileType)
      → symlink_metadata s q ≡ found t
      → symlink_metadata s' q ≡ found t

  -- Each step down from `base` along a path is a directory.
  abbrev pub AreDirectories : Files → (base : FilePath) → FilePath → Type 0
  AreDirectories s base [] = Unit
  AreDirectories s base (c ∷ cs) =
      IsDirectory s (base ++ c ∷ []) × AreDirectories s (base ++ c ∷ []) cs

  -- What is known once a directory has been made, or has not.
  made :
      (next : FilePath) (cs : FilePath) (s s' : Files) (r : Result (Unit {0}))
      → (create_dir s next).0 ≡ r
      → ((t : Files) → walk fs next cs t ≡ (ok tt, s') → AreDirectories s' next cs × Keeps t s')
      → and_then fs (r, (create_dir s next).1) (walk fs next cs) ≡ (ok tt, s')
      → IsDirectory s' next × AreDirectories s' next cs × Keeps s s'
  made next cs s s' (err e) is later h = cc
  made next cs s s' (ok done) is later h =
      let (dirs, keeps) = later (create_dir s next).1 h in
      (keeps next directory (created s next is), dirs, λ q t e. keeps q t (kept s next q t e))

  -- One step of the walk.
  entered :
      (next : FilePath) (cs : FilePath) (s s' : Files) (m : Metadata)
      → symlink_metadata s next ≡ m
      → ((t : Files) → walk fs next cs t ≡ (ok tt, s') → AreDirectories s' next cs × Keeps t s')
      → (elim m as (λ _. Result (Unit {0}) × Files) [
        | found symlink ↦ (err (bail (text "feedback_file parent must not be a symlink")), s)
        | found other ↦ (err (bail (text "feedback_file parent is not a directory")), s)
        | found directory ↦ walk fs next cs s
        | failed e ↦ (err e, s)
        | not_found ↦ and_then fs (create_dir s next) (walk fs next cs)
      ])
        ≡ (ok tt, s')
      → IsDirectory s' next × AreDirectories s' next cs × Keeps s s'
  entered next cs s s' (found symlink) is later h = cc h
  entered next cs s s' (found other) is later h = cc h
  entered next cs s s' (failed e) is later h = cc h
  entered next cs s s' (found directory) is later h =
      let (dirs, keeps) = later s h in (keeps next directory is, dirs, keeps)
  entered next cs s s' not_found is later h = made next cs s s' (create_dir s next).0 refl later h

  pub walk-AreDirectories :
      (cs current : FilePath) (s s' : Files)
      → any is_special cs ≡ false
      → walk fs current cs s ≡ (ok tt, s')
      → AreDirectories s' current cs × Keeps s s'
  unfolding walk is_special
  walk-AreDirectories [] current s s' n h =
      (tt, λ q t e. subst (λ r. symlink_metadata r q ≡ found t) (ap (λ r. r.1) h) e)
  walk-AreDirectories (normal c ∷ cs) current s s' n h =
      let next = current ++ normal c ∷ [] in
      let (dir, dirs, keeps) =
        entered next cs s s' (symlink_metadata s next) refl
          (λ t e. walk-AreDirectories cs next t s' n e) h in
      ((dir, dirs), keeps)
  walk-AreDirectories (cur_dir ∷ cs) current s s' n h = cc n
  walk-AreDirectories (root_dir ∷ cs) current s s' n h = cc n
  walk-AreDirectories (parent_dir ∷ cs) current s s' n h = cc n

  pub below :
      (front : FilePath) (c : Component) (rest base : FilePath) (s : Files)
      → front ≢ []
      → AreDirectories s base (above_of (front ++ c ∷ rest))
      → IsDirectory s (base ++ front)
  below [] c rest base s n d = absurd (n refl)
  below (f ∷ []) c rest base s n d = (subst (AreDirectories s base) (above_of-cons f c rest) d).0
  below (f ∷ g ∷ front) c rest base s n d =
      subst (IsDirectory s) (append_assoc base (f ∷ []) (g ∷ front)) (
        below (g ∷ front) c rest (base ++ f ∷ []) s (λ e. cc)
          (subst (AreDirectories s base) (above_of-cons f g (front ++ c ∷ rest)) d).1)

  pub above-AreDirectories :
      (above : Option FilePath) (base : FilePath) (s s' : Files)
      → any is_special (path_or_empty above) ≡ false
      → (elim above as (λ _. Result (Unit {0}) × Files) [
        | none ↦ (ok tt, s)
        | some path ↦ walk fs base path s
      ])
        ≡ (ok tt, s')
      → AreDirectories s' base (path_or_empty above) × Keeps s s'
  above-AreDirectories none base s s' n h =
      (tt, λ q t e. subst (λ r. symlink_metadata r q ≡ found t) (ap (λ r. r.1) h) e)
  above-AreDirectories (some above) base s s' n h = walk-AreDirectories above base s s' n h

  pub walk_above-AreDirectories :
      (cs base : FilePath) (s s' : Files)
      → any is_special cs ≡ false
      → walk_above fs base cs s ≡ (ok tt, s')
      → AreDirectories s' base (above_of cs) × Keeps s s'
  unfolding walk_above
  walk_above-AreDirectories cs base s s' n h =
      above-AreDirectories (parent cs) base s s' (above_of-IsSpecial cs n) h
