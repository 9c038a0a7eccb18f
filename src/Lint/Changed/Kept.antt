-- ===== src/Lint/Changed/Kept.antt =====
-- internal/lint/changed.go: which findings the two filters keep.
use clickhouse_ruler.Base.{
  ◌≡◌, refl, ◌∙◌, Bool, true, false, ◌||◌, String, List, [], ◌∷◌, ◌++◌, Result, ok, err, string_eq,
  ◌==◌, arith, Bool-cases, Result-cases, inl, inr,
}
use clickhouse_ruler.Lint.{Problem}
use clickhouse_ruler.Lint.Changed.{
  Host, member, resolve_path, is_kept, changed_files, changed_since, widened, lines,
}

or_false : (b : Bool) → (b || false) ≡ b
or_false true = refl
or_false false = refl

-- The file at the head stands in the set that the loop builds.
swapped : (w a x m : Bool) → ((w || a) || (x || m)) ≡ (((false || w) || (x || a)) || m)
swapped w a x m = ground arith

module _ (H : Host) where
  -- Whether a file that changed touches rules that the diff does not name.
  abbrev pub widens : String → List String → List String → Bool
  widens root widen [] = false
  widens root widen (rel ∷ rels) =
      (member (resolve_path H (H.join_path root rel)) widen || (H.base rel == "policy.yaml"))
      || widens root widen rels

  abbrev pub among_changed : String → String → List String → Bool
  among_changed file root [] = false
  among_changed file root (rel ∷ rels) =
      (file == resolve_path H (H.join_path root rel)) || among_changed file root rels

  is_kept-changed_files :
      (root : String) (widen files rels : List String) (p : Problem)
      → is_kept H (changed_files H root widen files rels) p ≡ (
          (widens root widen rels || among_changed (resolve_path H p.file) root rels)
          || member (resolve_path H p.file) files)
  unfolding changed_files is_kept member
  is_kept-changed_files root widen files [] p = ground arith
  is_kept-changed_files root widen files (rel ∷ rels) p =
      let path = resolve_path H (H.join_path root rel) in
      elim (Bool-cases (member path widen || (H.base rel == "policy.yaml"))) [
        | inl e ↦ rw (changed_files, e) refl
        | inr e ↦
            rw (changed_files, e)
              (is_kept-changed_files root widen (path ∷ files) rels p
                ∙ swapped (widens root widen rels) (among_changed (resolve_path H p.file) root rels)
                    (resolve_path H p.file == path) (member (resolve_path H p.file) files))
      ]

  -- What git answers to the four questions of ChangedSince, and what the filter then keeps.
  abbrev pub kept_by_git :
      (List String → Result String String) → String → List String → Problem → Bool
  kept_by_git git ref widen p = elim (git ("merge-base" ∷ "HEAD" ∷ ref ∷ [])) [
    | err e ↦ true
    | ok base ↦ elim (git ("diff" ∷ "--name-only" ∷ base ∷ [])) [
      | err e ↦ true
      | ok diff ↦ elim (git ("ls-files" ∷ "--others" ∷ "--exclude-standard" ∷ "--full-name" ∷ [])) [
        | err e ↦ true
        | ok untracked ↦ elim (git ("rev-parse" ∷ "--show-toplevel" ∷ [])) [
          | err e ↦ true
          | ok root ↦
              let rels = lines diff ++ lines untracked in
              widens root (widened H widen) rels || among_changed (resolve_path H p.file) root rels
        ]
      ]
    ]
  ]

  -- ChangedSince keeps a finding exactly where git does not answer one of its four questions, where a file that changed
  -- is a policy or one of those that affect other rules, or where the finding's own file changed.
  pub is_kept-changed_since :
      (git : List String → Result String String) (ref : String) (widen : List String) (p : Problem)
      → is_kept H (changed_since H git ref widen) p ≡ kept_by_git git ref widen p
  unfolding changed_since is_kept member
  is_kept-changed_since git ref widen p =
      elim (Result-cases (git ("merge-base" ∷ "HEAD" ∷ ref ∷ []))) [
        | inr (e, h) ↦ rw (changed_since, kept_by_git, h) refl
        | inl (base, h) ↦ elim (Result-cases (git ("diff" ∷ "--name-only" ∷ base ∷ []))) [
          | inr (e, h') ↦ rw (changed_since, kept_by_git, h, h') refl
          | inl (diff, h') ↦
              elim (Result-cases
                (git ("ls-files" ∷ "--others" ∷ "--exclude-standard" ∷ "--full-name" ∷ []))) [
                  | inr (e, k) ↦ rw (changed_since, kept_by_git, h, h', k) refl
                  | inl (untracked, k) ↦
                      elim (Result-cases (git ("rev-parse" ∷ "--show-toplevel" ∷ []))) [
                        | inr (e, k') ↦ rw (changed_since, kept_by_git, h, h', k, k') refl
                        | inl (root, k') ↦
                            let rels = lines diff ++ lines untracked in
                            rw (changed_since, kept_by_git, h, h', k, k')
                              (is_kept-changed_files root (widened H widen) [] rels p
                                ∙ or_false (
                                    widens root (widened H widen) rels
                                    || among_changed (resolve_path H p.file) root rels))
                      ]
                ]
        ]
      ]
