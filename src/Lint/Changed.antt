-- ===== src/Lint/Changed.antt =====
-- internal/lint/changed.go: which findings a run answers for. What git prints, and the paths of the host (path/filepath
-- and the symbolic links of the file system), are parameters; the separator is a slash.
pub mod Kept
mod Tests
use clickhouse_ruler.Base.{
  Bool, true, false, ◌||◌, String, List, [], ◌∷◌, ◌++◌, Option, none, some, Result, ok, err,
  if◌then◌else◌, string_eq, ◌==◌, nat_beq, keep_if, map,
}
use Prim.Native.Char.{code}
use clickhouse_ruler.Text.{concat, codes, has_prefix}
use clickhouse_ruler.Lint.{Problem}

-- `files` is the set of resolved paths, none where the filter keeps everything.
pub record Filter : Type 0 where
  pub files : Option (List String)
  pub note : String

pub record Host : Type 0 where
  pub abs : String → Result String String
  pub clean : String → String
  pub eval_symlinks : String → Result String String
  pub join_path : String → String → String
  pub base : String → String

unfoldable pub member : String → List String → Bool
member x [] = false
member x (y ∷ ys) = (x == y) || member x ys

-- What stands before the first line break, and what follows it.
unfoldable split_from : String → String × List String
split_from String.[] = (String.[], [])
split_from (String.◌∷◌ c s) =
    let (line, more) = split_from s in
    if nat_beq (code c) 10 then (String.[], line ∷ more) else (String.◌∷◌ c line, more)

-- lines
unfoldable pub lines : String → List String
unfolding split_from
lines out = if out == "" then [] else (split_from out).0 ∷ (split_from out).1

module _ (H : Host) where
  -- resolvePath
  unfoldable pub resolve_path : String → String
  resolve_path path = elim (H.abs path) [
    | err e ↦ H.clean path
    | ok abs ↦ elim (H.eval_symlinks abs) [ ok resolved ↦ resolved | err e ↦ abs ]
  ]

  unfoldable pub is_kept : Filter → Problem → Bool
  unfolding resolve_path member
  is_kept f p = elim f.files [ none ↦ true | some files ↦ member (resolve_path p.file) files ]

  -- Filter.Keep
  unfoldable pub keep : Filter → List Problem → List Problem
  unfolding is_kept
  keep f problems = elim f.files [ none ↦ problems | some files ↦ keep_if (is_kept f) problems ]

  abbrev widening : String → Filter
  widening note = record { files = none; note = note }

  unfoldable pub widened : List String → List String
  unfolding resolve_path
  widened [] = []
  widened (path ∷ paths) =
      let rest = widened paths in if path == "" then rest else resolve_path path ∷ rest

  -- The loop over the files that git names, on the set of the files before.
  unfoldable pub changed_files : String → List String → List String → List String → Filter
  unfolding resolve_path member concat
  changed_files root widen files [] = record { files = some files; note = "" }
  changed_files root widen files (rel ∷ rels) =
      let path = resolve_path (H.join_path root rel) in
      let rest = changed_files root widen (path ∷ files) rels in
      if member path widen || (H.base rel == "policy.yaml")
      then record {
        files = none;
        note = concat (
            "checking every rule: " ∷ rel ∷ " changed, which affects rules the diff does not name"
            ∷ []);
      }
      else rest

  -- ChangedSince, on what git answers to its arguments.
  unfoldable pub changed_since :
      (List String → Result String String) → String → List String → Filter
  unfolding widened changed_files lines concat
  changed_since git ref widen = elim (git ("merge-base" ∷ "HEAD" ∷ ref ∷ [])) [
    | err e ↦ record {
      files = none;
      note = concat (
          "checking every rule: no merge base with " ∷ ref
          ∷ ", which a shallow checkout also causes (" ∷ e ∷ ")" ∷ []);
    }
    | ok base ↦ elim (git ("diff" ∷ "--name-only" ∷ base ∷ [])) [
      | err e ↦ record {
        files = none;
        note =
            concat
              ("checking every rule: cannot read the diff against " ∷ base ∷ " (" ∷ e ∷ ")" ∷ []);
      }
      | ok diff ↦ elim (git ("ls-files" ∷ "--others" ∷ "--exclude-standard" ∷ "--full-name" ∷ [])) [
        | err e ↦ record {
          files = none;
          note = concat ("checking every rule: cannot list untracked files (" ∷ e ∷ ")" ∷ []);
        }
        | ok untracked ↦ elim (git ("rev-parse" ∷ "--show-toplevel" ∷ [])) [
          | err e ↦ record {
            files = none;
            note = concat ("checking every rule: cannot find the repository root (" ∷ e ∷ ")" ∷ []);
          }
          | ok root ↦ changed_files root (widened widen) [] (lines diff ++ lines untracked)
        ]
      ]
    ]
  ]

  unfoldable pub is_under : String → String → Bool
  unfolding has_prefix codes concat
  is_under under file =
      (file == under) || has_prefix (codes file) (codes (concat (under ∷ "/" ∷ [])))

  -- The loop over the paths that were asked for.
  unfoldable pub named_files : List String → List String → List String → Result String Filter
  unfolding resolve_path is_under concat
  named_files resolved files [] = ok record { files = some files; note = "" }
  named_files resolved files (arg ∷ args) =
      let matched = keep_if (is_under (resolve_path arg)) resolved in
      let rest = named_files resolved (matched ++ files) args in
      elim matched [ [] ↦ err (concat ("no rule file at or under " ∷ arg ∷ [])) | f ∷ fs ↦ rest ]

  -- Paths
  unfoldable pub paths : List String → List String → Result String Filter
  unfolding resolve_path named_files
  paths rule_files [] = ok record { files = none; note = "" }
  paths rule_files (arg ∷ args) = named_files (map resolve_path rule_files) [] (arg ∷ args)
