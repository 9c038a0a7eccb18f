-- ===== src/Alert/Annotate.antt =====
-- internal/alert/annotate.go: a rule's annotations rendered over one alert. What parses and executes
-- a template, and the formatting of floats and quoted strings, is Go's library and a parameter.
use clickhouse_ruler.Base.{
  ℕ, ◌-◌, ◌&&◌, ◌++◌, String, List, [], ◌∷◌, Option, none, some, map, ltb, if◌then◌else◌, string_eq,
  length, take, nat_beq, Result, ok, err, is_some,
}
use clickhouse_ruler.GoMap.{Map, get, put, put_all}
use clickhouse_ruler.Text.{sort_strings, concat, join, decimal}
use clickhouse_ruler.Rule.Template.{Node, template_fields}
use clickhouse_ruler.Alert.Data.{Alert}

-- text/template with missingkey=error, strconv.FormatFloat and strconv.Quote.
pub record Engine : Type 0 where
  pub parse : String → String → Result String Node
  pub run : Node → Map String String → Result String String
  pub format_float : ℕ → String
  pub quote : String → String

pub record AnnotationError : Type 0 where
  pub annotation : String
  pub error : String
  pub missing_keys : List String

-- rule.ErrorAnnotation
abbrev pub error_annotation : String
error_annotation = "ruler_error"

abbrev pub value_key : String
value_key = "value"

abbrev pub marker_keys : ℕ
marker_keys = 3

unfoldable pub keys_of : {V : Type 0} → Map String V → List String
keys_of [] = []
keys_of ((k, v) ∷ m) = k ∷ keys_of m

-- items[:len(items)-1] joined, then the last.
list_tail : String → List String → String
list_tail done [] = done
list_tail done (x ∷ []) = concat (done ∷ " and " ∷ x ∷ [])
list_tail done (x ∷ y ∷ ys) = list_tail (concat (done ∷ ", " ∷ x ∷ [])) (y ∷ ys)

unfoldable pub list_words : List String → String
unfolding list_tail concat
list_words [] = ""
list_words (x ∷ xs) = list_tail x xs

-- What the loop of `annotate` has built so far.
pub record Rendering : Type 0 where
  pub out : Map String String
  pub errors : List String
  pub failures : List AnnotationError

module _ (E : Engine) where
  unfoldable pub marker : String → List String → String
  unfolding concat list_words decimal
  marker name missing =
      let n = length missing in
      let named = if ltb marker_keys n then take marker_keys missing else missing in
      let rest : List String =
        if ltb marker_keys n then concat (decimal (n - marker_keys) ∷ " more" ∷ []) ∷ [] else [] in
      let quoted = map E.quote named ++ rest in
      if nat_beq n 0
      then concat ("<ruler: annotation " ∷ E.quote name ∷ " failed>" ∷ [])
      else concat (
          "<ruler: annotation "
          ∷ E.quote name
          ∷ " failed: no "
          ∷ (if ltb 1 n then "labels" else "label")
          ∷ " "
          ∷ list_words quoted
          ∷ ">"
          ∷ [])

  missing_of : List String → Map String String → List String
  missing_of [] values = []
  missing_of (f ∷ fs) values =
      let rest = missing_of fs values in if is_some (get f values) then rest else f ∷ rest

  -- A template that never parsed has no fields.
  unfoldable pub missing_keys : Option Node → Map String String → List String
  unfolding missing_of template_fields
  missing_keys none values = []
  missing_keys (some t) values = missing_of (template_fields t) values

  unfoldable pub wrap_error : String → String → String
  unfolding concat
  wrap_error name e = concat ("annotation " ∷ E.quote name ∷ ": " ∷ e ∷ [])

  unfoldable pub execute : String → Node → Map String String → Result String String
  unfolding wrap_error
  execute name t values = elim (E.run t values) [ ok s ↦ ok s | err e ↦ err (wrap_error name e) ]

  -- Compiles each template once; one that does not parse is kept as its error.
  unfoldable pub parse_annotations : Map String String → Map String Node × Map String String
  unfolding wrap_error
  parse_annotations [] = ([], [])
  parse_annotations ((name, text) ∷ m) =
      let (parsed, errs) = parse_annotations m in
      elim (E.parse name text) [
        | ok t ↦ (put name t parsed, errs)
        | err e ↦ (parsed, put name (wrap_error name e) errs)
      ]

  -- What one annotation comes to: its text, or the error of its template. A name comes from one of
  -- the two maps, so the last case is never reached.
  unfoldable pub render_one :
      Map String Node → Map String String → Map String String → String → Result String String
  unfolding execute
  render_one annotations parse_errs values name = elim (get name parse_errs) [
    | some e ↦ err e
    | none ↦ elim (get name annotations) [ some t ↦ execute name t values | none ↦ err "" ]
  ]

  render_all :
      Map String Node → Map String String → Map String String → List String → Rendering → Rendering
  unfolding render_one marker missing_keys
  render_all annotations parse_errs values [] r = r
  render_all annotations parse_errs values (name ∷ names) r =
      let missing = missing_keys (get name annotations) values in
      render_all annotations parse_errs values names
        (elim (render_one annotations parse_errs values name) [
          | ok text ↦ record r { out = put name text r.out }
          | err e ↦ record {
            out = put name (marker name missing) r.out;
            errors = r.errors ++ e ∷ [];
            failures =
                r.failures ++ record { annotation = name; error = e; missing_keys = missing } ∷ [];
          }
        ])

  -- The alert's labels and its value, as a template reads them.
  unfoldable pub template_data : Alert → Map String String
  unfolding put_all put
  template_data a = put value_key (E.format_float a.value) (put_all [] a.labels)

  unfoldable pub annotate :
      Map String Node → Map String String → Alert → Map String String × List AnnotationError
  unfolding render_all template_data sort_strings keys_of join
  annotate annotations parse_errs a =
      let names = sort_strings (keys_of annotations ++ keys_of parse_errs) in
      let r =
        render_all annotations parse_errs (template_data a) names
          (record { out = []; errors = []; failures = [] }) in
      if nat_beq (length annotations) 0 && nat_beq (length parse_errs) 0 then ([], []) else (
        if ltb 0 (length r.errors) then put error_annotation (join "; " r.errors) r.out else r.out,
        r.failures,
      )
