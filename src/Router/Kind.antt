-- ===== src/Router/Kind.antt =====
-- pkg/router/kind.go and pkg/router/executable.go: what an objective asks for, by its keywords.
use Prim.Native.Char.{Char, code}
use veto.Shared.{String, Bool, true, false, ◌&&◌, ◌||◌, List, [], ◌∷◌, leb, nat_eq, if◌then◌else◌}
use veto.Shared.Text.{◌==◌, Unicode, to_lower, includes, contains}
use veto.Router.Types.{
  TaskKind, kind_extract, kind_summarize, kind_code_change, kind_debug, kind_plan, kind_review,
  kind_refactor,
}

-- containsKindAny and containsAny
unfoldable pub contains_any : String → List String → Bool
contains_any value [] = false
contains_any value (candidate ∷ candidates) =
    includes value candidate || contains_any value candidates

-- InferKind
unfoldable pub infer_kind : ⦃u : Unicode⦄ → String → TaskKind
unfolding to_lower contains_any
infer_kind objective =
    let s = to_lower objective in
    if contains_any s ("fix" ∷ "bug" ∷ "debug" ∷ "error" ∷ "crash" ∷ "broken" ∷ "failing" ∷ [])
    then kind_debug
    else if contains_any s
        ("refactor" ∷ "clean up" ∷ "restructure" ∷ "rename" ∷ "extract method" ∷ [])
    then kind_refactor
    else if contains_any s ("summarize" ∷ "summary" ∷ "tl;dr" ∷ "recap" ∷ [])
    then kind_summarize
    else if contains_any s ("extract" ∷ "parse" ∷ "pull out" ∷ "scrape" ∷ [])
    then kind_extract
    else if contains_any s ("review" ∷ "audit" ∷ "critique" ∷ "check" ∷ [])
    then kind_review
    else if contains_any s ("plan" ∷ "design" ∷ "architect" ∷ "propose" ∷ [])
    then kind_plan
    else kind_code_change

is_word_char : Char → Bool
is_word_char c =
    let n = code c in (leb b'a' n && leb n b'z') || (leb b'0' n && leb n b'9') || nat_eq n b'_'

-- strings.FieldsFunc, of the first field and the others: the fields are the runs of word characters.
unfoldable pub fields : String → String × List String
unfolding is_word_char
fields String.[] = ("", [])
fields (String.◌∷◌ c s) =
    let (field, rest) = fields s in
    if is_word_char c
    then (String.◌∷◌ c field, rest)
    else ("", if field == "" then rest else field ∷ rest)

unfoldable pub contains_word : String → String → Bool
unfolding fields contains
contains_word s word =
    let (field, rest) = fields s in contains (if field == "" then rest else field ∷ rest) word

-- RequiresExecutableRuntime
unfoldable pub requires_executable_runtime : ⦃u : Unicode⦄ → String → Bool
unfolding to_lower contains_any contains_word
requires_executable_runtime objective =
    let s = to_lower objective in
    let pr_target =
      contains_any s ("pull request" ∷ "/pull/" ∷ "this pr" ∷ "the pr" ∷ [])
      || contains_word s "pr" in
    let mutation = contains_any s (
      "fix" ∷ "resolve" ∷ "address" ∷ "implement" ∷ "modify" ∷ "edit" ∷ "update" ∷ "change"
      ∷ "refactor" ∷ "push" ∷ []) in
    if contains_any s (
      "git push" ∷ "commit and push" ∷ "push when" ∷ "push once" ∷ "modify the repository"
      ∷ "edit the repository" ∷ "update the repository" ∷ "modify the repo" ∷ "edit the repo"
      ∷ "commit the changes" ∷ "commit changes" ∷ "commit change" ∷ "commit this" ∷ "commit these"
      ∷ "commit my" ∷ [])
    then true
    else pr_target && mutation
