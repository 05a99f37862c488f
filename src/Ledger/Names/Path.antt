-- ===== src/Ledger/Names/Path.antt =====
-- The path of an account name and the name of a path are inverse to one another.
use Prim.Native.Char.{Char, code}
use text.Mathlib.TextEquality.{Char-path}
use text.Mathlib.TextLemmas.{nil-append, cons-append}
use backend_showcase.Prelude.{
  String, true, List, [], ◌∷◌, ◌≡◌, ◌≢◌, refl, sym, ◌∙◌, ap, arith, ◌==◌, inl, inr, Bool-cases,
  ◌+s◌, All,
}
use backend_showcase.Ledger.Names.{resolve_account_name, get_path_from_full_name, on_first}

resolve-nil_cons :
    (path : List String)
    → path ≢ []
    → resolve_account_name ("" ∷ path) ≡ ":" +s resolve_account_name path
unfolding resolve_account_name
resolve-nil_cons [] h = absurd (h refl)
resolve-nil_cons (next ∷ path) h = nil-append _

resolve-on_first :
    (c : Char) (path : List String)
    → path ≢ []
    → resolve_account_name (on_first (String.◌∷◌ c) path) ≡ String.◌∷◌ c (resolve_account_name path)
unfolding resolve_account_name
resolve-on_first c [] h = absurd (h refl)
resolve-on_first c (name ∷ []) h = refl
resolve-on_first c (name ∷ next ∷ path) h = cons-append c name _

path-ne-nil : (s : String) → get_path_from_full_name s ≢ []
unfolding get_path_from_full_name
path-ne-nil String.[] = λ e. cc
path-ne-nil (String.◌∷◌ c s) = λ e. ground (arith, path-ne-nil s)

colon_of_code : (c : Char) → (code c == b':') ≡ true → c ≡ ":"
colon_of_code c e = Char-path c ":" (ground arith)

resolve-colon :
    (c : Char) (s : String) {t : String}
    → (code c == b':') ≡ true
    → t ≡ s
    → ":" +s t ≡ String.◌∷◌ c s
resolve-colon c s e h =
    rw (h, cons-append, nil-append) (ap (λ d. String.◌∷◌ d s) (sym (colon_of_code c e)))

-- The name of the path of a name is the name.
pub resolve-get_path : (s : String) → resolve_account_name (get_path_from_full_name s) ≡ s
unfolding resolve_account_name get_path_from_full_name
resolve-get_path String.[] = refl
resolve-get_path (String.◌∷◌ c s) = elim (Bool-cases (code c == b':')) [
  | inl e ↦ rw e (
      resolve-nil_cons (get_path_from_full_name s) (path-ne-nil s)
      ∙ resolve-colon c s e (resolve-get_path s))
  | inr e ↦ rw e (
      resolve-on_first c (get_path_from_full_name s) (path-ne-nil s)
      ∙ ap (String.◌∷◌ c) (resolve-get_path s))
]

-- A segment of a name: no colon in it.
abbrev pub IsSegment : String → Type 0
IsSegment String.[] = Unit
IsSegment (String.◌∷◌ c s) = (code c ≢ b':') × IsSegment s

get_path-append :
    (name s : String)
    → IsSegment name
    → get_path_from_full_name (name +s ":" +s s) ≡ name ∷ get_path_from_full_name s
unfolding get_path_from_full_name
get_path-append String.[] s h = rw (nil-append, cons-append, nil-append)
get_path-append (String.◌∷◌ c name) s (ne, h) =
    rw cons-append (ground (arith, get_path-append name s h))

get_path_of_segment : (name : String) → IsSegment name → get_path_from_full_name name ≡ name ∷ []
unfolding get_path_from_full_name
get_path_of_segment String.[] h = refl
get_path_of_segment (String.◌∷◌ c name) (ne, h) = ground (arith, get_path_of_segment name h)

-- The path of the name of a path is the path, if it has a segment and no segment holds a colon.
pub get_path-resolve :
    (path : List String)
    → path ≢ []
    → All IsSegment path
    → get_path_from_full_name (resolve_account_name path) ≡ path
unfolding resolve_account_name
get_path-resolve [] h k = absurd (h refl)
get_path-resolve (name ∷ []) h (k, _) = get_path_of_segment name k
get_path-resolve (name ∷ next ∷ path) h (k, ks) =
    get_path-append name (resolve_account_name (next ∷ path)) k
    ∙ ap (λ p. name ∷ p) (get_path-resolve (next ∷ path) (λ e. cc) ks)
