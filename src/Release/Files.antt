-- ===== src/Release/Files.antt =====
-- The regular files below a directory, by their relative path, as deploy/github-release/agent.py
-- reads, copies and removes them.
use cloud_billing_console.Prelude.{
  String, ◌≡◌, refl, Option, none, some, List, [], ◌∷◌, arith, str_eq, if◌then◌else◌, str_eq_iff,
  is_some,
}
use cloud_billing_console.Prelude.Texts.{has}

abbrev pub Files : Type 0
Files = List (String × String)

unfoldable pub content : Files → String → Option String
content [] name = none
content ((n, c) ∷ rest) name = if str_eq n name then some c else content rest name

-- target.unlink(missing_ok=True)
unfoldable pub remove : Files → String → Files
remove [] name = []
remove ((n, c) ∷ rest) name = if str_eq n name then remove rest name else (n, c) ∷ remove rest name

-- shutil.copy2(source, target)
unfoldable pub store : Files → String → String → Files
store fs name c = (name, c) ∷ fs

abbrev pub names : Files → List String
names [] = []
names ((n, c) ∷ rest) = n ∷ names rest

pub content-store :
    (fs : Files) (name c : String) (other : String)
    → content (store fs name c) other ≡ (if str_eq name other then some c else content fs other)
unfolding content store
content-store fs name c other = refl

pub content-remove :
    (fs : Files) (name : String) (other : String)
    → content (remove fs name) other ≡ (if str_eq name other then none else content fs other)
unfolding content remove
content-remove [] name other = ground arith
content-remove ((n, c) ∷ rest) name other = ground (
  arith,
  content-remove rest name other,
  str_eq_iff n name,
  str_eq_iff name other,
  str_eq_iff n other,
)

pub content_named : (fs : Files) (name : String) → has (names fs) name ≡ is_some (content fs name)
unfolding content
content_named [] name = refl
content_named ((n, c) ∷ rest) name =
    ground (arith, content_named rest name, str_eq_iff n name, str_eq_iff name n)
